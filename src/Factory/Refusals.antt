-- ===== src/Factory/Refusals.antt =====
-- What `normalize_params` of
-- account-factory/contracts/factory-contract/src/lib.rs accepts, and how it refuses the rest.
use mathlib.Core.Option.{some-injective}
use mathlib.Core.List.{Memᴰ}
use mathlib.Core.List.Memᴰ
use latch_contracts.Base.{
  ℕ, ◌≤◌, ◌<◌, ◌≡◌, ◌⊎◌, ◌↔◌, refl, sym, subst, false, Option, none, some, List, [], ◌∷◌, arith,
  length, ◌==◌, All, ℕ_discrete,
}
use latch_contracts.Soroban.{Address, Bytes, Outcome, ok, panic, trap, ◌>>=◌}
use latch_contracts.Factory.{
  SignerKind, delegated_init, external_init, AccountSignerInit, Order, FactoryError, no_signers,
  duplicate_signer, invalid_ed25519_key, invalid_webauthn_key, missing_threshold, invalid_threshold,
  AccountInitParams, NormalizedParams, canonicalize_signers, effective_threshold, normalize_params,
}
use latch_contracts.Factory.Shapes.{IsKey, IsSigner, HasBadKey, Repeats}
use latch_contracts.Factory.Listing.{Refused, Ends, canonicalize_signers-Refused}
use latch_contracts.Factory.Create.{perm-length}
use latch_contracts.Factory.Canonical.{canonicalize_signers-IsCanonical}

-- A threshold that `n` signers can have: between one and all of them, and only a single one may leave
-- it out.
abbrev pub Fits : ℕ → Option ℕ → Type 0
Fits n none = n ≡ 1
Fits n (some t) = (1 ≤ t) × (t ≤ n)

-- Parameters that make an account.
pub record IsAcceptable (params : AccountInitParams) : Type 0 where
  pub shapes : All IsSigner params.signers
  pub distinct : ¬ Repeats params.signers
  pub threshold : Fits (length params.signers) params.threshold

-- How reading the parameters may end.
abbrev pub Read : AccountInitParams → Outcome FactoryError NormalizedParams → Type 0
Read params (ok n) = IsAcceptable params
Read params (panic no_signers) = length params.signers ≡ 0
Read params (panic missing_threshold) = (params.threshold ≡ none) × (1 < length params.signers)
Read params (panic invalid_threshold) =
    (t : ℕ) × (params.threshold ≡ some t) × ((t ≡ 0) ⊎ (length params.signers < t))
Read params (panic e) = Refused (Repeats params.signers) params.signers e
Read params trap = ⊥

abbrev Thresholded : ℕ → Option ℕ → Outcome FactoryError ℕ → Type 0
Thresholded n given (ok _) = Fits n given
Thresholded n given (panic missing_threshold) = (given ≡ none) × (1 < n)
Thresholded n given (panic invalid_threshold) = (t : ℕ) × (given ≡ some t) × ((t ≡ 0) ⊎ (n < t))
Thresholded n given (panic _) = ⊥
Thresholded n given trap = ⊥

effective_threshold-Thresholded :
    (n : ℕ) (given : Option ℕ) → 1 ≤ n → Thresholded n given (effective_threshold n given)
unfolding effective_threshold
effective_threshold-Thresholded n none h = ground arith
effective_threshold-Thresholded n (some t) h = ground arith

Fits-unrefused :
    (n : ℕ) (given : Option ℕ)
    → Fits n given
    → (1 ≤ n) × (¬ ((given ≡ none) × (1 < n))) × ((t : ℕ) → given ≡ some t → ¬ ((t ≡ 0) ⊎ (n < t)))
Fits-unrefused n none h = (omega arith, λ m. omega (arith, m.1), λ t e. absurd (cc))
Fits-unrefused n (some u) h = (
  omega (arith, h),
  λ m. absurd (ground (arith, m.0)),
  λ t e bad. ground (arith, some-injective u t e),
)

no_bad_key :
    (k : SignerKind) (s : AccountSignerInit) (xs : List AccountSignerInit)
    → All IsSigner xs
    → Memᴰ s xs
    → ¬ HasBadKey k s
no_bad_key k s [] all m bad = Memᴰ.not-nil m
no_bad_key k (delegated_init a) (x ∷ xs) all m bad = bad
no_bad_key k (external_init e) (x ∷ xs) all (Memᴰ.head same) bad =
    bad.1 (subst (λ kind. IsKey kind e.key_data) bad.0 (subst IsSigner (sym same) all.0))
no_bad_key k s (x ∷ xs) all (Memᴰ.tail m) bad = no_bad_key k s xs all.1 m bad

module _ (oa : Order Address) (ob : Order Bytes) where
  -- Reading the parameters succeeds only on acceptable ones; otherwise it panics, with an error that
  -- says what is wrong: no signers, a signer with a key that is not one of its kind, a signer that is
  -- given twice, a missing threshold for several signers, or one that is zero or exceeds their number.
  -- It never traps.
  pub normalize_params-Read :
      (params : AccountInitParams) → Read params (normalize_params oa ob params)
  unfolding normalize_params
  normalize_params-Read params = elim (ℕ_discrete (length params.signers) 0) [
    | yes empty ↦ rw empty empty
    | no given ↦
        let some_given : (length params.signers == 0) ≡ false = ground arith in
        rw some_given
          (listed (omega arith) _ refl (canonicalize_signers-Refused oa ob params.signers))
  ]
    where
      resolved :
          (cs : List AccountSignerInit)
          → All IsSigner params.signers
          → ¬ Repeats params.signers
          → (o : Outcome FactoryError ℕ) → Thresholded (length params.signers) params.threshold o
          → Read params (
              o >>= λ t. ok (record {
                signers = cs;
                effective_threshold = t;
                account_salt = params.account_salt;
              }))
      resolved cs shapes distinct (ok t) h = record {
        shapes = shapes;
        distinct = distinct;
        threshold = h;
      }
      resolved cs shapes distinct (panic missing_threshold) h = h
      resolved cs shapes distinct (panic invalid_threshold) h = h
      resolved cs shapes distinct (panic e) h = ground arith
      resolved cs shapes distinct trap h = absurd h

      listed :
          1 ≤ length params.signers
          → (o : Outcome FactoryError (List AccountSignerInit))
          → canonicalize_signers oa ob params.signers ≡ o
          → Ends params.signers o
          → Read params (
              o >>= λ cs. effective_threshold (length cs) params.threshold >>= λ t. ok (record {
                signers = cs;
                effective_threshold = t;
                account_salt = params.account_salt;
              }))
      listed some_given (ok cs) e h =
          let count = perm-length (canonicalize_signers-IsCanonical oa ob params.signers cs e).2 in
          resolved cs h.0 h.1 _ (
            rw count
              (effective_threshold-Thresholded (length params.signers) params.threshold some_given))
      listed some_given (panic duplicate_signer) e h = h
      listed some_given (panic invalid_ed25519_key) e h = h
      listed some_given (panic invalid_webauthn_key) e h = h
      listed some_given (panic x) e h = ground arith
      listed some_given trap e h = absurd h

  -- `normalize_params` accepts parameters exactly if every external signer has a key of its kind, no
  -- signer is given twice, and the threshold lies between one and the number of signers, or is missing
  -- for a single signer.
  pub normalize_params-IsAcceptable :
      (params : AccountInitParams)
      → ((n : NormalizedParams) × (normalize_params oa ob params ≡ ok n)) ↔ IsAcceptable params
  normalize_params-IsAcceptable params = (
    λ h. subst (Read params) h.1 (normalize_params-Read params),
    λ good. accepted good _ (normalize_params-Read params),
  )
    where
      accepted :
          IsAcceptable params
          → (o : Outcome FactoryError NormalizedParams) → Read params o
          → (n : NormalizedParams) × (o ≡ ok n)
      accepted good (ok n) h = (n, refl)
      accepted good (panic no_signers) h =
          absurd (omega (arith, (Fits-unrefused _ _ good.threshold).0, h))
      accepted good (panic missing_threshold) h = absurd ((Fits-unrefused _ _ good.threshold).1 h)
      accepted good (panic invalid_threshold) h =
          absurd ((Fits-unrefused _ _ good.threshold).2 h.0 h.1 h.2)
      accepted good (panic duplicate_signer) h = absurd (good.distinct h)
      accepted good (panic invalid_ed25519_key) h = absurd (no_bad_key _ h.0 _ good.shapes h.1 h.2)
      accepted good (panic invalid_webauthn_key) h = absurd (no_bad_key _ h.0 _ good.shapes h.1 h.2)
      accepted good (panic x) h = ground arith
      accepted good trap h = absurd h

-- ===== src/Factory/Shapes.antt =====
-- The checks that `canonicalize_signers` of account-factory/contracts/factory-contract/src/lib.rs makes:
-- the shape of each signer, and that none is given twice.

use mathlib.Core.List.{Memᴰ}
use mathlib.Core.List.Memᴰ
use latch_contracts.Base.{
  ◌<◌, ◌≡◌, ◌⊎◌, ◌↔◌, sym, subst, List, [], ◌∷◌, arith, length, inl, inr, All, Ordering-cases,
}
use latch_contracts.Soroban.{Address, Bytes, Outcome, ok, panic, trap, ◌>>=◌}
use latch_contracts.Factory.{
  SignerKind, ed25519, web_authn, AccountSignerInit, delegated_init, external_init, Order,
  FactoryError, duplicate_signer, invalid_ed25519_key, invalid_webauthn_key, first_or_zero,
  compare_signers, validate_signer_shape, insert_signer,
}
use latch_contracts.Factory.Signers.{signer_order}
use latch_contracts.Factory.Insert.{Before, Before-All, IsCanonical}

-- A key of each kind: 32 bytes for Ed25519; for WebAuthn an uncompressed point of 65 bytes, which
-- starts with 4, and a credential id of one byte at least.
abbrev pub IsKey : SignerKind → Bytes → Type 0
IsKey ed25519 key_data = length key_data ≡ 32
IsKey web_authn key_data = (65 < length key_data) × (first_or_zero key_data ≡ 0x04)

abbrev pub IsSigner : AccountSignerInit → Type 0
IsSigner (delegated_init _) = Unit
IsSigner (external_init e) = IsKey e.signer_kind e.key_data

-- An external signer of a kind with a key that is none of that kind.
abbrev pub HasBadKey : SignerKind → AccountSignerInit → Type 0
HasBadKey kind (delegated_init _) = ⊥
HasBadKey kind (external_init e) = (e.signer_kind ≡ kind) × ¬ IsKey kind e.key_data

-- Some signer is given again later on.
abbrev pub Repeats : List AccountSignerInit → Type 0
Repeats [] = ⊥
Repeats (s ∷ ss) = Memᴰ s ss ⊎ Repeats ss

abbrev pub Checked : AccountSignerInit → Outcome FactoryError (Unit {0}) → Type 0
Checked s (ok _) = IsSigner s
Checked s (panic invalid_ed25519_key) = HasBadKey ed25519 s
Checked s (panic invalid_webauthn_key) = HasBadKey web_authn s
Checked s (panic _) = ⊥
Checked s trap = ⊥

pub validate_signer_shape-Checked : (s : AccountSignerInit) → Checked s (validate_signer_shape s)
unfolding validate_signer_shape
validate_signer_shape-Checked (delegated_init a) = tt
validate_signer_shape-Checked (external_init e) = ground arith

module _ (oa : Order Address) (ob : Order Bytes) where
  -- How inserting `s` into a canonical list may end.
  abbrev pub Placed :
      List AccountSignerInit
      → AccountSignerInit
      → Outcome FactoryError (List AccountSignerInit)
      → Type 0
  Placed es s (ok r) = (¬ Memᴰ s es) × ((t : AccountSignerInit) → Memᴰ t r ↔ ((t ≡ s) ⊎ Memᴰ t es))
  Placed es s (panic duplicate_signer) = Memᴰ s es
  Placed es s (panic _) = ⊥
  Placed es s trap = ⊥

  irreflexive : (s : AccountSignerInit) → ¬ Before oa ob s s
  irreflexive s lt = ground (arith, (signer_order oa ob).cmp_refl s)

  -- A signer that comes before every member of a list is none of them.
  not_among_later :
      (s : AccountSignerInit) (es : List AccountSignerInit) → All (Before oa ob s) es → ¬ Memᴰ s es
  not_among_later s [] all m = absurd (Memᴰ.not-nil m)
  not_among_later s (e ∷ es) all (Memᴰ.head same) =
      irreflexive s (subst (Before oa ob s) (sym same) all.0)
  not_among_later s (e ∷ es) all (Memᴰ.tail m) = not_among_later s es all.1 m

  Memᴰ-cons :
      (t e : AccountSignerInit) (es : List AccountSignerInit)
      → Memᴰ t (e ∷ es) ↔ ((t ≡ e) ⊎ Memᴰ t es)
  Memᴰ-cons t e es =
      (Memᴰ.cases_cons, λ c. elim c [ inl same ↦ Memᴰ.head same | inr m ↦ Memᴰ.tail m ])

  pub insert_signer-Placed :
      (es : List AccountSignerInit) (s : AccountSignerInit)
      → IsCanonical oa ob es
      → Placed es s (insert_signer oa ob es s)
  unfolding insert_signer
  insert_signer-Placed [] s c = (Memᴰ.not-nil, λ t. Memᴰ-cons t s [])
  insert_signer-Placed (e ∷ es) s c = elim (Ordering-cases (compare_signers oa ob e s)) [
    | inl lt ↦ rw (lt, insert_signer) (behind lt _ (insert_signer-Placed es s c.1))
    | inr (inl eq) ↦
        rw (eq, insert_signer) (Memᴰ.head (sym ((signer_order oa ob).eq_of_cmp e s eq)))
    | inr (inr gt) ↦
        let first = (signer_order oa ob).cmp_gt_lt e s gt in
        rw (gt, insert_signer)
          (
            not_among_later s (e ∷ es) (first, Before-All oa ob s e es first c.0),
            λ t. Memᴰ-cons t s (e ∷ es),
          )
  ]
    where
      behind :
          Before oa ob e s
          → (o : Outcome FactoryError (List AccountSignerInit)) → Placed es s o
          → Placed (e ∷ es) s (o >>= λ rest'. ok (e ∷ rest'))
      behind lt (ok r) p = (
        λ m. elim (Memᴰ.cases_cons m) [
          | inl same ↦ irreflexive e (subst (Before oa ob e) same lt)
          | inr m' ↦ p.0 m'
        ],
        λ t. ground (arith, p.1 t, Memᴰ-cons t e es, Memᴰ-cons t e r),
      )
      behind lt (panic duplicate_signer) p = Memᴰ.tail p
      behind lt (panic x) p = ground arith
      behind lt trap p = p

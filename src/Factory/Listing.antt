-- ===== src/Factory/Listing.antt =====
-- How `canonicalize_signers` of account-factory/contracts/factory-contract/src/lib.rs may end: its loop
-- over the signers refuses the first one with a bad key or that is there already.

use mathlib.Core.List.{Memᴰ}
use mathlib.Core.List.Memᴰ
use latch_contracts.Base.{◌≡◌, ◌⊎◌, ◌↔◌, refl, subst, List, [], ◌∷◌, arith, inl, inr, All}
use latch_contracts.Soroban.{Address, Bytes, Outcome, ok, panic, trap, ◌>>=◌, ◌>>◌}
use latch_contracts.Factory.{
  ed25519, web_authn, AccountSignerInit, Order, FactoryError, duplicate_signer, invalid_ed25519_key,
  invalid_webauthn_key, insert_signer, canonicalize_from, canonicalize_signers,
}
use latch_contracts.Factory.Insert.{IsCanonical, insert-IsCanonical}
use latch_contracts.Factory.Shapes.{
  IsSigner, HasBadKey, Repeats, Checked, validate_signer_shape-Checked, Placed,
  insert_signer-Placed,
}

-- Why a list of signers is refused; `Again` says that one is there already.
abbrev pub Refused : Type 0 → List AccountSignerInit → FactoryError → Type 0
Refused Again xs duplicate_signer = Again
Refused Again xs invalid_ed25519_key = (s : AccountSignerInit) × Memᴰ s xs × HasBadKey ed25519 s
Refused Again xs invalid_webauthn_key = (s : AccountSignerInit) × Memᴰ s xs × HasBadKey web_authn s
Refused Again xs _ = ⊥

-- How reading a list of signers may end: all have the shape of their kind and none is given twice, or
-- the error says what is wrong.
abbrev pub Ends : List AccountSignerInit → Outcome FactoryError (List AccountSignerInit) → Type 0
Ends xs (ok _) = All IsSigner xs × ¬ Repeats xs
Ends xs (panic e) = Refused (Repeats xs) xs e
Ends xs trap = ⊥

-- One of the signers is in the canonical list already, or comes twice.
abbrev Clashes : List AccountSignerInit → List AccountSignerInit → Type 0
Clashes can xs = ((s : AccountSignerInit) × Memᴰ s xs × Memᴰ s can) ⊎ Repeats xs

-- How the loop may end, with `can` inserted so far.
abbrev Listed :
    List AccountSignerInit
    → List AccountSignerInit
    → Outcome FactoryError (List AccountSignerInit)
    → Type 0
Listed can xs (ok c) = All IsSigner xs × ¬ Clashes can xs
Listed can xs (panic e) = Refused (Clashes can xs) xs e
Listed can xs trap = ⊥

module _ (oa : Order Address) (ob : Order Bytes) where
  -- Inserting the first signer moves it from the ones to come to the ones inserted.
  moved_over :
      (can can' : List AccountSignerInit) (x : AccountSignerInit) (xs : List AccountSignerInit)
      → Placed oa ob can x (ok can')
      → Clashes can' xs ↔ Clashes can (x ∷ xs)
  moved_over can can' x xs p = (
    λ h. elim h [
      | inl (s, m, there) ↦ elim ((p.1 s).0 there) [
        | inl same ↦ inr (inl (subst (λ y. Memᴰ y xs) same m))
        | inr before ↦ inl (s, Memᴰ.tail m, before)
      ]
      | inr again ↦ inr (inr again)
    ],
    λ h. elim h [
      | inl (s, m, there) ↦ elim (Memᴰ.cases_cons m) [
        | inl same ↦ absurd (p.0 (subst (λ y. Memᴰ y can) same there))
        | inr m' ↦ inl (s, m', (p.1 s).1 (inr there))
      ]
      | inr (inl m) ↦ inl (x, m, (p.1 x).1 (inl refl))
      | inr (inr again) ↦ inr again
    ],
  )

  later :
      (can can' : List AccountSignerInit) (x : AccountSignerInit) (xs : List AccountSignerInit)
      → IsSigner x
      → Placed oa ob can x (ok can')
      → (o : Outcome FactoryError (List AccountSignerInit)) → Listed can' xs o
      → Listed can (x ∷ xs) o
  later can can' x xs shape p (ok c) h =
      ((shape, h.0), λ again. h.1 ((moved_over can can' x xs p).1 again))
  later can can' x xs shape p (panic duplicate_signer) h = (moved_over can can' x xs p).0 h
  later can can' x xs shape p (panic invalid_ed25519_key) (s, m, bad) = (s, Memᴰ.tail m, bad)
  later can can' x xs shape p (panic invalid_webauthn_key) (s, m, bad) = (s, Memᴰ.tail m, bad)
  later can can' x xs shape p (panic e) h = ground arith
  later can can' x xs shape p trap h = absurd h

  abbrev Rest : List AccountSignerInit → Type 0
  Rest xs =
      (can : List AccountSignerInit)
      → IsCanonical oa ob can
      → Listed can xs (canonicalize_from oa ob can xs)

  canonicalize_from-Listed :
      (can xs : List AccountSignerInit)
      → IsCanonical oa ob can
      → Listed can xs (canonicalize_from oa ob can xs)
  unfolding canonicalize_from
  canonicalize_from-Listed can [] c =
      (tt, λ h. elim h [ inl (s, m, _) ↦ Memᴰ.not-nil m | inr again ↦ again ])
  canonicalize_from-Listed can (x ∷ xs) c =
      checked (λ can' c'. canonicalize_from-Listed can' xs c') _ (validate_signer_shape-Checked x)
    where
      placed :
          Rest xs
          → IsSigner x
          → (o : Outcome FactoryError (List AccountSignerInit)) → insert_signer oa ob can x ≡ o
          → Placed oa ob can x o
          → Listed can (x ∷ xs) (o >>= λ can'. canonicalize_from oa ob can' xs)
      placed rest shape (ok can') e p =
          later can can' x xs shape p _ (rest can' (insert-IsCanonical oa ob can x can' e c))
      placed rest shape (panic duplicate_signer) e p = inl (x, Memᴰ.head refl, p)
      placed rest shape (panic y) e p = ground arith
      placed rest shape trap e p = p

      checked :
          Rest xs
          → (o : Outcome FactoryError (Unit {0})) → Checked x o
          → Listed can
              (x ∷ xs)
              (o >> (insert_signer oa ob can x >>= λ can'. canonicalize_from oa ob can' xs))
      checked rest (ok _) shape = placed rest shape _ refl (insert_signer-Placed oa ob can x c)
      checked rest (panic invalid_ed25519_key) bad = (x, Memᴰ.head refl, bad)
      checked rest (panic invalid_webauthn_key) bad = (x, Memᴰ.head refl, bad)
      checked rest (panic y) bad = ground arith
      checked rest trap bad = bad

  -- How `canonicalize_signers` may end.
  pub canonicalize_signers-Refused :
      (xs : List AccountSignerInit) → Ends xs (canonicalize_signers oa ob xs)
  unfolding canonicalize_signers
  canonicalize_signers-Refused xs = ends _ (canonicalize_from-Listed [] xs tt)
    where
      found : Clashes [] xs → Repeats xs
      found (inl (s, _, m)) = absurd (Memᴰ.not-nil m)
      found (inr again) = again

      ends : (o : Outcome FactoryError (List AccountSignerInit)) → Listed [] xs o → Ends xs o
      ends (ok c) h = (h.0, λ again. h.1 (inr again))
      ends (panic duplicate_signer) h = found h
      ends (panic invalid_ed25519_key) h = h
      ends (panic invalid_webauthn_key) h = h
      ends (panic e) h = ground arith
      ends trap h = h

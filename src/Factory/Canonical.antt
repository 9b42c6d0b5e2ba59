-- ===== src/Factory/Canonical.antt =====
-- The result of `canonicalize_signers` of account-factory/contracts/factory-contract/src/lib.rs is sorted
-- and holds the same signers.

use mathlib.Core.List.{Perm, perm_middle, append-nil}
use mathlib.Core.List.Perm
use latch_contracts.Base.{◌≡◌, subst, List, [], ◌∷◌, ◌++◌, All}
use latch_contracts.Soroban.{Address, Bytes, ok, ok-injective}
use latch_contracts.Factory.{
  AccountSignerInit, Order, validate_signer_shape, canonicalize_from, canonicalize_signers,
}
use latch_contracts.Factory.Insert.{
  IsCanonical, insert-All, insert-perm, insert-IsCanonical, from-cons,
}

module _ (oa : Order Address) (ob : Order Bytes) where
  abbrev pub HasShape : AccountSignerInit → Type 0
  HasShape s = validate_signer_shape s ≡ ok tt

  from_sound :
      (can xs c : List AccountSignerInit)
      → canonicalize_from oa ob can xs ≡ ok c
      → IsCanonical oa ob can
      → All HasShape can
      → IsCanonical oa ob c × All HasShape c × Perm c (can ++ xs)
  unfolding canonicalize_from
  from_sound can [] c h sorted shapes =
      subst (λ c. IsCanonical oa ob c × All HasShape c × Perm c (can ++ [])) (ok-injective h)
        (sorted, shapes, rw append-nil (Perm.refl can))
  from_sound can (x ∷ xs) c h sorted shapes =
      let (v, can', i, r) = from-cons oa ob can x xs c h in
      let rest =
        from_sound can' xs c r (insert-IsCanonical oa ob can x can' i sorted)
          (insert-All oa ob HasShape can x can' i v shapes) in
      (
        rest.0,
        rest.1,
        Perm.trans rest.2 (
            Perm.trans (Perm.append_right xs (insert-perm oa ob can x can' i))
              (Perm.symm (perm_middle can xs))),
      )

  -- What is accepted is canonical: every signer has a valid shape, each comes strictly before all later
  -- ones (so no two are equal), and they are the signers that were given, in another order.
  pub canonicalize_signers-IsCanonical :
      (xs c : List AccountSignerInit)
      → canonicalize_signers oa ob xs ≡ ok c
      → IsCanonical oa ob c × All HasShape c × Perm c xs
  unfolding canonicalize_signers
  canonicalize_signers-IsCanonical xs c h = from_sound [] xs c h tt tt

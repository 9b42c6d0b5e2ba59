-- ===== src/Factory/Insert.antt =====
-- One round of `canonicalize_signers` of account-factory/contracts/factory-contract/src/lib.rs: where a
-- signer is inserted, and what the list keeps.
use Prim.Native.Nat.{Ordering}
use mathlib.Core.List.{Perm}
use mathlib.Core.List.Perm
use latch_contracts.Base.{Ordering-cases, ◌≡◌, sym, subst, inl, inr, List, [], ◌∷◌, arith, All}
use latch_contracts.Soroban.{Address, Bytes, ok, >>=-eq-ok, ok-injective}
use latch_contracts.Factory.{
  AccountSignerInit, Order, compare_signers, validate_signer_shape, insert_signer,
  canonicalize_from,
}
use latch_contracts.Factory.Signers.{signer_order}

module _ (oa : Order Address) (ob : Order Bytes) where
  abbrev pub Before : AccountSignerInit → AccountSignerInit → Type 0
  Before s t = compare_signers oa ob s t ≡ Ordering.lt

  -- Each signer comes strictly before all later ones.
  abbrev pub IsCanonical : List AccountSignerInit → Type 0
  IsCanonical [] = Unit
  IsCanonical (s ∷ ts) = All (Before s) ts × IsCanonical ts

  -- One round of the loop, by the comparison with the first signer.
  pub data Inserted (e : AccountSignerInit) (es : List AccountSignerInit) (s : AccountSignerInit)
      (r : List AccountSignerInit) : Type 0 where
    here : Before s e → r ≡ s ∷ e ∷ es → Inserted e es s r
    further :
        (r' : List AccountSignerInit)
        → Before e s
        → insert_signer oa ob es s ≡ ok r'
        → r ≡ e ∷ r'
        → Inserted e es s r

  pub insert-Inserted :
      (e : AccountSignerInit) (es : List AccountSignerInit) (s : AccountSignerInit)
      (r : List AccountSignerInit)
      → insert_signer oa ob (e ∷ es) s ≡ ok r
      → Inserted e es s r
  unfolding insert_signer
  insert-Inserted e es s r h = elim (Ordering-cases (compare_signers oa ob e s)) [
    | inl lt ↦
        let (r', e1, e2) = >>=-eq-ok (insert_signer oa ob es s) _ (rw (lt, insert_signer) at h) in
        further r' lt e1 (sym (ok-injective e2))
    | inr (inl eq) ↦ absurd (ground arith)
    | inr (inr gt) ↦
        here ((signer_order oa ob).cmp_gt_lt e s gt)
          (sym (ok-injective (rw (gt, insert_signer) at h)))
  ]

  pub Before-head :
      (e : AccountSignerInit) (es : List AccountSignerInit) (s : AccountSignerInit)
      → Before s e
      → insert_signer oa ob (e ∷ es) s ≡ ok (s ∷ e ∷ es)
  unfolding insert_signer
  Before-head e es s lt = rw ((signer_order oa ob).cmp_lt_gt s e lt, insert_signer)

  pub after_head :
      (e : AccountSignerInit) (es : List AccountSignerInit) (s : AccountSignerInit)
      (r : List AccountSignerInit)
      → Before e s
      → insert_signer oa ob es s ≡ ok r
      → insert_signer oa ob (e ∷ es) s ≡ ok (e ∷ r)
  unfolding insert_signer
  after_head e es s r lt h = rw (lt, insert_signer) (rw h)

  pub insert-perm :
      (es : List AccountSignerInit) (s : AccountSignerInit) (r : List AccountSignerInit)
      → insert_signer oa ob es s ≡ ok r
      → Perm r (s ∷ es)
  unfolding insert_signer
  insert-perm [] s r h = subst (λ r. Perm r (s ∷ [])) (ok-injective h) (Perm.refl (s ∷ []))
  insert-perm (e ∷ es) s r h = elim (insert-Inserted e es s r h) [
    | here lt eq ↦ subst (λ r. Perm r (s ∷ e ∷ es)) (sym eq) (Perm.refl (s ∷ e ∷ es))
    | further r' lt h' eq ↦
        subst (λ r. Perm r (s ∷ e ∷ es)) (sym eq)
          (Perm.trans (Perm.cons e (insert-perm es s r' h')) (Perm.swap s e es))
  ]

  pub insert-All :
      (P : AccountSignerInit → Type 0) (es : List AccountSignerInit) (s : AccountSignerInit)
      (r : List AccountSignerInit)
      → insert_signer oa ob es s ≡ ok r
      → P s
      → All P es
      → All P r
  unfolding insert_signer
  insert-All P [] s r h ps all = subst (All P) (ok-injective h) (ps, tt)
  insert-All P (e ∷ es) s r h ps all = elim (insert-Inserted e es s r h) [
    | here lt eq ↦ subst (All P) (sym eq) (ps, all)
    | further r' lt h' eq ↦ subst (All P) (sym eq) (all.0, insert-All P es s r' h' ps all.1)
  ]

  pub Before-All :
      (s e : AccountSignerInit) (es : List AccountSignerInit)
      → Before s e
      → All (Before e) es
      → All (Before s) es
  Before-All s e [] h all = tt
  Before-All s e (x ∷ es) h all =
      ((signer_order oa ob).cmp_trans s e x h all.0, Before-All s e es h all.1)

  pub insert-IsCanonical :
      (es : List AccountSignerInit) (s : AccountSignerInit) (r : List AccountSignerInit)
      → insert_signer oa ob es s ≡ ok r
      → IsCanonical es
      → IsCanonical r
  unfolding insert_signer
  insert-IsCanonical [] s r h c = subst IsCanonical (ok-injective h) (tt, tt)
  insert-IsCanonical (e ∷ es) s r h c = elim (insert-Inserted e es s r h) [
    | here lt eq ↦ subst IsCanonical (sym eq) ((lt, Before-All s e es lt c.0), c)
    | further r' lt h' eq ↦
        subst IsCanonical (sym eq)
          (insert-All (Before e) es s r' h' lt c.0, insert-IsCanonical es s r' h' c.1)
  ]

  -- The loop over all signers.
  pub from-cons :
      (can : List AccountSignerInit) (s : AccountSignerInit) (ss c : List AccountSignerInit)
      → canonicalize_from oa ob can (s ∷ ss) ≡ ok c
      → (validate_signer_shape s ≡ ok tt)
        × (can' : List AccountSignerInit) × (insert_signer oa ob can s ≡ ok can')
        × (canonicalize_from oa ob can' ss ≡ ok c)
  unfolding canonicalize_from
  from-cons can s ss c h =
      let (_, e1, r1) = >>=-eq-ok (validate_signer_shape s) _ h in
      let (can', e2, r2) = >>=-eq-ok (insert_signer oa ob can s) _ r1 in (e1, can', e2, r2)

  pub cons-from :
      (can : List AccountSignerInit) (s : AccountSignerInit) (ss can' : List AccountSignerInit)
      → validate_signer_shape s ≡ ok tt
      → insert_signer oa ob can s ≡ ok can'
      → canonicalize_from oa ob can (s ∷ ss) ≡ canonicalize_from oa ob can' ss
  unfolding canonicalize_from
  cons-from can s ss can' e h = rw (e, h)

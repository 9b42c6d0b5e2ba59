-- ===== src/Factory/Reorder.antt =====
-- `canonicalize_signers` of account-factory/contracts/factory-contract/src/lib.rs does not depend on the
-- order in which the signers are given.

use mathlib.Core.List.{Perm, Permᴰ}
use mathlib.Core.Logic.{∥∥₁_elim}
use latch_contracts.Base.{◌≡◌, refl, sym, ap, subst, ◌∙◌, List, [], ◌∷◌}
use latch_contracts.Soroban.{Address, Bytes, Outcome, ok, ok-injective}
use latch_contracts.Factory.{
  AccountSignerInit, FactoryError, Order, validate_signer_shape, insert_signer, canonicalize_from,
  canonicalize_signers,
}
use latch_contracts.Factory.Signers.{signer_order}
use latch_contracts.Factory.Insert.{
  Before, Inserted, insert-Inserted, Before-head, after_head, from-cons, cons-from, here, further,
}

module _ (oa : Order Address) (ob : Order Bytes) where
  -- The same signers inserted in the other order.
  abbrev Swapped :
      List AccountSignerInit
      → AccountSignerInit
      → AccountSignerInit
      → List AccountSignerInit
      → Type 0
  Swapped es x y c =
      (b : List AccountSignerInit) × (insert_signer oa ob es y ≡ ok b)
      × (insert_signer oa ob b x ≡ ok c)

  Before-Inserted :
      (e : AccountSignerInit) (es : List AccountSignerInit) (x y : AccountSignerInit)
      (r : List AccountSignerInit)
      → Before oa ob x e
      → Before oa ob x y
      → Inserted oa ob e es y r
      → insert_signer oa ob r x ≡ ok (x ∷ r)
  Before-Inserted e es x y r lt lt' (here _ eq) = rw eq (Before-head oa ob y (e ∷ es) x lt')
  Before-Inserted e es x y r lt lt' (further r' _ _ eq) = rw eq (Before-head oa ob e r' x lt)

  insert-nil : (s : AccountSignerInit) → insert_signer oa ob [] s ≡ ok (s ∷ [])
  unfolding insert_signer
  insert-nil s = refl

  swap_nil :
      (x y : AccountSignerInit) (c : List AccountSignerInit)
      → Inserted oa ob x [] y c
      → Swapped [] x y c
  swap_nil x y c (here lt eq) =
      (y ∷ [], insert-nil y, after_head oa ob y [] x (x ∷ []) lt (insert-nil x) ∙ ap ok (sym eq))
  swap_nil x y c (further r lt h eq) =
      let known = ok-injective (sym h ∙ insert-nil y) in
      (y ∷ [], insert-nil y, Before-head oa ob y [] x lt ∙ ap ok (ap (◌∷◌ x) (sym known) ∙ sym eq))

  -- Both signers come before the first one.
  swap_front :
      (e : AccountSignerInit) (es : List AccountSignerInit) (x y : AccountSignerInit)
      (c : List AccountSignerInit)
      → Before oa ob x e
      → Inserted oa ob x (e ∷ es) y c
      → Swapped (e ∷ es) x y c
  swap_front e es x y c lt (here lt' eq) = (
    y ∷ e ∷ es,
    Before-head oa ob e es y ((signer_order oa ob).cmp_trans y x e lt' lt),
    after_head oa ob y (e ∷ es) x (x ∷ e ∷ es) lt' (Before-head oa ob e es x lt) ∙ ap ok (sym eq),
  )
  swap_front e es x y c lt (further r lt' h eq) =
      (r, h, Before-Inserted e es x y r lt lt' (insert-Inserted oa ob e es y r h) ∙ ap ok (sym eq))

  swap_further :
      (e : AccountSignerInit) (es : List AccountSignerInit) (x y : AccountSignerInit)
      (a' c : List AccountSignerInit)
      → Before oa ob e x
      → insert_signer oa ob es x ≡ ok a'
      → ((c' : List AccountSignerInit) → insert_signer oa ob a' y ≡ ok c' → Swapped es x y c')
      → Inserted oa ob e a' y c
      → Swapped (e ∷ es) x y c
  swap_further e es x y a' c lt h ih (here lt' eq) = (
    y ∷ e ∷ es,
    Before-head oa ob e es y lt',
    after_head oa ob y (e ∷ es) x (e ∷ a') ((signer_order oa ob).cmp_trans y e x lt' lt)
          (after_head oa ob e es x a' lt h)
        ∙ ap ok (sym eq),
  )
  swap_further e es x y a' c lt h ih (further c' lt' k eq) =
      let (b, hb, kb) = ih c' k in
      (e ∷ b, after_head oa ob e es y b lt' hb, after_head oa ob e b x c' lt kb ∙ ap ok (sym eq))

  insert_swap :
      (es : List AccountSignerInit) (x y : AccountSignerInit) (a c : List AccountSignerInit)
      → insert_signer oa ob es x ≡ ok a
      → insert_signer oa ob a y ≡ ok c
      → Swapped es x y c
  insert_swap [] x y a c h k =
      let known = ok-injective (sym h ∙ insert-nil x) in
      swap_nil x y c (insert-Inserted oa ob x [] y c (rw known at k))
  insert_swap (e ∷ es) x y a c h k = elim (insert-Inserted oa ob e es x a h) [
    | here lt eq ↦ swap_front e es x y c lt (insert-Inserted oa ob x (e ∷ es) y c (rw eq at k))
    | further a' lt h' eq ↦
        swap_further e es x y a' c lt h' (λ c' k'. insert_swap es x y a' c' h' k')
          (insert-Inserted oa ob e a' y c (rw eq at k))
  ]

  from-swap :
      (can : List AccountSignerInit) (x y : AccountSignerInit) (ss c : List AccountSignerInit)
      → canonicalize_from oa ob can (x ∷ y ∷ ss) ≡ ok c
      → canonicalize_from oa ob can (y ∷ x ∷ ss) ≡ ok c
  from-swap can x y ss c h =
      let (vx, can1, i1, r1) = from-cons oa ob can x (y ∷ ss) c h in
      let (vy, can2, i2, r2) = from-cons oa ob can1 y ss c r1 in
      let (b, hb, kb) = insert_swap can x y can1 can2 i1 i2 in
      cons-from oa ob can y (x ∷ ss) b vy hb ∙ (cons-from oa ob b x ss can2 vx kb ∙ r2)

  from-perm :
      {xs ys : List AccountSignerInit}
      → Permᴰ xs ys
      → (can c : List AccountSignerInit) → canonicalize_from oa ob can xs ≡ ok c
      → canonicalize_from oa ob can ys ≡ ok c
  from-perm Permᴰ.nil can c h = h
  from-perm (Permᴰ.cons {a} {b} {l₁} {l₂} e q) can c h =
      let (v, can', i, r) = from-cons oa ob can a l₁ c h in
      cons-from oa ob can b l₂ can' (subst (λ s. validate_signer_shape s ≡ ok tt) e v)
        (subst (λ s. insert_signer oa ob can s ≡ ok can') e i)
      ∙ from-perm q can' c r
  from-perm (Permᴰ.swap {a} {b} {a'} {b'} {l} e e') can c h =
      subst (λ t. canonicalize_from oa ob can (t ∷ b' ∷ l) ≡ ok c) e'
        (subst (λ t. canonicalize_from oa ob can (b ∷ t ∷ l) ≡ ok c) e (from-swap can a b l c h))
  from-perm (Permᴰ.trans q r) can c h = from-perm r can c (from-perm q can c h)

  signers_set : IsSet (Outcome FactoryError (List AccountSignerInit))
  signers_set = hlevel

  -- The order in which the signers are given does not matter: if one order of them is accepted, every
  -- other order is, with the same canonical list.
  pub canonicalize_signers-perm :
      (xs ys c : List AccountSignerInit)
      → Perm xs ys
      → canonicalize_signers oa ob xs ≡ ok c
      → canonicalize_signers oa ob ys ≡ ok c
  unfolding canonicalize_signers
  canonicalize_signers-perm xs ys c q h = ∥∥₁_elim q (signers_set _ _) (λ q'. from-perm q' [] c h)

-- ===== src/Factory/Loop.antt =====
-- The loops of `canonicalize_signers` in account-factory/contracts/factory-contract/src/lib.rs as they
-- are written, over the index `idx` and on fuel: they always end, and compute what the recursions
-- `insert_signer` and `canonicalize_from` do.
use Prim.Native.Nat.{Ordering}
use mathlib.Core.List.{append_assoc}
use latch_contracts.Base.{
  Ordering-cases, ℕ, zero, suc, ◌+◌, ◌<◌, ◌≤◌, ◌≡◌, refl, true, false, Option, none, some, List, [],
  ◌∷◌, ◌++◌, arith, ltb, length, length-append, get_elem?, inl, inr, ap, ◌∙◌,
}
use latch_contracts.Soroban.{Address, Bytes, Outcome, ok, panic, trap, ◌>>=◌, ◌>>◌}
use latch_contracts.Factory.{
  AccountSignerInit, FactoryError, duplicate_signer, Order, compare_signers, insert_signer,
  canonicalize_from, canonicalize_signers, validate_signer_shape,
}

-- `Vec::insert(i, x)`, which panics past the end.
abbrev pub insert_at : {A : Type 0} → ℕ → A → List A → Outcome FactoryError (List A)
insert_at zero x xs = ok (x ∷ xs)
insert_at (suc i) x [] = trap
insert_at (suc i) x (y ∷ ys) = insert_at i x ys >>= λ ys'. ok (y ∷ ys')

-- The next part of a run, unless the fuel ran out or the call failed.
abbrev and_then :
    {A B : Type 0}
    → Option (Outcome FactoryError A)
    → (A → Option (Outcome FactoryError B))
    → Option (Outcome FactoryError B)
and_then none next = none
and_then (some (ok a)) next = next a
and_then (some (panic e)) next = some (panic e)
and_then (some trap) next = some trap

get_elem?-append :
    {A : Type 0} (front : List A) (x : A) (rest : List A)
    → get_elem? (front ++ x ∷ rest) (length front) ≡ some x
get_elem?-append [] x rest = refl
get_elem?-append (y ∷ front) x rest = get_elem?-append front x rest

insert_at-append :
    {A : Type 0} (front : List A) (x : A) (rest : List A)
    → insert_at (length front) x (front ++ rest) ≡ ok (front ++ x ∷ rest)
insert_at-append [] x rest = refl
insert_at-append (y ∷ front) x rest = rw (insert_at-append front x rest) refl

module _ (oa : Order Address) (ob : Order Bytes) where
  -- The rounds of the `while` loop from `idx` on, and the `push_back` behind it. `none` when the fuel
  -- runs out.
  pub while_smaller :
      ℕ
      → List AccountSignerInit
      → AccountSignerInit
      → ℕ
      → Option (Outcome FactoryError (List AccountSignerInit))
  while_smaller zero canonical signer idx = none
  while_smaller (suc fuel) canonical signer idx = elim (ltb idx (length canonical)) [
    | false ↦ some (ok (canonical ++ signer ∷ []))
    | true ↦ elim (get_elem? canonical idx) [
      | none ↦ some trap
      | some existing ↦ elim (compare_signers oa ob existing signer) [
        | Ordering.eq ↦ some (panic duplicate_signer)
        | Ordering.gt ↦ some (insert_at idx signer canonical)
        | Ordering.lt ↦ while_smaller fuel canonical signer (idx + 1)
      ]
    ]
  ]

  -- The outcome behind the first entries, which are smaller than the signer.
  abbrev behind :
      List AccountSignerInit
      → Outcome FactoryError (List AccountSignerInit)
      → Outcome FactoryError (List AccountSignerInit)
  behind front r = r >>= λ rest. ok (front ++ rest)

  behind-nil : (r : Outcome FactoryError (List AccountSignerInit)) → behind [] r ≡ r
  behind-nil (ok rest) = refl
  behind-nil (panic _) = refl
  behind-nil trap = refl

  behind-cons :
      (front : List AccountSignerInit) (x : AccountSignerInit)
      (r : Outcome FactoryError (List AccountSignerInit))
      → behind (front ++ x ∷ []) r ≡ behind front (r >>= λ rest. ok (x ∷ rest))
  behind-cons front x (ok rest) = ap ok (append_assoc front (x ∷ []) rest)
  behind-cons front x (panic _) = refl
  behind-cons front x trap = refl

  while_smaller-insert_signer :
      (fuel : ℕ) (front rest : List AccountSignerInit) (signer : AccountSignerInit)
      → length rest < fuel
      → while_smaller fuel (front ++ rest) signer (length front)
        ≡ some (behind front (insert_signer oa ob rest signer))
  unfolding while_smaller insert_signer
  while_smaller-insert_signer zero front rest signer h = absurd (omega arith)
  while_smaller-insert_signer (suc fuel) front [] signer h =
      let stop : ltb (length front) (length (front ++ [])) ≡ false =
        let none_left : List AccountSignerInit = [] in
        let n = length-append front none_left in ground (arith, n) in
      rw (stop, while_smaller) (ap (λ t. some (ok t)) (append_assoc front [] (signer ∷ [])))
  while_smaller-insert_signer (suc fuel) front (x ∷ rest) signer h =
      let go : ltb (length front) (length (front ++ x ∷ rest)) ≡ true =
        let n = length-append front (x ∷ rest) in ground (arith, n) in
      rw (go, get_elem?-append front x rest, while_smaller)
        (elim (Ordering-cases (compare_signers oa ob x signer)) [
          | inl less ↦
              let n : length (front ++ x ∷ []) ≡ length front + 1 =
                let m = length-append front (x ∷ []) in omega (arith, m) in
              let next =
                rw (append_assoc front (x ∷ []) rest, n) at
                  (while_smaller-insert_signer fuel (front ++ x ∷ []) rest signer (omega arith)) in
              rw (less, insert_signer)
                (next ∙ ap some (behind-cons front x (insert_signer oa ob rest signer)))
          | inr (inl same) ↦ rw (same, insert_signer) refl
          | inr (inr greater) ↦
              rw (greater, insert_signer, insert_at-append front signer (x ∷ rest)) refl
        ])

  -- The `for` loop, each signer with its own `while` loop on the same fuel.
  pub for_signers :
      ℕ
      → List AccountSignerInit
      → List AccountSignerInit
      → Option (Outcome FactoryError (List AccountSignerInit))
  for_signers fuel canonical [] = some (ok canonical)
  for_signers fuel canonical (signer ∷ signers) =
      and_then (some (validate_signer_shape signer)) (λ _.
        and_then (while_smaller fuel canonical signer 0)
          (λ canonical'. for_signers fuel canonical' signers))

  insert_signer-length :
      (canonical canonical' : List AccountSignerInit) (signer : AccountSignerInit)
      → insert_signer oa ob canonical signer ≡ ok canonical'
      → length canonical' ≡ suc (length canonical)
  unfolding insert_signer
  insert_signer-length [] canonical' signer h = ground arith
  insert_signer-length (x ∷ rest) canonical' signer h =
      inserted (insert_signer oa ob rest signer) (insert_signer-length rest) refl
    where
      inserted :
          (r : Outcome FactoryError (List AccountSignerInit))
          → ((rest' : List AccountSignerInit) (y : AccountSignerInit)
              → insert_signer oa ob rest y ≡ ok rest'
              → length rest' ≡ suc (length rest))
          → insert_signer oa ob rest signer ≡ r
          → length canonical' ≡ suc (suc (length rest))
      inserted (ok rest') ih e = let n = ih rest' signer e in ground (arith, n, e, h)
      inserted (panic e') ih e = ground (arith, e, h)
      inserted trap ih e = ground (arith, e, h)

  for_signers-canonicalize_from :
      (fuel : ℕ) (canonical signers : List AccountSignerInit)
      → length canonical + length signers ≤ fuel
      → for_signers fuel canonical signers ≡ some (canonicalize_from oa ob canonical signers)
  unfolding for_signers canonicalize_from
  for_signers-canonicalize_from fuel canonical [] h = refl
  for_signers-canonicalize_from fuel canonical (signer ∷ signers) h =
      let placed = behind-nil (insert_signer oa ob canonical signer) in
      let looped : while_smaller fuel canonical signer 0
          ≡ some (insert_signer oa ob canonical signer) =
        while_smaller-insert_signer fuel [] canonical signer (omega arith) ∙ ap some placed in
      rw (looped, for_signers)
        (rounds (validate_signer_shape signer) (insert_signer oa ob canonical signer)
          (insert_signer-length canonical)
          (λ canonical'. for_signers-canonicalize_from fuel canonical' signers) refl)
    where
      rounds :
          (v : Outcome FactoryError (Unit {0})) (r : Outcome FactoryError (List AccountSignerInit))
          → ((canonical' : List AccountSignerInit) (y : AccountSignerInit)
              → insert_signer oa ob canonical y ≡ ok canonical'
              → length canonical' ≡ suc (length canonical))
          → ((canonical' : List AccountSignerInit)
              → length canonical' + length signers ≤ fuel
              → for_signers fuel canonical' signers
                ≡ some (canonicalize_from oa ob canonical' signers))
          → insert_signer oa ob canonical signer ≡ r
          → and_then
              (some v)
              (λ _. and_then (some r) (λ canonical'. for_signers fuel canonical' signers))
            ≡ some (v >> (r >>= λ canonical'. canonicalize_from oa ob canonical' signers))
      rounds (ok u) (ok canonical') longer next e =
          let n = longer canonical' signer e in next canonical' (omega (arith, n, h))
      rounds (ok u) (panic _) longer next e = refl
      rounds (ok u) trap longer next e = refl
      rounds (panic _) r longer next e = refl
      rounds trap r longer next e = refl

  -- The loops of `canonicalize_signers` end: with fuel for as many rounds of each `while` loop as
  -- there are signers, they return, for any signers and any orders of the host, with the outcome that
  -- `canonicalize_signers` gives.
  pub for_signers-canonicalize_signers :
      (fuel : ℕ) (signers : List AccountSignerInit)
      → length signers ≤ fuel
      → for_signers fuel [] signers ≡ some (canonicalize_signers oa ob signers)
  unfolding canonicalize_signers
  for_signers-canonicalize_signers fuel signers h =
      for_signers-canonicalize_from fuel [] signers (omega (arith, h))

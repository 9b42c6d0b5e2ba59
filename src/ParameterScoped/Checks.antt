-- ===== src/ParameterScoped/Checks.antt =====
-- The checks of policies/parameter-scoped-policy/src/conditions.rs, against a reading of the conditions
-- as propositions.
use latch_contracts.Base.{
  subst, ℕ, ◌≤◌, ◌<◌, ◌≡◌, ◌≢◌, ◌↔◌, refl, Bool, true, false, Option, none, some, List, [], ◌∷◌,
  arith, All, get_elem?, str_eq, eq_iff, ◌==◌, not,
}
use latch_contracts.Base.Int.{ℤ, pos, negsuc, ◌≤ℤ◌, ◌<ℤ◌}
use latch_contracts.Soroban.{
  Address, Symbol, ok, >>=-eq-ok, unwrap_or_panic, unwrap_or_panic-eq-ok, panic_if,
}
use latch_contracts.ParameterScoped.{
  Operator, eq, neq, gt, gte, lt, lte, ExpectedValue, u32, u64, u128, i32, i64, i128, sym_value,
  addr, Condition, Decoders, passes, check_conditions, naturals, integers, compare_ord, compare_eq,
  ordered, equated,
}

-- What an operator says of two numbers, of two integers, and of two values that have no order.
abbrev pub Says : Operator → ℕ → ℕ → Type 0
Says eq a b = a ≡ b
Says neq a b = a ≢ b
Says gt a b = b < a
Says gte a b = b ≤ a
Says lt a b = a < b
Says lte a b = a ≤ b

abbrev pub Says_ℤ : Operator → ℤ → ℤ → Type 0
Says_ℤ eq a b = a ≡ b
Says_ℤ neq a b = a ≢ b
Says_ℤ gt a b = b <ℤ a
Says_ℤ gte a b = b ≤ℤ a
Says_ℤ lt a b = a <ℤ b
Says_ℤ lte a b = a ≤ℤ b

abbrev pub SaysEqual : {T : Type 0} → Operator → T → T → Type 0
SaysEqual eq a b = a ≡ b
SaysEqual neq a b = a ≢ b
SaysEqual _ a b = ⊥

naturals_iff : (o : Operator) (a b : ℕ) → (ordered naturals o a b ≡ true) ↔ Says o a b
naturals_iff eq a b = ground arith
naturals_iff neq a b = ground arith
naturals_iff gt a b = ground arith
naturals_iff gte a b = ground arith
naturals_iff lt a b = ground arith
naturals_iff lte a b = ground arith

addresses_iff : (o : Operator) (a b : ℕ) → (equated (λ x y. x == y) o a b ≡ true) ↔ SaysEqual o a b
addresses_iff o a b = ground arith

symbols_iff : (o : Operator) (a b : Symbol) → (equated str_eq o a b ≡ true) ↔ SaysEqual o a b
symbols_iff eq a b = eq_iff a b
symbols_iff neq a b = ground (arith, eq_iff a b)
symbols_iff _ a b = ground arith

integers_iff : (o : Operator) (a b : ℤ) → (ordered integers o a b ≡ true) ↔ Says_ℤ o a b
integers_iff o (pos a) (pos b) = ground arith
integers_iff o (pos a) (negsuc b) = ground arith
integers_iff o (negsuc a) (pos b) = ground arith
integers_iff o (negsuc a) (negsuc b) = ground arith

found_iff :
    {T : Type 0} (r : Option T → Bool) (P : T → Type 0)
    → r none ≡ false
    → ((a : T) → (r (some a) ≡ true) ↔ P a)
    → (o : Option T) → (r o ≡ true) ↔ ((a : T) × (o ≡ some a) × P a)
found_iff r P n s none = (λ h. absurd (cc), λ x. let gone = x.1 in absurd (cc))
found_iff r P n s (some a) = (
  λ h. (a, refl, (s a).0 h),
  λ x. let found = x.1 in let same : x.0 ≡ a = cc in (s a).1 (subst P same x.2),
)

module _ {Val : Type 0} (v : Decoders Val) where
  -- The argument has the type of the expected value and stands in the relation to it that the
  -- operator names.
  abbrev pub Satisfies : Val → ExpectedValue → Operator → Type 0
  Satisfies arg (u32 e) o = (a : ℕ) × (v.to_u32 arg ≡ some a) × Says o a e
  Satisfies arg (u64 e) o = (a : ℕ) × (v.to_u64 arg ≡ some a) × Says o a e
  Satisfies arg (u128 e) o = (a : ℕ) × (v.to_u128 arg ≡ some a) × Says o a e
  Satisfies arg (i32 e) o = (a : ℤ) × (v.to_i32 arg ≡ some a) × Says_ℤ o a e
  Satisfies arg (i64 e) o = (a : ℤ) × (v.to_i64 arg ≡ some a) × Says_ℤ o a e
  Satisfies arg (i128 e) o = (a : ℤ) × (v.to_i128 arg ≡ some a) × Says_ℤ o a e
  Satisfies arg (sym_value e) o = (a : Symbol) × (v.to_symbol arg ≡ some a) × SaysEqual o a e
  Satisfies arg (addr e) o = (a : Address) × (v.to_address arg ≡ some a) × SaysEqual o a e

  -- The argument that the condition names exists and satisfies it.
  abbrev pub Meets : List Val → Condition → Type 0
  Meets args c =
      (arg : Val) × (get_elem? args c.arg_index ≡ some arg)
      × Satisfies arg c.expected_value c.operator

  passes_iff :
      (arg : Val) (e : ExpectedValue) (o : Operator) → (passes v arg e o ≡ true) ↔ Satisfies arg e o
  unfolding passes
  passes_iff arg (u32 e) o =
      found_iff (λ f. compare_ord naturals f e o) _ refl (λ a. naturals_iff o a e) (v.to_u32 arg)
  passes_iff arg (u64 e) o =
      found_iff (λ f. compare_ord naturals f e o) _ refl (λ a. naturals_iff o a e) (v.to_u64 arg)
  passes_iff arg (u128 e) o =
      found_iff (λ f. compare_ord naturals f e o) _ refl (λ a. naturals_iff o a e) (v.to_u128 arg)
  passes_iff arg (i32 e) o =
      found_iff (λ f. compare_ord integers f e o) _ refl (λ a. integers_iff o a e) (v.to_i32 arg)
  passes_iff arg (i64 e) o =
      found_iff (λ f. compare_ord integers f e o) _ refl (λ a. integers_iff o a e) (v.to_i64 arg)
  passes_iff arg (i128 e) o =
      found_iff (λ f. compare_ord integers f e o) _ refl (λ a. integers_iff o a e) (v.to_i128 arg)
  passes_iff arg (sym_value e) o =
      found_iff (λ f. compare_eq str_eq f e o) _ refl (λ a. symbols_iff o a e) (v.to_symbol arg)
  passes_iff arg (addr e) o =
      found_iff (λ f. compare_eq (λ a b. a == b) f e o) _ refl (λ a. addresses_iff o a e)
        (v.to_address arg)

  -- The loop of `enforce` succeeds exactly when every condition is met: its argument exists, has the
  -- type of the expected value, and stands to it as the operator says. Symbols and addresses are met by
  -- equality and inequality only.
  pub check_conditions_iff :
      (args : List Val) (conds : List Condition)
      → (check_conditions v args conds ≡ ok tt) ↔ All (Meets args) conds
  unfolding check_conditions
  check_conditions_iff args [] = (λ _. tt, λ _. refl)
  check_conditions_iff args (c ∷ conds) = (
    λ h.
        let (arg, e1, r1) = >>=-eq-ok (unwrap_or_panic (get_elem? args c.arg_index) _) _ h in
        let (_, e2, r2) =
          >>=-eq-ok (panic_if (not (passes v arg c.expected_value c.operator)) _) _ r1 in
        let passed : passes v arg c.expected_value c.operator ≡ true = ground arith in
        (
          (
            arg,
            unwrap_or_panic-eq-ok _ _ e1,
            (passes_iff arg c.expected_value c.operator).0 passed,
          ),
          (check_conditions_iff args conds).0 r2,
        ),
    λ m.
        let (arg, found, s) = m.0 in
        rw (found, (passes_iff arg c.expected_value c.operator).1 s)
          ((check_conditions_iff args conds).1 m.1),
  )

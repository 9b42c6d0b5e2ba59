-- ===== src/ParameterScoped.antt =====
-- The parameter-scoped policy, policies/parameter-scoped-policy/src/conditions.rs, with the contract of
-- policies/parameter-scoped-policy/src/lib.rs that forwards to it. The host's conversions of argument
-- values are a parameter.
pub mod Checks
pub mod Calls
pub mod Contract
pub mod Installs
mod Tests
use latch_contracts.Base.{
  ℕ, ◌-◌, ◌*◌, Bool, true, false, Option, none, some, List, [], ◌∷◌, ◌++◌, ltb, leb, ◌==◌, ◌||◌,
  not, str_eq, length, get_elem?, if◌then◌else◌,
}
use latch_contracts.Base.Int.{ℤ, ltb_ℤ, leb_ℤ, eqb_ℤ}
use latch_contracts.Soroban.{
  Address, Symbol, Auth, Context, ContractContext, contract, other, ContextRule, Signer,
  is_call_contract, World, publish, Outcome, ok, panic, trap, ◌>>=◌, ◌>>◌, panic_if, require_auth,
  unwrap_or_panic, Storage, has,
}

pub data Operator : Type 0 where
  eq neq gt gte lt lte : Operator

pub data ExpectedValue : Type 0 where
  u32 u64 u128 : ℕ → ExpectedValue
  i32 i64 i128 : ℤ → ExpectedValue
  sym_value : Symbol → ExpectedValue
  addr : Address → ExpectedValue

pub record Condition : Type 0 where
  pub arg_index : ℕ
  pub operator : Operator
  pub expected_value : ExpectedValue

pub data Event : Type 0 where
  conditions_enforced : Address → ℕ → Symbol → Event
  conditions_installed conditions_uninstalled : Address → ℕ → Event

-- `Map<Symbol, Vec<Condition>>`, as the list of its entries.
abbrev pub Conditions : Type 0
Conditions = List (Symbol × List Condition)

pub record ParameterScopedAccountParams : Type 0 where
  pub conditions : Conditions

pub record ParameterScopedData : Type 0 where
  pub conditions : Conditions

pub data ParameterScopedError : Type 0 where
  smart_account_not_installed only_call_contract_allowed invalid_conditions : ParameterScopedError
  method_not_allowed condition_failed already_installed : ParameterScopedError
  argument_index_out_of_bounds : ParameterScopedError

pub data ParameterScopedStorageKey : Type 0 where
  account_context : Address → ℕ → ParameterScopedStorageKey

abbrev pub parameter_scoped_extend_amount : ℕ
parameter_scoped_extend_amount = 30 * 17280

abbrev pub parameter_scoped_ttl_threshold : ℕ
parameter_scoped_ttl_threshold = parameter_scoped_extend_amount - 17280

abbrev pub max_fns : ℕ
max_fns = 10

abbrev pub max_conditions_per_fn : ℕ
max_conditions_per_fn = 5

-- The host's `try_into_val` at each type, with `none` for a value of another type.
pub record Decoders (Val : Type 0) : Type 0 where
  pub to_u32 : Val → Option ℕ
  pub to_u64 : Val → Option ℕ
  pub to_u128 : Val → Option ℕ
  pub to_i32 : Val → Option ℤ
  pub to_i64 : Val → Option ℤ
  pub to_i128 : Val → Option ℤ
  pub to_symbol : Val → Option Symbol
  pub to_address : Val → Option Address

-- The comparisons of an ordered type.
pub record Comparisons (T : Type 0) : Type 0 where
  pub equal : T → T → Bool
  pub less : T → T → Bool
  pub less_or_equal : T → T → Bool

abbrev pub naturals : Comparisons ℕ
naturals = record { equal = λ a b. a == b; less = ltb; less_or_equal = leb }

abbrev pub integers : Comparisons ℤ
integers = record { equal = eqb_ℤ; less = ltb_ℤ; less_or_equal = leb_ℤ }

-- The `match` on the operator in `compare_ord`.
abbrev pub ordered : {T : Type 0} → Comparisons T → Operator → T → T → Bool
ordered c eq actual expected = c.equal actual expected
ordered c neq actual expected = not (c.equal actual expected)
ordered c gt actual expected = c.less expected actual
ordered c gte actual expected = c.less_or_equal expected actual
ordered c lt actual expected = c.less actual expected
ordered c lte actual expected = c.less_or_equal actual expected

-- `actual` is what the argument converts to.
abbrev pub compare_ord : {T : Type 0} → Comparisons T → Option T → T → Operator → Bool
compare_ord c none expected operator = false
compare_ord c (some actual) expected operator = ordered c operator actual expected

-- The `match` on the operator in `compare_eq`.
abbrev pub equated : {T : Type 0} → (T → T → Bool) → Operator → T → T → Bool
equated equal eq actual expected = equal actual expected
equated equal neq actual expected = not (equal actual expected)
equated equal _ actual expected = false

abbrev pub compare_eq : {T : Type 0} → (T → T → Bool) → Option T → T → Operator → Bool
compare_eq equal none expected operator = false
compare_eq equal (some actual) expected operator = equated equal operator actual expected

-- `conditions.get(fn_name)`
unfoldable pub conditions_of : Conditions → Symbol → Option (List Condition)
conditions_of [] fn_name = none
conditions_of (entry ∷ rest) fn_name =
    if str_eq entry.0 fn_name then some entry.1 else conditions_of rest fn_name

-- `cond.operator != Operator::Eq && cond.operator != Operator::Neq`
abbrev pub only_ordered : Operator → Bool
only_ordered eq = false
only_ordered neq = false
only_ordered _ = true

abbrev pub is_incompatible : ExpectedValue → Operator → Bool
is_incompatible (sym_value _) operator = only_ordered operator
is_incompatible (addr _) operator = only_ordered operator
is_incompatible _ operator = false

-- The inner and the outer loop of `install`.
unfoldable pub check_operators : List Condition → Outcome ParameterScopedError (Unit {0})
check_operators [] = ok tt
check_operators (cond ∷ conds) =
    panic_if (is_incompatible cond.expected_value cond.operator) invalid_conditions
    >> check_operators conds

unfoldable pub check_params : Conditions → Outcome ParameterScopedError (Unit {0})
unfolding check_operators
check_params [] = ok tt
check_params (entry ∷ rest) =
    panic_if (length entry.1 == 0 || ltb max_conditions_per_fn (length entry.1)) invalid_conditions
    >> (check_operators entry.1 >> check_params rest)

module _ {Val : Type 0} (v : Decoders Val) where
  unfoldable pub passes : Val → ExpectedValue → Operator → Bool
  passes arg (u32 expected) operator = compare_ord naturals (v.to_u32 arg) expected operator
  passes arg (i32 expected) operator = compare_ord integers (v.to_i32 arg) expected operator
  passes arg (u64 expected) operator = compare_ord naturals (v.to_u64 arg) expected operator
  passes arg (i64 expected) operator = compare_ord integers (v.to_i64 arg) expected operator
  passes arg (u128 expected) operator = compare_ord naturals (v.to_u128 arg) expected operator
  passes arg (i128 expected) operator = compare_ord integers (v.to_i128 arg) expected operator
  passes arg (sym_value expected) operator = compare_eq str_eq (v.to_symbol arg) expected operator
  passes arg (addr expected) operator =
      compare_eq (λ a b. a == b) (v.to_address arg) expected operator

  -- The loop of `enforce` over the conditions of the function called.
  unfoldable pub check_conditions :
      List Val → List Condition → Outcome ParameterScopedError (Unit {0})
  unfolding passes
  check_conditions args [] = ok tt
  check_conditions args (cond ∷ conds) = do
    actual_arg ← unwrap_or_panic (get_elem? args cond.arg_index) argument_index_out_of_bounds
    panic_if (not (passes actual_arg cond.expected_value cond.operator)) condition_failed
    check_conditions args conds

abbrev pub emit_conditions_enforced :
    {State : Type 0} → Address → ℕ → Symbol → World State Event → World State Event
emit_conditions_enforced smart_account context_rule_id fn_name =
    publish (conditions_enforced smart_account context_rule_id fn_name)

abbrev pub emit_conditions_installed :
    {State : Type 0} → Address → ℕ → World State Event → World State Event
emit_conditions_installed smart_account context_rule_id =
    publish (conditions_installed smart_account context_rule_id)

abbrev pub emit_conditions_uninstalled :
    {State : Type 0} → Address → ℕ → World State Event → World State Event
emit_conditions_uninstalled smart_account context_rule_id =
    publish (conditions_uninstalled smart_account context_rule_id)

module _ (d : Storage ParameterScopedStorageKey ParameterScopedData) where
  pub get_conditions : ℕ → Address → d.State → Outcome ParameterScopedError (Conditions × d.State)
  get_conditions context_rule_id smart_account s = do
    let key = account_context smart_account context_rule_id
    stored ← unwrap_or_panic (d.get key s) smart_account_not_installed
    ok (
      stored.conditions,
      d.extend_ttl key parameter_scoped_ttl_threshold parameter_scoped_extend_amount s,
    )

  -- The `match` on the context at the end of `enforce`.
  pub enforce_call :
      {Val : Type 0}
      → Decoders Val
      → Context Val
      → ContextRule
      → Address
      → Conditions
      → World d.State Event
      → Outcome ParameterScopedError (World d.State Event)
  unfolding check_conditions conditions_of
  enforce_call v other context_rule smart_account configured_fns w = panic method_not_allowed
  enforce_call v (contract c) context_rule smart_account configured_fns w = do
    fn_conditions ← unwrap_or_panic (conditions_of configured_fns c.fn_name) method_not_allowed
    check_conditions v c.args fn_conditions
    ok (emit_conditions_enforced smart_account context_rule.id c.fn_name w)

  pub enforce :
      {Val : Type 0}
      → Decoders Val
      → Auth
      → Context Val
      → List Signer
      → ContextRule
      → Address
      → World d.State Event
      → Outcome ParameterScopedError (World d.State Event)
  unfolding get_conditions enforce_call
  enforce v auth context authenticated_signers context_rule smart_account w = do
    require_auth (auth smart_account)
    panic_if (length authenticated_signers == 0) method_not_allowed
    (configured_fns, store') ← get_conditions context_rule.id smart_account w.store
    enforce_call v context context_rule smart_account configured_fns (record w { store = store' })

  pub install :
      Auth
      → ParameterScopedAccountParams
      → ContextRule
      → Address
      → World d.State Event
      → Outcome ParameterScopedError (World d.State Event)
  unfolding check_params
  install auth params context_rule smart_account w = do
    require_auth (auth smart_account)
    panic_if (not (is_call_contract context_rule.context_type)) only_call_contract_allowed
    panic_if (length params.conditions == 0 || ltb max_fns (length params.conditions))
        invalid_conditions
    check_params params.conditions
    let key = account_context smart_account context_rule.id
    panic_if (has d key w.store) already_installed
    ok (
        emit_conditions_installed smart_account context_rule.id
          (record w { store = d.set key (record { conditions = params.conditions }) w.store }))

  pub uninstall :
      Auth
      → ContextRule
      → Address
      → World d.State Event
      → Outcome ParameterScopedError (World d.State Event)
  uninstall auth context_rule smart_account w = do
    require_auth (auth smart_account)
    let key = account_context smart_account context_rule.id
    panic_if (not (has d key w.store)) smart_account_not_installed
    ok (
        emit_conditions_uninstalled smart_account context_rule.id
          (record w { store = d.remove key w.store }))

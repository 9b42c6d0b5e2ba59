-- ===== src/ParameterScoped/Installs.antt =====
-- What `install` of policies/parameter-scoped-policy/src/conditions.rs accepts.
use latch_contracts.Base.{
  ◌≤◌, ◌≡◌, ◌⊎◌, inl, inr, sym, ap, ◌∙◌, true, false, none, some, List, [], ◌∷◌, arith, All,
  ℕ_discrete, length, ◌==◌, ltb, ◌||◌, not, is_some,
}
use latch_contracts.Soroban.{
  Address, Auth, ContextRule, World, ok, Storage, >>=-eq-ok, ok-injective, panic_if, require_auth,
  is_call_contract,
}
use latch_contracts.ParameterScoped.{
  Operator, eq, neq, ExpectedValue, u32, u64, u128, i32, i64, i128, sym_value, addr, Condition,
  Conditions, is_incompatible, only_ordered, check_operators, check_params, max_fns,
  max_conditions_per_fn, Event, ParameterScopedAccountParams, ParameterScopedData,
  ParameterScopedStorageKey, account_context, install,
}

instance key_discrete : Discrete ParameterScopedStorageKey
key_discrete = hlevel (ℕ_discrete)

-- Symbols and addresses are compared by equality or inequality.
abbrev pub IsCompatible : ExpectedValue → Operator → Type 0
IsCompatible (sym_value _) o = (o ≡ eq) ⊎ (o ≡ neq)
IsCompatible (addr _) o = (o ≡ eq) ⊎ (o ≡ neq)
IsCompatible _ o = Unit

-- One to ten functions, each with one to five conditions that can be met.
pub record IsValid (fns : Conditions) : Type 0 where
  pub some_function : 1 ≤ length fns
  pub few_functions : length fns ≤ max_fns
  pub entries :
      All
        (λ entry.
          (1 ≤ length entry.1)
          × (length entry.1 ≤ max_conditions_per_fn)
          × All (λ c. IsCompatible c.expected_value c.operator) entry.1)
        fns

only_ordered-false : (o : Operator) → only_ordered o ≡ false → (o ≡ eq) ⊎ (o ≡ neq)
only_ordered-false o h = ground arith

is_incompatible-false :
    (e : ExpectedValue) (o : Operator) → is_incompatible e o ≡ false → IsCompatible e o
is_incompatible-false (sym_value _) o h = only_ordered-false o h
is_incompatible-false (addr _) o h = only_ordered-false o h
is_incompatible-false (u32 _) o h = tt
is_incompatible-false (u64 _) o h = tt
is_incompatible-false (u128 _) o h = tt
is_incompatible-false (i32 _) o h = tt
is_incompatible-false (i64 _) o h = tt
is_incompatible-false (i128 _) o h = tt

check_operators-ok :
    (cs : List Condition) (u : Unit {0})
    → check_operators cs ≡ ok u
    → All (λ c. IsCompatible c.expected_value c.operator) cs
unfolding check_operators
check_operators-ok [] u h = tt
check_operators-ok (c ∷ cs) u h =
    let (_, e, r) = >>=-eq-ok (panic_if (is_incompatible c.expected_value c.operator) _) _ h in
    (is_incompatible-false c.expected_value c.operator (ground arith), check_operators-ok cs u r)

check_params-ok :
    (fns : Conditions) (u : Unit {0})
    → check_params fns ≡ ok u
    → All
        (λ entry.
          (1 ≤ length entry.1)
          × (length entry.1 ≤ max_conditions_per_fn)
          × All (λ c. IsCompatible c.expected_value c.operator) entry.1)
        fns
unfolding check_params
check_params-ok [] u h = tt
check_params-ok (entry ∷ fns) u h =
    let (_, e0, r0) =
      >>=-eq-ok (panic_if (length entry.1 == 0 || ltb max_conditions_per_fn (length entry.1)) _) _
        h in
    let (v, e1, r1) = >>=-eq-ok (check_operators entry.1) _ r0 in
    ((ground arith, ground arith, check_operators-ok entry.1 v e1), check_params-ok fns u r1)

module _ (d : Storage ParameterScopedStorageKey ParameterScopedData) where
  -- An install that succeeds was authorized by the account, on a rule for one contract, where nothing
  -- was installed. Its conditions are valid: one to ten functions, each with one to five conditions,
  -- and symbols and addresses compared by equality or inequality only. They are what is stored
  -- afterwards, under this account and rule, and nothing else in the storage changes.
  pub install-IsValid :
      (auth : Auth) (params : ParameterScopedAccountParams) (rule : ContextRule) (account : Address)
      (w w' : World d.State Event)
      → install d auth params rule account w ≡ ok w'
      → (auth account ≡ true)
        × (is_call_contract rule.context_type ≡ true)
        × (d.get (account_context account rule.id) w.store ≡ none)
        × IsValid params.conditions
        × (d.get (account_context account rule.id) w'.store
            ≡ some (record { conditions = params.conditions }))
        × ((k : ParameterScopedStorageKey)
            → (k ≡ account_context account rule.id) ⊎ (d.get k w'.store ≡ d.get k w.store))
  unfolding install
  install-IsValid auth params rule account w w' h =
      let key = account_context account rule.id in
      let (_, e0, r0) = >>=-eq-ok (require_auth (auth account)) _ h in
      let (_, e1, r1) = >>=-eq-ok (panic_if (not (is_call_contract rule.context_type)) _) _ r0 in
      let (_, e2, r2) =
        >>=-eq-ok
          (panic_if (length params.conditions == 0 || ltb max_fns (length params.conditions)) _) _
          r1 in
      let (u, e3, r3) = >>=-eq-ok (check_params params.conditions) _ r2 in
      let (_, e4, r4) = >>=-eq-ok (panic_if (is_some (d.get key w.store)) _) _ r3 in
      let end = sym (ok-injective r4) in
      (
        ground arith,
        ground arith,
        ground arith,
        record {
          some_function = ground arith;
          few_functions = ground arith;
          entries = check_params-ok params.conditions u e3;
        },
        ap (λ x. d.get key x.store) end ∙ d.get-set_self key _ w.store,
        λ k. elim (key_discrete k key) [
          | yes p ↦ inl p
          | no n ↦ inr (ap (λ x. d.get k x.store) end ∙ d.get-set_ne k key _ w.store n)
        ],
      )

-- ===== src/ParameterScoped/Contract.antt =====
-- The contract of policies/parameter-scoped-policy/src/lib.rs as an implementation of `Policy`.
use latch_contracts.Base.{
  ℕ, ◌≡◌, Bool, true, false, Option, none, some, List, arith, length, leb, ◌&&◌, if◌then◌else◌,
}
use latch_contracts.Soroban.{
  Address, Auth, Context, contract, other, ContextRule, Signer, is_call_contract, World, Outcome,
  ok, panic, trap, Storage,
}
use latch_contracts.Policies.{Policy, Does, installed_from, enforced_from, uninstalled_from}
use latch_contracts.Policies.Entries.{set-Others, remove-Others, extend_ttl-Others}
use latch_contracts.ParameterScoped.{
  Event, ParameterScopedAccountParams, ParameterScopedData, ParameterScopedError,
  ParameterScopedStorageKey, account_context, enforce, enforce_call, Condition, Conditions,
  Decoders, conditions_of, check_params, check_conditions, get_conditions, install, uninstall,
  parameter_scoped_ttl_threshold, parameter_scoped_extend_amount,
}

pub key-injective :
    (a b : Address) (i j : ℕ) → account_context a i ≡ account_context b j → (a ≡ b) × (i ≡ j)
key-injective a b i j e = (cc, cc)

-- What the checks of `install` say of the conditions.
abbrev pub passed : {E : Type 0} → Outcome E (Unit {0}) → Bool
passed (ok _) = true
passed (panic _) = false
passed trap = false

-- An install of one to ten functions with valid conditions, on a rule for one contract.
abbrev pub accepts : ContextRule → ParameterScopedAccountParams → Option ParameterScopedData
accepts rule params =
    if is_call_contract rule.context_type
      && ((leb 1 (length params.conditions) && leb (length params.conditions) 10)
          && passed (check_params params.conditions))
    then some (record { conditions = params.conditions })
    else none

abbrev pub all_met : {Val : Type 0} → Decoders Val → List Val → Option (List Condition) → Bool
all_met v args none = false
all_met v args (some conditions) = passed (check_conditions v args conditions)

-- A contract call of a configured function whose arguments pass its conditions.
abbrev pub is_scoped : {Val : Type 0} → Decoders Val → Context Val → Conditions → Bool
is_scoped v other fns = false
is_scoped v (contract c) fns = all_met v c.args (conditions_of fns c.fn_name)

-- Such a call, with some authenticated signer. It changes nothing.
abbrev pub allows :
    {Val : Type 0}
    → Decoders Val
    → Context Val
    → List Signer
    → ParameterScopedData
    → Option ParameterScopedData
allows v context signers stored =
    if leb 1 (length signers) && is_scoped v context stored.conditions then some stored else none

module _ (d : Storage ParameterScopedStorageKey ParameterScopedData) where
  abbrev pub lookup : Address → ℕ → World d.State Event → Option ParameterScopedData
  lookup a i w = d.get (account_context a i) w.store

  pub install-Does :
      (auth : Auth) (params : ParameterScopedAccountParams) (rule : ContextRule) (account : Address)
      (w : World d.State Event)
      → Does lookup account rule.id w
          (installed_from (auth account) (accepts rule params) (lookup account rule.id w))
          (install d auth params rule account w)
  unfolding install
  install-Does auth params rule account w =
      let stored : ParameterScopedData = record { conditions = params.conditions } in
      let set = d.get-set_self (account_context account rule.id) stored w.store in
      let rest = set-Others d account_context key-injective account rule.id stored w.store in
      ground (arith, set, rest)

  pub uninstall-Does :
      (auth : Auth) (rule : ContextRule) (account : Address) (w : World d.State Event)
      → Does lookup account rule.id w
          (uninstalled_from (auth account) (lookup account rule.id w))
          (uninstall d auth rule account w)
  unfolding uninstall
  uninstall-Does auth rule account w =
      let removed = d.get-remove_self (account_context account rule.id) w.store in
      let rest = remove-Others d account_context key-injective account rule.id w.store in
      ground (arith, removed, rest)

  pub enforce-Does :
      {Val : Type 0} (v : Decoders Val) (auth : Auth) (context : Context Val)
      (signers : List Signer) (rule : ContextRule) (account : Address) (w : World d.State Event)
      → Does lookup account rule.id w
          (enforced_from (auth account) (allows v context signers) (lookup account rule.id w))
          (enforce d v auth context signers rule account w)
  unfolding enforce enforce_call get_conditions
  enforce-Does v auth context signers rule account w =
      let key = account_context account rule.id in
      let kept =
        d.get-extend_ttl key key parameter_scoped_ttl_threshold parameter_scoped_extend_amount
          w.store in
      let rest =
        extend_ttl-Others d account_context key-injective account rule.id
          parameter_scoped_ttl_threshold parameter_scoped_extend_amount w.store in
      ground (arith, kept, rest)

  -- `impl Policy for ParameterScopedPolicy`
  abbrev pub parameter_scoped_policy : (Val : Type 0) → Decoders Val → Policy Val
  parameter_scoped_policy Val v = record {
    State = World d.State Event;
    Params = ParameterScopedAccountParams;
    Stored = ParameterScopedData;
    Error = ParameterScopedError;
    Facts = Unit {0};
    Config = ⊥;
    lookup = lookup;
    accepts = λ _. accepts;
    allows = λ _. allows v;
    enforce = λ _. enforce d v;
    install = λ _. install d;
    configured = λ c. absurd c;
    configure = λ _ c. absurd c;
    configure-Does = λ _ c. absurd c;
    uninstall = uninstall d;
    install-Does = λ _. install-Does;
    enforce-Does = λ _. enforce-Does v;
    uninstall-Does = uninstall-Does;
  }

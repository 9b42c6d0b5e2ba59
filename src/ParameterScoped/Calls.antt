-- ===== src/ParameterScoped/Calls.antt =====
-- The calls that policies/parameter-scoped-policy/src/conditions.rs lets through.
use latch_contracts.Base.{
  sym, ap, subst, ◌≤◌, ◌≡◌, ◌↔◌, refl, ◌∙◌, true, some, List, [], ◌∷◌, ◌++◌, arith, All, length,
  ◌==◌,
}
use latch_contracts.Soroban.{
  Address, Symbol, Auth, Context, ContractContext, contract, other, ContextRule, Signer, World, ok,
  Storage, >>=-eq-ok, ok-injective, unwrap_or_panic, unwrap_or_panic-eq-ok, panic_if, require_auth,
}
use latch_contracts.ParameterScoped.{
  Condition, Decoders, check_conditions, ParameterScopedStorageKey, account_context,
  ParameterScopedData, Event, conditions_enforced, conditions_of, Conditions, get_conditions,
  enforce_call, enforce, parameter_scoped_ttl_threshold, parameter_scoped_extend_amount,
}
use latch_contracts.ParameterScoped.Checks.{Meets, check_conditions_iff}

module _ (d : Storage ParameterScopedStorageKey ParameterScopedData) {Val : Type 0}
    (v : Decoders Val) where
  -- What `enforce` needs of a call and of the stored conditions.
  pub record IsAllowed (auth : Auth) (c : ContractContext Val) (rule : ContextRule)
      (account : Address) (w : World d.State Event) : Type 0 where
    pub authorized : auth account ≡ true
    pub stored : ParameterScopedData
    pub installed : d.get (account_context account rule.id) w.store ≡ some stored
    pub conditions : List Condition
    pub configured : conditions_of stored.conditions c.fn_name ≡ some conditions
    pub met : All (Meets v c.args) conditions

  contract_only :
      (context : Context Val) (rule : ContextRule) (account : Address) (fns : Conditions)
      (w w' : World d.State Event)
      → enforce_call d v context rule account fns w ≡ ok w'
      → (c : ContractContext Val) × (context ≡ contract c)
        × (enforce_call d v (contract c) rule account fns w ≡ ok w')
  unfolding enforce_call
  contract_only other rule account fns w w' h = absurd (cc)
  contract_only (contract c) rule account fns w w' h = (c, refl, h)

  -- Only a permitted call is let through: it is a contract call, the account has authorized it, some
  -- signer is authenticated, conditions are installed for the account and the rule and configured for
  -- the function called, and the arguments meet every one of them. It publishes one event for the
  -- function and leaves what is stored as it was.
  pub enforce-IsAllowed :
      (auth : Auth) (context : Context Val) (signers : List Signer) (rule : ContextRule)
      (account : Address) (w w' : World d.State Event)
      → enforce d v auth context signers rule account w ≡ ok w'
      → (c : ContractContext Val) × (context ≡ contract c)
        × (1 ≤ length signers)
        × IsAllowed auth c rule account w
        × (w'.events ≡ w.events ++ conditions_enforced account rule.id c.fn_name ∷ [])
        × ((k : ParameterScopedStorageKey) → d.get k w'.store ≡ d.get k w.store)
  unfolding enforce get_conditions enforce_call
  enforce-IsAllowed auth context signers rule account w w' h =
      let key = account_context account rule.id in
      let (_, e0, r0) = >>=-eq-ok (require_auth (auth account)) _ h in
      let (_, e1, r1) = >>=-eq-ok (panic_if (length signers == 0) _) _ r0 in
      let (found, e2, r2) = >>=-eq-ok (get_conditions d rule.id account w.store) _ r1 in
      let (stored, e3, r3) = >>=-eq-ok (unwrap_or_panic (d.get key w.store) _) _ e2 in
      let same = ok-injective r3 in
      let (c, is_contract, e4) =
        contract_only context rule account found.0 (record w { store = found.1 }) w' r2 in
      let (conds, e5, r5) = >>=-eq-ok (unwrap_or_panic (conditions_of found.0 c.fn_name) _) _ e4 in
      let (_, e6, r6) = >>=-eq-ok (check_conditions v c.args conds) _ r5 in
      let end = sym (ok-injective r6) in
      (
        c,
        is_contract,
        ground arith,
        record {
          authorized = ground arith;
          stored = stored;
          installed = unwrap_or_panic-eq-ok _ _ e3;
          conditions = conds;
          configured = ap (λ f. conditions_of f.0 c.fn_name) same ∙ unwrap_or_panic-eq-ok _ _ e5;
          met = (check_conditions_iff v c.args conds).0 e6;
        },
        ap (λ x. x.events) end,
        λ k.
            ap (λ x. d.get k x.store) end
            ∙ subst (λ f. d.get k f.1 ≡ d.get k w.store) same (d.get-extend_ttl k key _ _ w.store),
      )

  -- The state after a permitted call: a lifetime extended, and one event for the function.
  abbrev pub after_call : ContextRule → Address → Symbol → World d.State Event → World d.State Event
  after_call rule account fn_name w = record {
    store =
        d.extend_ttl (account_context account rule.id) parameter_scoped_ttl_threshold
          parameter_scoped_extend_amount w.store;
    events = w.events ++ conditions_enforced account rule.id fn_name ∷ [];
  }

  -- Every permitted call is let through, and publishes the event for its function.
  IsAllowed-enforce :
      (auth : Auth) (c : ContractContext Val) (signers : List Signer) (rule : ContextRule)
      (account : Address) (w : World d.State Event)
      → 1 ≤ length signers
      → IsAllowed auth c rule account w
      → enforce d v auth (contract c) signers rule account w
        ≡ ok (after_call rule account c.fn_name w)
  unfolding enforce get_conditions enforce_call
  IsAllowed-enforce auth c [] rule account w none_signed h = absurd (omega (arith, none_signed))
  IsAllowed-enforce auth c (signer ∷ signers) rule account w signed h =
      let checked = (check_conditions_iff v c.args h.conditions).1 h.met in
      ground (arith, h.authorized, h.installed, h.configured, checked)

  -- The conditions decide: `enforce` lets a call through exactly if it is a contract call that the
  -- account has authorized, with some authenticated signer, conditions are installed for the account
  -- and the rule and configured for the function called, and the arguments meet every one of them; it
  -- then publishes one event for the function and, but for the lifetime of the entry, leaves what is
  -- stored as it was.
  pub enforce-IsAllowed_iff :
      (auth : Auth) (context : Context Val) (signers : List Signer) (rule : ContextRule)
      (account : Address) (w w' : World d.State Event)
      → (enforce d v auth context signers rule account w ≡ ok w') ↔ (
          (c : ContractContext Val) × (context ≡ contract c)
          × (1 ≤ length signers)
          × IsAllowed auth c rule account w
          × (w' ≡ after_call rule account c.fn_name w))
  enforce-IsAllowed_iff auth context signers rule account w w' = (
    λ h.
        let (c, is_contract, signed, good, _, _) =
          enforce-IsAllowed auth context signers rule account w w' h in
        let made = IsAllowed-enforce auth c signers rule account w signed good in
        (c, is_contract, signed, good, ok-injective (sym h ∙ rw is_contract made)),
    λ (c, is_contract, signed, good, same).
        rw (is_contract, same) (IsAllowed-enforce auth c signers rule account w signed good),
  )

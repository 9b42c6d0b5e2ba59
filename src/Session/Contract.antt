-- ===== src/Session/Contract.antt =====
-- The contract of policies/session-policy/src/lib.rs as an implementation of `Policy`.
use latch_contracts.Base.{
  ℕ, ◌≡◌, Bool, false, Option, none, some, List, arith, length, leb, ◌&&◌, if◌then◌else◌,
}
use latch_contracts.Soroban.{
  Address, Symbol, Auth, Context, contract, other, ContextRule, Signer, is_call_contract, World,
  Storage,
}
use latch_contracts.Policies.{Policy, Does, installed_from, enforced_from, uninstalled_from}
use latch_contracts.Policies.Entries.{set-Others, remove-Others, extend_ttl-Others}
use latch_contracts.Session.{
  Event, SessionAccountParams, SessionData, SessionError, SessionStorageKey, account_context,
  contains, enforce, enforce_call, get_allowed_fns, install, uninstall, session_ttl_threshold,
  session_extend_amount,
}

pub key-injective :
    (a b : Address) (i j : ℕ) → account_context a i ≡ account_context b j → (a ≡ b) × (i ≡ j)
key-injective a b i j e = (cc, cc)

-- An install of one to ten functions on a rule for one contract.
abbrev pub accepts : ContextRule → SessionAccountParams → Option SessionData
accepts rule params =
    if is_call_contract rule.context_type
      && (leb 1 (length params.allowed_fns) && leb (length params.allowed_fns) 10)
    then some (record { allowed_fns = params.allowed_fns })
    else none

-- A contract call of a listed function.
abbrev pub is_listed : {Val : Type 0} → Context Val → List Symbol → Bool
is_listed other fns = false
is_listed (contract c) fns = contains fns c.fn_name

-- Such a call, with some authenticated signer. It changes nothing.
abbrev pub allows : {Val : Type 0} → Context Val → List Signer → SessionData → Option SessionData
allows context signers stored =
    if leb 1 (length signers) && is_listed context stored.allowed_fns then some stored else none

module _ (d : Storage SessionStorageKey SessionData) where
  abbrev pub lookup : Address → ℕ → World d.State Event → Option SessionData
  lookup a i w = d.get (account_context a i) w.store

  pub install-Does :
      (auth : Auth) (params : SessionAccountParams) (rule : ContextRule) (account : Address)
      (w : World d.State Event)
      → Does lookup account rule.id w
          (installed_from (auth account) (accepts rule params) (lookup account rule.id w))
          (install d auth params rule account w)
  unfolding install
  install-Does auth params rule account w =
      let stored : SessionData = record { allowed_fns = params.allowed_fns } in
      let set = d.get-set_self (account_context account rule.id) stored w.store in
      let rest = set-Others d account_context key-injective account rule.id stored w.store in
      ground (arith, set, rest)

  pub uninstall-Does :
      (auth : Auth) (rule : ContextRule) (account : Address) (w : World d.State Event)
      → Does lookup account rule.id w
          (uninstalled_from (auth account) (lookup account rule.id w))
          (uninstall d auth rule account w)
  unfolding uninstall
  uninstall-Does auth rule account w =
      let removed = d.get-remove_self (account_context account rule.id) w.store in
      let rest = remove-Others d account_context key-injective account rule.id w.store in
      ground (arith, removed, rest)

  pub enforce-Does :
      {Val : Type 0} (auth : Auth) (context : Context Val) (signers : List Signer)
      (rule : ContextRule) (account : Address) (w : World d.State Event)
      → Does lookup account rule.id w
          (enforced_from (auth account) (allows context signers) (lookup account rule.id w))
          (enforce d auth context signers rule account w)
  unfolding enforce enforce_call get_allowed_fns
  enforce-Does auth context signers rule account w =
      let key = account_context account rule.id in
      let kept = d.get-extend_ttl key key session_ttl_threshold session_extend_amount w.store in
      let rest =
        extend_ttl-Others d account_context key-injective account rule.id session_ttl_threshold
          session_extend_amount w.store in
      ground (arith, kept, rest)

  -- `impl Policy for SessionPolicy`
  abbrev pub session_policy : (Val : Type 0) → Policy Val
  session_policy Val = record {
    State = World d.State Event;
    Params = SessionAccountParams;
    Stored = SessionData;
    Error = SessionError;
    Facts = Unit {0};
    Config = ⊥;
    lookup = lookup;
    accepts = λ _. accepts;
    allows = λ _. allows;
    enforce = λ _. enforce d;
    install = λ _. install d;
    configured = λ c. absurd c;
    configure = λ _ c. absurd c;
    configure-Does = λ _ c. absurd c;
    uninstall = uninstall d;
    install-Does = λ _. install-Does;
    enforce-Does = λ _. enforce-Does;
    uninstall-Does = uninstall-Does;
  }

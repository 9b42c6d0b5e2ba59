-- ===== src/Session.antt =====
-- The session policy, policies/session-policy/src/allowlist.rs, with the contract of
-- policies/session-policy/src/lib.rs that forwards to it.
pub mod Log
pub mod Replay
pub mod Decisions
pub mod Contract
mod Tests
use latch_contracts.Base.{
  ℕ, ◌-◌, ◌*◌, Bool, true, false, List, [], ◌∷◌, ◌++◌, ltb, ◌==◌, ◌||◌, not, str_eq, length,
}
use latch_contracts.Soroban.{
  Address, Symbol, Auth, Context, contract, other, ContextRule, Signer, is_call_contract, World,
  Outcome, ok, panic, trap, ◌>>=◌, ◌>>◌, panic_if, require_auth, unwrap_or_panic, Storage, has,
}

pub data Event : Type 0 where
  session_enforced : Address → ℕ → Symbol → Event
  session_installed : Address → ℕ → List Symbol → Event
  session_uninstalled : Address → ℕ → Event

pub record SessionAccountParams : Type 0 where
  pub allowed_fns : List Symbol

pub record SessionData : Type 0 where
  pub allowed_fns : List Symbol

pub data SessionError : Type 0 where
  smart_account_not_installed only_call_contract_allowed invalid_allowed_fns : SessionError
  method_not_allowed already_installed : SessionError

pub data SessionStorageKey : Type 0 where
  account_context : Address → ℕ → SessionStorageKey

abbrev pub session_extend_amount : ℕ
session_extend_amount = 30 * 17280

abbrev pub session_ttl_threshold : ℕ
session_ttl_threshold = session_extend_amount - 17280

abbrev pub max_allowed_fns : ℕ
max_allowed_fns = 10

-- `allowed_fns.contains(fn_name)`
unfoldable pub contains : List Symbol → Symbol → Bool
contains [] fn_name = false
contains (f ∷ fs) fn_name = str_eq f fn_name || contains fs fn_name

module _ (d : Storage SessionStorageKey SessionData) where
  -- The list, and the state with its lifetime extended.
  pub get_allowed_fns : ℕ → Address → d.State → Outcome SessionError (List Symbol × d.State)
  get_allowed_fns context_rule_id smart_account s = do
    let key = account_context smart_account context_rule_id
    stored ← unwrap_or_panic (d.get key s) smart_account_not_installed
    ok (stored.allowed_fns, d.extend_ttl key session_ttl_threshold session_extend_amount s)

  -- The `match` on the context at the end of `enforce`.
  pub enforce_call :
      {Val : Type 0}
      → Context Val
      → ContextRule
      → Address
      → List Symbol
      → World d.State Event
      → Outcome SessionError (World d.State Event)
  enforce_call other context_rule smart_account allowed_fns w = panic method_not_allowed
  enforce_call (contract c) context_rule smart_account allowed_fns w =
      panic_if (not (contains allowed_fns c.fn_name)) method_not_allowed
      >> ok (record w {
        events = w.events ++ session_enforced smart_account context_rule.id c.fn_name ∷ [];
      })

  pub enforce :
      {Val : Type 0}
      → Auth
      → Context Val
      → List Signer
      → ContextRule
      → Address
      → World d.State Event
      → Outcome SessionError (World d.State Event)
  unfolding get_allowed_fns enforce_call
  enforce auth context authenticated_signers context_rule smart_account w = do
    require_auth (auth smart_account)
    panic_if (length authenticated_signers == 0) method_not_allowed
    (allowed_fns, store') ← get_allowed_fns context_rule.id smart_account w.store
    enforce_call context context_rule smart_account allowed_fns (record w { store = store' })

  pub install :
      Auth
      → SessionAccountParams
      → ContextRule
      → Address
      → World d.State Event
      → Outcome SessionError (World d.State Event)
  install auth params context_rule smart_account w = do
    require_auth (auth smart_account)
    panic_if (not (is_call_contract context_rule.context_type)) only_call_contract_allowed
    panic_if (length params.allowed_fns == 0 || ltb max_allowed_fns (length params.allowed_fns))
        invalid_allowed_fns
    let key = account_context smart_account context_rule.id
    panic_if (has d key w.store) already_installed
    ok (record w {
      store = d.set key (record { allowed_fns = params.allowed_fns }) w.store;
      events = w.events ++ session_installed smart_account context_rule.id params.allowed_fns ∷ [];
    })

  pub uninstall :
      Auth
      → ContextRule
      → Address
      → World d.State Event
      → Outcome SessionError (World d.State Event)
  uninstall auth context_rule smart_account w = do
    require_auth (auth smart_account)
    let key = account_context smart_account context_rule.id
    panic_if (not (has d key w.store)) smart_account_not_installed
    ok (record w {
      store = d.remove key w.store;
      events = w.events ++ session_uninstalled smart_account context_rule.id ∷ [];
    })

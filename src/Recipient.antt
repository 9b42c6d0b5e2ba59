-- ===== src/Recipient.antt =====
-- The recipient allowlist policy, policies/recipient-allowlist-policy/src/lib.rs. The host's conversion
-- of an argument to an address is a parameter.
pub mod Transfers
pub mod Lists
pub mod Contract
pub mod Bounds
mod Tests
use latch_contracts.Base.{
  ℕ, ◌-◌, ◌*◌, Bool, true, false, Option, List, [], ◌∷◌, ◌++◌, ltb, ◌==◌, ◌||◌, not, str_eq, length,
  get_elem?,
}
use latch_contracts.Soroban.{
  Address, Auth, Context, ContractContext, contract, other, ContextRule, Signer, is_call_contract,
  World, publish, Outcome, ok, panic, trap, ◌>>=◌, ◌>>◌, panic_if, require_auth, unwrap_or_panic,
  Storage, has,
}

pub data Event : Type 0 where
  recipient_enforced : Address → ℕ → Address → Event
  recipient_installed : Address → ℕ → List Address → Event
  recipient_uninstalled : Address → ℕ → Event

pub record RecipientAccountParams : Type 0 where
  pub allowed_recipients : List Address

pub record RecipientData : Type 0 where
  pub allowed_recipients : List Address

pub data RecipientError : Type 0 where
  smart_account_not_installed only_call_contract_allowed invalid_allowed_recipients : RecipientError
  recipient_not_allowed already_installed invalid_transfer_args : RecipientError

pub data RecipientStorageKey : Type 0 where
  account_context : Address → ℕ → RecipientStorageKey

abbrev pub recipient_extend_amount : ℕ
recipient_extend_amount = 30 * 17280

abbrev pub recipient_ttl_threshold : ℕ
recipient_ttl_threshold = recipient_extend_amount - 17280

abbrev pub max_allowed_recipients : ℕ
max_allowed_recipients = 10

-- `allowed_recipients.contains(recipient)`
unfoldable pub contains : List Address → Address → Bool
contains [] recipient = false
contains (r ∷ rs) recipient = r == recipient || contains rs recipient

abbrev pub emit_recipient_enforced :
    {State : Type 0} → Address → ℕ → Address → World State Event → World State Event
emit_recipient_enforced smart_account context_rule_id recipient =
    publish (recipient_enforced smart_account context_rule_id recipient)

abbrev pub emit_recipient_installed :
    {State : Type 0} → Address → ℕ → List Address → World State Event → World State Event
emit_recipient_installed smart_account context_rule_id allowed_recipients =
    publish (recipient_installed smart_account context_rule_id allowed_recipients)

abbrev pub emit_recipient_uninstalled :
    {State : Type 0} → Address → ℕ → World State Event → World State Event
emit_recipient_uninstalled smart_account context_rule_id =
    publish (recipient_uninstalled smart_account context_rule_id)

module _ (d : Storage RecipientStorageKey RecipientData) where
  -- The list, and the state with its lifetime extended.
  pub get_allowed_recipients :
      ℕ → Address → d.State → Outcome RecipientError (List Address × d.State)
  get_allowed_recipients context_rule_id smart_account s = do
    let key = account_context smart_account context_rule_id
    stored ← unwrap_or_panic (d.get key s) smart_account_not_installed
    ok (
      stored.allowed_recipients,
      d.extend_ttl key recipient_ttl_threshold recipient_extend_amount s,
    )

  -- The recipient of a call of `transfer(from, to, amount)`.
  pub recipient_of :
      {Val : Type 0} → (Val → Option Address) → ContractContext Val → Outcome RecipientError Address
  recipient_of to_address c = do
    panic_if (not (str_eq c.fn_name "transfer")) recipient_not_allowed
    to_val ← unwrap_or_panic (get_elem? c.args 1) invalid_transfer_args
    unwrap_or_panic (to_address to_val) invalid_transfer_args

  -- The `match` on the context at the end of `enforce`.
  pub enforce_call :
      {Val : Type 0}
      → (Val → Option Address)
      → Context Val
      → ContextRule
      → Address
      → List Address
      → World d.State Event
      → Outcome RecipientError (World d.State Event)
  unfolding recipient_of
  enforce_call to_address other context_rule smart_account allowed_recipients w =
      panic recipient_not_allowed
  enforce_call to_address (contract c) context_rule smart_account allowed_recipients w = do
    recipient ← recipient_of to_address c
    panic_if (not (contains allowed_recipients recipient)) recipient_not_allowed
    ok (emit_recipient_enforced smart_account context_rule.id recipient w)

  pub enforce :
      {Val : Type 0}
      → (Val → Option Address)
      → Auth
      → Context Val
      → List Signer
      → ContextRule
      → Address
      → World d.State Event
      → Outcome RecipientError (World d.State Event)
  unfolding get_allowed_recipients enforce_call
  enforce to_address auth context authenticated_signers context_rule smart_account w = do
    require_auth (auth smart_account)
    panic_if (length authenticated_signers == 0) recipient_not_allowed
    (allowed_recipients, store') ← get_allowed_recipients context_rule.id smart_account w.store
    enforce_call to_address context context_rule smart_account allowed_recipients
        (record w { store = store' })

  pub install :
      Auth
      → RecipientAccountParams
      → ContextRule
      → Address
      → World d.State Event
      → Outcome RecipientError (World d.State Event)
  install auth params context_rule smart_account w = do
    require_auth (auth smart_account)
    panic_if (not (is_call_contract context_rule.context_type)) only_call_contract_allowed
    panic_if
        (length params.allowed_recipients == 0
          || ltb max_allowed_recipients (length params.allowed_recipients))
        invalid_allowed_recipients
    let key = account_context smart_account context_rule.id
    panic_if (has d key w.store) already_installed
    ok (
        emit_recipient_installed smart_account context_rule.id params.allowed_recipients (record w {
          store = d.set key (record { allowed_recipients = params.allowed_recipients }) w.store;
        }))

  pub uninstall :
      Auth
      → ContextRule
      → Address
      → World d.State Event
      → Outcome RecipientError (World d.State Event)
  uninstall auth context_rule smart_account w = do
    require_auth (auth smart_account)
    let key = account_context smart_account context_rule.id
    panic_if (not (has d key w.store)) smart_account_not_installed
    ok (
        emit_recipient_uninstalled smart_account context_rule.id
          (record w { store = d.remove key w.store }))

  -- It publishes no event.
  pub set_allowed_recipients :
      Auth
      → List Address
      → ℕ
      → Address
      → World d.State Event
      → Outcome RecipientError (World d.State Event)
  set_allowed_recipients auth allowed_recipients context_rule_id smart_account w = do
    require_auth (auth smart_account)
    panic_if
        (length allowed_recipients == 0 || ltb max_allowed_recipients (length allowed_recipients))
        invalid_allowed_recipients
    let key = account_context smart_account context_rule_id
    panic_if (not (has d key w.store)) smart_account_not_installed
    ok (record w { store = d.set key (record { allowed_recipients = allowed_recipients }) w.store })

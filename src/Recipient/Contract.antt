-- ===== src/Recipient/Contract.antt =====
-- The contract of policies/recipient-allowlist-policy/src/lib.rs as an implementation of `Policy`.
use latch_contracts.Base.{
  ℕ, ◌≡◌, Bool, false, Option, none, some, List, arith, length, leb, ◌&&◌, str_eq, get_elem?,
  if◌then◌else◌,
}
use latch_contracts.Soroban.{
  Address, Auth, Context, contract, other, ContextRule, Signer, is_call_contract, World, Storage,
}
use latch_contracts.Policies.{Policy, Does, installed_from, enforced_from, uninstalled_from}
use latch_contracts.Policies.Entries.{set-Others, remove-Others, extend_ttl-Others}
use latch_contracts.Recipient.{
  Event, RecipientAccountParams, RecipientData, RecipientError, RecipientStorageKey,
  account_context, contains, enforce, enforce_call, recipient_of, get_allowed_recipients, install,
  uninstall, set_allowed_recipients, recipient_ttl_threshold, recipient_extend_amount,
}

pub key-injective :
    (a b : Address) (i j : ℕ) → account_context a i ≡ account_context b j → (a ≡ b) × (i ≡ j)
key-injective a b i j e = (cc, cc)

-- An install of one to ten recipients on a rule for one contract.
abbrev pub accepts : ContextRule → RecipientAccountParams → Option RecipientData
accepts rule params =
    if is_call_contract rule.context_type
      && (leb 1 (length params.allowed_recipients) && leb (length params.allowed_recipients) 10)
    then some (record { allowed_recipients = params.allowed_recipients })
    else none

abbrev pub bind : {A B : Type 0} → Option A → (A → Option B) → Option B
bind none f = none
bind (some a) f = f a

abbrev pub is_listed : Option Address → List Address → Bool
is_listed none rs = false
is_listed (some to) rs = contains rs to

-- A call of `transfer` to a listed recipient, the second argument.
abbrev pub pays_listed : {Val : Type 0} → (Val → Option Address) → Context Val → List Address → Bool
pays_listed to_address other rs = false
pays_listed to_address (contract c) rs =
    str_eq c.fn_name "transfer" && is_listed (bind (get_elem? c.args 1) to_address) rs

-- Such a call, with some authenticated signer. It changes nothing.
abbrev pub allows :
    {Val : Type 0}
    → (Val → Option Address)
    → Context Val
    → List Signer
    → RecipientData
    → Option RecipientData
allows to_address context signers stored =
    if leb 1 (length signers) && pays_listed to_address context stored.allowed_recipients
    then some stored
    else none

-- One to ten recipients take the place of those that are stored.
abbrev pub replaces : List Address → RecipientData → Option RecipientData
replaces recipients stored =
    if leb 1 (length recipients) && leb (length recipients) 10
    then some (record { allowed_recipients = recipients })
    else none

module _ (d : Storage RecipientStorageKey RecipientData) where
  abbrev pub lookup : Address → ℕ → World d.State Event → Option RecipientData
  lookup a i w = d.get (account_context a i) w.store

  pub install-Does :
      (auth : Auth) (params : RecipientAccountParams) (rule : ContextRule) (account : Address)
      (w : World d.State Event)
      → Does lookup account rule.id w
          (installed_from (auth account) (accepts rule params) (lookup account rule.id w))
          (install d auth params rule account w)
  unfolding install
  install-Does auth params rule account w =
      let stored : RecipientData = record { allowed_recipients = params.allowed_recipients } in
      let set = d.get-set_self (account_context account rule.id) stored w.store in
      let rest = set-Others d account_context key-injective account rule.id stored w.store in
      ground (arith, set, rest)

  pub uninstall-Does :
      (auth : Auth) (rule : ContextRule) (account : Address) (w : World d.State Event)
      → Does lookup account rule.id w
          (uninstalled_from (auth account) (lookup account rule.id w))
          (uninstall d auth rule account w)
  unfolding uninstall
  uninstall-Does auth rule account w =
      let removed = d.get-remove_self (account_context account rule.id) w.store in
      let rest = remove-Others d account_context key-injective account rule.id w.store in
      ground (arith, removed, rest)

  pub enforce-Does :
      {Val : Type 0} (to_address : Val → Option Address) (auth : Auth) (context : Context Val)
      (signers : List Signer) (rule : ContextRule) (account : Address) (w : World d.State Event)
      → Does lookup account rule.id w
          (enforced_from
            (auth account)
            (allows to_address context signers)
            (lookup account rule.id w))
          (enforce d to_address auth context signers rule account w)
  unfolding enforce enforce_call recipient_of get_allowed_recipients
  enforce-Does to_address auth context signers rule account w =
      let key = account_context account rule.id in
      let kept = d.get-extend_ttl key key recipient_ttl_threshold recipient_extend_amount w.store in
      let rest =
        extend_ttl-Others d account_context key-injective account rule.id recipient_ttl_threshold
          recipient_extend_amount w.store in
      ground (arith, kept, rest)

  pub set_allowed_recipients-Does :
      (auth : Auth) (recipients : List Address) (rule : ContextRule) (account : Address)
      (w : World d.State Event)
      → Does lookup account rule.id w
          (enforced_from (auth account) (replaces recipients) (lookup account rule.id w))
          (set_allowed_recipients d auth recipients rule.id account w)
  unfolding set_allowed_recipients
  set_allowed_recipients-Does auth recipients rule account w =
      let stored : RecipientData = record { allowed_recipients = recipients } in
      let set = d.get-set_self (account_context account rule.id) stored w.store in
      let rest = set-Others d account_context key-injective account rule.id stored w.store in
      ground (arith, set, rest)

  -- The contract, with its `set_allowed_recipients`.
  abbrev pub recipient_policy : (Val : Type 0) → (Val → Option Address) → Policy Val
  recipient_policy Val to_address = record {
    State = World d.State Event;
    Params = RecipientAccountParams;
    Stored = RecipientData;
    Error = RecipientError;
    Facts = Unit {0};
    Config = List Address;
    lookup = lookup;
    accepts = λ _. accepts;
    allows = λ _. allows to_address;
    enforce = λ _. enforce d to_address;
    install = λ _. install d;
    configured = replaces;
    configure = λ auth recipients rule. set_allowed_recipients d auth recipients rule.id;
    configure-Does = set_allowed_recipients-Does;
    uninstall = uninstall d;
    install-Does = λ _. install-Does;
    enforce-Does = λ _. enforce-Does to_address;
    uninstall-Does = uninstall-Does;
  }

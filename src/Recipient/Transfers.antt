-- ===== src/Recipient/Transfers.antt =====
-- The transfers that policies/recipient-allowlist-policy/src/lib.rs lets through.
use latch_contracts.Base.{
  ◌≤◌, ◌≡◌, ◌↔◌, refl, sym, ap, subst, ◌∙◌, true, Option, some, List, [], ◌∷◌, ◌++◌, arith, length,
  ◌==◌, not, get_elem?, str_eq, eq_iff,
}
use latch_contracts.Soroban.{
  Address, Auth, Context, ContractContext, contract, other, ContextRule, Signer, World, ok, Storage,
  >>=-eq-ok, ok-injective, panic_if, require_auth, unwrap_or_panic, unwrap_or_panic-eq-ok,
}
use latch_contracts.Recipient.{
  Event, recipient_enforced, RecipientData, RecipientStorageKey, account_context, contains,
  get_allowed_recipients, recipient_of, enforce_call, enforce, recipient_ttl_threshold,
  recipient_extend_amount,
}

module _ (d : Storage RecipientStorageKey RecipientData) {Val : Type 0}
    (to_address : Val → Option Address) where
  -- What `enforce` needs of a call that pays `to`, and of the stored list.
  pub record IsPermitted (auth : Auth) (c : ContractContext Val) (rule : ContextRule)
      (account to : Address) (w : World d.State Event) : Type 0 where
    pub authorized : auth account ≡ true
    pub stored : RecipientData
    pub installed : d.get (account_context account rule.id) w.store ≡ some stored
    pub transfer : c.fn_name ≡ "transfer"
    pub argument : Val
    pub second : get_elem? c.args 1 ≡ some argument
    pub address : to_address argument ≡ some to
    pub listed : contains stored.allowed_recipients to ≡ true

  contract_only :
      (context : Context Val) (rule : ContextRule) (account : Address) (fns : List Address)
      (w w' : World d.State Event)
      → enforce_call d to_address context rule account fns w ≡ ok w'
      → (c : ContractContext Val) × (context ≡ contract c)
        × (enforce_call d to_address (contract c) rule account fns w ≡ ok w')
  unfolding enforce_call
  contract_only other rule account fns w w' h = absurd (cc)
  contract_only (contract c) rule account fns w w' h = (c, refl, h)

  -- Only a permitted transfer is let through: it is a call of `transfer` that the account has
  -- authorized, with some authenticated signer, and its second argument is an address in the list
  -- installed for the account and the rule. It publishes one event for this address and leaves what is
  -- stored as it was.
  pub enforce-IsPermitted :
      (auth : Auth) (context : Context Val) (signers : List Signer) (rule : ContextRule)
      (account : Address) (w w' : World d.State Event)
      → enforce d to_address auth context signers rule account w ≡ ok w'
      → (c : ContractContext Val) × (to : Address) × (context ≡ contract c)
        × (1 ≤ length signers)
        × IsPermitted auth c rule account to w
        × (w'.events ≡ w.events ++ recipient_enforced account rule.id to ∷ [])
        × ((k : RecipientStorageKey) → d.get k w'.store ≡ d.get k w.store)
  unfolding enforce get_allowed_recipients enforce_call recipient_of
  enforce-IsPermitted auth context signers rule account w w' h =
      let key = account_context account rule.id in
      let (_, e0, r0) = >>=-eq-ok (require_auth (auth account)) _ h in
      let (_, e1, r1) = >>=-eq-ok (panic_if (length signers == 0) _) _ r0 in
      let (found, e2, r2) = >>=-eq-ok (get_allowed_recipients d rule.id account w.store) _ r1 in
      let (stored, e3, r3) = >>=-eq-ok (unwrap_or_panic (d.get key w.store) _) _ e2 in
      let same = ok-injective r3 in
      let (c, is_contract, e4) =
        contract_only context rule account found.0 (record w { store = found.1 }) w' r2 in
      let (to, e5, r5) = >>=-eq-ok (recipient_of d to_address c) _ e4 in
      let (_, e6, r6) = >>=-eq-ok (panic_if (not (contains found.0 to)) _) _ r5 in
      let (_, e7, r7) = >>=-eq-ok (panic_if (not (str_eq c.fn_name "transfer")) _) _ e5 in
      let (argument, e8, r8) = >>=-eq-ok (unwrap_or_panic (get_elem? c.args 1) _) _ r7 in
      let is_transfer : str_eq c.fn_name "transfer" ≡ true = ground arith in
      let is_listed : contains found.0 to ≡ true = ground arith in
      let end = sym (ok-injective r6) in
      (
        c,
        to,
        is_contract,
        ground arith,
        record {
          authorized = ground arith;
          stored = stored;
          installed = unwrap_or_panic-eq-ok _ _ e3;
          transfer = (eq_iff c.fn_name "transfer").0 is_transfer;
          argument = argument;
          second = unwrap_or_panic-eq-ok _ _ e8;
          address = unwrap_or_panic-eq-ok _ _ r8;
          listed = ap (λ f. contains f.0 to) same ∙ is_listed;
        },
        ap (λ x. x.events) end,
        λ k.
            ap (λ x. d.get k x.store) end
            ∙ subst (λ f. d.get k f.1 ≡ d.get k w.store) same (d.get-extend_ttl k key _ _ w.store),
      )

  -- The state after a permitted transfer: a lifetime extended, and one event for the recipient.
  abbrev pub after_transfer :
      ContextRule → Address → Address → World d.State Event → World d.State Event
  after_transfer rule account to w = record {
    store =
        d.extend_ttl (account_context account rule.id) recipient_ttl_threshold
          recipient_extend_amount w.store;
    events = w.events ++ recipient_enforced account rule.id to ∷ [];
  }

  -- Every permitted transfer is let through, and publishes the event for its recipient.
  IsPermitted-enforce :
      (auth : Auth) (c : ContractContext Val) (signers : List Signer) (rule : ContextRule)
      (account to : Address) (w : World d.State Event)
      → 1 ≤ length signers
      → IsPermitted auth c rule account to w
      → enforce d to_address auth (contract c) signers rule account w
        ≡ ok (after_transfer rule account to w)
  unfolding enforce get_allowed_recipients enforce_call recipient_of
  IsPermitted-enforce auth c [] rule account to w none_signed h =
      absurd (omega (arith, none_signed))
  IsPermitted-enforce auth c (signer ∷ signers) rule account to w signed h =
      let named = (eq_iff c.fn_name "transfer").1 h.transfer in
      ground (arith, h.authorized, h.installed, named, h.second, h.address, h.listed)

  -- The allowlist decides: `enforce` lets a call through exactly if it is a call of `transfer` that the
  -- account has authorized, with some authenticated signer, and its second argument is an address in
  -- the list installed for the account and the rule; it then publishes one event for this address
  -- and, but for the lifetime of the entry, leaves what is stored as it was.
  pub enforce-IsPermitted_iff :
      (auth : Auth) (context : Context Val) (signers : List Signer) (rule : ContextRule)
      (account : Address) (w w' : World d.State Event)
      → (enforce d to_address auth context signers rule account w ≡ ok w') ↔ (
          (c : ContractContext Val) × (to : Address) × (context ≡ contract c)
          × (1 ≤ length signers)
          × IsPermitted auth c rule account to w
          × (w' ≡ after_transfer rule account to w))
  enforce-IsPermitted_iff auth context signers rule account w w' = (
    λ h.
        let (c, to, is_contract, signed, good, _, _) =
          enforce-IsPermitted auth context signers rule account w w' h in
        let made = IsPermitted-enforce auth c signers rule account to w signed good in
        (c, to, is_contract, signed, good, ok-injective (sym h ∙ rw is_contract made)),
    λ (c, to, is_contract, signed, good, same).
        rw (is_contract, same) (IsPermitted-enforce auth c signers rule account to w signed good),
  )

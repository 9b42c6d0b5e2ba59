-- ===== src/Recipient/Lists.antt =====
-- The lists that policies/recipient-allowlist-policy/src/lib.rs stores: their bounds, and what
-- replacing one leaves alone.
use latch_contracts.Base.{
  ℕ, ◌≤◌, ◌≡◌, ◌⊎◌, inl, inr, sym, ap, subst, true, none, some, List, arith, ℕ_discrete, length,
  ◌==◌, ltb, ◌||◌, not, is_some,
}
use latch_contracts.Soroban.{
  Address, Auth, ContextRule, World, ok, Storage, >>=-eq-ok, ok-injective, panic_if, require_auth,
  is_call_contract,
}
use latch_contracts.Recipient.{
  Event, RecipientAccountParams, RecipientData, RecipientStorageKey, account_context,
  max_allowed_recipients, install, set_allowed_recipients,
}

instance key_discrete : Discrete RecipientStorageKey
key_discrete = hlevel (ℕ_discrete)

module _ (d : Storage RecipientStorageKey RecipientData) where
  -- Whatever is stored lists one to ten recipients.
  abbrev pub IsBounded : List Address → Type 0
  IsBounded rs = (1 ≤ length rs) × (length rs ≤ max_allowed_recipients)

  -- What replaces one entry and leaves the others.
  pub record Replaces (key : RecipientStorageKey) (rs : List Address) (w w' : World d.State Event)
      : Type 0 where
    pub bounded : IsBounded rs
    pub stored : d.get key w'.store ≡ some (record { allowed_recipients = rs })
    pub others : (k : RecipientStorageKey) → (k ≡ key) ⊎ (d.get k w'.store ≡ d.get k w.store)

  set-others :
      (key k : RecipientStorageKey) (v : RecipientData) (s : d.State)
      → (k ≡ key) ⊎ (d.get k (d.set key v s) ≡ d.get k s)
  set-others key k v s = elim (key_discrete k key) [
    | yes p ↦ inl p
    | no n ↦ inr (d.get-set_ne k key v s n)
  ]

  -- A list can be replaced exactly where one is installed: a successful `set_allowed_recipients` was
  -- authorized by the account, found a list installed for the account and the rule, and stores a list
  -- of one to ten recipients in its place, with every other entry as it was. It publishes nothing.
  pub set_allowed_recipients-Replaces :
      (auth : Auth) (rs : List Address) (id : ℕ) (account : Address) (w w' : World d.State Event)
      → set_allowed_recipients d auth rs id account w ≡ ok w'
      → (auth account ≡ true)
        × (is_some (d.get (account_context account id) w.store) ≡ true)
        × (w'.events ≡ w.events)
        × Replaces (account_context account id) rs w w'
  unfolding set_allowed_recipients
  set_allowed_recipients-Replaces auth rs id account w w' h =
      let key = account_context account id in
      let (_, e0, r0) = >>=-eq-ok (require_auth (auth account)) _ h in
      let (_, e1, r1) =
        >>=-eq-ok (panic_if (length rs == 0 || ltb max_allowed_recipients (length rs)) _) _ r0 in
      let (_, e2, r2) = >>=-eq-ok (panic_if (not (is_some (d.get key w.store))) _) _ r1 in
      let end = ok-injective r2 in
      (
        ground arith,
        ground arith,
        ap (λ x. x.events) (sym end),
        subst (Replaces key rs w) end (record {
          bounded = (ground arith, ground arith);
          stored = d.get-set_self key _ w.store;
          others = λ k. set-others key k _ w.store;
        }),
      )

  -- A list can be installed only where none is: a successful `install` was authorized by the account,
  -- on a rule for one contract, found nothing installed for the account and the rule, and stores a list
  -- of one to ten recipients there, with every other entry as it was.
  pub install-Replaces :
      (auth : Auth) (params : RecipientAccountParams) (rule : ContextRule) (account : Address)
      (w w' : World d.State Event)
      → install d auth params rule account w ≡ ok w'
      → (auth account ≡ true)
        × (is_call_contract rule.context_type ≡ true)
        × (d.get (account_context account rule.id) w.store ≡ none)
        × Replaces (account_context account rule.id) params.allowed_recipients w w'
  unfolding install
  install-Replaces auth params rule account w w' h =
      let key = account_context account rule.id in
      let rs = params.allowed_recipients in
      let (_, e0, r0) = >>=-eq-ok (require_auth (auth account)) _ h in
      let (_, e1, r1) = >>=-eq-ok (panic_if (not (is_call_contract rule.context_type)) _) _ r0 in
      let (_, e2, r2) =
        >>=-eq-ok (panic_if (length rs == 0 || ltb max_allowed_recipients (length rs)) _) _ r1 in
      let (_, e3, r3) = >>=-eq-ok (panic_if (is_some (d.get key w.store)) _) _ r2 in
      (
        ground arith,
        ground arith,
        ground arith,
        subst (Replaces key rs w) (ok-injective r3) (record {
          bounded = (ground arith, ground arith);
          stored = d.get-set_self key _ w.store;
          others = λ k. set-others key k _ w.store;
        }),
      )

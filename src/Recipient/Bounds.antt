-- ===== src/Recipient/Bounds.antt =====
-- What is stored after any calls of policies/recipient-allowlist-policy/src/lib.rs.
use latch_contracts.Base.{
  ℕ, ◌≡◌, refl, inl, inr, sym, subst, Option, none, some, List, [], ◌∷◌, not, is_some, ℕ_discrete,
}
use latch_contracts.Soroban.{
  Address, Auth, Context, ContextRule, Signer, World, Outcome, ok, panic, trap, Storage, >>=-eq-ok,
  ok-injective, panic_if, require_auth,
}
use latch_contracts.Recipient.{
  Event, RecipientAccountParams, RecipientData, RecipientError, RecipientStorageKey,
  account_context, enforce, install, uninstall, set_allowed_recipients,
}
use latch_contracts.Recipient.Transfers.{enforce-IsPermitted}
use latch_contracts.Recipient.Lists.{
  IsBounded, Replaces, set_allowed_recipients-Replaces, install-Replaces,
}

instance key_discrete : Discrete RecipientStorageKey
key_discrete = hlevel (ℕ_discrete)

-- A call of the contract by anyone.
pub data Call (Val : Type 0) : Type 0 where
  enforce_by : Auth → Context Val → List Signer → ContextRule → Address → Call Val
  install_by : Auth → RecipientAccountParams → ContextRule → Address → Call Val
  uninstall_by : Auth → ContextRule → Address → Call Val
  set_by : Auth → List Address → ℕ → Address → Call Val

module _ (d : Storage RecipientStorageKey RecipientData) {Val : Type 0}
    (to_address : Val → Option Address) where
  pub perform : Call Val → World d.State Event → Outcome RecipientError (World d.State Event)
  perform (enforce_by auth context signers rule account) w =
      enforce d to_address auth context signers rule account w
  perform (install_by auth params rule account) w = install d auth params rule account w
  perform (uninstall_by auth rule account) w = uninstall d auth rule account w
  perform (set_by auth rs id account) w = set_allowed_recipients d auth rs id account w

module _ (d : Storage RecipientStorageKey RecipientData) where
  abbrev pub Fits : Option RecipientData → Type 0
  Fits none = Unit
  Fits (some stored) = IsBounded d stored.allowed_recipients

  -- Every stored list has one to ten recipients.
  pub record AllBounded (w : World d.State Event) : Type 0 where
    pub each : (k : RecipientStorageKey) → Fits (d.get k w.store)

  -- A call that fails leaves the world as it was.
  abbrev pub after :
      World d.State Event → Outcome RecipientError (World d.State Event) → World d.State Event
  after w (ok w') = w'
  after w (panic _) = w
  after w trap = w

  Replaces-AllBounded :
      (key : RecipientStorageKey) (rs : List Address) (w w' : World d.State Event)
      → AllBounded w
      → Replaces d key rs w w'
      → AllBounded w'
  Replaces-AllBounded key rs w w' h r = record {
    each = λ k. elim (r.others k) [
      | inl same ↦
          subst (λ j. Fits (d.get j w'.store)) (sym same) (subst Fits (sym r.stored) r.bounded)
      | inr kept ↦ subst Fits (sym kept) (h.each k)
    ];
  }

  uninstall-AllBounded :
      (auth : Auth) (rule : ContextRule) (account : Address) (w w' : World d.State Event)
      → AllBounded w
      → uninstall d auth rule account w ≡ ok w'
      → AllBounded w'
  unfolding uninstall
  uninstall-AllBounded auth rule account w w' h e =
      let key = account_context account rule.id in
      let (_, _, e1) = >>=-eq-ok (require_auth (auth account)) _ e in
      let (_, _, e2) = >>=-eq-ok (panic_if (not (is_some (d.get key w.store))) _) _ e1 in
      record {
        each = λ k.
            subst (λ x. Fits (d.get k x.store)) (ok-injective e2)
              (elim (key_discrete k key) [
                | yes p ↦
                    subst (λ j. Fits (d.get j (d.remove key w.store))) (sym p)
                      (subst Fits (sym (d.get-remove_self key w.store)) tt)
                | no n ↦ subst Fits (sym (d.get-remove_ne k key w.store n)) (h.each k)
              ]);
      }

  module _ {Val : Type 0} (to_address : Val → Option Address) where
    perform-AllBounded :
        (c : Call Val) (w w' : World d.State Event)
        → AllBounded w
        → perform d to_address c w ≡ ok w'
        → AllBounded w'
    unfolding perform
    perform-AllBounded (enforce_by auth context signers rule account) w w' h e =
        let (_, _, _, _, _, _, kept) =
          enforce-IsPermitted d to_address auth context signers rule account w w' e in
        record { each = λ k. subst Fits (sym (kept k)) (h.each k) }
    perform-AllBounded (install_by auth params rule account) w w' h e =
        let (_, _, _, r) = install-Replaces d auth params rule account w w' e in
        Replaces-AllBounded (account_context account rule.id) params.allowed_recipients w w' h r
    perform-AllBounded (uninstall_by auth rule account) w w' h e =
        uninstall-AllBounded auth rule account w w' h e
    perform-AllBounded (set_by auth rs id account) w w' h e =
        let (_, _, _, r) = set_allowed_recipients-Replaces d auth rs id account w w' e in
        Replaces-AllBounded (account_context account id) rs w w' h r

    after-AllBounded :
        (w : World d.State Event) (o : Outcome RecipientError (World d.State Event))
        → AllBounded w
        → ((w' : World d.State Event) → o ≡ ok w' → AllBounded w')
        → AllBounded (after w o)
    after-AllBounded w (ok w') h r = r w' refl
    after-AllBounded w (panic _) h r = h
    after-AllBounded w trap h r = h

    pub run : List (Call Val) → World d.State Event → World d.State Event
    run [] w = w
    run (c ∷ cs) w = run cs (after w (perform d to_address c w))

    run-keeps :
        (cs : List (Call Val)) (w : World d.State Event) → AllBounded w → AllBounded (run cs w)
    unfolding run
    run-keeps [] w h = h
    run-keeps (c ∷ cs) w h =
        run-keeps cs (after w (perform d to_address c w))
          (after-AllBounded w (perform d to_address c w) h (λ w' e. perform-AllBounded c w w' h e))

    -- Whatever calls anyone makes of a newly deployed policy, which stores nothing, every list that is
    -- stored afterwards has one to ten recipients.
    pub run-AllBounded :
        (cs : List (Call Val)) (w : World d.State Event)
        → ((k : RecipientStorageKey) → d.get k w.store ≡ none)
        → AllBounded (run cs w)
    run-AllBounded cs w empty =
        run-keeps cs w (record { each = λ k. subst Fits (sym (empty k)) tt })

-- ===== src/Session/Replay.antt =====
-- Sequences of calls of policies/session-policy/src/allowlist.rs against the allowlist that their events
-- rebuild.
use mathlib.Core.List.{append-nil, append_assoc, map-append}
use latch_contracts.Base.{
  ◌≡◌, refl, sym, ap, subst, fun_ext, ◌∙◌, Option, none, some, List, [], ◌∷◌, ◌++◌, map,
}
use latch_contracts.Soroban.{
  Address, Auth, Context, ContextRule, Signer, World, Outcome, ok, panic, trap, Storage,
}
use latch_contracts.Session.{
  Event, SessionAccountParams, SessionData, SessionError, SessionStorageKey, enforce, install,
  uninstall,
}
use latch_contracts.Session.Log.{
  enforcement, installation, removal, replay, replay-snoc, Legal, Legal-snoc, Permitted, apply,
  view, Refines, install-Refines, uninstall-Refines, enforce-Refines,
}

-- A call of the contract by anyone, and the event that it has to publish.
pub data Call (Val : Type 0) : Type 0 where
  enforce_by : Auth → Context Val → List Signer → ContextRule → Address → Call Val
  install_by : Auth → SessionAccountParams → ContextRule → Address → Call Val
  uninstall_by : Auth → ContextRule → Address → Call Val

abbrev pub announcement : {Val : Type 0} → Call Val → Option Event
announcement (enforce_by auth context signers rule account) = enforcement context rule account
announcement (install_by auth params rule account) = installation params rule account
announcement (uninstall_by auth rule account) = removal rule account

module _ (d : Storage SessionStorageKey SessionData) where
  -- A call that fails leaves the world as it was.
  abbrev pub after :
      World d.State Event → Outcome SessionError (World d.State Event) → World d.State Event
  after w (ok w') = w'
  after w (panic _) = w
  after w trap = w

  -- The events so far are legal from nothing installed, and rebuild what is stored.
  pub record IsLogged (w : World d.State Event) : Type 0 where
    pub legal : Legal w.events (λ _. none)
    pub rebuilt : (k : SessionStorageKey) → d.get k w.store ≡ replay w.events (λ _. none) k

  Refines-IsLogged :
      (w w' : World d.State Event)
      → IsLogged w
      → (a : Option Event) → Refines d a w w'
      → IsLogged w'
  Refines-IsLogged w w' h a r =
      let same : view d w ≡ replay w.events (λ _. none) = fun_ext h.rebuilt in
      record {
        legal =
            subst (λ es. Legal es (λ _. none)) (sym r.published)
              (Legal-snoc w.events r.event (λ _. none) h.legal
                (subst (Permitted r.event) same r.permitted));
        rebuilt = λ k.
            r.changed k
            ∙ ap (λ m. apply r.event m k) same
            ∙ sym (
                ap (λ m. m k)
                  (ap (λ es. replay es (λ _. none)) r.published
                    ∙ replay-snoc w.events r.event (λ _. none)));
      }

  after-IsLogged :
      (a : Option Event) (w : World d.State Event) (o : Outcome SessionError (World d.State Event))
      → IsLogged w
      → ((w' : World d.State Event) → o ≡ ok w' → Refines d a w w')
      → IsLogged (after w o)
  after-IsLogged a w (ok w') h r = Refines-IsLogged w w' h a (r w' refl)
  after-IsLogged a w (panic _) h r = h
  after-IsLogged a w trap h r = h

module _ (d : Storage SessionStorageKey SessionData) {Val : Type 0} where
  pub perform : Call Val → World d.State Event → Outcome SessionError (World d.State Event)
  perform (enforce_by auth context signers rule account) w =
      enforce d auth context signers rule account w
  perform (install_by auth params rule account) w = install d auth params rule account w
  perform (uninstall_by auth rule account) w = uninstall d auth rule account w

  pub run : List (Call Val) → World d.State Event → World d.State Event
  run [] w = w
  run (c ∷ cs) w = run cs (after d w (perform c w))

  abbrev pub taken : Call Val → Outcome SessionError (World d.State Event) → List (Call Val)
  taken c (ok _) = c ∷ []
  taken c (panic _) = []
  taken c trap = []

  -- The calls that go through, in their order.
  pub let_through : List (Call Val) → World d.State Event → List (Call Val)
  let_through [] w = []
  let_through (c ∷ cs) w = taken c (perform c w) ++ let_through cs (after d w (perform c w))

  pub perform-Refines :
      (c : Call Val) (w w' : World d.State Event)
      → perform c w ≡ ok w'
      → Refines d (announcement c) w w'
  unfolding perform
  perform-Refines (enforce_by auth context signers rule account) w w' h =
      enforce-Refines d auth context signers rule account w w' h
  perform-Refines (install_by auth params rule account) w w' h =
      install-Refines d auth params rule account w w' h
  perform-Refines (uninstall_by auth rule account) w w' h =
      uninstall-Refines d auth rule account w w' h

  run-keeps :
      (calls : List (Call Val)) (w : World d.State Event) → IsLogged d w → IsLogged d (run calls w)
  unfolding run
  run-keeps [] w h = h
  run-keeps (c ∷ cs) w h =
      run-keeps cs (after d w (perform c w))
        (after-IsLogged d (announcement c) w (perform c w) h (λ w' e. perform-Refines c w w' e))

  -- The event of one call, if it goes through.
  after-events :
      (c : Call Val) (w : World d.State Event) (o : Outcome SessionError (World d.State Event))
      → ((w' : World d.State Event) → o ≡ ok w' → Refines d (announcement c) w w')
      → map some (after d w o).events ≡ map some w.events ++ map announcement (taken c o)
  after-events c w (ok w') r =
      let made = r w' refl in
      rw (made.published, made.named) (map-append some w.events (made.event ∷ []))
  after-events c w (panic _) r = sym (append-nil (map some w.events))
  after-events c w trap r = sym (append-nil (map some w.events))

  run-events :
      (calls : List (Call Val)) (w : World d.State Event)
      → map some (run calls w).events ≡ map some w.events ++ map announcement (let_through calls w)
  unfolding run let_through
  run-events [] w = sym (append-nil (map some w.events))
  run-events (c ∷ cs) w =
      let one = after-events c w (perform c w) (λ w' e. perform-Refines c w w' e) in
      let rest = run-events cs (after d w (perform c w)) in
      simp (rest, one, map-append, append_assoc)

  -- Whatever calls anyone makes of a newly deployed policy, the published events tell the whole story.
  -- They are exactly those of the calls that went through, one for each and in their order: an
  -- enforcement names its account, its rule and the function called, an install its account, its rule
  -- and its functions, an uninstall its account and its rule, and a context that is not a contract call
  -- never went through. Replayed from nothing, they give exactly the lists that are stored, and each
  -- was permitted where it happened: so a call was let through only while its function was in the
  -- list last installed for its account and rule, a list was installed only where none was, with one
  -- to ten functions, and removed only where one was. The new policy stores nothing and has published
  -- nothing.
  pub run-IsLogged :
      (calls : List (Call Val)) (w : World d.State Event)
      → w.events ≡ []
      → ((k : SessionStorageKey) → d.get k w.store ≡ none)
      → IsLogged d (run calls w)
        × (map some (run calls w).events ≡ map announcement (let_through calls w))
  unfolding Legal replay
  run-IsLogged calls w new empty = (
    run-keeps calls w (record {
      legal = subst (λ es. Legal es (λ _. none)) (sym new) tt;
      rebuilt = λ k. empty k ∙ sym (ap (λ es. replay es (λ _. none) k) new);
    }),
    run-events calls w ∙ ap (λ es. map some es ++ map announcement (let_through calls w)) new,
  )

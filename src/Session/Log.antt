-- ===== src/Session/Log.antt =====
-- The event that each call of policies/session-policy/src/allowlist.rs has to publish, an abstract
-- allowlist that is rebuilt from the published events alone, and how each call changes it.
use latch_contracts.Base.{
  ◌≤◌, ◌≡◌, refl, ap, subst, ◌∙◌, true, Option, none, some, List, [], ◌∷◌, ◌++◌, arith, length, ltb,
  ◌==◌, ◌||◌, not, is_some, ℕ_discrete,
}
use latch_contracts.Soroban.{
  Address, Symbol, Auth, Context, contract, other, ContextRule, Signer, is_call_contract, World, ok,
  Storage, update, get-set, get-remove, >>=-eq-ok, ok-injective, panic_if, panic_if-is_some,
  require_auth, unwrap_or_panic, unwrap_or_panic-eq-ok,
}
use latch_contracts.Session.{
  Event, session_enforced, session_installed, session_uninstalled, SessionAccountParams,
  SessionData, SessionStorageKey, account_context, max_allowed_fns, contains, enforce, enforce_call,
  get_allowed_fns, install, uninstall,
}

instance pub key_discrete : Discrete SessionStorageKey
key_discrete = hlevel (ℕ_discrete)

-- The abstract state: what is installed for an account and a rule.
abbrev pub Allowlists : Type 0
Allowlists = SessionStorageKey → Option SessionData

-- What an event makes of the abstract state.
abbrev pub apply : Event → Allowlists → Allowlists
apply (session_enforced _ _ _) m = m
apply (session_installed account id fns) m =
    update key_discrete (account_context account id) (some (record { allowed_fns = fns })) m
apply (session_uninstalled account id) m = update key_discrete (account_context account id) none m

-- When an event may happen: a call only while a list with its function is installed, an install only
-- where nothing is and of one to ten functions, an uninstall only where something is.
abbrev pub Permitted : Event → Allowlists → Type 0
Permitted (session_enforced account id fn_name) m =
    (fns : List Symbol) × (m (account_context account id) ≡ some (record { allowed_fns = fns }))
    × (contains fns fn_name ≡ true)
Permitted (session_installed account id fns) m =
    (m (account_context account id) ≡ none) × (1 ≤ length fns) × (length fns ≤ max_allowed_fns)
Permitted (session_uninstalled account id) m =
    (stored : SessionData) × (m (account_context account id) ≡ some stored)

-- What an enforcement, an install and an uninstall that succeed have to publish. A context that is not
-- a contract call has no event, so it cannot be let through.
abbrev pub enforcement : {Val : Type 0} → Context Val → ContextRule → Address → Option Event
enforcement other rule account = none
enforcement (contract c) rule account = some (session_enforced account rule.id c.fn_name)

abbrev pub installation : SessionAccountParams → ContextRule → Address → Option Event
installation params rule account = some (session_installed account rule.id params.allowed_fns)

abbrev pub removal : ContextRule → Address → Option Event
removal rule account = some (session_uninstalled account rule.id)

unfoldable pub replay : List Event → Allowlists → Allowlists
replay [] m = m
replay (e ∷ es) m = replay es (apply e m)

unfoldable pub Legal : List Event → Allowlists → Type 0
Legal [] m = Unit
Legal (e ∷ es) m = Permitted e m × Legal es (apply e m)

pub replay-snoc :
    (es : List Event) (e : Event) (m : Allowlists) → replay (es ++ e ∷ []) m ≡ apply e (replay es m)
unfolding replay
replay-snoc [] e m = refl
replay-snoc (x ∷ es) e m = replay-snoc es e (apply x m)

pub Legal-snoc :
    (es : List Event) (e : Event) (m : Allowlists)
    → Legal es m
    → Permitted e (replay es m)
    → Legal (es ++ e ∷ []) m
unfolding Legal replay
Legal-snoc [] e m h p = (p, tt)
Legal-snoc (x ∷ es) e m h p = (h.0, Legal-snoc es e (apply x m) h.1 p)

module _ (d : Storage SessionStorageKey SessionData) where
  abbrev pub view : World d.State Event → Allowlists
  view w k = d.get k w.store

  -- A call that ends in `w'` publishes one event, the one it has to, which was permitted, and changes
  -- the stored lists the way the event says.
  pub record Refines (announced : Option Event) (w w' : World d.State Event) : Type 0 where
    pub event : Event
    pub named : announced ≡ some event
    pub published : w'.events ≡ w.events ++ event ∷ []
    pub permitted : Permitted event (view w)
    pub changed : (k : SessionStorageKey) → view w' k ≡ apply event (view w) k

  pub install-Refines :
      (auth : Auth) (params : SessionAccountParams) (rule : ContextRule) (account : Address)
      (w w' : World d.State Event)
      → install d auth params rule account w ≡ ok w'
      → Refines (installation params rule account) w w'
  unfolding install
  install-Refines auth params rule account w w' h =
      let key = account_context account rule.id in
      let (_, _, e1) = >>=-eq-ok (require_auth (auth account)) _ h in
      let (_, _, e2) = >>=-eq-ok (panic_if (not (is_call_contract rule.context_type)) _) _ e1 in
      let (_, e3, r3) =
        >>=-eq-ok
          (panic_if
            (length params.allowed_fns == 0 || ltb max_allowed_fns (length params.allowed_fns)) _)
          _ e2 in
      let (_, e4, r4) = >>=-eq-ok (panic_if (is_some (d.get key w.store)) _) _ r3 in
      subst (Refines (installation params rule account) w) (ok-injective r4) (record {
        event = session_installed account rule.id params.allowed_fns;
        named = refl;
        published = refl;
        permitted = (ground arith, ground arith, ground arith);
        changed = λ k. get-set key_discrete d key k _ w.store;
      })

  pub uninstall-Refines :
      (auth : Auth) (rule : ContextRule) (account : Address) (w w' : World d.State Event)
      → uninstall d auth rule account w ≡ ok w'
      → Refines (removal rule account) w w'
  unfolding uninstall
  uninstall-Refines auth rule account w w' h =
      let key = account_context account rule.id in
      let (_, _, e1) = >>=-eq-ok (require_auth (auth account)) _ h in
      let (_, e2, r2) = >>=-eq-ok (panic_if (not (is_some (d.get key w.store))) _) _ e1 in
      subst (Refines (removal rule account) w) (ok-injective r2) (record {
        event = session_uninstalled account rule.id;
        named = refl;
        published = refl;
        permitted = panic_if-is_some (d.get key w.store) _ e2;
        changed = λ k. get-remove key_discrete d key k w.store;
      })

  enforce_call-Refines :
      {Val : Type 0} (context : Context Val) (rule : ContextRule) (account : Address)
      (fns : List Symbol) (w w1 w' : World d.State Event)
      → view w (account_context account rule.id) ≡ some (record { allowed_fns = fns })
      → w1.events ≡ w.events
      → ((k : SessionStorageKey) → view w1 k ≡ view w k)
      → enforce_call d context rule account fns w1 ≡ ok w'
      → Refines (enforcement context rule account) w w'
  unfolding enforce_call
  enforce_call-Refines other rule account fns w w1 w' stored same kept h = absurd (cc)
  enforce_call-Refines (contract c) rule account fns w w1 w' stored same kept h =
      let (_, e1, r1) = >>=-eq-ok (panic_if (not (contains fns c.fn_name)) _) _ h in
      subst (Refines (enforcement (contract c) rule account) w) (ok-injective r1) (record {
        event = session_enforced account rule.id c.fn_name;
        named = refl;
        published = ap (λ es. es ++ session_enforced account rule.id c.fn_name ∷ []) same;
        permitted = (fns, stored, ground arith);
        changed = kept;
      })

  pub enforce-Refines :
      {Val : Type 0} (auth : Auth) (context : Context Val) (signers : List Signer)
      (rule : ContextRule) (account : Address) (w w' : World d.State Event)
      → enforce d auth context signers rule account w ≡ ok w'
      → Refines (enforcement context rule account) w w'
  unfolding enforce get_allowed_fns
  enforce-Refines auth context signers rule account w w' h =
      let key = account_context account rule.id in
      let (_, _, e1) = >>=-eq-ok (require_auth (auth account)) _ h in
      let (_, _, e2) = >>=-eq-ok (panic_if (length signers == 0) _) _ e1 in
      let (found, e3, r3) = >>=-eq-ok (get_allowed_fns d rule.id account w.store) _ e2 in
      let (stored, e4, r4) = >>=-eq-ok (unwrap_or_panic (d.get key w.store) _) _ e3 in
      let same = ok-injective r4 in
      enforce_call-Refines context rule account found.0 w (record w { store = found.1 }) w'
        (unwrap_or_panic-eq-ok _ _ e4 ∙ ap (λ f. some (record { allowed_fns = f.0 })) same) refl
        (λ k. subst (λ f. d.get k f.1 ≡ d.get k w.store) same (d.get-extend_ttl k key _ _ w.store))
        r3

-- ===== src/Session/Decisions.antt =====
-- Which calls policies/session-policy/src/allowlist.rs lets through, against the allowlist that its events
-- rebuild.
use latch_contracts.Base.{
  ◌==◌, ◌≡◌, ◌↔◌, ◌≤◌, length, refl, sym, ap, ◌∙◌, true, none, some, List, [], ◌∷◌, ◌++◌, arith,
}
use latch_contracts.Soroban.{
  Address, Symbol, Auth, Context, ContractContext, contract, ContextRule, Signer, World, ok,
  Storage, other, >>=-eq-ok, ok-injective, panic_if, require_auth, unwrap_or_panic,
  unwrap_or_panic-eq-ok,
}
use latch_contracts.Session.{
  Event, session_enforced, SessionData, SessionStorageKey, account_context, session_ttl_threshold,
  session_extend_amount, contains, enforce, enforce_call, get_allowed_fns,
}
use latch_contracts.Session.Log.{replay}
use latch_contracts.Session.Replay.{Call, run, run-IsLogged}

module _ (d : Storage SessionStorageKey SessionData) {Val : Type 0} where
  -- A call is let through when the account authorizes it, some signer is authenticated, and a list is
  -- installed for the account and the rule that has the function called.
  enforce-permits :
      (auth : Auth) (c : ContractContext Val) (signers : List Signer) (rule : ContextRule)
      (account : Address) (w : World d.State Event) (fns : List Symbol)
      → auth account ≡ true
      → 1 ≤ length signers
      → d.get (account_context account rule.id) w.store ≡ some (record { allowed_fns = fns })
      → contains fns c.fn_name ≡ true
      → (w' : World d.State Event) × (enforce d auth (contract c) signers rule account w ≡ ok w')
  unfolding enforce get_allowed_fns enforce_call
  enforce-permits auth c [] rule account w fns a none_signed stored found =
      absurd (omega (arith, none_signed))
  enforce-permits auth c (signer ∷ signers) rule account w fns a signed stored found = (
    record {
      store =
          d.extend_ttl (account_context account rule.id) session_ttl_threshold session_extend_amount
            w.store;
      events = w.events ++ session_enforced account rule.id c.fn_name ∷ [];
    },
    ground (arith, a, stored, found),
  )

  call_permitted :
      (context : Context Val) (rule : ContextRule) (account : Address) (fns : List Symbol)
      (w w' : World d.State Event)
      → enforce_call d context rule account fns w ≡ ok w'
      → (c : ContractContext Val) × (context ≡ contract c) × (contains fns c.fn_name ≡ true)
  unfolding enforce_call
  call_permitted other rule account fns w w' h = absurd (cc)
  call_permitted (contract c) rule account fns w w' h = (c, refl, ground arith)

  -- Nothing less is let through.
  enforce-requires :
      (auth : Auth) (context : Context Val) (signers : List Signer) (rule : ContextRule)
      (account : Address) (w w' : World d.State Event)
      → enforce d auth context signers rule account w ≡ ok w'
      → (c : ContractContext Val) × (fns : List Symbol) × (context ≡ contract c)
        × (auth account ≡ true)
        × (1 ≤ length signers)
        × (d.get (account_context account rule.id) w.store ≡ some (record { allowed_fns = fns }))
        × (contains fns c.fn_name ≡ true)
  unfolding enforce get_allowed_fns
  enforce-requires auth context signers rule account w w' h =
      let key = account_context account rule.id in
      let (_, e1, r1) = >>=-eq-ok (require_auth (auth account)) _ h in
      let (_, e2, r2) = >>=-eq-ok (panic_if (length signers == 0) _) _ r1 in
      let (found, e3, r3) = >>=-eq-ok (get_allowed_fns d rule.id account w.store) _ r2 in
      let (stored, e4, r4) = >>=-eq-ok (unwrap_or_panic (d.get key w.store) _) _ e3 in
      let same = ok-injective r4 in
      let (c, is_contract, listed) =
        call_permitted context rule account found.0 (record w { store = found.1 }) w' r3 in
      (
        c,
        found.0,
        is_contract,
        ground arith,
        ground arith,
        unwrap_or_panic-eq-ok _ _ e4 ∙ ap (λ f. some (record { allowed_fns = f.0 })) same,
        listed,
      )

  -- The events decide. Whatever calls anyone has made of a newly deployed policy, it lets a further call
  -- of an account under a rule through exactly if it is a contract call, the account has authorized it,
  -- some signer is authenticated, and its function is in the list that the events, replayed from
  -- nothing, say is installed for the account and the rule.
  pub run-enforce_iff :
      (calls : List (Call Val)) (w : World d.State Event) (auth : Auth) (context : Context Val)
      (signers : List Signer) (rule : ContextRule) (account : Address)
      → w.events ≡ []
      → ((k : SessionStorageKey) → d.get k w.store ≡ none)
      → ((w' : World d.State Event) × (enforce d auth context signers rule account (run d calls w)
            ≡ ok w'))
        ↔ ((c : ContractContext Val) × (fns : List Symbol) × (context ≡ contract c)
            × (auth account ≡ true)
            × (1 ≤ length signers)
            × (replay (run d calls w).events (λ _. none) (account_context account rule.id)
                ≡ some (record { allowed_fns = fns }))
            × (contains fns c.fn_name ≡ true))
  run-enforce_iff calls w auth context signers rule account new empty =
      let rebuilt =
        (run-IsLogged d calls w new empty).0.rebuilt (account_context account rule.id) in
      (
        λ h.
            let (c, fns, is_contract, signed, some_signer, stored, listed) =
              enforce-requires auth context signers rule account (run d calls w) h.0 h.1 in
            (c, fns, is_contract, signed, some_signer, sym rebuilt ∙ stored, listed),
        λ (c, fns, is_contract, signed, some_signer, stored, listed). rw is_contract (
            enforce-permits auth c signers rule account (run d calls w) fns signed some_signer
              (rebuilt ∙ stored) listed),
      )

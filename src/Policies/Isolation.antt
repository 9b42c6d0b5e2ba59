-- ===== src/Policies/Isolation.antt =====
-- Any calls of a contract that implements `Policy`, by any accounts.
use latch_contracts.Base.{
  ℕ, ◌≡◌, inl, inr, refl, sym, ap, ◌∙◌, Bool, false, Option, none, List, [], ◌∷◌, ◌&&◌, ◌==◌, arith,
  get_or, if◌then◌else◌, Bool-cases, All,
}
use latch_contracts.Soroban.{Address, Auth, Context, ContextRule, Signer, Outcome, ok, panic, trap}
use latch_contracts.Policies.{Policy, Entry, Does, installed_from, enforced_from, uninstalled_from}

pub data Action (Val Facts Params Config : Type 0) : Type 0 where
  enforce_call : Facts → Context Val → List Signer → Action Val Facts Params Config
  install_call : Facts → Params → Action Val Facts Params Config
  configure_call : Config → Action Val Facts Params Config
  uninstall_call : Action Val Facts Params Config

-- A call of the contract by anyone: the transaction's authorizations, the account and the rule that it
-- is made for, and what is called.
pub record Call (Val Facts Params Config : Type 0) : Type 0 where
  pub auth : Auth
  pub account : Address
  pub rule : ContextRule
  pub action : Action Val Facts Params Config

module _ {Val : Type 0} (p : Policy Val) where
  open p use {State, Stored, Facts, Params, Config, lookup}

  unfoldable pub perform_action :
      Auth → ContextRule → Address → Action Val Facts Params Config → State → Outcome p.Error State
  perform_action auth rule account (enforce_call f context signers) s =
      p.enforce f auth context signers rule account s
  perform_action auth rule account (install_call f params) s =
      p.install f auth params rule account s
  perform_action auth rule account (configure_call c) s = p.configure auth c rule account s
  perform_action auth rule account uninstall_call s = p.uninstall auth rule account s

  abbrev pub perform : Call Val Facts Params Config → State → Outcome p.Error State
  perform c s = perform_action c.auth c.rule c.account c.action s

  -- A call that fails is rolled back.
  abbrev pub after : State → Outcome p.Error State → State
  after s (ok s') = s'
  after s (panic _) = s
  after s trap = s

  unfoldable pub run : List (Call Val Facts Params Config) → State → State
  run [] s = s
  run (c ∷ cs) s = run cs (after s (perform c s))

  -- The same call on one entry alone, without storage.
  unfoldable pub effect :
      Bool → ContextRule → Action Val Facts Params Config → Option Stored → Entry Stored
  effect authorized rule (enforce_call f context signers) entry =
      enforced_from authorized (p.allows f context signers) entry
  effect authorized rule (install_call f params) entry =
      installed_from authorized (p.accepts f rule params) entry
  effect authorized rule (configure_call c) entry = enforced_from authorized (p.configured c) entry
  effect authorized rule uninstall_call entry = uninstalled_from authorized entry

  -- Whether a call is made for the account `a` and the rule `i`.
  abbrev pub concerns : Address → ℕ → Call Val Facts Params Config → Bool
  concerns a i c = c.account == a && c.rule.id == i

  -- One entry by itself: the calls made for it, one after the other, and no other call.
  unfoldable pub replay :
      Address → ℕ → List (Call Val Facts Params Config) → Option Stored → Option Stored
  replay a i [] entry = entry
  replay a i (c ∷ cs) entry = replay a i cs (
      if concerns a i c
      then get_or (effect (c.auth c.account) c.rule c.action entry) entry
      else entry)

  action-Does :
      (auth : Auth) (rule : ContextRule) (account : Address) (a : Action Val Facts Params Config)
      (s : State)
      → Does lookup account rule.id s
          (effect (auth account) rule a (lookup account rule.id s))
          (perform_action auth rule account a s)
  unfolding effect perform_action
  action-Does auth rule account (enforce_call f context signers) s =
      p.enforce-Does f auth context signers rule account s
  action-Does auth rule account (install_call f params) s =
      p.install-Does f auth params rule account s
  action-Does auth rule account (configure_call c) s = p.configure-Does auth c rule account s
  action-Does auth rule account uninstall_call s = p.uninstall-Does auth rule account s

  after-lookup_self :
      (account : Address) (id : ℕ) (s : State) (e : Entry Stored) (r : Outcome p.Error State)
      → Does lookup account id s e r
      → lookup account id (after s r) ≡ get_or e (lookup account id s)
  after-lookup_self account id s e (ok s') h = ap (λ x. get_or x (lookup account id s)) (sym h.0)
  after-lookup_self account id s e (panic _) h = ap (λ x. get_or x (lookup account id s)) (sym h)
  after-lookup_self account id s e trap h = ap (λ x. get_or x (lookup account id s)) (sym h)

  after-lookup_ne :
      (account : Address) (id : ℕ) (s : State) (e : Entry Stored) (r : Outcome p.Error State)
      (a : Address) (i : ℕ)
      → Does lookup account id s e r
      → ¬ ((a ≡ account) × (i ≡ id))
      → lookup a i (after s r) ≡ lookup a i s
  after-lookup_ne account id s e (ok s') a i h other = elim (h.1 a i) [
    | inl same ↦ absurd (other same)
    | inr kept ↦ kept
  ]
  after-lookup_ne account id s e (panic _) a i h other = refl
  after-lookup_ne account id s e trap a i h other = refl

  pub after-lookup :
      (a : Address) (i : ℕ) (c : Call Val Facts Params Config) (s : State)
      → lookup a i (after s (perform c s)) ≡ (
          if concerns a i c
          then get_or (effect (c.auth c.account) c.rule c.action (lookup a i s)) (lookup a i s)
          else lookup a i s)
  after-lookup a i c s =
      let does = action-Does c.auth c.rule c.account c.action s in
      elim (Bool-cases (concerns a i c)) [
        | inl mine ↦
            let same : c.account ≡ a = ground arith in
            let same_rule : c.rule.id ≡ i = ground arith in
            rw (mine, ← same, ← same_rule)
              (after-lookup_self c.account c.rule.id s _ (perform c s) does)
        | inr other ↦ rw other (
            after-lookup_ne c.account c.rule.id s _ (perform c s) a i does
              (λ h. let same = h.0 in let same_rule = h.1 in absurd (ground arith)))
      ]

  -- Every account and rule has the policy to itself. Whatever calls anyone makes of the one contract
  -- that all accounts share, the entry of an account and a rule is what the calls made for them alone
  -- make of it, one after the other, each by the policy's own test: an install where nothing is, and a
  -- call, a change of its settings or an uninstall where something is, all with the account's authorization. No other call
  -- counts.
  pub run-replay :
      (a : Address) (i : ℕ) (calls : List (Call Val Facts Params Config)) (s : State)
      → lookup a i (run calls s) ≡ replay a i calls (lookup a i s)
  unfolding run replay
  run-replay a i [] s = refl
  run-replay a i (c ∷ cs) s =
      run-replay a i cs (after s (perform c s)) ∙ ap (replay a i cs) (after-lookup a i c s)

  effect-unauthorized :
      (rule : ContextRule) (action : Action Val Facts Params Config) (entry : Option Stored)
      → effect false rule action entry ≡ none
  unfolding effect
  effect-unauthorized rule (enforce_call f context signers) entry = refl
  effect-unauthorized rule (install_call f params) entry = refl
  effect-unauthorized rule (configure_call c) entry = refl
  effect-unauthorized rule uninstall_call entry = refl

  replay-unauthorized :
      (a : Address) (i : ℕ) (calls : List (Call Val Facts Params Config)) (entry : Option Stored)
      → All (λ c. c.auth a ≡ false) calls
      → replay a i calls entry ≡ entry
  unfolding replay
  replay-unauthorized a i [] entry h = refl
  replay-unauthorized a i (c ∷ cs) entry h = elim (Bool-cases (concerns a i c)) [
    | inl mine ↦
        let same : c.account ≡ a = ground arith in
        rw (mine, same, h.0, effect-unauthorized c.rule c.action entry)
          (replay-unauthorized a i cs entry h.1)
    | inr other ↦ rw other (replay-unauthorized a i cs entry h.1)
  ]

  -- What an account has installed stays as it is through any calls of others: as long as no transaction
  -- carries the account's authorization, none of its entries changes.
  pub run-unauthorized :
      (a : Address) (i : ℕ) (calls : List (Call Val Facts Params Config)) (s : State)
      → All (λ c. c.auth a ≡ false) calls
      → lookup a i (run calls s) ≡ lookup a i s
  run-unauthorized a i calls s h =
      run-replay a i calls s ∙ replay-unauthorized a i calls (lookup a i s) h

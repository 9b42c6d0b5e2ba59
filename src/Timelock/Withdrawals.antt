-- ===== src/Timelock/Withdrawals.antt =====
-- Who can withdraw from the vault of templates/timelock-vault/src/lib.rs, and when.
use latch_contracts.Base.{
  ℕ, ◌≤◌, ◌<◌, ◌≡◌, ◌⊎◌, inl, inr, refl, subst, ◌∙◌, Bool, true, false, if◌then◌else◌, All-append,
  none, some, List, [], ◌∷◌, ◌++◌, arith, All, dec_lt, ltb-false, lt→ltb, leb, Option-cases,
  Bool-cases,
}
use latch_contracts.Base.Int.{ℤ}
use latch_contracts.Soroban.{
  Address, Auth, Ledger, Tokens, Outcome, ok, panic, trap, Storage, >>=-eq-ok, ok-injective,
  panic_if,
}
use latch_contracts.Timelock.{
  DataKey, owner, unlock_ledger, VaultError, still_locked, Event, withdrawn, World,
  extend_state_ttl, constructor, bump_ttl, deposit, withdraw, ttl_threshold, extend_amount,
}

-- A call by anyone: the transaction's authorizations, the ledger, and what is called.
pub data Action : Type 0 where
  bump : Action
  deposit_of : Address → Address → ℤ → Action
  withdraw_of : Address → ℤ → Address → Action

pub record Call : Type 0 where
  pub auth : Auth
  pub ledger : Ledger
  pub action : Action

module _ (d : Storage DataKey ℕ) (t : Tokens) (this : Address) where
  -- The owner and the unlock ledger that the vault stores.
  pub record Holds (o u : ℕ) (w : World d t) : Type 0 where
    pub owned : d.get owner w.store ≡ some o
    pub unlocks : d.get unlock_ledger w.store ≡ some u

  -- How a withdrawal ends when the vault stores `o` and `u`.
  abbrev pub Ends :
      ℕ → ℕ → Call → Address → ℤ → Address → World d t → Outcome VaultError (World d t) → Type 0
  Ends o u c token amount to w (ok w') =
      (c.auth o ≡ true)
      × (u ≤ c.ledger.sequence)
      × (t.transfer token this to amount w.tokens ≡ some w'.tokens)
      × (w'.events ≡ w.events ++ withdrawn token to amount ∷ [])
      × Holds o u w'
  Ends o u c token amount to w (panic e) =
      (e ≡ still_locked) × (c.auth o ≡ true) × (c.ledger.sequence < u)
  Ends o u c token amount to w trap =
      (c.auth o ≡ false)
      ⊎ ((u ≤ c.ledger.sequence) × (t.transfer token this to amount w.tokens ≡ none))

  extended : (k : DataKey) (s : d.State) → d.get k (extend_state_ttl d t s) ≡ d.get k s
  unfolding extend_state_ttl
  extended k s =
      d.get-extend_ttl k unlock_ledger _ _ _
      ∙ d.get-extend_ttl k owner ttl_threshold extend_amount s

  extended-Holds :
      (o u : ℕ) (w : World d t) (tokens' : t.State) (events' : List Event)
      → Holds o u w
      → Holds o u
          (record { store = extend_state_ttl d t w.store; tokens = tokens'; events = events' })
  extended-Holds o u w tokens' events' h = record {
    owned = extended owner w.store ∙ h.owned;
    unlocks = extended unlock_ledger w.store ∙ h.unlocks;
  }

  -- Every way a withdrawal can end: it succeeds exactly when the stored owner has authorized it, the
  -- unlock ledger is reached, and the token makes the transfer, and then this transfer and its event
  -- are its only effects; a withdrawal that the owner has authorized is refused with `still_locked`
  -- exactly before the unlock ledger; and what is left fails without an error of the vault.
  pub withdraw-Ends :
      (o u : ℕ) (c : Call) (token : Address) (amount : ℤ) (to : Address) (w : World d t)
      → Holds o u w
      → Ends o u c token amount to w (withdraw d t c.auth c.ledger this token amount to w)
  unfolding withdraw
  withdraw-Ends o u c token amount to w h = elim (Bool-cases (c.auth o)) [
    | inr refused ↦ rw (h.owned, refused) (inl refused)
    | inl yes' ↦ elim (dec_lt c.ledger.sequence u) [
      | yes early ↦
          rw (h.owned, yes', h.unlocks, lt→ltb c.ledger.sequence u early) (refl, yes', early)
      | no late ↦ elim (Option-cases (t.transfer token this to amount w.tokens)) [
        | inl reverted ↦
            rw (h.owned, yes', h.unlocks, ltb-false c.ledger.sequence u late, reverted)
              (inr (omega arith, reverted))
        | inr (tokens', moved) ↦
            rw (h.owned, yes', h.unlocks, ltb-false c.ledger.sequence u late, moved)
              (yes', omega arith, moved, refl, extended-Holds o u w tokens' _ h)
      ]
    ]
  ]

  unfoldable pub perform : Call → World d t → Outcome VaultError (World d t)
  perform c w = elim c.action [
    | bump ↦ ok (bump_ttl d t w)
    | deposit_of from token amount ↦ deposit d t c.auth this from token amount w
    | withdraw_of token amount to ↦ withdraw d t c.auth c.ledger this token amount to w
  ]

  -- A call that fails is rolled back.
  abbrev pub after : World d t → Outcome VaultError (World d t) → World d t
  after w (ok w') = w'
  after w (panic _) = w
  after w trap = w

  abbrev pub is_withdrawal : Action → Bool
  is_withdrawal (withdraw_of _ _ _) = true
  is_withdrawal bump = false
  is_withdrawal (deposit_of _ _ _) = false

  -- The call itself if it withdrew.
  abbrev pub withdrew : Call → Outcome VaultError (World d t) → List Call
  withdrew c (ok _) = if is_withdrawal c.action then c ∷ [] else []
  withdrew c (panic _) = []
  withdrew c trap = []

  -- The state after a sequence of calls, and the calls of it that withdrew.
  unfoldable pub final : List Call → World d t → World d t
  final [] w = w
  final (c ∷ cs) w = final cs (after w (perform c w))

  pub withdrawals : List Call → World d t → List Call
  withdrawals [] w = []
  withdrawals (c ∷ cs) w = withdrew c (perform c w) ++ withdrawals cs (after w (perform c w))

  abbrev pub Guarded : ℕ → ℕ → Call → Type 0
  Guarded o u c = (c.auth o ≡ true) × (u ≤ c.ledger.sequence)

  -- What any call keeps and allows.
  abbrev Fair : ℕ → ℕ → Call → World d t → Outcome VaultError (World d t) → Type 0
  Fair o u c w r = Holds o u (after w r) × All (Guarded o u) (withdrew c r)

  withdraw-Fair :
      (o u : ℕ) (c : Call) (token : Address) (amount : ℤ) (to : Address) (w : World d t)
      (r : Outcome VaultError (World d t))
      → Holds o u w
      → Ends o u c token amount to w r
      → Fair o u c w r
  withdraw-Fair o u c token amount to w (ok w') h e = (
    e.4,
    elim (Bool-cases (is_withdrawal c.action)) [ inl y ↦ rw y ((e.0, e.1), tt) | inr n ↦ rw n tt ],
  )
  withdraw-Fair o u c token amount to w (panic _) h e = (h, tt)
  withdraw-Fair o u c token amount to w trap h e = (h, tt)

  deposit-Holds :
      (o u : ℕ) (auth : Auth) (from token : Address) (amount : ℤ) (w : World d t)
      → Holds o u w
      → Holds o u (after w (deposit d t auth this from token amount w))
  unfolding deposit
  deposit-Holds o u auth from token amount w h = elim (Bool-cases (auth from)) [
    | inr refused ↦ rw refused h
    | inl given ↦ elim (Option-cases (t.transfer token from this amount w.tokens)) [
      | inl reverted ↦ rw (given, reverted) h
      | inr (tokens', moved) ↦ rw (given, moved) (extended-Holds o u w tokens' _ h)
    ]
  ]

  no_withdrawal :
      (o u : ℕ) (c : Call) (r : Outcome VaultError (World d t))
      → is_withdrawal c.action ≡ false
      → All (Guarded o u) (withdrew c r)
  no_withdrawal o u c (ok w') e = rw e tt
  no_withdrawal o u c (panic _) e = tt
  no_withdrawal o u c trap e = tt

  pub perform-Fair :
      (o u : ℕ) (auth : Auth) (ledger : Ledger) (a : Action) (w : World d t)
      → Holds o u w
      → Fair o u
          (record { auth = auth; ledger = ledger; action = a })
          w
          (perform (record { auth = auth; ledger = ledger; action = a }) w)
  unfolding perform bump_ttl
  perform-Fair o u auth ledger bump w h = (extended-Holds o u w w.tokens w.events h, tt)
  perform-Fair o u auth ledger (deposit_of from token amount) w h = (
    deposit-Holds o u auth from token amount w h,
    no_withdrawal o u
        (record { auth = auth; ledger = ledger; action = deposit_of from token amount })
        (deposit d t auth this from token amount w) refl,
  )
  perform-Fair o u auth ledger (withdraw_of token amount to) w h =
      let c : Call = record {
        auth = auth;
        ledger = ledger;
        action = withdraw_of token amount to;
      } in
      withdraw-Fair o u c token amount to w (withdraw d t auth ledger this token amount to w) h
        (withdraw-Ends o u c token amount to w h)

  run-Fair :
      (o u : ℕ) (calls : List Call) (w : World d t)
      → Holds o u w
      → Holds o u (final calls w) × All (Guarded o u) (withdrawals calls w)
  unfolding final withdrawals
  run-Fair o u [] w h = (h, tt)
  run-Fair o u (c ∷ cs) w h =
      let (h', now) = perform-Fair o u c.auth c.ledger c.action w h in
      let (h'', later) = run-Fair o u cs (after w (perform c w)) h' in
      (
        h'',
        All-append (Guarded o u) (withdrew c (perform c w)) (withdrawals cs (after w (perform c w)))
            now later,
      )

  -- A vault can only be constructed with an unlock ledger in the future. Whatever calls anyone makes
  -- of it afterwards, at whatever ledgers and with whatever authorizations, the owner and the unlock
  -- ledger stay what they were, and every call that withdraws anything is authorized by the owner and
  -- made at the unlock ledger or later.
  pub constructor-locked :
      (ledger : Ledger) (o u : ℕ) (w w' : World d t) (calls : List Call)
      → constructor d t ledger o u w ≡ ok w'
      → (ledger.sequence < u)
        × Holds o u (final calls w')
        × All (Guarded o u) (withdrawals calls w')
  unfolding constructor
  constructor-locked ledger o u w w' calls e =
      let (_, e1, r1) = >>=-eq-ok (panic_if (leb u ledger.sequence) _) _ e in
      let stored : d.State = d.set unlock_ledger u (d.set owner o w.store) in
      let set : Holds o u (record w { store = stored }) = record {
        owned =
            d.get-set_ne owner unlock_ledger u _ (λ x. absurd (cc))
            ∙ d.get-set_self owner o w.store;
        unlocks = d.get-set_self unlock_ledger u _;
      } in
      let start =
        subst (Holds o u) (ok-injective r1)
          (extended-Holds o u (record w { store = stored }) w.tokens w.events set) in
      let (kept, guarded) = run-Fair o u calls w' start in (ground arith, kept, guarded)

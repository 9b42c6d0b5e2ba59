-- ===== src/Timelock/Funds.antt =====
-- What the calls of templates/timelock-vault/src/lib.rs make the tokens move.
use latch_contracts.Base.{
  ℕ, ◌≤◌, ◌≡◌, refl, true, some, List, [], ◌∷◌, inl, inr, Option-cases, Bool-cases,
}
use latch_contracts.Base.Int.{ℤ}
use latch_contracts.Soroban.{Address, Auth, Ledger, Tokens, Outcome, ok, panic, trap, Storage}
use latch_contracts.Timelock.{DataKey, VaultError, World, constructor, deposit, bump_ttl}
use latch_contracts.Timelock.Withdrawals.{
  Action, bump, deposit_of, withdraw_of, Call, Holds, Ends, withdraw-Ends, perform, after, final,
  perform-Fair, constructor-locked,
}

-- How a sequence of calls may move the tokens while the vault has the owner `o` and the unlock ledger
-- `u`: a call moves nothing; or it is a deposit, authorized by the one who pays; or it is a withdrawal,
-- authorized by the owner and made from that ledger on.
pub data Moves (t : Tokens) (this : Address) (o u : ℕ)
    : List Call → t.State → t.State → Type 0 where
  ends : {s : t.State} → Moves t this o u [] s s
  rests :
      {s s' : t.State} {c : Call} {cs : List Call}
      → Moves t this o u cs s s'
      → Moves t this o u (c ∷ cs) s s'
  pays_in :
      {s s' s'' : t.State} {c : Call} {cs : List Call} (from token : Address) (amount : ℤ)
      → c.action ≡ deposit_of from token amount
      → c.auth from ≡ true
      → t.transfer token from this amount s ≡ some s'
      → Moves t this o u cs s' s''
      → Moves t this o u (c ∷ cs) s s''
  takes_out :
      {s s' s'' : t.State} {c : Call} {cs : List Call} (token : Address) (amount : ℤ) (to : Address)
      → c.action ≡ withdraw_of token amount to
      → c.auth o ≡ true
      → u ≤ c.ledger.sequence
      → t.transfer token this to amount s ≡ some s'
      → Moves t this o u cs s' s''
      → Moves t this o u (c ∷ cs) s s''

module _ (d : Storage DataKey ℕ) (t : Tokens) (this : Address) (o u : ℕ) where
  withdraw-Moves :
      (c : Call) (cs : List Call) (token : Address) (amount : ℤ) (to : Address) (w : World d t)
      (r : Outcome VaultError (World d t)) (end : t.State)
      → c.action ≡ withdraw_of token amount to
      → Ends d t this o u c token amount to w r
      → Moves t this o u cs (after d t this w r).tokens end
      → Moves t this o u (c ∷ cs) w.tokens end
  withdraw-Moves c cs token amount to w (ok w') end called e rest =
      takes_out token amount to called e.0 e.1 e.2 rest
  withdraw-Moves c cs token amount to w (panic _) end called e rest = rests rest
  withdraw-Moves c cs token amount to w trap end called e rest = rests rest

  deposit-Moves :
      (auth : Auth) (ledger : Ledger) (cs : List Call) (from token : Address) (amount : ℤ)
      (w : World d t) (end : t.State)
      → Moves t this o u cs
          (after d t this w (deposit d t auth this from token amount w)).tokens
          end
      → Moves t this o u
          (record { auth = auth; ledger = ledger; action = deposit_of from token amount } ∷ cs)
          w.tokens
          end
  unfolding deposit
  deposit-Moves auth ledger cs from token amount w end rest = elim (Bool-cases (auth from)) [
    | inr refused ↦ rests (rw refused at rest)
    | inl given ↦ elim (Option-cases (t.transfer token from this amount w.tokens)) [
      | inl reverted ↦ rests (rw (given, reverted) at rest)
      | inr (tokens', moved) ↦
          pays_in from token amount refl given moved (rw (given, moved) at rest)
    ]
  ]

  perform-Moves :
      (auth : Auth) (ledger : Ledger) (a : Action) (cs : List Call) (w : World d t) (end : t.State)
      → Holds d t this o u w
      → Moves t this o u cs
          (after d t this w
            (perform d t this (record { auth = auth; ledger = ledger; action = a }) w)).tokens
          end
      → Moves t this o u (record { auth = auth; ledger = ledger; action = a } ∷ cs) w.tokens end
  unfolding perform bump_ttl
  perform-Moves auth ledger bump cs w end h rest = rests rest
  perform-Moves auth ledger (deposit_of from token amount) cs w end h rest =
      deposit-Moves auth ledger cs from token amount w end rest
  perform-Moves auth ledger (withdraw_of token amount to) cs w end h rest =
      let c : Call = record {
        auth = auth;
        ledger = ledger;
        action = withdraw_of token amount to;
      } in
      withdraw-Moves c cs token amount to w _ end refl
        (withdraw-Ends d t this o u c token amount to w h) rest

  final-Moves :
      (calls : List Call) (w : World d t)
      → Holds d t this o u w
      → Moves t this o u calls w.tokens (final d t this calls w).tokens
  unfolding final
  final-Moves [] w h = ends
  final-Moves (c ∷ cs) w h =
      let w' = after d t this w (perform d t this c w) in
      perform-Moves c.auth c.ledger c.action cs w _ h
        (final-Moves cs w' (perform-Fair d t this o u c.auth c.ledger c.action w h).0)

  -- The funds are safe: after a successful construction with the owner `o` and the unlock ledger `u`,
  -- whatever calls anyone makes of the vault, the tokens get from where they were to where they are by
  -- payments of these calls alone, in their order: deposits that the one who pays has authorized, and
  -- withdrawals that the owner has authorized at the unlock ledger or later.
  pub constructor-Moves :
      (ledger : Ledger) (w w' : World d t) (calls : List Call)
      → constructor d t ledger o u w ≡ ok w'
      → Moves t this o u calls w'.tokens (final d t this calls w').tokens
  unfolding final
  constructor-Moves ledger w w' calls e =
      final-Moves calls w' (constructor-locked d t this ledger o u w w' [] e).1

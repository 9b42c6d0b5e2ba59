-- ===== src/MultiToken/Acceptance.antt =====
-- Which transfers policies/multi-token-spending-limit-policy/src/lib.rs lets through, in the life of one
-- installation.
use latch_contracts.Base.{ℕ, ◌+◌, ◌-◌, ◌≤◌, ◌<◌, ◌≡◌, ◌↔◌, refl, subst, List, Option, All, arith}
use latch_contracts.Base.Int.{ℤ, pos, pos_part, negsuc, max_i128}
use latch_contracts.Soroban.{
  Address, Auth, Ledger, Context, ContextRule, Outcome, ok, panic, Storage, >>=-eq-ok,
}
use latch_contracts.MultiToken.{
  Error, spending_limit_exceeded, history_capacity_exceeded, AccountParams, SpendingEntry,
  PolicyData, DataKey, account_context, Answers, enforce, priced, spend, max_history_entries,
}
use latch_contracts.MultiToken.Window.{IsPos, sum_after, count_after, after_past}
use latch_contracts.MultiToken.Life.{Life, Life-IsSound, priced-IsPos}
use latch_contracts.MultiToken.Spend.{Tracks, Spent, spend-Spent}

-- The window behind `now` has room for an amount: in the limit, and among the entries.
abbrev pub HasRoom : ℕ → ℕ → List SpendingEntry → ℕ → ℕ → Type 0
HasRoom limit period log now amount =
    (sum_after (now - period) log + amount ≤ limit)
    × (count_after (now - period) log < max_history_entries)

module _ (limit : ℕ) (small : limit < max_i128) (period last now : ℕ) (later : last ≤ now)
    (log : List SpendingEntry) (p : PolicyData) (t : Tracks limit period last log p) where
  spend-HasRoom :
      (usd : ℤ)
      → IsPos usd
      → ((p' : PolicyData) × (spend p usd now ≡ ok p'))
        ↔ HasRoom limit period log now (pos_part usd)
  spend-HasRoom (negsuc n) bad = absurd bad
  spend-HasRoom (pos n) good =
      let case = spend-Spent limit period small last now later log p t n in
      (
        λ h. let made = subst (Spent limit period small log p n now) h.1 case in (made.1, made.2),
        spent_by (spend p (pos n) now) case,
      )
    where
      spent_by :
          (o : Outcome Error PolicyData)
          → Spent limit period small log p n now o
          → HasRoom limit period log now n
          → (p' : PolicyData) × (o ≡ ok p')
      spent_by (ok p') c room = (p', refl)
      spent_by (panic spending_limit_exceeded) c room = absurd (omega (arith, c, room.0))
      spent_by (panic history_capacity_exceeded) c room = absurd (omega (arith, c.1, room.1))
      spent_by o c room = ground arith

module _ (d : Storage DataKey PolicyData) {Val : Type 0} (to_i128 : Val → Option ℤ)
    (smart_account : Address) (rule : ContextRule) (params : AccountParams) where
  abbrev key : DataKey
  key = account_context smart_account rule.id

  module _ (limit : ℕ) (small : limit < max_i128) (capped : params.spending_limit_usd ≡ pos limit)
      {s : d.State} {log : List SpendingEntry} {last : ℕ} (auth : Auth) (a : Answers)
      (ledger : Ledger) (context : Context Val) (p : PolicyData) (s1 : d.State) (usd : ℤ)
      (life : Life d to_i128 smart_account rule params s log last) (later : last ≤ ledger.sequence)
      (e : priced d to_i128 auth a ledger context rule smart_account s ≡ ok (p, s1, usd)) where
    -- A call is let through exactly when the window has room: in the life of an installation whose
    -- limit is a positive `i128` below its maximum, a call that is authorized, well formed and priced
    -- at `usd` succeeds if and only if the amounts let through in the window behind its ledger and
    -- `usd` stay within the limit, and fewer than 1000 transfers were let through in that window.
    pub Life-accepted :
        ((s' : d.State) × (enforce d to_i128 auth a ledger context rule smart_account s ≡ ok s'))
        ↔ HasRoom limit params.period_ledgers log ledger.sequence (pos_part usd)
    unfolding enforce
    Life-accepted =
        let h = Life-IsSound d to_i128 smart_account rule params limit small capped life in
        let q =
          priced-IsPos d to_i128 smart_account rule params auth a ledger context s s1 h.data' p usd
            h.stored h.usd h.tokens e in
        let test =
          spend-HasRoom limit small params.period_ledgers last ledger.sequence later log p
            (rw q.0 h.tracks) usd q.1 in
        rw e (
          λ made.
              let (p', e1, e2) = >>=-eq-ok (spend p usd ledger.sequence) _ made.1 in
              test.0 (p', e1),
          λ room. let made = test.1 room in (d.set key made.0 s1, rw made.1 refl),
        )

    -- The limit recovers: for an installation whose limit is a positive `i128` below its maximum, after
    -- any calls of `enforce` at ledgers that do not fall, and anything else that leaves the entry alone,
    -- a call at a ledger that is not earlier succeeds, whatever was spent before, if every transfer that
    -- was let through is `period_ledgers` ledgers old or older, and the call is authorized, well formed
    -- and priced at no more than the limit. Where none was let through, no ledger has to pass.
    pub Life-recovers :
        All (λ old. old.ledger + params.period_ledgers ≤ ledger.sequence) log
        → pos_part usd ≤ limit
        → (s' : d.State) × (enforce d to_i128 auth a ledger context rule smart_account s ≡ ok s')
    Life-recovers past within =
        let empty = after_past params.period_ledgers ledger.sequence log past in
        Life-accepted.1 (omega (arith, empty, within), omega (arith, empty))

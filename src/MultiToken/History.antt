-- ===== src/MultiToken/History.antt =====
-- The rolling limit of policies/multi-token-spending-limit-policy/src/lib.rs over the life of one
-- installation.

use latch_contracts.Base.{ℕ, ◌+◌, ◌-◌, ◌≤◌, ◌<◌, ◌≡◌, ◌↔◌, refl, subst, List, Option, arith}
use latch_contracts.Base.Int.{ℤ, pos, pos_part, negsuc, max_i128}
use latch_contracts.Soroban.{
  Address, Auth, Ledger, Context, ContextRule, Outcome, ok, panic, trap, Storage, ◌>>=◌,
}
use latch_contracts.MultiToken.{
  Error, spending_limit_exceeded, AccountParams, SpendingEntry, PolicyData, DataKey,
  account_context, Answers, enforce, priced, spend,
}
use latch_contracts.MultiToken.Window.{IsPos, AllPos, sum_after, sum_after-le}
use latch_contracts.MultiToken.Life.{Life, Life-IsSound, priced-IsPos}
use latch_contracts.MultiToken.Spend.{Tracks, Spent, spend-Spent}

module _ (d : Storage DataKey PolicyData) {Val : Type 0} (to_i128 : Val → Option ℤ)
    (smart_account : Address) (rule : ContextRule) (params : AccountParams) where
  abbrev key : DataKey
  key = account_context smart_account rule.id

  module _ (limit : ℕ) (small : limit < max_i128)
      (capped : params.spending_limit_usd ≡ pos limit) where
    -- The rolling limit holds. For an installation whose limit is a positive `i128` below its maximum,
    -- after any calls of `enforce` at ledgers that do not fall, and anything else that leaves the
    -- entry alone: no logged amount is negative, and at every ledger from the last one on, the amounts
    -- let through in the window of `period_ledgers` ledgers behind it add up to the limit at most.
    pub Life-window :
        {s : d.State} {log : List SpendingEntry} {last : ℕ} (now : ℕ)
        → Life d to_i128 smart_account rule params s log last
        → last ≤ now
        → AllPos log × (sum_after (now - params.period_ledgers) log ≤ limit)
    Life-window now life later =
        let h = Life-IsSound d to_i128 smart_account rule params limit small capped life in
        let cutoff = now - params.period_ledgers in
        (
          h.amounts,
          omega (
            arith,
            h.tracks.tracked cutoff (omega arith),
            sum_after-le cutoff h.data'.spending_history,
            h.tracks.under,
          ),
        )

    exceeds :
        (last now : ℕ)
        → last ≤ now
        → (log : List SpendingEntry) (p : PolicyData) (usd : ℤ) → IsPos usd
        → Tracks limit params.period_ledgers last log p
        → (spend p usd now ≡ panic spending_limit_exceeded)
          ↔ (limit < sum_after (now - params.period_ledgers) log + pos_part usd)
    exceeds last now later log p (negsuc n) bad t = absurd bad
    exceeds last now later log p (pos n) good t =
        let case = spend-Spent limit params.period_ledgers small last now later log p t n in
        (
          λ e. subst (Spent limit params.period_ledgers small log p n now) e case,
          λ over. exceeded_by (spend p (pos n) now) case over,
        )
      where
        exceeded_by :
            (o : Outcome Error PolicyData)
            → Spent limit params.period_ledgers small log p n now o
            → limit < sum_after (now - params.period_ledgers) log + n
            → o ≡ panic spending_limit_exceeded
        exceeded_by (ok p') (_, within, _) over = absurd (omega arith)
        exceeded_by (panic spending_limit_exceeded) c over = refl
        exceeded_by o c over = ground arith

    -- The error tells the truth: for an installation whose limit is a positive `i128` below its maximum,
    -- after any calls of `enforce` at ledgers that do not fall, and anything else that leaves the entry
    -- alone, a call at a ledger that is not earlier that is authorized, well formed and priced at `usd`
    -- is refused with `SpendingLimitExceeded` exactly when `usd` and the amounts let through in the
    -- window behind its ledger come to more than the limit.
    pub Life-exceeded :
        {s : d.State} {log : List SpendingEntry} {last : ℕ} (auth : Auth) (a : Answers)
        (ledger : Ledger) (context : Context Val) (p : PolicyData) (s1 : d.State) (usd : ℤ)
        → Life d to_i128 smart_account rule params s log last
        → last ≤ ledger.sequence
        → priced d to_i128 auth a ledger context rule smart_account s ≡ ok (p, s1, usd)
        → (enforce d to_i128 auth a ledger context rule smart_account s
            ≡ panic spending_limit_exceeded)
          ↔ (limit < sum_after (ledger.sequence - params.period_ledgers) log + pos_part usd)
    unfolding enforce
    Life-exceeded {s} {log} {last} auth a ledger context p s1 usd life later e =
        let h = Life-IsSound d to_i128 smart_account rule params limit small capped life in
        let q =
          priced-IsPos d to_i128 smart_account rule params auth a ledger context s s1 h.data' p usd
            h.stored h.usd h.tokens e in
        let test = exceeds last ledger.sequence later log p usd q.1 (rw q.0 h.tracks) in
        rw e (
          λ refused. test.0 (refused_by (spend p usd ledger.sequence) refused),
          λ over. rw (test.1 over) refl,
        )
      where
        refused_by :
            (o : Outcome Error PolicyData)
            → (o >>= λ p'. ok (d.set key p' s1)) ≡ panic spending_limit_exceeded
            → o ≡ panic spending_limit_exceeded
        refused_by (ok p') e = absurd (cc)
        refused_by (panic x) e = ground arith
        refused_by trap e = absurd (cc)

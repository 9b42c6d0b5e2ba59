-- ===== src/MultiToken/Stored.antt =====
-- What policies/multi-token-spending-limit-policy/src/lib.rs stores fits its types, which the model writes
-- with unbounded numbers: amounts are `i128`, ledgers `u32`.
use latch_contracts.Base.{ℕ, ◌≤◌, ◌<◌, ◌≡◌, Option, some, List, [], ◌∷◌, arith, All, length}
use latch_contracts.Base.Int.{ℤ, pos, pos_part, max_i128}
use latch_contracts.Soroban.{Address, ContextRule, Storage}
use latch_contracts.MultiToken.{
  AccountParams, SpendingEntry, PolicyData, DataKey, account_context, max_history_entries,
}
use latch_contracts.MultiToken.Window.{IsPos, AllPos, Ordered, sum}
use latch_contracts.MultiToken.Life.{Life, Life-IsSound}

-- A number of an `i128` that is not negative.
abbrev pub FitsAmount : ℤ → Type 0
FitsAmount a = IsPos a × (pos_part a ≤ max_i128)

-- An entry that fits its types, made at the ledger `last` or before.
abbrev pub FitsEntry : ℕ → SpendingEntry → Type 0
FitsEntry last e = FitsAmount e.amount_usd × (e.ledger ≤ last)

-- Stored data of which each number fits its type, with a bounded history.
pub record Fits (last : ℕ) (p : PolicyData) : Type 0 where
  pub limit : FitsAmount p.spending_limit_usd
  pub cached : FitsAmount p.cached_total_spent_usd
  pub at_most : length p.spending_history ≤ max_history_entries
  pub entries : All (FitsEntry last) p.spending_history

fits-entries :
    (lo last limit : ℕ) (history : List SpendingEntry)
    → limit ≤ max_i128
    → AllPos history
    → Ordered lo history last
    → sum history ≤ limit
    → All (FitsEntry last) history × (lo ≤ last)
fits-entries lo last limit [] small positive ordered under = (tt, ordered)
fits-entries lo last limit (e ∷ es) small positive ordered under =
    let rest = fits-entries e.ledger last limit es small positive.1 ordered.1 (omega arith) in
    ((((positive.0, omega (arith, under)), rest.1), rest.0), omega (arith, ordered.0, rest.1))

module _ (d : Storage DataKey PolicyData) {Val : Type 0} (to_i128 : Val → Option ℤ)
    (smart_account : Address) (rule : ContextRule) (params : AccountParams) where
  -- What an installation stores fits its types at all times. For an installation whose limit is a
  -- positive `i128` below its maximum, after any calls of `enforce` at ledgers that do not fall, and
  -- anything else that leaves the entry alone: the entry is there; its limit, its cached total and
  -- every amount in its history are numbers of an `i128` that are not negative, the history has at
  -- most 1000 entries, and none of them has a ledger after the last call.
  pub Life-Fits :
      (limit : ℕ)
      → limit < max_i128
      → params.spending_limit_usd ≡ pos limit
      → {s : d.State} {log : List SpendingEntry} {last : ℕ}
      → Life d to_i128 smart_account rule params s log last
      → (p : PolicyData) × (d.get (account_context smart_account rule.id) s ≡ some p) × Fits last p
  Life-Fits limit small capped {s} {log} {last} life =
      let h = Life-IsSound d to_i128 smart_account rule params limit small capped life in
      let t = h.tracks in
      (
        h.data',
        h.stored,
        record {
          limit = rw t.capped (tt, omega (arith, small));
          cached = rw t.cached (tt, omega (arith, small, t.under));
          at_most = h.short;
          entries =
              (fits-entries 0 last limit h.data'.spending_history (omega (arith, small)) t.entries
                t.ordered t.under).0;
        },
      )

-- ===== src/MultiToken/Spend.antt =====
-- The limit check of `enforce` in policies/multi-token-spending-limit-policy/src/lib.rs, against the
-- log of all transfers that it has let through.
use native.Mathlib.Nat.{zero-add}
use latch_contracts.Base.{
  ℕ, ◌+◌, ◌-◌, ◌≤◌, ◌<◌, ◌≡◌, ◌∙◌, ap, ltb, List, [], ◌∷◌, ◌++◌, arith, length, length-append,
  dec_lt, dec_le, lt→ltb, ltb-false, le→leb, leb-false,
}
use latch_contracts.Base.Int.{
  ℤ, pos, max_i128, saturating_add, saturating_sub, saturating_add-pos, saturating_sub-pos, ltb_ℤ,
  saturate, ◌+ℤ◌,
}
use latch_contracts.Soroban.{Outcome, ok, panic, trap}
use latch_contracts.MultiToken.{
  Error, spending_limit_exceeded, history_capacity_exceeded, SpendingEntry, PolicyData, spend,
  cleanup_old_entries, max_history_entries,
}
use latch_contracts.MultiToken.Window.{
  AllPos, Ordered, sum, sum_after, count_after, count_after-kept, count_after-append, length-kept,
  kept, gone, gone-kept, evict_lem, kept-AllPos, kept-Ordered, sum_after-kept, sum-kept, sum-append,
  sum_after-append, AllPos-append, Ordered-append,
}

abbrev pub entry : ℕ → ℕ → SpendingEntry
entry amount now = record { amount_usd = pos amount; ledger = now }

-- Stored data with the limit `limit` and the period `period` that agrees with the log of accepted
-- transfers, the last one at ledger `last` or before.
pub record Tracks (limit period last : ℕ) (log : List SpendingEntry) (p : PolicyData) : Type 0 where
  pub capped : p.spending_limit_usd ≡ pos limit
  pub rolling : p.period_ledgers ≡ period
  pub entries : AllPos p.spending_history
  pub cached : p.cached_total_spent_usd ≡ pos (sum p.spending_history)
  pub under : sum p.spending_history ≤ limit
  pub ordered : Ordered 0 p.spending_history last
  pub tracked :
      (cutoff : ℕ)
      → last - period ≤ cutoff
      → (sum_after cutoff p.spending_history ≡ sum_after cutoff log)
        × (count_after cutoff p.spending_history ≡ count_after cutoff log)

saturating_add-lt :
    (a b : ℕ) (limit : ℕ)
    → limit < max_i128
    → ltb_ℤ (pos limit) (saturating_add (pos a) (pos b)) ≡ ltb limit (a + b)
unfolding saturating_add saturate ◌+ℤ◌
saturating_add-lt a b limit h = ground arith

module _ (limit period : ℕ) (small : limit < max_i128) where
  -- How a transfer of `amount` at ledger `now` may end: it is added to the log and the window stays
  -- within the limit, or it would push the window over the limit, or the window is full.
  abbrev pub Spent : List SpendingEntry → PolicyData → ℕ → ℕ → Outcome Error PolicyData → Type 0
  Spent log p amount now (ok p') =
      Tracks limit period now (log ++ entry amount now ∷ []) p'
      × (sum_after (now - period) log + amount ≤ limit)
      × (count_after (now - period) log < max_history_entries)
  Spent log p amount now (panic spending_limit_exceeded) =
      limit < sum_after (now - period) log + amount
  Spent log p amount now (panic history_capacity_exceeded) =
      (sum_after (now - period) log + amount ≤ limit)
      × (max_history_entries ≤ count_after (now - period) log)
  Spent log p amount now (panic _) = ⊥
  Spent log p amount now trap = ⊥

  module _ (last now : ℕ) (later : last ≤ now) (log : List SpendingEntry) (p : PolicyData)
      (t : Tracks limit period last log p) where
    window : sum (kept (now - period) p.spending_history) ≡ sum_after (now - period) log
    window =
        sum-kept (now - period) 0 p.spending_history last t.ordered
        ∙ (t.tracked (now - period) (omega arith)).0

    -- The live entries are the logged ones of the window.
    live_count : length (kept (now - period) p.spending_history) ≡ count_after (now - period) log
    live_count =
        length-kept (now - period) 0 p.spending_history last t.ordered
        ∙ (t.tracked (now - period) (omega arith)).1

    cleaned :
        cleanup_old_entries p.spending_history now p.period_ledgers
        ≡ (pos (gone (now - period) p.spending_history), kept (now - period) p.spending_history)
    unfolding cleanup_old_entries
    cleaned = rw t.rolling (
        rw (← zero-add (gone (now - period) p.spending_history))
          (evict_lem (now - period) 0 p.spending_history t.entries (omega (arith, t.under))))

    remaining :
        saturating_sub p.cached_total_spent_usd (pos (gone (now - period) p.spending_history))
        ≡ pos (sum_after (now - period) log)
    remaining =
        let parts = gone-kept (now - period) p.spending_history in
        rw
          (
            t.cached,
            saturating_sub-pos (sum p.spending_history) (gone (now - period) p.spending_history)
                (omega arith) (omega (arith, t.under)),
          )
          (ap pos (omega (arith, window)))

    abbrev after : ℕ → PolicyData
    after amount = record p {
      spending_history = kept (now - period) p.spending_history ++ entry amount now ∷ [];
      cached_total_spent_usd = pos (sum_after (now - period) log + amount);
    }

    after-Tracks :
        (amount : ℕ)
        → sum_after (now - period) log + amount ≤ limit
        → Tracks limit period now (log ++ entry amount now ∷ []) (after amount)
    after-Tracks amount h =
        let live = kept (now - period) p.spending_history in
        let total = sum-append live (entry amount now ∷ []) in
        record {
          capped = t.capped;
          rolling = t.rolling;
          entries = AllPos-append live _ (kept-AllPos _ p.spending_history t.entries) (tt, tt);
          cached = ap pos (omega (arith, total, window));
          under = omega (arith, total, window);
          ordered =
              Ordered-append 0 live last (entry amount now)
                (kept-Ordered _ 0 p.spending_history last t.ordered) later;
          tracked = λ cutoff c. omega (
            arith,
            sum_after-append cutoff live (entry amount now ∷ []),
            sum_after-append cutoff log (entry amount now ∷ []),
            sum_after-kept (now - period) cutoff p.spending_history c,
            count_after-append cutoff live (entry amount now ∷ []),
            count_after-append cutoff log (entry amount now ∷ []),
            count_after-kept (now - period) cutoff p.spending_history c,
            t.tracked cutoff (omega arith),
          );
        }

    -- For stored data that agrees with the log, a transfer of `amount` at a ledger `now` that is not
    -- earlier is let through exactly when the amounts logged in the window behind `now` and this one
    -- stay within the limit and fewer than 1000 logged transfers lie in that window; the new data
    -- agrees with the longer log. It is refused with `SpendingLimitExceeded` only when that sum is over
    -- the limit, with `HistoryCapacityExceeded` only when it is not and 1000 transfers or more lie in
    -- the window, and in no other way.
    pub spend-Spent : (amount : ℕ) → Spent log p amount now (spend p (pos amount) now)
    unfolding spend
    spend-Spent amount =
        let w = sum_after (now - period) log in
        let live = length (kept (now - period) p.spending_history) in
        let test : ltb_ℤ p.spending_limit_usd (saturating_add (pos w) (pos amount))
            ≡ ltb limit (w + amount) =
          ap (λ l. ltb_ℤ l (saturating_add (pos w) (pos amount))) t.capped
          ∙ saturating_add-lt w amount limit small in
        rw (cleaned, remaining, test)
          (elim (dec_lt limit (w + amount)) [
            | yes over ↦ rw (lt→ltb _ _ over) over
            | no within ↦
                rw (ltb-false _ _ within, saturating_add-pos w amount (omega arith))
                  (elim (dec_le max_history_entries live) [
                    | yes full ↦ rw (le→leb _ _ full) (omega arith, omega (arith, live_count))
                    | no room ↦
                        rw (leb-false _ _ room) (
                          after-Tracks amount (omega arith),
                          omega arith,
                          omega (arith, live_count),
                        )
                  ])
          ])

-- The accepted transfer leaves the installation's parameters alone.
pub spend-divisors :
    (p p' : PolicyData) (amount : ℤ) (now : ℕ)
    → spend p amount now ≡ ok p'
    → (p'.usd_divisor ≡ p.usd_divisor) × (p'.token_divisors ≡ p.token_divisors)
unfolding spend
spend-divisors p p' amount now e = ground arith

-- The history never grows past its cap.
pub spend-length :
    (p p' : PolicyData) (usd : ℤ) (now : ℕ)
    → spend p usd now ≡ ok p'
    → length p'.spending_history ≤ max_history_entries
unfolding spend
spend-length p p' usd now h =
    let history = (cleanup_old_entries p.spending_history now p.period_ledgers).1 in
    let last : SpendingEntry = record { amount_usd = usd; ledger = now } in
    let n = length-append history (last ∷ []) in ground (arith, n, h)

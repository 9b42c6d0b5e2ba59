-- ===== src/MultiToken/Loop.antt =====
-- The `while let` loop of `cleanup_old_entries` in policies/multi-token-spending-limit-policy/src/lib.rs
-- as it is written, on fuel: it always ends, and computes what the recursion `evict` does.
use latch_contracts.Base.{
  ℕ, zero, suc, ◌-◌, ◌<◌, ◌≡◌, refl, true, false, Option, none, some, List, [], ◌∷◌, arith, leb,
  length, get_elem?,
}
use latch_contracts.Base.Int.{ℤ, pos, saturating_add}
use latch_contracts.MultiToken.{SpendingEntry, evict, cleanup_old_entries}

-- `Vec::pop_front`
abbrev pub pop_front : List SpendingEntry → List SpendingEntry
pop_front [] = []
pop_front (_ ∷ rest) = rest

-- The rounds from the given local variables on, `none` when the fuel runs out.
pub while_old : ℕ → ℕ → ℤ → List SpendingEntry → Option (ℤ × List SpendingEntry)
while_old zero cutoff_ledger removed_total spending_history = none
while_old (suc fuel) cutoff_ledger removed_total spending_history =
    elim (get_elem? spending_history 0) [
      | none ↦ some (removed_total, spending_history)
      | some entry ↦ elim (leb entry.ledger cutoff_ledger) [
        | true ↦
            while_old fuel cutoff_ledger (saturating_add removed_total entry.amount_usd)
              (pop_front spending_history)
        | false ↦ some (removed_total, spending_history)
      ]
    ]

while_old-evict :
    (fuel cutoff : ℕ) (removed : ℤ) (history : List SpendingEntry)
    → length history < fuel
    → while_old fuel cutoff removed history ≡ some (evict cutoff removed history)
unfolding while_old evict
while_old-evict zero cutoff removed history h = absurd (omega arith)
while_old-evict (suc fuel) cutoff removed [] h = refl
while_old-evict (suc fuel) cutoff removed (e ∷ history) h =
    let next =
      while_old-evict fuel cutoff (saturating_add removed e.amount_usd) history (omega arith) in
    ground (arith, next)

-- The loop of `cleanup_old_entries` ends: with fuel for one round more than there are entries, whatever
-- the entries and the ledgers are, it returns, with the total and the entries that
-- `cleanup_old_entries` gives.
pub while_old-cleanup_old_entries :
    (spending_history : List SpendingEntry) (current_ledger period_ledgers fuel : ℕ)
    → length spending_history < fuel
    → while_old fuel (current_ledger - period_ledgers) (pos 0) spending_history
      ≡ some (cleanup_old_entries spending_history current_ledger period_ledgers)
unfolding cleanup_old_entries
while_old-cleanup_old_entries spending_history current_ledger period_ledgers fuel =
    while_old-evict fuel (current_ledger - period_ledgers) (pos 0) spending_history

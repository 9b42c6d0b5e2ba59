-- ===== src/MultiToken/Tests.antt =====
-- The spending limit's theorems at an installation with a limit of 1000 per 10 ledgers.
use latch_contracts.Base.{◌+◌, ◌-◌, ◌*◌, ◌≤◌, ◌<◌, ◌≡◌, ◌↔◌, refl, some, List, [], ◌∷◌, arith}
use latch_contracts.Base.Int.{pos, max_i128}
use latch_contracts.Soroban.{ok, panic}
use latch_contracts.MultiToken.{
  spending_limit_exceeded, SpendingEntry, PolicyData, account_context, enforce, cleanup_old_entries,
  usd_value,
}
use latch_contracts.MultiToken.Loop.{while_old, while_old-cleanup_old_entries}
use latch_contracts.MultiToken.Window.{sum_after}
use latch_contracts.MultiToken.Rounding.{IsRounded, usd_value_iff}
use latch_contracts.MultiToken.Stored.{Fits, Life-Fits}
use latch_contracts.MultiToken.Acceptance.{Life-recovers}
use latch_contracts.MultiToken.History.{Life-exceeded}
use latch_contracts.MultiToken.Samples.{
  key_discrete, store, by_account, rule, params, answers, ledger, policy_data, after_install,
  to_integer, transfer_of, life, call_priced, small_call_made, life_with_transfer, later_ledger,
  data_with_transfer, later_call_priced,
}

-- 5 times 7 over 2 times 3 rounds down to 5.
usd_value_iff_example :
    (usd_value (pos 5) (pos 7) (pos 2) (pos 3) ≡ ok (pos 5))
    ↔ ((5 * 7 ≤ max_i128) × IsRounded 5 7 2 3 5)
usd_value_iff_example = usd_value_iff 5 7 2 3 (omega arith) (omega arith) 5

Life-exceeded_example :
    (enforce store to_integer by_account answers ledger (transfer_of (pos 400)) rule 7 after_install
      ≡ panic spending_limit_exceeded)
    ↔ (1000 < sum_after (20 - 10) [] + 1200)
Life-exceeded_example =
    Life-exceeded store to_integer 7 rule params 1000 (omega arith) refl by_account answers ledger
      (transfer_of (pos 400)) policy_data call_priced.0 (pos 1200) life (omega arith) call_priced.1

Life-recovers_example :
    (s' : store.State) × (enforce store to_integer by_account answers later_ledger
        (transfer_of (pos 300))
        rule
        7
        small_call_made.0
      ≡ ok s')
Life-recovers_example =
    Life-recovers store to_integer 7 rule params 1000 (omega arith) refl by_account answers
      later_ledger (transfer_of (pos 300)) data_with_transfer later_call_priced.0 (pos 900)
      life_with_transfer (omega arith) later_call_priced.1 (omega arith) (omega arith)

abbrev two_entries : List SpendingEntry
two_entries =
    record { amount_usd = pos 3; ledger = 5 } ∷ record { amount_usd = pos 4; ledger = 15 } ∷ []

while_old-cleanup_old_entries_example :
    while_old 3 10 (pos 0) two_entries ≡ some (cleanup_old_entries two_entries 20 10)
while_old-cleanup_old_entries_example =
    while_old-cleanup_old_entries two_entries 20 10 3 (omega arith)

Life-Fits_example :
    (p : PolicyData) × (store.get (account_context 7 1) small_call_made.0 ≡ some p) × Fits 20 p
Life-Fits_example =
    Life-Fits store to_integer 7 rule params 1000 (omega arith) refl life_with_transfer

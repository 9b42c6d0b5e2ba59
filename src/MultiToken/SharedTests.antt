-- ===== src/MultiToken/SharedTests.antt =====
-- The theorems about the contract that all accounts share, at one installation among calls of others.
use latch_contracts.Base.{
  ◌-◌, ◌≤◌, ◌≡◌, ◌↔◌, inl, inr, refl, List, [], ◌∷◌, arith, ◌==◌, ℕ_discrete,
}
use latch_contracts.Base.Int.{
  ℤ, pos, checked_mul, checked_div, ◌*ℤ◌, ◌+ℤ◌, ◌-ℤ◌, div_toward_zero, saturating_add,
  saturating_sub,
}
use latch_contracts.Soroban.{Address, Auth, ok}
use latch_contracts.MultiToken.{
  install, enforce, cleanup_old_entries, priced, transfer_usd, spend, check_install,
  fetch_usd_divisor, fetch_token_divisors, fetch_token_divisor, checked_pow10, transfer_call,
  uninstall, get_policy_data, first_index_of, fetch_price, usd_value,
}
use latch_contracts.MultiToken.Window.{AllPos, sum_after}
use latch_contracts.MultiToken.Acceptance.{HasRoom}
use latch_contracts.Policies.Isolation.{
  enforce_call, install_call, uninstall_call, perform_action, run,
}
use latch_contracts.MultiToken.Calls.{ContractCall, shared, transfers}
use latch_contracts.MultiToken.Deployed.{run-window, run-accepted}
use latch_contracts.MultiToken.Samples.{
  key_discrete, store, by_account, rule, params, answers, ledger, fresh, after_install, install_ok,
  to_integer, transfer_of, data_with_transfer,
}
use latch_contracts.MultiToken.Quotes.{IsQuoted, run-IsQuoted}

-- Account 8 uses the contract too.
abbrev by_other : Auth
by_other a = a == 8

-- A transfer of the account, and an install and an attempt to uninstall by the other one.
abbrev calls : List (ContractCall ℤ)
calls =
    record {
      auth = by_account;
      account = 7;
      rule = rule;
      action = enforce_call (answers, ledger) (transfer_of (pos 100)) [];
    }
    ∷ record {
      auth = by_other;
      account = 8;
      rule = rule;
      action = install_call (answers, ledger) params;
    }
    ∷ record { auth = by_other; account = 7; rule = rule; action = uninstall_call }
    ∷ []

run-window_example :
    AllPos (transfers store to_integer 7 1 calls after_install)
    × (sum_after (25 - 10) (transfers store to_integer 7 1 calls after_install) ≤ 1000)
run-window_example =
    run-window store to_integer 7 rule params 1000 (omega arith) refl by_account answers fresh
      after_install 20 25 calls install_ok (omega arith) (inr tt, (inl refl, (inr refl, tt)))

call_priced_then :
    (s1 : store.State) × (priced store to_integer by_account answers ledger
        (transfer_of (pos 100))
        rule
        7
        (run (shared store to_integer) calls after_install)
      ≡ ok (data_with_transfer, s1, pos 300))
unfolding run perform_action install uninstall check_install fetch_usd_divisor fetch_token_divisors
    fetch_token_divisor checked_pow10 enforce spend cleanup_old_entries saturating_add
    saturating_sub ◌+ℤ◌ ◌-ℤ◌ priced transfer_usd first_index_of fetch_price usd_value checked_mul
    checked_div ◌*ℤ◌ div_toward_zero transfer_call get_policy_data key_discrete ℕ_discrete
call_priced_then = (_, refl)

run-accepted_example :
    ((s' : store.State) × (enforce store to_integer by_account answers ledger
          (transfer_of (pos 100))
          rule
          7
          (run (shared store to_integer) calls after_install)
        ≡ ok s'))
    ↔ HasRoom 1000 10 (transfers store to_integer 7 1 calls after_install) 20 300
run-accepted_example =
    run-accepted store to_integer 7 rule params 1000 (omega arith) refl by_account answers fresh
      after_install 20 20 calls by_account answers ledger (transfer_of (pos 100)) data_with_transfer
      call_priced_then.0 (pos 300) install_ok (omega arith) (inr tt, (inl refl, (inr refl, tt)))
      (omega arith) call_priced_then.1

run-IsQuoted_example :
    (call : Address × ℤ) × (transfer_call to_integer (transfer_of (pos 100)) ≡ ok call)
    × IsQuoted answers answers params ledger call (pos 300)
run-IsQuoted_example =
    run-IsQuoted store to_integer 7 rule params by_account answers fresh after_install calls
      by_account answers ledger (transfer_of (pos 100)) data_with_transfer call_priced_then.0
      (pos 300) install_ok (inr tt, (inl refl, (inr refl, tt))) call_priced_then.1

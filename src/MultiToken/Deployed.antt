-- ===== src/MultiToken/Deployed.antt =====
-- The rolling limit of policies/multi-token-spending-limit-policy/src/lib.rs in the contract that all accounts
-- share.
use latch_contracts.Base.{ℕ, ◌-◌, ◌≤◌, ◌<◌, ◌≡◌, ◌↔◌, Option, List, [], ◌∷◌, ◌++◌, arith, All}
use latch_contracts.Base.Int.{ℤ, pos, pos_part, max_i128}
use latch_contracts.Soroban.{Address, Auth, Ledger, Context, ContextRule, ok, Storage}
use mathlib.Core.List.{append-nil, append_assoc}
use latch_contracts.Policies.Isolation.{perform, after, run}
use latch_contracts.MultiToken.{
  AccountParams, SpendingEntry, PolicyData, DataKey, Answers, install, enforce, priced,
}
use latch_contracts.MultiToken.Window.{AllPos, sum_after}
use latch_contracts.MultiToken.Life.{Life, installed}
use latch_contracts.MultiToken.History.{Life-window}
use latch_contracts.MultiToken.Acceptance.{HasRoom, Life-accepted}
use latch_contracts.MultiToken.Calls.{
  ContractCall, Rising, ledger_after, Undisturbed, shared, transfer_for, transfers,
}
use latch_contracts.MultiToken.Deployment.{Lives, any_call}

module _ (d : Storage DataKey PolicyData) {Val : Type 0} (to_i128 : Val → Option ℤ)
    (smart_account : Address) (rule : ContextRule) (params : AccountParams) (limit : ℕ)
    (small : limit < max_i128) (capped : params.spending_limit_usd ≡ pos limit) where
  run-Life :
      (calls : List (ContractCall Val)) (s : d.State) (log : List SpendingEntry) (l last now : ℕ)
      → Life d to_i128 smart_account rule params s log l
      → l ≤ last
      → Rising last calls now
      → All (Undisturbed d to_i128 smart_account rule.id) calls
      → Lives d to_i128 smart_account rule params limit small capped
          (run (shared d to_i128) calls s)
          (log ++ transfers d to_i128 smart_account rule.id calls s)
          now
  unfolding run transfers
  run-Life [] s log l last now life low rising keeps = rw append-nil (l, omega arith, life)
  run-Life (c ∷ cs) s log l last now life low rising keeps =
      let t = transfer_for d to_i128 smart_account rule.id c s in
      let (l', low', life') =
        any_call d to_i128 smart_account rule params limit small capped c s log l last life low
          rising.0 keeps.0 in
      rw (← append_assoc log t _) (
        run-Life cs (after (shared d to_i128) s (perform (shared d to_i128) c s)) (log ++ t) l'
          (ledger_after last c.action) now life' low' rising.1 keeps.1)

  -- The limit holds in the contract that everyone shares. After a successful install for an account and
  -- a rule, with a limit that is a positive `i128` below its maximum, whatever calls anyone makes of
  -- the contract at ledgers that do not fall, as long as the account does not uninstall this policy:
  -- the transfers of the account under the rule that these calls let through in the `period_ledgers`
  -- ledgers up to any later one come to the limit at most, and none of them is negative.
  pub run-window :
      (auth : Auth) (a : Answers) (s0 s : d.State) (start now : ℕ) (calls : List (ContractCall Val))
      → install d auth a params rule smart_account s0 ≡ ok s
      → Rising start calls now
      → All (Undisturbed d to_i128 smart_account rule.id) calls
      → AllPos (transfers d to_i128 smart_account rule.id calls s)
        × (sum_after
              (now - params.period_ledgers)
              (transfers d to_i128 smart_account rule.id calls s)
            ≤ limit)
  run-window auth a s0 s start now calls made rising keeps =
      let (l, low, life) =
        run-Life calls s [] start start now (installed auth a s0 start made) (omega arith) rising
          keeps in
      Life-window d to_i128 smart_account rule params limit small capped now life low

  -- The policy refuses nothing else. After a successful install for an account and a rule, with a limit
  -- that is a positive `i128` below its maximum, and any calls of the contract by anyone at ledgers that
  -- do not fall, in which the account does not uninstall this policy: a call of the account under the
  -- rule, at a ledger that is not earlier, that is authorized, well formed and priced at `usd` succeeds
  -- exactly if `usd` and the transfers of the account under the rule that were let through in the window
  -- behind its ledger stay within the limit, and fewer than 1000 of these lie in that window.
  pub run-accepted :
      (auth : Auth) (a : Answers) (s0 s : d.State) (start now : ℕ) (calls : List (ContractCall Val))
      (auth' : Auth) (a' : Answers) (ledger : Ledger) (context : Context Val) (p : PolicyData)
      (s1 : d.State) (usd : ℤ)
      → install d auth a params rule smart_account s0 ≡ ok s
      → Rising start calls now
      → All (Undisturbed d to_i128 smart_account rule.id) calls
      → now ≤ ledger.sequence
      → priced d to_i128 auth' a' ledger context rule smart_account (run (shared d to_i128) calls s)
        ≡ ok (p, s1, usd)
      → ((s' : d.State) × (enforce d to_i128 auth' a' ledger context rule smart_account
              (run (shared d to_i128) calls s)
            ≡ ok s'))
        ↔ HasRoom limit params.period_ledgers
            (transfers d to_i128 smart_account rule.id calls s)
            ledger.sequence
            (pos_part usd)
  run-accepted auth a s0 s start now calls auth' a' ledger context p s1 usd made rising keeps later
        e =
      let (l, low, life) =
        run-Life calls s [] start start now (installed auth a s0 start made) (omega arith) rising
          keeps in
      Life-accepted d to_i128 smart_account rule params limit small capped auth' a' ledger context p
        s1 usd life (omega arith) e

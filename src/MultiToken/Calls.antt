-- ===== src/MultiToken/Calls.antt =====
-- The calls of the deployed contract of policies/multi-token-spending-limit-policy/src/lib.rs, and the
-- transfers that they let through for one account and rule.
use latch_contracts.Base.{ℕ, ◌≤◌, ◌≡◌, ◌⊎◌, false, Option, List, [], ◌∷◌, ◌++◌, if◌then◌else◌}
use latch_contracts.Base.Int.{ℤ}
use latch_contracts.Soroban.{Address, Auth, Ledger, ContextRule, Outcome, ok, panic, trap, Storage}
use latch_contracts.Policies.{Policy}
use latch_contracts.Policies.Isolation.{
  Action, enforce_call, install_call, configure_call, uninstall_call, Call, perform, after,
  concerns,
}
use latch_contracts.MultiToken.{
  Error, AccountParams, SpendingEntry, PolicyData, DataKey, Answers, enforce, priced,
}
use latch_contracts.MultiToken.Contract.{multi_token_policy}

abbrev pub ContractAction : Type 0 → Type 0
ContractAction Val = Action Val (Answers × Ledger) AccountParams ⊥

abbrev pub ContractCall : Type 0 → Type 0
ContractCall Val = Call Val (Answers × Ledger) AccountParams ⊥

-- The ledger of a call that reads one; a call that does not may come at any.
abbrev pub ledger_after : {Val : Type 0} → ℕ → ContractAction Val → ℕ
ledger_after last (enforce_call f context signers) = f.1.sequence
ledger_after last (install_call f params) = f.1.sequence
ledger_after last (configure_call c) = last
ledger_after last uninstall_call = last

-- Calls at ledgers that do not fall, from `last` to `now`.
abbrev pub Rising : {Val : Type 0} → ℕ → List (ContractCall Val) → ℕ → Type 0
Rising last [] now = last ≤ now
Rising last (c ∷ cs) now =
    (last ≤ ledger_after last c.action) × Rising (ledger_after last c.action) cs now

-- A call that is no uninstall which the account has authorized.
abbrev pub Keeps : {Val : Type 0} → Auth → Address → ContractAction Val → Type 0
Keeps auth account uninstall_call = auth account ≡ false
Keeps auth account _ = Unit

module _ (d : Storage DataKey PolicyData) {Val : Type 0} (to_i128 : Val → Option ℤ) where
  -- The transfer that a call lets through, by its outcome and its price.
  abbrev pub entry_of : ℕ → Outcome Error (PolicyData × d.State × ℤ) → List SpendingEntry
  entry_of now (ok (_, _, usd)) = record { amount_usd = usd; ledger = now } ∷ []
  entry_of now (panic _) = []
  entry_of now trap = []

  abbrev pub paid :
      ℕ → Outcome Error d.State → Outcome Error (PolicyData × d.State × ℤ) → List SpendingEntry
  paid now (ok _) q = entry_of now q
  paid now (panic _) q = []
  paid now trap q = []

  abbrev pub transfer_by :
      Auth → ContextRule → Address → ContractAction Val → d.State → List SpendingEntry
  transfer_by auth rule account (enforce_call f context signers) s =
      paid f.1.sequence (enforce d to_i128 auth f.0 f.1 context rule account s)
        (priced d to_i128 auth f.0 f.1 context rule account s)
  transfer_by auth rule account (install_call f params) s = []
  transfer_by auth rule account (configure_call c) s = []
  transfer_by auth rule account uninstall_call s = []

  abbrev pub shared : Policy Val
  shared = multi_token_policy d Val to_i128

  -- A call for an account and a rule, in which the account does not uninstall.
  abbrev pub Undisturbed : Address → ℕ → ContractCall Val → Type 0
  Undisturbed account id c = (concerns shared account id c ≡ false) ⊎ Keeps c.auth account c.action

  abbrev pub transfer_for : Address → ℕ → ContractCall Val → d.State → List SpendingEntry
  transfer_for account id c s =
      if concerns shared account id c then transfer_by c.auth c.rule account c.action s else []

  -- The transfers of an account under a rule that a sequence of calls lets through.
  unfoldable pub transfers : Address → ℕ → List (ContractCall Val) → d.State → List SpendingEntry
  transfers account id [] s = []
  transfers account id (c ∷ cs) s =
      transfer_for account id c s ++ transfers account id cs (after shared s (perform shared c s))

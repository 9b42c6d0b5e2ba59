-- ===== src/SpendingLimit.antt =====
-- The spending limit policy, policies/spending-limit-policy/src/lib.rs. Each entry point is a call of
-- `spending_limit` of stellar_accounts, which is a parameter.
use latch_contracts.Base.{ℕ, List}
use latch_contracts.Base.Int.{ℤ}
use latch_contracts.Soroban.{Address, Auth, Context, ContextRule, Signer, Outcome}

-- `spending_limit`
pub record Library (Val : Type 0) : Type 1 where
  pub State : Type 0
  pub Error : Type 0
  pub AccountParams : Type 0
  pub Data : Type 0
  pub enforce :
      Auth → Context Val → List Signer → ContextRule → Address → State → Outcome Error State
  pub install : Auth → AccountParams → ContextRule → Address → State → Outcome Error State
  pub uninstall : Auth → ContextRule → Address → State → Outcome Error State
  pub get_spending_limit_data : ℕ → Address → State → Outcome Error Data
  pub set_spending_limit : Auth → ℤ → ContextRule → Address → State → Outcome Error State

module _ {Val : Type 0} (l : Library Val) where
  pub enforce :
      Auth → Context Val → List Signer → ContextRule → Address → l.State → Outcome l.Error l.State
  enforce auth context authenticated_signers context_rule smart_account s =
      l.enforce auth context authenticated_signers context_rule smart_account s

  pub install : Auth → l.AccountParams → ContextRule → Address → l.State → Outcome l.Error l.State
  install auth install_params context_rule smart_account s =
      l.install auth install_params context_rule smart_account s

  pub uninstall : Auth → ContextRule → Address → l.State → Outcome l.Error l.State
  uninstall auth context_rule smart_account s = l.uninstall auth context_rule smart_account s

  pub get_spending_limit_data : ℕ → Address → l.State → Outcome l.Error l.Data
  get_spending_limit_data context_rule_id smart_account s =
      l.get_spending_limit_data context_rule_id smart_account s

  pub set_spending_limit : Auth → ℤ → ContextRule → Address → l.State → Outcome l.Error l.State
  set_spending_limit auth spending_limit context_rule smart_account s =
      l.set_spending_limit auth spending_limit context_rule smart_account s

-- ===== src/Weighted.antt =====
-- The weighted threshold policy, policies/weighted-threshold-policy/src/lib.rs. Each entry point is a call
-- of `weighted_threshold` of stellar_accounts, which is a parameter.
use latch_contracts.Base.{ℕ, List}
use latch_contracts.Soroban.{Address, Auth, Context, ContextRule, Signer, Outcome}

-- `weighted_threshold`; a `Map` is a list of its entries.
pub record Library (Val : Type 0) : Type 1 where
  pub State : Type 0
  pub Error : Type 0
  pub AccountParams : Type 0
  pub enforce :
      Auth → Context Val → List Signer → ContextRule → Address → State → Outcome Error State
  pub install : Auth → AccountParams → ContextRule → Address → State → Outcome Error State
  pub uninstall : Auth → ContextRule → Address → State → Outcome Error State
  pub get_threshold : ℕ → Address → State → Outcome Error ℕ
  pub get_signer_weights : ContextRule → Address → State → Outcome Error (List (Signer × ℕ))
  pub set_threshold : Auth → ℕ → ContextRule → Address → State → Outcome Error State
  pub set_signer_weight : Auth → Signer → ℕ → ContextRule → Address → State → Outcome Error State

module _ {Val : Type 0} (l : Library Val) where
  pub enforce :
      Auth → Context Val → List Signer → ContextRule → Address → l.State → Outcome l.Error l.State
  enforce auth context authenticated_signers context_rule smart_account s =
      l.enforce auth context authenticated_signers context_rule smart_account s

  pub install : Auth → l.AccountParams → ContextRule → Address → l.State → Outcome l.Error l.State
  install auth install_params context_rule smart_account s =
      l.install auth install_params context_rule smart_account s

  pub uninstall : Auth → ContextRule → Address → l.State → Outcome l.Error l.State
  uninstall auth context_rule smart_account s = l.uninstall auth context_rule smart_account s

  pub get_threshold : ℕ → Address → l.State → Outcome l.Error ℕ
  get_threshold context_rule_id smart_account s = l.get_threshold context_rule_id smart_account s

  pub get_signer_weights : ContextRule → Address → l.State → Outcome l.Error (List (Signer × ℕ))
  get_signer_weights context_rule smart_account s =
      l.get_signer_weights context_rule smart_account s

  pub set_threshold : Auth → ℕ → ContextRule → Address → l.State → Outcome l.Error l.State
  set_threshold auth threshold context_rule smart_account s =
      l.set_threshold auth threshold context_rule smart_account s

  pub set_signer_weight :
      Auth → Signer → ℕ → ContextRule → Address → l.State → Outcome l.Error l.State
  set_signer_weight auth signer weight context_rule smart_account s =
      l.set_signer_weight auth signer weight context_rule smart_account s

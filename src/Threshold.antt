-- ===== src/Threshold.antt =====
-- The threshold policy, policies/threshold-policy/src/lib.rs, which the factory installs on accounts
-- of several signers. `simple_threshold` of stellar_accounts, which holds its logic, is a parameter.
pub mod Quorum
mod Tests
use mathlib.Core.List.{Sublist}
use latch_contracts.Base.{ℕ, ◌≤◌, ◌≡◌, ◌↔◌, true, Option, none, some, List, length}
use latch_contracts.Soroban.{Address, Auth, Context, ContextRule, Signer, Outcome, ok}
use latch_contracts.Factory.{ThresholdParams}

-- `simple_threshold`, with the threshold that it has stored for an account and a rule, and what its
-- documentation says: an install and a change of the threshold take any number from one to the number
-- of the rule's signers, with the account's authorization, an install only where nothing is stored; a
-- call is let through, with that authorization, exactly if enough of the rule's signers authenticated
-- it, and the threshold stays.
pub record Library (Val : Type 0) : Type 1 where
  pub State : Type 0
  pub Error : Type 0
  pub stored : Address → ℕ → State → Option ℕ
  pub enforce :
      Auth → Context Val → List Signer → ContextRule → Address → State → Outcome Error State
  pub install : Auth → ThresholdParams → ContextRule → Address → State → Outcome Error State
  pub uninstall : Auth → ContextRule → Address → State → Outcome Error State
  pub get_threshold : ℕ → Address → State → Outcome Error ℕ
  pub set_threshold : Auth → ℕ → ContextRule → Address → State → Outcome Error State
  pub install-stored :
      (auth : Auth) (p : ThresholdParams) (rule : ContextRule) (account : Address) (s : State)
      → auth account ≡ true
      → stored account rule.id s ≡ none
      → 1 ≤ p.threshold
      → p.threshold ≤ length rule.signers
      → (s' : State) × (install auth p rule account s ≡ ok s')
        × (stored account rule.id s' ≡ some p.threshold)
  pub set_threshold-stored :
      (auth : Auth) (t u : ℕ) (rule : ContextRule) (account : Address) (s : State)
      → auth account ≡ true
      → stored account rule.id s ≡ some u
      → 1 ≤ t
      → t ≤ length rule.signers
      → (s' : State) × (set_threshold auth t rule account s ≡ ok s')
        × (stored account rule.id s' ≡ some t)
  pub get_threshold-stored :
      (id : ℕ) (account : Address) (s : State) (t : ℕ)
      → stored account id s ≡ some t
      → get_threshold id account s ≡ ok t
  pub enforce-stored :
      (auth : Auth) (context : Context Val) (authenticated : List Signer) (rule : ContextRule)
      (account : Address) (s s' : State)
      → enforce auth context authenticated rule account s ≡ ok s'
      → stored account rule.id s' ≡ stored account rule.id s
  pub enforce-enough :
      (auth : Auth) (context : Context Val) (authenticated : List Signer) (rule : ContextRule)
      (account : Address) (s : State) (t : ℕ)
      → auth account ≡ true
      → stored account rule.id s ≡ some t
      → Sublist authenticated rule.signers
      → t ≤ length authenticated
      → (s' : State) × (enforce auth context authenticated rule account s ≡ ok s')
  pub enforce-only_enough :
      (auth : Auth) (context : Context Val) (authenticated : List Signer) (rule : ContextRule)
      (account : Address) (s s' : State) (t : ℕ)
      → enforce auth context authenticated rule account s ≡ ok s'
      → stored account rule.id s ≡ some t
      → Sublist authenticated rule.signers
      → (auth account ≡ true) × (t ≤ length authenticated)

module _ {Val : Type 0} (l : Library Val) where
  -- `impl Policy for ThresholdPolicy`
  pub enforce :
      Auth → Context Val → List Signer → ContextRule → Address → l.State → Outcome l.Error l.State
  enforce auth context authenticated_signers context_rule smart_account s =
      l.enforce auth context authenticated_signers context_rule smart_account s

  pub install : Auth → ThresholdParams → ContextRule → Address → l.State → Outcome l.Error l.State
  install auth install_params context_rule smart_account s =
      l.install auth install_params context_rule smart_account s

  pub uninstall : Auth → ContextRule → Address → l.State → Outcome l.Error l.State
  uninstall auth context_rule smart_account s = l.uninstall auth context_rule smart_account s

  pub get_threshold : ℕ → Address → l.State → Outcome l.Error ℕ
  get_threshold context_rule_id smart_account s = l.get_threshold context_rule_id smart_account s

  pub set_threshold : Auth → ℕ → ContextRule → Address → l.State → Outcome l.Error l.State
  set_threshold auth threshold context_rule smart_account s =
      l.set_threshold auth threshold context_rule smart_account s

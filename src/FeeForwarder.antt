-- ===== src/FeeForwarder.antt =====
-- The fee forwarder, fee-forwarder/src/lib.rs. The access control, the macro `only_role` and the fee
-- abstraction of the libraries it stands on are parameters.
pub mod Roles
pub mod Steps
pub mod Deployed
mod Tests
use latch_contracts.Base.{ℕ, Bool, true, false, List, [], ◌∷◌, ◌≡◌, ◌⊎◌, ◌↔◌}
use latch_contracts.Base.Int.{ℤ}
use latch_contracts.Soroban.{Address, Symbol, Auth, Outcome, ok, ◌>>=◌, ◌>>◌}

-- `MANAGER_ROLE`
abbrev pub manager_role : Symbol
manager_role = "manager"

-- `EXECUTOR_ROLE`
abbrev pub executor_role : Symbol
executor_role = "executor"

-- The arguments of `forward` but the relayer.
pub record Request (Val : Type 0) : Type 0 where
  pub fee_token : Address
  pub fee_amount : ℤ
  pub max_fee_amount : ℤ
  pub expiration_ledger : ℕ
  pub target_contract : Address
  pub target_fn : Symbol
  pub target_args : List Val
  pub user : Address

-- The libraries: `stellar_access::access_control`, `stellar_fee_abstraction`, and the macro `only_role`,
-- which lets a call through exactly when its operator has the role and authorizes the call. The state
-- is the contract's own and what the tokens and the target contracts keep. Roles change only through
-- the access control.
pub record Library (Val : Type 0) : Type 1 where
  pub State : Type 0
  pub Error : Type 0
  pub Approval : Type 0
  pub lazy : Approval
  pub has_role : Address → Symbol → State → Bool
  pub only_role : Auth → Address → Symbol → State → Outcome Error (Unit {0})
  pub set_admin : Address → State → Outcome Error State
  pub grant_role_no_auth : Address → Symbol → Address → State → Outcome Error State
  pub collect_fee_and_invoke :
      Auth
      → Request Val
      → (fee_recipient : Address) → Approval
      → State
      → Outcome Error (Val × State)
  pub set_allowed_fee_token : Address → Bool → State → Outcome Error State
  pub sweep_token : Address → Address → State → Outcome Error (ℤ × State)
  pub only_role_iff :
      (auth : Auth) (operator : Address) (role : Symbol) (s : State)
      → (only_role auth operator role s ≡ ok tt)
        ↔ ((has_role operator role s ≡ true) × (auth operator ≡ true))
  pub has_role-set_admin :
      (admin : Address) (s s' : State)
      → set_admin admin s ≡ ok s'
      → (a : Address) (r : Symbol) → has_role a r s' ≡ has_role a r s
  pub has_role-grant_role_no_auth :
      (account : Address) (role : Symbol) (caller : Address) (s s' : State)
      → grant_role_no_auth account role caller s ≡ ok s'
      → (a : Address) (r : Symbol)
      → (has_role a r s' ≡ true) ↔ (((a ≡ account) × (r ≡ role)) ⊎ (has_role a r s ≡ true))
  pub has_role-collect_fee_and_invoke :
      (auth : Auth) (q : Request Val) (fee_recipient : Address) (approval : Approval) (s : State)
      (v : Val) (s' : State)
      → collect_fee_and_invoke auth q fee_recipient approval s ≡ ok (v, s')
      → (a : Address) (r : Symbol) → has_role a r s' ≡ has_role a r s
  pub has_role-set_allowed_fee_token :
      (token : Address) (allowed : Bool) (s s' : State)
      → set_allowed_fee_token token allowed s ≡ ok s'
      → (a : Address) (r : Symbol) → has_role a r s' ≡ has_role a r s
  pub has_role-sweep_token :
      (token recipient : Address) (s : State) (n : ℤ) (s' : State)
      → sweep_token token recipient s ≡ ok (n, s')
      → (a : Address) (r : Symbol) → has_role a r s' ≡ has_role a r s

module _ {Val : Type 0} (l : Library Val) where
  -- The loop of the constructor.
  pub grant_executors : List Address → Address → l.State → Outcome l.Error l.State
  grant_executors [] admin s = ok s
  grant_executors (executor ∷ executors) admin s =
      l.grant_role_no_auth executor executor_role admin s >>= λ s'.
      grant_executors executors admin s'

  pub constructor : Address → Address → List Address → l.State → Outcome l.Error l.State
  unfolding grant_executors
  constructor admin manager executors s = do
    s₁ ← l.set_admin admin s
    s₂ ← l.grant_role_no_auth manager manager_role admin s₁
    grant_executors executors admin s₂

  -- `this` is the contract's own address.
  pub forward : Auth → Address → Request Val → Address → l.State → Outcome l.Error (Val × l.State)
  forward auth this q relayer s =
      l.only_role auth relayer "executor" s >> l.collect_fee_and_invoke auth q this l.lazy s

  pub enable_fee_token : Auth → Address → Address → l.State → Outcome l.Error l.State
  enable_fee_token auth token operator s =
      l.only_role auth operator "manager" s >> l.set_allowed_fee_token token true s

  pub disable_fee_token : Auth → Address → Address → l.State → Outcome l.Error l.State
  disable_fee_token auth token operator s =
      l.only_role auth operator "manager" s >> l.set_allowed_fee_token token false s

  pub sweep_tokens : Auth → Address → Address → Address → l.State → Outcome l.Error (ℤ × l.State)
  sweep_tokens auth token recipient operator s =
      l.only_role auth operator "manager" s >> l.sweep_token token recipient s

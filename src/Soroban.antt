-- ===== src/Soroban.antt =====
-- What the contracts see of their host and of the `stellar-accounts` interfaces: addresses, the
-- ledger, authorization contexts, storage, tokens, and how a call ends. None of this is code of the
-- repository; the contracts take it as arguments or use it through records of operations and laws.
mod Calls
mod Stores
pub use Calls.*
pub use Stores.*
use latch_contracts.Base.{ℕ, Bool, true, false, Option, List, [], ◌∷◌, ◌++◌, String}
use latch_contracts.Base.Int.{ℤ}

-- Addresses are only compared, so a number stands for each.
abbrev pub Address : Type 0
Address = ℕ

abbrev pub Symbol : Type 0
Symbol = String

-- The bytes of a `Bytes` or `BytesN`.
abbrev pub Bytes : Type 0
Bytes = List ℕ

-- `e.ledger()`
pub record Ledger : Type 0 where
  pub sequence : ℕ
  pub timestamp : ℕ

-- Whether the transaction carries an authorization of the address for this call.
abbrev pub Auth : Type 0
Auth = Address → Bool

pub record ContractContext (Val : Type 0) : Type 0 where
  pub contract : Address
  pub fn_name : Symbol
  pub args : List Val

-- `other` is any variant of `Context` but `Contract`.
pub data Context (Val : Type 0) : Type 0 where
  contract : ContractContext Val → Context Val
  other : Context Val

pub data ContextRuleType : Type 0 where
  default : ContextRuleType
  call_contract : Address → ContextRuleType
  create_contract : Bytes → ContextRuleType

-- `matches!(t, ContextRuleType::CallContract(_))`
abbrev pub is_call_contract : ContextRuleType → Bool
is_call_contract (call_contract _) = true
is_call_contract _ = false

pub data Signer : Type 0 where
  delegated : Address → Signer
  external : Address → Bytes → Signer

-- The fields of a context rule that the contracts read.
pub record ContextRule : Type 0 where
  pub id : ℕ
  pub context_type : ContextRuleType
  pub signers : List Signer

-- A contract's own state and the events that it has published, oldest first.
pub record World (S E : Type 0) : Type 0 where
  pub store : S
  pub events : List E

-- `publish` of an event.
abbrev pub publish : {S E : Type 0} → E → World S E → World S E
publish event w = record w { events = w.events ++ event ∷ [] }

-- The token contracts: `transfer token from to amount`, with `none` for a call that reverts.
pub record Tokens : Type 1 where
  pub State : Type 0
  pub transfer : Address → Address → Address → ℤ → State → Option State
  pub balance : Address → Address → State → ℤ

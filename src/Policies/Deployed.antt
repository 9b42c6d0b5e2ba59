-- ===== src/Policies/Deployed.antt =====
-- The four contracts of policies/ with storage of their own, as they are deployed: each one is a
-- `Policy`, so what Isolation shows of any policy is shown of their code.
use latch_contracts.Base.{ℕ, ◌≡◌, false, List, All}
use latch_contracts.Soroban.{Address, Storage}
use latch_contracts.Policies.{Policy}
use latch_contracts.Policies.Isolation.{Call, run, replay, run-replay, run-unauthorized}
use latch_contracts.Session.{SessionStorageKey, SessionData}
use latch_contracts.Session.Contract.{session_policy}
use latch_contracts.ParameterScoped.{ParameterScopedStorageKey, ParameterScopedData, Decoders}
use latch_contracts.ParameterScoped.Contract.{parameter_scoped_policy}
use latch_contracts.Recipient.{RecipientStorageKey, RecipientData}
use latch_contracts.Recipient.Contract.{recipient_policy}
use latch_contracts.MultiToken.{DataKey, PolicyData}
use latch_contracts.MultiToken.Contract.{multi_token_policy}

pub data PolicyContract : Type 0 where
  session parameter_scoped recipient multi_token : PolicyContract

-- The host's storage of each contract, and its conversions of an argument of a call.
pub record Host (Val : Type 0) : Type 1 where
  pub session_storage : Storage SessionStorageKey SessionData
  pub parameter_scoped_storage : Storage ParameterScopedStorageKey ParameterScopedData
  pub recipient_storage : Storage RecipientStorageKey RecipientData
  pub multi_token_storage : Storage DataKey PolicyData
  pub decoders : Decoders Val

module _ {Val : Type 0} (h : Host Val) where
  abbrev pub deployed : PolicyContract → Policy Val
  deployed session = session_policy h.session_storage Val
  deployed parameter_scoped = parameter_scoped_policy h.parameter_scoped_storage Val h.decoders
  deployed recipient = recipient_policy h.recipient_storage Val h.decoders.to_address
  deployed multi_token = multi_token_policy h.multi_token_storage Val h.decoders.to_i128

  -- Every account and rule has a policy to itself. In each of the four contracts (session, parameter
  -- scoped, recipient allowlist and multi-token spending limit), whatever calls anyone makes of the
  -- entry points that change something (enforce, install, uninstall and, of the recipient allowlist,
  -- set_allowed_recipients), failing calls included, what is stored for an account and a rule is what
  -- the calls for that account and rule alone make of it, one after the other: an install stores what
  -- the policy accepts where nothing is stored, a call of the account changes what is stored as the
  -- policy allows, a new list of recipients takes the old one's place, an uninstall removes the entry,
  -- each with the account's authorization, and all else changes nothing.
  pub deployed-replay :
      (contract : PolicyContract) (a : Address) (i : ℕ)
      (calls : List
        (Call Val (deployed contract).Facts (deployed contract).Params (deployed contract).Config))
      (s : (deployed contract).State)
      → (deployed contract).lookup a i (run (deployed contract) calls s)
        ≡ replay (deployed contract) a i calls ((deployed contract).lookup a i s)
  deployed-replay contract = run-replay (deployed contract)

  -- In each of the four policy contracts (session, parameter scoped, recipient allowlist and multi-token
  -- spending limit), whatever calls of enforce, install, uninstall and set_allowed_recipients anyone
  -- makes: as long as no transaction carries an account's authorization, nothing that is stored for the
  -- account under any rule changes.
  pub deployed-unauthorized :
      (contract : PolicyContract) (a : Address) (i : ℕ)
      (calls : List
        (Call Val (deployed contract).Facts (deployed contract).Params (deployed contract).Config))
      (s : (deployed contract).State)
      → All (λ c. c.auth a ≡ false) calls
      → (deployed contract).lookup a i (run (deployed contract) calls s)
        ≡ (deployed contract).lookup a i s
  deployed-unauthorized contract = run-unauthorized (deployed contract)

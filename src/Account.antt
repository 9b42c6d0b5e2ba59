-- ===== src/Account.antt =====
-- The smart account, latch-smart-account/src/lib.rs. The host's deployer and the functions of
-- `stellar_accounts::smart_account` and `upgradeable` that the contract calls are parameters.
pub mod Registry
mod Tests
use latch_contracts.Base.{
  ℕ, ◌+◌, ◌^◌, Bool, Option, none, some, List, [], ◌∷◌, ◌++◌, String, ltb, get_or, if◌then◌else◌,
}
use latch_contracts.Soroban.{
  Address, Bytes, Auth, Context, ContextRuleType, default, Signer, Outcome, ok, panic, trap, ◌>>=◌,
  ◌>>◌, require_auth, unwrap, unwrap_or_panic, Storage,
}

pub record DeployedContract : Type 0 where
  pub address : Address
  pub wasm_hash : Bytes

-- `LatchSmartAccountStorageKey`, by the kind of storage that each key lives in: the count in instance
-- storage, the records in persistent storage.
pub data CountKey : Type 0 where
  deployed_contract_count : CountKey

pub data RecordKey : Type 0 where
  deployed_contract : ℕ → RecordKey

pub data LatchSmartAccountError : Type 0 where
  deployed_contract_not_found math_overflow : LatchSmartAccountError

pub data Event : Type 0 where
  contract_deployed : Address → Bytes → Event

-- `n.checked_add(1)` of a `u32`
unfoldable pub checked_succ : ℕ → Option ℕ
checked_succ n = if ltb (n + 1) (2 ^ 32) then some (n + 1) else none

-- The library of smart accounts and the deployer for this contract, with `none` for a call that fails.
pub record Library (Val : Type 0) : Type 1 where
  pub State : Type 0
  pub Payload : Type 0
  pub add_context_rule :
      ContextRuleType
      → String
      → Option ℕ
      → List Signer
      → List (Address × Val)
      → State
      → Option State
  pub batch_add_signer : ℕ → List Signer → State → Option State
  pub do_check_auth : Bytes → Payload → List (Context Val) → State → Option State
  pub upgrade : Bytes → State → Option State
  pub deploy_v2 : Bytes → Bytes → List Val → State → Option (Address × State)
  pub extend_amount : ℕ
  pub ttl_threshold : ℕ

module _ {Val : Type 0} (i : Storage CountKey ℕ) (p : Storage RecordKey DeployedContract)
    (l : Library Val) where
  -- The two storages of the registry, the state behind the library, and the published events.
  pub record World : Type 0 where
    pub count : i.State
    pub records : p.State
    pub rest : l.State
    pub events : List Event

  abbrev pub lift : Option l.State → World → Outcome LatchSmartAccountError World
  lift o w = unwrap o >>= λ rest'. ok (record w { rest = rest' })

  pub constructor :
      List Signer → List (Address × Val) → World → Outcome LatchSmartAccountError World
  constructor signers policies w =
      lift (l.add_context_rule default "default" none signers policies w.rest) w

  -- `this` is the account's own address.
  pub batch_add_signer :
      Auth → Address → ℕ → List Signer → World → Outcome LatchSmartAccountError World
  batch_add_signer auth this context_rule_id signers w =
      require_auth (auth this) >> lift (l.batch_add_signer context_rule_id signers w.rest) w

  pub get_deployed_contract_count : World → ℕ
  get_deployed_contract_count w = get_or (i.get deployed_contract_count w.count) 0

  -- The part of `deploy_contract` behind the deployment.
  pub register : Address → Bytes → World → Outcome LatchSmartAccountError (Address × World)
  unfolding get_deployed_contract_count
  register address wasm_hash w = do
    let index = get_deployed_contract_count w
    next_count ← unwrap_or_panic (checked_succ index) math_overflow
    let key = deployed_contract index
    let recorded = p.set key (record { address = address; wasm_hash = wasm_hash }) w.records
    ok (
      address,
      record w {
        count = i.set deployed_contract_count next_count w.count;
        records = p.extend_ttl key l.ttl_threshold l.extend_amount recorded;
        events = w.events ++ contract_deployed address wasm_hash ∷ [];
      },
    )

  pub deploy_contract :
      Bytes → Bytes → List Val → World → Outcome LatchSmartAccountError (Address × World)
  unfolding register
  deploy_contract wasm_hash salt constructor_args w = do
    (address, rest') ← unwrap (l.deploy_v2 salt wasm_hash constructor_args w.rest)
    register address wasm_hash (record w { rest = rest' })

  -- The record, and the records with its lifetime extended.
  pub get_deployed_contract : ℕ → World → Outcome LatchSmartAccountError (DeployedContract × World)
  get_deployed_contract index w = do
    let key = deployed_contract index
    found ← unwrap_or_panic (p.get key w.records) deployed_contract_not_found
    ok (found, record w { records = p.extend_ttl key l.ttl_threshold l.extend_amount w.records })

  pub check_auth :
      Bytes → l.Payload → List (Context Val) → World → Outcome LatchSmartAccountError World
  check_auth signature_payload signatures auth_contexts w =
      lift (l.do_check_auth signature_payload signatures auth_contexts w.rest) w

  pub upgrade : Auth → Address → Bytes → World → Outcome LatchSmartAccountError World
  upgrade auth this new_wasm_hash w =
      require_auth (auth this) >> lift (l.upgrade new_wasm_hash w.rest) w

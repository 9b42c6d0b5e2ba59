-- ===== src/Factory.antt =====
-- The account factory, account-factory/contracts/factory-contract/src/lib.rs. The host's order on
-- addresses and bytes, its hash, its deployer and the XDR of an address are parameters.
pub mod Signers
pub mod Insert
pub mod Reorder
pub mod Canonical
pub mod Shapes
pub mod Listing
pub mod Loop
pub mod Salt
pub mod Create
pub mod Refusals
pub mod Creation
pub mod Identity
pub mod Samples
mod Tests
mod Types
mod Preimage
pub use Types.*
unfoldable pub use Preimage.*
use Prim.Native.Nat.{Ordering, compare}
use latch_contracts.Base.{
  ℕ, ◌+◌, ◌/◌, ◌%◌, ◌^◌, ◌≡◌, Bool, true, false, Option, none, some, List, [], ◌∷◌, ◌++◌, ltb, leb,
  ◌==◌, ◌&&◌, ◌||◌, not, length, if◌then◌else◌,
}
use latch_contracts.Soroban.{
  Address, Bytes, Signer, delegated, external, Outcome, ok, panic, trap, ◌>>=◌, ◌>>◌, panic_if,
  unwrap, unwrap_or_panic, Storage, has,
}

-- `a.then_with(|| b)`
abbrev pub then_with : Ordering → Ordering → Ordering
then_with Ordering.eq b = b
then_with Ordering.lt b = Ordering.lt
then_with Ordering.gt b = Ordering.gt

abbrev pub first_or_zero : Bytes → ℕ
first_or_zero [] = 0
first_or_zero (b ∷ _) = b

abbrev pub bad_webauthn_key : Bytes → Bool
bad_webauthn_key key_data = leb (length key_data) 65 || not (first_or_zero key_data == 0x04)

abbrev pub validate_external : SignerKind → Bytes → Outcome FactoryError (Unit {0})
validate_external ed25519 key_data = panic_if (not (length key_data == 32)) invalid_ed25519_key
validate_external web_authn key_data = panic_if (bad_webauthn_key key_data) invalid_webauthn_key

unfoldable pub validate_signer_shape : AccountSignerInit → Outcome FactoryError (Unit {0})
validate_signer_shape (delegated_init _) = ok tt
validate_signer_shape (external_init e) = validate_external e.signer_kind e.key_data

module _ (oa : Order Address) (ob : Order Bytes) where
  -- The comparison of two signers whose codes are equal.
  abbrev pub compare_same_code : AccountSignerInit → AccountSignerInit → Ordering
  compare_same_code (delegated_init left) (delegated_init right) = oa.cmp left right
  compare_same_code (external_init left) (external_init right) =
      then_with (compare (signer_kind_code left.signer_kind) (signer_kind_code right.signer_kind))
        (ob.cmp left.key_data right.key_data)
  compare_same_code _ _ = Ordering.eq

  pub compare_signers : AccountSignerInit → AccountSignerInit → Ordering
  compare_signers left right =
      then_with (compare (account_signer_code left) (account_signer_code right))
        (compare_same_code left right)

  -- The `while` loop of `canonicalize_signers`: the place of a signer among the ones so far.
  pub insert_signer :
      List AccountSignerInit → AccountSignerInit → Outcome FactoryError (List AccountSignerInit)
  insert_signer [] signer = ok (signer ∷ [])
  insert_signer (existing ∷ rest) signer = elim (compare_signers existing signer) [
    | Ordering.eq ↦ panic duplicate_signer
    | Ordering.gt ↦ ok (signer ∷ existing ∷ rest)
    | Ordering.lt ↦ insert_signer rest signer >>= λ rest'. ok (existing ∷ rest')
  ]

  -- Its `for` loop, with `canonical` as the accumulator.
  pub canonicalize_from :
      List AccountSignerInit
      → List AccountSignerInit
      → Outcome FactoryError (List AccountSignerInit)
  unfolding insert_signer
  canonicalize_from canonical [] = ok canonical
  canonicalize_from canonical (signer ∷ signers) =
      validate_signer_shape signer
      >> (insert_signer canonical signer >>= λ canonical'. canonicalize_from canonical' signers)

  pub canonicalize_signers : List AccountSignerInit → Outcome FactoryError (List AccountSignerInit)
  unfolding canonicalize_from
  canonicalize_signers signers = canonicalize_from [] signers

-- The threshold of `normalize_params`, by the number of signers and the given threshold.
unfoldable pub effective_threshold : ℕ → Option ℕ → Outcome FactoryError ℕ
effective_threshold signer_count none = if signer_count == 1 then ok 1 else panic missing_threshold
effective_threshold signer_count (some threshold) =
    if signer_count == 1
    then (if threshold == 1 then ok 1 else panic invalid_threshold)
    else if leb 1 threshold && leb threshold signer_count
    then ok threshold
    else panic invalid_threshold

module _ (oa : Order Address) (ob : Order Bytes) where
  pub normalize_params : AccountInitParams → Outcome FactoryError NormalizedParams
  unfolding canonicalize_signers
  normalize_params params = do
    panic_if (length params.signers == 0) no_signers
    canonical_signers ← canonicalize_signers oa ob params.signers
    threshold ← effective_threshold (length canonical_signers) params.threshold
    ok (record {
      signers = canonical_signers;
      effective_threshold = threshold;
      account_salt = params.account_salt;
    })

abbrev pub singleton_ttl_threshold : ℕ
singleton_ttl_threshold = 100

abbrev pub singleton_extend_amount : ℕ
singleton_extend_amount = 1555200

-- The install parameters of the threshold policy, which the factory hands to the new account.
pub record ThresholdParams : Type 0 where
  pub threshold : ℕ

-- The chain as the factory uses it: which addresses have an executable, and the deployer for this
-- contract, `deploy_v2 salt wasm signers policies`, with `none` for a deployment that fails.
pub record Chain : Type 1 where
  pub State : Type 0
  pub to_xdr : Address → Bytes
  pub sha256 : Bytes → Bytes
  pub deployed_address : Bytes → Address
  pub executable : Address → State → Bool
  pub deploy_v2 :
      Bytes → Bytes → List Signer → List (Address × ThresholdParams) → State → Option State
  pub executable-deploy_v2 :
      (salt wasm : Bytes) (signers : List Signer) (policies : List (Address × ThresholdParams))
      (s s' : State)
      → deploy_v2 salt wasm signers policies s ≡ some s'
      → executable (deployed_address salt) s' ≡ true

abbrev pub verifier_of : FactoryConfig → SignerKind → Address
verifier_of c ed25519 = c.ed25519_verifier
verifier_of c web_authn = c.webauthn_verifier

abbrev pub account_signer : FactoryConfig → AccountSignerInit → Signer
account_signer c (delegated_init address) = delegated address
account_signer c (external_init e) = external (verifier_of c e.signer_kind) e.key_data

unfoldable pub build_account_signers : FactoryConfig → List AccountSignerInit → List Signer
build_account_signers c [] = []
build_account_signers c (signer ∷ signers) =
    account_signer c signer ∷ build_account_signers c signers

unfoldable pub build_account_policies : FactoryConfig → ℕ → ℕ → List (Address × ThresholdParams)
build_account_policies c threshold signer_count =
    if ltb 1 signer_count then (c.threshold_policy, record { threshold = threshold }) ∷ [] else []

module _ (oa : Order Address) (ob : Order Bytes) (d : Storage DataKey FactoryConfig)
    (c : Chain) where
  -- The factory's instance storage, the rest of the chain, and the published events.
  pub record World : Type 0 where
    pub store : d.State
    pub chain : c.State
    pub events : List Event

  abbrev pub extend_ttl : World → World
  extend_ttl w = record w {
    store = d.extend_ttl config singleton_ttl_threshold singleton_extend_amount w.store;
  }

  abbrev pub validate_singleton_address :
      Address → FactoryError → World → Outcome FactoryError (Unit {0})
  validate_singleton_address address error w = panic_if (not (c.executable address w.chain)) error

  pub constructor : Bytes → Address → Address → Address → World → Outcome FactoryError World
  constructor smart_account_wasm_hash ed25519_verifier webauthn_verifier threshold_policy w = do
    panic_if (has d config w.store) already_initialized
    validate_singleton_address ed25519_verifier invalid_ed25519_verifier w
    validate_singleton_address webauthn_verifier invalid_webauthn_verifier w
    validate_singleton_address threshold_policy invalid_threshold_policy w
    ok (
        extend_ttl (record w {
          store =
              d.set config
                (record {
                  smart_account_wasm_hash = smart_account_wasm_hash;
                  ed25519_verifier = ed25519_verifier;
                  webauthn_verifier = webauthn_verifier;
                  threshold_policy = threshold_policy;
                })
                w.store;
        }))

  -- The stored configuration; the lifetime is extended before it is read.
  pub get_config : World → Outcome FactoryError FactoryConfig
  get_config w = unwrap_or_panic (d.get config (extend_ttl w).store) missing_config

  pub compute_account_deploy_salt : NormalizedParams → Bytes
  unfolding salt_preimage
  compute_account_deploy_salt params = c.sha256 (salt_preimage c.to_xdr params)

  pub get_account_address : AccountInitParams → World → Outcome FactoryError Address
  unfolding normalize_params compute_account_deploy_salt
  get_account_address params w = do
    normalized ← normalize_params oa ob params
    ok (c.deployed_address (compute_account_deploy_salt normalized))

  -- The part of `create_account` that deploys and publishes.
  pub deploy_account :
      FactoryConfig → NormalizedParams → World → Outcome FactoryError (Address × World)
  unfolding compute_account_deploy_salt build_account_signers build_account_policies
  deploy_account cfg normalized w = do
    let account_salt = compute_account_deploy_salt normalized
    let account = c.deployed_address account_salt
    let signers = build_account_signers cfg normalized.signers
    let policies = build_account_policies cfg normalized.effective_threshold (length signers)
    chain' ← unwrap (c.deploy_v2 account_salt cfg.smart_account_wasm_hash signers policies w.chain)
    ok (account, record w { chain = chain'; events = w.events ++ account_created account ∷ [] })

  pub create_account : AccountInitParams → World → Outcome FactoryError (Address × World)
  unfolding get_config normalize_params compute_account_deploy_salt deploy_account
  create_account params w = do
    cfg ← get_config w
    normalized ← normalize_params oa ob params
    let account_address = c.deployed_address (compute_account_deploy_salt normalized)
    let w' = extend_ttl w
    if c.executable account_address w.chain
        then ok (account_address, w')
        else deploy_account cfg normalized w'

  pub get_verifier : SignerKind → World → Outcome FactoryError (Address × World)
  unfolding get_config
  get_verifier signer_kind w = do cfg ← get_config w; ok (verifier_of cfg signer_kind, extend_ttl w)

  pub get_threshold_policy : World → Outcome FactoryError (Address × World)
  unfolding get_config
  get_threshold_policy w = do cfg ← get_config w; ok (cfg.threshold_policy, extend_ttl w)

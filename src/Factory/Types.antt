-- ===== src/Factory/Types.antt =====
-- The data of account-factory/contracts/factory-contract/src/lib.rs, and the host's orders on
-- addresses and bytes.
use Prim.Native.Nat.{Ordering}
use latch_contracts.Base.{ℕ, ◌≡◌, Option, List}
use latch_contracts.Soroban.{Address, Bytes}

pub data DataKey : Type 0 where
  config : DataKey

pub record FactoryConfig : Type 0 where
  pub smart_account_wasm_hash : Bytes
  pub ed25519_verifier : Address
  pub webauthn_verifier : Address
  pub threshold_policy : Address

pub data SignerKind : Type 0 where
  ed25519 web_authn : SignerKind

pub record ExternalSignerInit : Type 0 where
  pub signer_kind : SignerKind
  pub key_data : Bytes

pub data AccountSignerInit : Type 0 where
  delegated_init : Address → AccountSignerInit
  external_init : ExternalSignerInit → AccountSignerInit

pub record AccountInitParams : Type 0 where
  pub signers : List AccountSignerInit
  pub threshold : Option ℕ
  pub account_salt : Bytes

pub data FactoryError : Type 0 where
  already_initialized missing_config no_signers duplicate_signer : FactoryError
  missing_threshold invalid_threshold invalid_ed25519_key invalid_webauthn_key : FactoryError
  invalid_ed25519_verifier invalid_webauthn_verifier invalid_threshold_policy : FactoryError

pub data Event : Type 0 where
  account_created : Address → Event

pub record NormalizedParams : Type 0 where
  pub signers : List AccountSignerInit
  pub effective_threshold : ℕ
  pub account_salt : Bytes

-- The host's total order on a type: `cmp`, with the laws of `core::cmp::Ord`.
pub record Order (A : Type 0) : Type 0 where
  pub cmp : A → A → Ordering
  pub cmp_refl : (a : A) → cmp a a ≡ Ordering.eq
  pub eq_of_cmp : (a b : A) → cmp a b ≡ Ordering.eq → a ≡ b
  pub cmp_lt_gt : (a b : A) → cmp a b ≡ Ordering.lt → cmp b a ≡ Ordering.gt
  pub cmp_gt_lt : (a b : A) → cmp a b ≡ Ordering.gt → cmp b a ≡ Ordering.lt
  pub cmp_trans :
      (a b c : A) → cmp a b ≡ Ordering.lt → cmp b c ≡ Ordering.lt → cmp a c ≡ Ordering.lt

abbrev pub signer_kind_code : SignerKind → ℕ
signer_kind_code ed25519 = 0x01
signer_kind_code web_authn = 0x02

abbrev pub account_signer_code : AccountSignerInit → ℕ
account_signer_code (delegated_init _) = 0x00
account_signer_code (external_init e) = signer_kind_code e.signer_kind

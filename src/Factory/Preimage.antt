-- ===== src/Factory/Preimage.antt =====
-- The preimage of the deployment salt in account-factory/contracts/factory-contract/src/lib.rs.

use latch_contracts.Base.{ℕ, ◌/◌, ◌%◌, ◌^◌, List, [], ◌∷◌, ◌++◌, length}
use latch_contracts.Soroban.{Address, Bytes}
use latch_contracts.Factory.Types.{
  AccountSignerInit, delegated_init, external_init, NormalizedParams, account_signer_code,
}

-- `n.to_be_bytes()` of a `u32`
unfoldable pub to_be_bytes : ℕ → Bytes
to_be_bytes n = n / 2 ^ 24 % 256 ∷ n / 2 ^ 16 % 256 ∷ n / 2 ^ 8 % 256 ∷ n % 256 ∷ []

-- b"latch.factory.account.v2"
abbrev pub salt_domain : Bytes
salt_domain =
    b'l' ∷ b'a' ∷ b't' ∷ b'c' ∷ b'h' ∷ b'.' ∷ b'f' ∷ b'a' ∷ b'c' ∷ b't' ∷ b'o' ∷ b'r' ∷ b'y' ∷ b'.'
    ∷ b'a' ∷ b'c' ∷ b'c' ∷ b'o' ∷ b'u' ∷ b'n' ∷ b't' ∷ b'.' ∷ b'v' ∷ b'2' ∷ []

module _ (to_xdr : Address → Bytes) where
  -- What a signer adds to the preimage behind its code.
  abbrev pub signer_data : AccountSignerInit → Bytes
  signer_data (delegated_init address) = to_xdr address
  signer_data (external_init e) = e.key_data

  -- The `for` loop of `compute_account_deploy_salt`.
  unfoldable pub signers_preimage : List AccountSignerInit → Bytes
  signers_preimage [] = []
  signers_preimage (signer ∷ signers) =
      account_signer_code signer
      ∷ (to_be_bytes (length (signer_data signer))
          ++ (signer_data signer ++ signers_preimage signers))

  unfoldable pub salt_preimage : NormalizedParams → Bytes
  unfolding signers_preimage to_be_bytes
  salt_preimage params =
      salt_domain
      ++ (params.account_salt
          ++ (to_be_bytes (length params.signers)
              ++ (signers_preimage params.signers ++ to_be_bytes params.effective_threshold)))

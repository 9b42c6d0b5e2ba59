-- ===== src/Verifiers/Ed25519.antt =====
-- latch-verifiers/ed25519-verifier/src/lib.rs, which forwards to `verifiers::ed25519` of stellar_accounts.
use latch_contracts.Base.{Bool, List}
use latch_contracts.Soroban.{Bytes, Outcome}

-- The library's functions; a key has one encoding, so its canonical form cannot fail.
pub record Library : Type 1 where
  pub Error : Type 0
  pub verify : Bytes → Bytes → Bytes → Outcome Error Bool
  pub canonicalize_key : Bytes → Bytes
  pub batch_canonicalize_key : List Bytes → List Bytes

module _ (l : Library) where
  pub verify : Bytes → Bytes → Bytes → Outcome l.Error Bool
  verify hash key_data sig_data = l.verify hash key_data sig_data

  pub canonicalize_key : Bytes → Bytes
  canonicalize_key key_data = l.canonicalize_key key_data

  pub batch_canonicalize_key : List Bytes → List Bytes
  batch_canonicalize_key key_data = l.batch_canonicalize_key key_data

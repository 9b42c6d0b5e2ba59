-- ===== src/Verifiers/P256.antt =====
-- latch-verifiers/p256-verifier/src/lib.rs.
use latch_contracts.Base.{
  ◌≡◌, ◌↔◌, Bool, true, some, List, [], ◌∷◌, arith, ◌==◌, not, length, get_elem?, ℕ_discrete,
}
use latch_contracts.Soroban.{Bytes, Outcome, ok, ◌>>=◌, ◌>>◌, panic_if, require_auth}
use latch_contracts.Verifiers.{Host, is_byte, converted}

pub data P256VerifierError : Type 0 where
  p256_hash_length p256_key_encoding : P256VerifierError

unfoldable pub validate_key_encoding : Bytes → Outcome P256VerifierError (Unit {0})
validate_key_encoding key_data =
    panic_if (not (is_byte (get_elem? key_data 0) 0x04)) p256_key_encoding

unfoldable pub verify : Host → Bytes → Bytes → Bytes → Outcome P256VerifierError Bool
unfolding validate_key_encoding
verify h hash key_data sig_data = do
  panic_if (not (length hash == 32)) p256_hash_length
  validate_key_encoding key_data
  hash_n ← converted (h.to_bytes32 hash) p256_hash_length
  require_auth (h.secp256r1_verify key_data hash_n sig_data)
  ok true

unfoldable pub canonicalize_key : Bytes → Outcome P256VerifierError Bytes
unfolding validate_key_encoding
canonicalize_key key_data = validate_key_encoding key_data >> ok key_data

unfoldable pub batch_canonicalize_key : List Bytes → Outcome P256VerifierError (List Bytes)
unfolding canonicalize_key
batch_canonicalize_key [] = ok []
batch_canonicalize_key (key ∷ keys) = do
  key' ← canonicalize_key key
  keys' ← batch_canonicalize_key keys
  ok (key' ∷ keys')

-- A P-256 verification reports true exactly for a hash of 32 bytes, a key of the uncompressed form and
-- a signature that the host accepts; it never reports false.
p256-accepts :
    (h : Host) (hash key_data sig_data : Bytes)
    → (verify h hash key_data sig_data ≡ ok true) ↔ (
        (length hash ≡ 32)
        × (get_elem? key_data 0 ≡ some 0x04)
        × (h.secp256r1_verify key_data hash sig_data ≡ true))
unfolding verify validate_key_encoding
p256-accepts h hash key_data sig_data = elim (ℕ_discrete (length hash) 32) [
  | yes fits ↦ rw (h.to_bytes32-length hash fits) (ground arith)
  | no short ↦ ground arith
]

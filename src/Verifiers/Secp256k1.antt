-- ===== src/Verifiers/Secp256k1.antt =====
-- latch-verifiers/secp256k1-verifier/src/lib.rs.
use latch_contracts.Base.{
  inl, inr, ◌≤◌, ◌≡◌, ◌↔◌, Bool, true, false, some, List, [], ◌∷◌, arith, ltb, ◌==◌, ◌&&◌, not,
  length, get_elem?, get_or, ℕ_discrete, Option-cases,
}
use latch_contracts.Soroban.{Bytes, Outcome, ok, ◌>>=◌, ◌>>◌, panic_if, unwrap}
use latch_contracts.Verifiers.{Host, is_byte, converted, prefix}

pub data Secp256k1VerifierError : Type 0 where
  secp_hash_length secp_key_encoding key_mismatch invalid_recovery_id : Secp256k1VerifierError

unfoldable pub validate_key_encoding : Bytes → Outcome Secp256k1VerifierError (Unit {0})
validate_key_encoding key_data =
    panic_if (not (is_byte (get_elem? key_data 0) 0x04)) secp_key_encoding

-- `recovered != key_data`
unfoldable pub same_bytes : Bytes → Bytes → Bool
same_bytes [] [] = true
same_bytes [] (_ ∷ _) = false
same_bytes (_ ∷ _) [] = false
same_bytes (a ∷ as') (b ∷ bs) = (a == b) && same_bytes as' bs

-- A signature of 65 bytes: 64 bytes and the recovery id.
unfoldable pub verify : Host → Bytes → Bytes → Bytes → Outcome Secp256k1VerifierError Bool
unfolding validate_key_encoding same_bytes prefix
verify h hash key_data sig_data = do
  panic_if (not (length hash == 32)) secp_hash_length
  validate_key_encoding key_data
  hash_n ← converted (h.to_bytes32 hash) secp_hash_length
  let recovery_id = get_or (get_elem? sig_data 64) 0
  panic_if (ltb 1 recovery_id) invalid_recovery_id
  recovered ← unwrap (h.secp256k1_recover hash_n (prefix 64 sig_data) recovery_id)
  panic_if (not (same_bytes recovered key_data)) key_mismatch
  ok true

unfoldable pub canonicalize_key : Bytes → Outcome Secp256k1VerifierError Bytes
unfolding validate_key_encoding
canonicalize_key key_data = validate_key_encoding key_data >> ok key_data

unfoldable pub batch_canonicalize_key : List Bytes → Outcome Secp256k1VerifierError (List Bytes)
unfolding canonicalize_key
batch_canonicalize_key [] = ok []
batch_canonicalize_key (key ∷ keys) = do
  key' ← canonicalize_key key
  keys' ← batch_canonicalize_key keys
  ok (key' ∷ keys')

pub same_bytes_iff : (as' bs : Bytes) → (same_bytes as' bs ≡ true) ↔ (as' ≡ bs)
unfolding same_bytes
same_bytes_iff [] [] = ground arith
same_bytes_iff [] (b ∷ bs) = ground arith
same_bytes_iff (a ∷ as') [] = ground arith
same_bytes_iff (a ∷ as') (b ∷ bs) = ground (arith, same_bytes_iff as' bs)

-- A secp256k1 verification reports true exactly for a hash of 32 bytes, a key of the uncompressed form
-- and a recovery id of 0 or 1 with which the host recovers this very key from the signature's first 64
-- bytes.
pub secp256k1-accepts :
    (h : Host) (hash key_data sig_data : Bytes)
    → (verify h hash key_data sig_data ≡ ok true) ↔ (
        (length hash ≡ 32)
        × (get_elem? key_data 0 ≡ some 0x04)
        × (get_or (get_elem? sig_data 64) 0 ≤ 1)
        × (h.secp256k1_recover hash (prefix 64 sig_data) (get_or (get_elem? sig_data 64) 0)
            ≡ some key_data))
unfolding verify validate_key_encoding
secp256k1-accepts h hash key_data sig_data = elim (ℕ_discrete (length hash) 32) [
  | yes fits ↦
      rw (h.to_bytes32-length hash fits)
        (elim (Option-cases
          (h.secp256k1_recover hash (prefix 64 sig_data) (get_or (get_elem? sig_data 64) 0))) [
            | inl failed ↦ rw failed (ground arith)
            | inr (r, recovered) ↦ rw recovered (ground (arith, same_bytes_iff r key_data))
          ])
  | no short ↦ ground arith
]

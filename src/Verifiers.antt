-- ===== src/Verifiers.antt =====
-- The signature verifiers, latch-verifiers/p256-verifier/src/lib.rs,
-- latch-verifiers/secp256k1-verifier/src/lib.rs and demo/modified-ed25519-verifier/src/lib.rs. The
-- host's cryptography is a parameter. A `BytesN<n>` is a list of `n` bytes.
pub mod P256
pub mod Secp256k1
pub mod ModifiedEd25519
pub mod Ed25519
pub mod WebAuthn
mod Tests
use latch_contracts.Base.{
  ℕ, zero, suc, ◌+◌, ◌/◌, ◌%◌, ◌≡◌, Bool, true, false, Option, none, some, List, [], ◌∷◌, ◌++◌, ltb,
  ◌==◌, ◌&&◌, not, length, get_elem?, get_or,
}
use latch_contracts.Soroban.{
  Bytes, Outcome, ok, panic, trap, ◌>>=◌, ◌>>◌, panic_if, require_auth, unwrap,
}

-- The host's functions: `BytesN::<32>::try_from`, and the cryptography, where `false` and `none` stand
-- for a call that traps. The law is the documented one of the conversion.
pub record Host : Type 0 where
  pub to_bytes32 : Bytes → Option Bytes
  pub secp256r1_verify : Bytes → Bytes → Bytes → Bool
  pub secp256k1_recover : Bytes → Bytes → ℕ → Option Bytes
  pub ed25519_verify : Bytes → Bytes → Bytes → Bool
  pub to_bytes32-length : (b : Bytes) → length b ≡ 32 → to_bytes32 b ≡ some b

abbrev pub is_byte : Option ℕ → ℕ → Bool
is_byte none b = false
is_byte (some a) b = a == b

-- `match to_bytes32(hash) { Ok(h) => h, Err(_) => panic_with_error!(e, err) }`
abbrev pub converted : {E : Type 0} → Option Bytes → E → Outcome E Bytes
converted (some h) err = ok h
converted none err = panic err

-- `sig_bytes[..n]`
unfoldable pub prefix : ℕ → Bytes → Bytes
prefix zero bs = []
prefix (suc n) [] = []
prefix (suc n) (b ∷ bs) = b ∷ prefix n bs

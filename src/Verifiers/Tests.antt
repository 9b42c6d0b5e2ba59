-- ===== src/Verifiers/Tests.antt =====
-- The verifiers' theorems with a host that accepts one signature and recovers one key.
use latch_contracts.Base.{
  ℕ, if◌then◌else◌, leb, none, ◌++◌, ◌≤◌, ◌≡◌, ◌↔◌, refl, Bool, true, false, some, [], ◌∷◌, arith,
  ◌==◌, length, get_elem?, get_or,
}
use latch_contracts.Soroban.{Bytes, ok, panic, trap, unwrap, ◌>>=◌}
use latch_contracts.Verifiers.{Host, prefix}
use latch_contracts.Verifiers.Secp256k1.{secp256k1-accepts}
use latch_contracts.Verifiers.Secp256k1
use latch_contracts.Verifiers.WebAuthn.{drop, webauthn-canonical}
use latch_contracts.Verifiers.WebAuthn
use latch_contracts.Verifiers.ModifiedEd25519.{signed_message-injective}

abbrev first_is_one : Bytes → Bool
first_is_one [] = false
first_is_one (b ∷ _) = b == 1

abbrev key : Bytes
key = 0x04 ∷ 5 ∷ 6 ∷ []

abbrev host : Host
host = record {
  to_bytes32 = λ b. some b;
  secp256r1_verify = λ _ _ signature. first_is_one signature;
  secp256k1_recover = λ _ _ _. some key;
  ed25519_verify = λ _ _ signature. first_is_one signature;
  to_bytes32-length = λ _ _. refl;
}

abbrev hash : Bytes
hash =
    1 ∷ 2 ∷ 3 ∷ 4 ∷ 5 ∷ 6 ∷ 7 ∷ 8 ∷ 9 ∷ 10 ∷ 11 ∷ 12 ∷ 13 ∷ 14 ∷ 15 ∷ 16 ∷ 17 ∷ 18 ∷ 19 ∷ 20 ∷ 21
    ∷ 22 ∷ 23 ∷ 24 ∷ 25 ∷ 26 ∷ 27 ∷ 28 ∷ 29 ∷ 30 ∷ 31 ∷ 255 ∷ []

secp256k1-accepts_example : (Secp256k1.verify host hash key (1 ∷ []) ≡ ok true) ↔ (
    (length hash ≡ 32)
    × (get_elem? key 0 ≡ some 0x04)
    × (get_or (get_elem? (1 ∷ []) 64) 0 ≤ 1)
    × (host.secp256k1_recover hash (prefix 64 (1 ∷ [])) (get_or (get_elem? (1 ∷ []) 64) 0)
        ≡ some key))
secp256k1-accepts_example = secp256k1-accepts host hash key (1 ∷ [])

signed_message-injective_example : ◌≡◌ {A = Bytes} (0xab ∷ []) (0xab ∷ [])
signed_message-injective_example =
    signed_message-injective (0xab ∷ []) (0xab ∷ []) (omega arith, tt) (omega arith, tt) refl

-- Signature data is taken as it is, and every assertion by a long enough key is valid.
abbrev webauthn_library : WebAuthn.Library
webauthn_library = record {
  SigData = Bytes;
  Error = ℕ;
  key_too_short = 3119;
  from_xdr = λ b. some b;
  extract_from_bytes =
      λ n b start end. if leb end (length b) then some (prefix n (drop start b)) else none;
  verify = λ _ _ _. ok true;
  canonicalize_key = λ b. if leb 65 (length b) then ok (prefix 65 b) else panic 3119;
  batch_canonicalize_key = λ bs. ok bs;
  extract_from_bytes-slice = λ _ _ _. refl;
  canonicalize_key-prefix = λ _. refl;
}

abbrev public_key : Bytes
public_key = 0x04 ∷ (hash ++ hash)

webauthn-canonical_example :
    (WebAuthn.verify webauthn_library hash (public_key ++ 7 ∷ []) (1 ∷ [])
      ≡ (unwrap (some (1 ∷ [])) >>= λ sig. webauthn_library.verify hash public_key sig))
    × (WebAuthn.canonicalize_key webauthn_library (public_key ++ 7 ∷ []) ≡ ok public_key)
    × (WebAuthn.verify webauthn_library hash (0x04 ∷ hash) (1 ∷ []) ≡ trap)
    × (WebAuthn.canonicalize_key webauthn_library (0x04 ∷ hash) ≡ panic 3119)
webauthn-canonical_example =
    webauthn-canonical webauthn_library hash public_key (7 ∷ []) (0x04 ∷ hash) (1 ∷ []) refl
      (omega arith)

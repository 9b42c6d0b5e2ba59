-- ===== src/Verifiers/ModifiedEd25519.antt =====
-- demo/modified-ed25519-verifier/src/lib.rs.
use latch_contracts.Base.{
  leb, ◌-◌, if◌then◌else◌, ℕ, zero, suc, ◌+◌, ◌*◌, ◌/◌, ◌%◌, ◌<◌, ◌≡◌, ◌↔◌, ◌∙◌, refl, sym, ap,
  Bool, true, List, [], ◌∷◌, ◌++◌, arith, ◌==◌, not, length, get_elem?, get_or, All,
}
use latch_contracts.Soroban.{Bytes, Outcome, ok, ◌>>◌, panic_if, require_auth}
use latch_contracts.Verifiers.{Host}
use latch_contracts.Verifiers.Ed25519.{Library}

pub data ModifiedEd25519VerifierError : Type 0 where
  demo_hash_length : ModifiedEd25519VerifierError

-- b"Stellar Smart Account Auth:\n"
abbrev pub auth_prefix : Bytes
auth_prefix =
    b'S' ∷ b't' ∷ b'e' ∷ b'l' ∷ b'l' ∷ b'a' ∷ b'r' ∷ b' ' ∷ b'S' ∷ b'm' ∷ b'a' ∷ b'r' ∷ b't' ∷ b' '
    ∷ b'A' ∷ b'c' ∷ b'c' ∷ b'o' ∷ b'u' ∷ b'n' ∷ b't' ∷ b' ' ∷ b'A' ∷ b'u' ∷ b't' ∷ b'h' ∷ b':' ∷ 10
    ∷ []

-- b"0123456789abcdef"
abbrev pub hex : Bytes
hex =
    b'0' ∷ b'1' ∷ b'2' ∷ b'3' ∷ b'4' ∷ b'5' ∷ b'6' ∷ b'7' ∷ b'8' ∷ b'9' ∷ b'a' ∷ b'b' ∷ b'c' ∷ b'd'
    ∷ b'e' ∷ b'f' ∷ []

abbrev pub digit : ℕ → ℕ
digit n = get_or (get_elem? hex n) 0

-- `byte >> 4` and `byte & 0x0f` are the quotient and the remainder by 16.
unfoldable pub hex_encode_lower : Bytes → Bytes
hex_encode_lower [] = []
hex_encode_lower (byte ∷ src) = digit (byte / 16) ∷ digit (byte % 16) ∷ hex_encode_lower src

unfoldable pub signed_message : Bytes → Bytes
unfolding hex_encode_lower
signed_message hash = auth_prefix ++ hex_encode_lower hash

unfoldable pub verify : Host → Bytes → Bytes → Bytes → Outcome ModifiedEd25519VerifierError Bool
unfolding signed_message
verify h hash key_data sig_data = do
  panic_if (not (length hash == 32)) demo_hash_length
  require_auth (h.ed25519_verify key_data (signed_message hash) sig_data)
  ok true

module _ (l : Library) where
  pub canonicalize_key : Bytes → Bytes
  canonicalize_key key_data = l.canonicalize_key key_data

  pub batch_canonicalize_key : List Bytes → List Bytes
  batch_canonicalize_key key_data = l.batch_canonicalize_key key_data

hex_encode_lower-length : (src : Bytes) → length (hex_encode_lower src) ≡ 2 * length src
unfolding hex_encode_lower
hex_encode_lower-length [] = refl
hex_encode_lower-length (b ∷ src) = omega (arith, hex_encode_lower-length src)

-- What a digit stands for.
abbrev value : ℕ → ℕ
value c = if leb c 57 then c - 48 else c - 87

abbrev Consecutive : ℕ → Bytes → Type 0
Consecutive k [] = Unit
Consecutive k (x ∷ xs) = (value x ≡ k) × Consecutive (suc k) xs

value-get :
    (xs : Bytes) (k n : ℕ)
    → Consecutive k xs
    → n < length xs
    → value (get_or (get_elem? xs n) 0) ≡ k + n
value-get [] k n c l = absurd (omega arith)
value-get (x ∷ xs) k zero c l = c.0 ∙ omega arith
value-get (x ∷ xs) k (suc n) c l = value-get xs (suc k) n c.1 (omega arith) ∙ omega arith

value-digit : (n : ℕ) → n < 16 → value (digit n) ≡ n
value-digit n l = omega (
  arith,
  value-get hex 0 n
      (
        refl,
        (
          refl,
          (
            refl,
            (
              refl,
              (
                refl,
                (
                  refl,
                  (
                    refl,
                    (refl, (refl, (refl, (refl, (refl, (refl, (refl, (refl, (refl, tt))))))))),
                  ),
                ),
              ),
            ),
          ),
        ),
      )
      l,
)

digit-injective : (m n : ℕ) → m < 16 → n < 16 → digit m ≡ digit n → m ≡ n
digit-injective m n hm hn e = sym (value-digit m hm) ∙ ap value e ∙ value-digit n hn

hex_encode_lower-injective :
    (a b : Bytes)
    → All (λ x. x < 256) a
    → All (λ x. x < 256) b
    → hex_encode_lower a ≡ hex_encode_lower b
    → a ≡ b
unfolding hex_encode_lower
hex_encode_lower-injective [] [] ha hb e = refl
hex_encode_lower-injective [] (y ∷ b) ha hb e = cc
hex_encode_lower-injective (x ∷ a) [] ha hb e = cc
hex_encode_lower-injective (x ∷ a) (y ∷ b) ha hb e =
    let high : digit (x / 16) ≡ digit (y / 16) = cc in
    let low : digit (x % 16) ≡ digit (y % 16) = cc in
    let rest : hex_encode_lower a ≡ hex_encode_lower b = cc in
    let hb0 : y < 256 = hb.0 in
    let ha0 : x < 256 = ha.0 in
    let quotient = digit-injective (x / 16) (y / 16) (omega arith) (omega arith) high in
    let remainder = digit-injective (x % 16) (y % 16) (omega arith) (omega arith) low in
    let same : x ≡ y = omega (arith, quotient, remainder) in
    rw (same, hex_encode_lower-injective a b ha.1 hb.1 rest)

cancel : (p xs ys : Bytes) → p ++ xs ≡ p ++ ys → xs ≡ ys
cancel [] xs ys e = e
cancel (b ∷ p) xs ys e = let rest : p ++ xs ≡ p ++ ys = cc in cancel p xs ys rest

-- The message that is signed determines the hash: two hashes of bytes with the same message are equal,
-- so a signature never stands for two hashes.
pub signed_message-injective :
    (a b : Bytes)
    → All (λ x. x < 256) a
    → All (λ x. x < 256) b
    → signed_message a ≡ signed_message b
    → a ≡ b
unfolding signed_message
signed_message-injective a b ha hb e =
    hex_encode_lower-injective a b ha hb
      (cancel auth_prefix (hex_encode_lower a) (hex_encode_lower b) e)

size_of : (hash : Bytes) → length (signed_message hash) ≡ 28 + 2 * length hash
unfolding signed_message
size_of hash = omega (arith, hex_encode_lower-length hash)

-- A demo verification reports true exactly for a hash of 32 bytes and a signature that the host accepts
-- for the wrapped message of 92 bytes.
modified_ed25519-accepts :
    (h : Host) (hash key_data sig_data : Bytes)
    → (verify h hash key_data sig_data ≡ ok true) ↔ (
        (length (signed_message hash) ≡ 92)
        × (h.ed25519_verify key_data (signed_message hash) sig_data ≡ true))
unfolding verify
modified_ed25519-accepts h hash key_data sig_data =
    let size : length (signed_message hash) ≡ 28 + 2 * length hash = size_of hash in
    ground (arith, size)

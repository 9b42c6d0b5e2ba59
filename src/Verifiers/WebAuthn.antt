-- ===== src/Verifiers/WebAuthn.antt =====
-- latch-verifiers/webauthn-verifier/src/lib.rs. The check of an assertion, the encoding of its data, the
-- canonical form of a key and the cut of a range of bytes are functions of stellar_accounts and of the
-- host.
use latch_contracts.Base.{
  ℕ, zero, suc, ◌+◌, ◌<◌, ◌≡◌, refl, Bool, true, false, Option, none, some, List, [], ◌∷◌, ◌++◌,
  arith, length, length-append, leb, if◌then◌else◌, ap,
}
use latch_contracts.Soroban.{Bytes, Outcome, ok, panic, trap, ◌>>=◌, unwrap}
use latch_contracts.Verifiers.{prefix}

-- The bytes from an index on.
abbrev pub drop : ℕ → Bytes → Bytes
drop zero bs = bs
drop (suc n) [] = []
drop (suc n) (b ∷ bs) = drop n bs

-- `verifiers::webauthn` and `verifiers::utils` of the library, `from_xdr` of `WebAuthnSigData`, with what
-- their documentation says of keys. `extract_from_bytes n data start end` stands for
-- `extract_from_bytes::<n>(e, &data, start..end)`: a range of `n` bytes gives these bytes, or `None` if it
-- passes the end of the data; nothing is said of a range of another length. `canonicalize_key` keeps the
-- first 65 bytes, and refuses a shorter key.
pub record Library : Type 1 where
  pub SigData : Type 0
  pub Error : Type 0
  pub key_too_short : Error
  pub from_xdr : Bytes → Option SigData
  pub extract_from_bytes : ℕ → Bytes → ℕ → ℕ → Option Bytes
  pub verify : Bytes → Bytes → SigData → Outcome Error Bool
  pub canonicalize_key : Bytes → Outcome Error Bytes
  pub batch_canonicalize_key : List Bytes → Outcome Error (List Bytes)
  pub extract_from_bytes-slice :
      (n start : ℕ) (bytes : Bytes)
      → extract_from_bytes n bytes start (start + n)
        ≡ (if leb (start + n) (length bytes) then some (prefix n (drop start bytes)) else none)
  pub canonicalize_key-prefix :
      (key_data : Bytes)
      → canonicalize_key key_data
        ≡ (if leb 65 (length key_data) then ok (prefix 65 key_data) else panic key_too_short)

prefix-append : (n : ℕ) (front back : Bytes) → length front ≡ n → prefix n (front ++ back) ≡ front
unfolding prefix
prefix-append zero [] back h = refl
prefix-append zero (b ∷ front) back h = absurd (omega (arith, h))
prefix-append (suc n) [] back h = absurd (omega (arith, h))
prefix-append (suc n) (b ∷ front) back h =
    ap (λ bs. b ∷ bs) (prefix-append n front back (omega (arith, h)))

module _ (l : Library) where
  pub verify : Bytes → Bytes → Bytes → Outcome l.Error Bool
  verify hash key_data sig_data = do
    sig_struct ← unwrap (l.from_xdr sig_data)
    pub_key ← unwrap (l.extract_from_bytes 65 key_data 0 65)
    l.verify hash pub_key sig_struct

  pub canonicalize_key : Bytes → Outcome l.Error Bytes
  canonicalize_key key_data = l.canonicalize_key key_data

  pub batch_canonicalize_key : List Bytes → Outcome l.Error (List Bytes)
  batch_canonicalize_key key_data = l.batch_canonicalize_key key_data

  long_enough :
      (public_key credential_id : Bytes)
      → length public_key ≡ 65
      → leb 65 (length (public_key ++ credential_id)) ≡ true
  long_enough public_key credential_id h = ground (arith, length-append public_key credential_id, h)

  too_short : (short : Bytes) → length short < 65 → leb 65 (length short) ≡ false
  too_short short h = ground (arith, h)

  -- Only the public key counts. For a key of 65 bytes, whatever credential id follows it, `verify`
  -- decodes the signature data, which traps if it is malformed, and then ends as the library's
  -- check of the hash with exactly these 65 bytes does, and the canonical form of the whole is
  -- these 65 bytes. Of key data that is shorter than 65 bytes `verify` traps, whatever the
  -- signature data, and `canonicalize_key` panics with the library's error for a short key.
  pub webauthn-canonical :
      (hash public_key credential_id short sig_data : Bytes)
      → length public_key ≡ 65
      → length short < 65
      → (verify hash (public_key ++ credential_id) sig_data
          ≡ (unwrap (l.from_xdr sig_data) >>= λ sig. l.verify hash public_key sig))
        × (canonicalize_key (public_key ++ credential_id) ≡ ok public_key)
        × (verify hash short sig_data ≡ trap)
        × (canonicalize_key short ≡ panic l.key_too_short)
  unfolding verify canonicalize_key
  webauthn-canonical hash public_key credential_id short sig_data full cut =
      let key_data = public_key ++ credential_id in
      let long = long_enough public_key credential_id full in
      let below = too_short short cut in
      let first = prefix-append 65 public_key credential_id full in
      (
        rw (l.extract_from_bytes-slice 65 0 key_data, long, first) refl,
        rw (l.canonicalize_key-prefix key_data, long, first) refl,
        rw (l.extract_from_bytes-slice 65 0 short, below) (undecodable (l.from_xdr sig_data)),
        rw (l.canonicalize_key-prefix short, below) refl,
      )
    where
      undecodable :
          (o : Option l.SigData) → ◌≡◌ {A = Outcome l.Error Bool} (unwrap o >>= λ sig. trap) trap
      undecodable none = refl
      undecodable (some sig) = refl

-- ===== src/Factory/Salt.antt =====
-- The preimage of `compute_account_deploy_salt` in
-- account-factory/contracts/factory-contract/src/lib.rs determines the parameters.
use mathlib.Core.List.{append_assoc}
use latch_contracts.Base.{
  ℕ, ◌^◌, ◌<◌, ◌≡◌, refl, sym, ap, ◌∙◌, List, [], ◌∷◌, ◌++◌, arith, length, All,
}
use latch_contracts.Soroban.{Address, Bytes}
use latch_contracts.Factory.{
  SignerKind, ed25519, web_authn, AccountSignerInit, delegated_init, external_init,
  NormalizedParams, signer_kind_code, account_signer_code, signer_data, to_be_bytes,
  signers_preimage, salt_preimage, salt_domain,
}

-- Two equal concatenations split alike where the first parts have one length.
append-injective :
    (xs ys : Bytes) (us vs : Bytes)
    → length xs ≡ length ys
    → xs ++ us ≡ ys ++ vs
    → (xs ≡ ys) × (us ≡ vs)
append-injective [] [] us vs h e = (refl, e)
append-injective [] (y ∷ ys) us vs h e = absurd (omega arith)
append-injective (x ∷ xs) [] us vs h e = absurd (omega arith)
append-injective (x ∷ xs) (y ∷ ys) us vs h e =
    let head : x ≡ y = cc in
    let tail : xs ++ us ≡ ys ++ vs = cc in
    let rest = append-injective xs ys us vs (omega arith) tail in (cc (head, rest.0), rest.1)

regroup : (xs ys zs us : Bytes) → (xs ++ (ys ++ zs)) ++ us ≡ xs ++ (ys ++ (zs ++ us))
regroup xs ys zs us = simp append_assoc

to_be_bytes-injective : (n m : ℕ) → n < 2 ^ 32 → m < 2 ^ 32 → to_be_bytes n ≡ to_be_bytes m → n ≡ m
unfolding to_be_bytes
to_be_bytes-injective n m hn hm e = ground arith

length-to_be_bytes : (n m : ℕ) → length (to_be_bytes n) ≡ length (to_be_bytes m)
unfolding to_be_bytes
length-to_be_bytes n m = refl

kind-injective : (k l : SignerKind) → signer_kind_code k ≡ signer_kind_code l → k ≡ l
kind-injective ed25519 ed25519 e = refl
kind-injective web_authn web_authn e = refl
kind-injective ed25519 web_authn e = absurd (omega arith)
kind-injective web_authn ed25519 e = absurd (omega arith)

module _ (to_xdr : Address → Bytes)
    (xdr-injective : (a b : Address) → to_xdr a ≡ to_xdr b → a ≡ b) where
  -- A signer's data fits the four bytes of its length.
  abbrev pub IsShort : AccountSignerInit → Type 0
  IsShort s = length (signer_data to_xdr s) < 2 ^ 32

  signer-injective :
      (s t : AccountSignerInit)
      → account_signer_code s ≡ account_signer_code t
      → signer_data to_xdr s ≡ signer_data to_xdr t
      → s ≡ t
  signer-injective (delegated_init a) (delegated_init b) e h =
      ap delegated_init (xdr-injective a b h)
  signer-injective (external_init x) (external_init y) e h =
      ground (arith, kind-injective x.signer_kind y.signer_kind e)
  signer-injective (delegated_init a) (external_init y) e h = ground arith
  signer-injective (external_init x) (delegated_init b) e h = ground arith

  signers-injective :
      (ss ts : List AccountSignerInit) (us vs : Bytes)
      → length ss ≡ length ts
      → All IsShort ss
      → All IsShort ts
      → signers_preimage to_xdr ss ++ us ≡ signers_preimage to_xdr ts ++ vs
      → (ss ≡ ts) × (us ≡ vs)
  unfolding signers_preimage
  signers-injective [] [] us vs h _ _ e = (refl, e)
  signers-injective [] (t ∷ ts) us vs h _ _ e = absurd (omega arith)
  signers-injective (s ∷ ss) [] us vs h _ _ e = absurd (omega arith)
  signers-injective (s ∷ ss) (t ∷ ts) us vs h p q e =
      let ds = signer_data to_xdr s in
      let dt = signer_data to_xdr t in
      let code : account_signer_code s ≡ account_signer_code t = cc in
      let behind : (to_be_bytes (length ds) ++ (ds ++ signers_preimage to_xdr ss)) ++ us
          ≡ (to_be_bytes (length dt) ++ (dt ++ signers_preimage to_xdr ts)) ++ vs =
        cc in
      let tail =
        sym (regroup (to_be_bytes (length ds)) ds (signers_preimage to_xdr ss) us)
        ∙ (behind ∙ regroup (to_be_bytes (length dt)) dt (signers_preimage to_xdr ts) vs) in
      let sizes =
        append-injective (to_be_bytes (length ds)) (to_be_bytes (length dt)) _ _
          (length-to_be_bytes (length ds) (length dt)) tail in
      let size = to_be_bytes-injective _ _ p.0 q.0 sizes.0 in
      let parts = append-injective ds dt _ _ size sizes.1 in
      let rest = signers-injective ss ts us vs (omega arith) p.1 q.1 parts.1 in
      (cc (signer-injective s t code parts.0, rest.0), rest.1)

  -- The parameters of two accounts: 32-byte salts, and counts, thresholds and data that fit `u32`.
  pub record IsEncodable (n : NormalizedParams) : Type 0 where
    pub salt : length n.account_salt ≡ 32
    pub count : length n.signers < 2 ^ 32
    pub threshold : n.effective_threshold < 2 ^ 32
    pub short : All IsShort n.signers

  -- Where the XDR of addresses is injective, the account salts have 32 bytes, and the counts, the
  -- thresholds and the lengths of the signers' data fit `u32`, the preimage that is hashed into the
  -- deployment salt determines the normalized parameters: two accounts with different signers,
  -- thresholds or account salts never share a preimage.
  pub salt_preimage-injective :
      (m n : NormalizedParams)
      → IsEncodable m
      → IsEncodable n
      → salt_preimage to_xdr m ≡ salt_preimage to_xdr n
      → m ≡ n
  unfolding salt_preimage
  salt_preimage-injective m n hm hn e =
      let body = (append-injective salt_domain salt_domain _ _ refl e).1 in
      let salts = append-injective m.account_salt n.account_salt _ _ (hm.salt ∙ sym hn.salt) body in
      let counts =
        append-injective (to_be_bytes (length m.signers)) (to_be_bytes (length n.signers)) _ _
          (length-to_be_bytes (length m.signers) (length n.signers)) salts.1 in
      let count = to_be_bytes-injective _ _ hm.count hn.count counts.0 in
      let rest = signers-injective m.signers n.signers _ _ count hm.short hn.short counts.1 in
      let threshold = to_be_bytes-injective _ _ hm.threshold hn.threshold rest.1 in
      λ i. record {
        signers = rest.0 i;
        effective_threshold = threshold i;
        account_salt = salts.0 i;
      }

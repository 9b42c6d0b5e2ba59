-- ===== src/Factory/Identity.antt =====
-- When two sets of parameters name one account: `get_account_address` of
-- account-factory/contracts/factory-contract/src/lib.rs tells them apart by what they mean.
use mathlib.Core.List.{Perm}
use mathlib.Core.List.Perm
use latch_contracts.Base.{◌≡◌, ◌↔◌, sym, ap, ◌∙◌, List, length, ◌==◌}
use latch_contracts.Soroban.{Address, Bytes, ok, Storage, >>=-eq-ok, ok-injective, panic_if}
use latch_contracts.Factory.{
  DataKey, FactoryConfig, AccountInitParams, AccountSignerInit, NormalizedParams, Order,
  canonicalize_signers, effective_threshold, normalize_params, salt_preimage, Chain, World,
  get_account_address, compute_account_deploy_salt,
}
use latch_contracts.Factory.Reorder.{canonicalize_signers-perm}
use latch_contracts.Factory.Canonical.{canonicalize_signers-IsCanonical}
use latch_contracts.Factory.Salt.{IsEncodable, salt_preimage-injective}

module _ (oa : Order Address) (ob : Order Bytes) where
  -- The canonical list is a complete invariant of an accepted list of signers: another list is accepted
  -- with the same canonical list exactly if it holds the same signers, each as often, in any order.
  canonicalize_signers_iff :
      (xs ys c : List AccountSignerInit)
      → canonicalize_signers oa ob xs ≡ ok c
      → (canonicalize_signers oa ob ys ≡ ok c) ↔ Perm xs ys
  canonicalize_signers_iff xs ys c h = (
    λ k.
        Perm.trans (Perm.symm (canonicalize_signers-IsCanonical oa ob xs c h).2)
          (canonicalize_signers-IsCanonical oa ob ys c k).2,
    λ same. canonicalize_signers-perm oa ob xs ys c same h,
  )

  normalize_params-canonicalize_signers :
      (p : AccountInitParams) (n : NormalizedParams)
      → normalize_params oa ob p ≡ ok n
      → (canonicalize_signers oa ob p.signers ≡ ok n.signers) × (n.account_salt ≡ p.account_salt)
  unfolding normalize_params
  normalize_params-canonicalize_signers p n h =
      let (_, e0, r0) = >>=-eq-ok (panic_if (length p.signers == 0) _) _ h in
      let (cs, e1, r1) = >>=-eq-ok (canonicalize_signers oa ob p.signers) _ r0 in
      let (t, e2, r2) = >>=-eq-ok (effective_threshold (length cs) p.threshold) _ r1 in
      let same = ok-injective r2 in
      (e1 ∙ ap (λ m. ok m.signers) same, ap (λ m. m.account_salt) (sym same))

  -- Normalized parameters agree exactly if the accounts do: the same signers in any order, the same
  -- threshold and the same salt.
  normalize_params_iff :
      (p q : AccountInitParams) (m n : NormalizedParams)
      → normalize_params oa ob p ≡ ok m
      → normalize_params oa ob q ≡ ok n
      → (m ≡ n) ↔ (
          Perm p.signers q.signers
          × (m.effective_threshold ≡ n.effective_threshold)
          × (p.account_salt ≡ q.account_salt))
  normalize_params_iff p q m n hp hq =
      let (cp, sp) = normalize_params-canonicalize_signers p m hp in
      let (cq, sq) = normalize_params-canonicalize_signers q n hq in
      let agree = canonicalize_signers_iff p.signers q.signers m.signers cp in
      (
        λ e. (
          agree.0 (cq ∙ ap (λ x. ok x.signers) (sym e)),
          ap (λ x. x.effective_threshold) e,
          sym sp ∙ ap (λ x. x.account_salt) e ∙ sq,
        ),
        λ h.
            let signers : m.signers ≡ n.signers = ok-injective (sym (agree.1 h.0) ∙ cq) in
            let salt : m.account_salt ≡ n.account_salt = sp ∙ h.2 ∙ sym sq in
            λ i. record { signers = signers i; effective_threshold = h.1 i; account_salt = salt i },
      )

module _ (oa : Order Address) (ob : Order Bytes) (d : Storage DataKey FactoryConfig) (c : Chain)
    (xdr-injective : (a b : Address) → c.to_xdr a ≡ c.to_xdr b → a ≡ b) where
  -- An address is an identity: for two accepted sets of parameters whose numbers fit their types, where
  -- the XDR of addresses is injective and the hash and the derivation of addresses do not collide on
  -- their two preimages, `get_account_address` gives one address exactly if the parameters have the
  -- same signers, in any order, the same effective threshold and the same salt.
  pub get_account_address_iff :
      (p q : AccountInitParams) (m n : NormalizedParams) (w v : World oa ob d c)
      → normalize_params oa ob p ≡ ok m
      → normalize_params oa ob q ≡ ok n
      → IsEncodable c.to_xdr xdr-injective m
      → IsEncodable c.to_xdr xdr-injective n
      → (c.deployed_address (c.sha256 (salt_preimage c.to_xdr m))
            ≡ c.deployed_address (c.sha256 (salt_preimage c.to_xdr n))
          → salt_preimage c.to_xdr m ≡ salt_preimage c.to_xdr n)
      → (get_account_address oa ob d c p w ≡ get_account_address oa ob d c q v) ↔ (
          Perm p.signers q.signers
          × (m.effective_threshold ≡ n.effective_threshold)
          × (p.account_salt ≡ q.account_salt))
  unfolding get_account_address compute_account_deploy_salt
  get_account_address_iff p q m n w v hp hq em en apart =
      let agree = normalize_params_iff oa ob p q m n hp hq in
      rw (hp, hq)
        (
          λ e.
              agree.0
                (salt_preimage-injective c.to_xdr xdr-injective m n em en (apart (ok-injective e))),
          λ h. ap (λ x. ok (c.deployed_address (c.sha256 (salt_preimage c.to_xdr x)))) (agree.1 h),
        )

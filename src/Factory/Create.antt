-- ===== src/Factory/Create.antt =====
-- `normalize_params`, `get_account_address` and `create_account` of
-- account-factory/contracts/factory-contract/src/lib.rs.
use native.Mathlib.Nat.{ℕ_set}
use mathlib.Core.List.{Perm, Permᴰ}
use mathlib.Core.Logic.{∥∥₁_elim}
use latch_contracts.Base.{
  ℕ, suc, ◌≤◌, ◌<◌, ◌≡◌, ◌∙◌, sym, ap, refl, subst, true, false, Option, none, some, List, [], ◌∷◌,
  ◌++◌, arith, length, ◌==◌, inl, inr, ◌⊎◌, Bool-cases, All,
}
use latch_contracts.Soroban.{
  Address, Bytes, ok, panic_if, unwrap, Storage, >>=-eq-ok, ok-injective, unwrap-eq-ok,
  unwrap_or_panic-eq-ok,
}
use latch_contracts.Factory.{
  DataKey, config, FactoryConfig, AccountInitParams, account_created, NormalizedParams, Order,
  canonicalize_signers, effective_threshold, normalize_params, Chain, World, get_config,
  get_account_address, compute_account_deploy_salt, deploy_account, create_account, extend_ttl,
  singleton_ttl_threshold, singleton_extend_amount, build_account_signers, build_account_policies,
}
use latch_contracts.Factory.Reorder.{canonicalize_signers-perm}
use latch_contracts.Factory.Insert.{IsCanonical}
use latch_contracts.Factory.Canonical.{canonicalize_signers-IsCanonical, HasShape}

-- What the threshold rules accept.
effective_threshold-ok :
    (n : ℕ) (given : Option ℕ) (t : ℕ)
    → 1 ≤ n
    → effective_threshold n given ≡ ok t
    → (1 ≤ t) × (t ≤ n)
unfolding effective_threshold
effective_threshold-ok n none t h e = ground arith
effective_threshold-ok n (some g) t h e = ground arith

permᴰ_length : {A : Type 0} {xs ys : List A} → Permᴰ xs ys → length xs ≡ length ys
permᴰ_length Permᴰ.nil = refl
permᴰ_length (Permᴰ.cons e q) = ap suc (permᴰ_length q)
permᴰ_length (Permᴰ.swap e e') = refl
permᴰ_length (Permᴰ.trans q r) = permᴰ_length q ∙ permᴰ_length r

pub perm-length : {A : Type 0} {xs ys : List A} → Perm xs ys → length xs ≡ length ys
perm-length q = ∥∥₁_elim q (ℕ_set _ _) permᴰ_length

-- With several signers it is the given one.
pub effective_threshold-given :
    (n : ℕ) (given : Option ℕ) (t : ℕ) → 1 < n → effective_threshold n given ≡ ok t → given ≡ some t
unfolding effective_threshold
effective_threshold-given n none t h e = ground arith
effective_threshold-given n (some g) t h e = ground arith

module _ (oa : Order Address) (ob : Order Bytes) where
  -- Normalized parameters have at least one signer; the signers are canonical, of valid shape and the
  -- given ones in another order; the threshold is the one that the rules give, and lies between one
  -- and their number; the salt is kept.
  pub record IsNormal (params : AccountInitParams) (n : NormalizedParams) : Type 0 where
    pub canonical : IsCanonical oa ob n.signers
    pub shapes : All (HasShape oa ob) n.signers
    pub same : Perm n.signers params.signers
    pub some_signer : 1 ≤ length n.signers
    pub at_least_one : 1 ≤ n.effective_threshold
    pub at_most_all : n.effective_threshold ≤ length n.signers
    pub resolved :
        effective_threshold (length n.signers) params.threshold ≡ ok n.effective_threshold
    pub salt : n.account_salt ≡ params.account_salt

  pub normalize_params-IsNormal :
      (params : AccountInitParams) (n : NormalizedParams)
      → normalize_params oa ob params ≡ ok n
      → IsNormal params n
  unfolding normalize_params
  normalize_params-IsNormal params n h =
      let (_, e0, r0) = >>=-eq-ok (panic_if (length params.signers == 0) _) _ h in
      let (cs, e1, r1) = >>=-eq-ok (canonicalize_signers oa ob params.signers) _ r0 in
      let (t, e2, r2) = >>=-eq-ok (effective_threshold (length cs) params.threshold) _ r1 in
      let sound = canonicalize_signers-IsCanonical oa ob params.signers cs e1 in
      let count = perm-length sound.2 in
      let some_given : 1 ≤ length params.signers = ground arith in
      let bounds = effective_threshold-ok (length cs) params.threshold t (omega arith) e2 in
      subst (IsNormal params) (ok-injective r2) (record {
        canonical = sound.0;
        shapes = sound.1;
        same = sound.2;
        some_signer = omega arith;
        at_least_one = bounds.0;
        at_most_all = bounds.1;
        resolved = e2;
        salt = refl;
      })

  -- The same signers in another order, with the same threshold and salt, normalize alike.
  normalize_params-perm :
      (p q : AccountInitParams) (n : NormalizedParams)
      → Perm p.signers q.signers
      → p.threshold ≡ q.threshold
      → p.account_salt ≡ q.account_salt
      → normalize_params oa ob p ≡ ok n
      → normalize_params oa ob q ≡ ok n
  unfolding normalize_params
  normalize_params-perm p q n same et es h =
      let (_, e0, r0) = >>=-eq-ok (panic_if (length p.signers == 0) _) _ h in
      let (cs, e1, r1) = >>=-eq-ok (canonicalize_signers oa ob p.signers) _ r0 in
      let count = perm-length same in
      let e1' = canonicalize_signers-perm oa ob p.signers q.signers cs same e1 in
      rw (← count, e0, e1', ← et, ← es) r1

module _ (oa : Order Address) (ob : Order Bytes) (d : Storage DataKey FactoryConfig)
    (c : Chain) where
  -- The address does not depend on the order of the signers: whenever it is computed for one order of
  -- them, the same address is computed for every other order, the threshold and the account salt
  -- being the same.
  get_account_address-perm :
      (p q : AccountInitParams) (w : World oa ob d c) (a : Address)
      → Perm p.signers q.signers
      → p.threshold ≡ q.threshold
      → p.account_salt ≡ q.account_salt
      → get_account_address oa ob d c p w ≡ ok a
      → get_account_address oa ob d c q w ≡ ok a
  unfolding get_account_address
  get_account_address-perm p q w a same et es h =
      let (n, e, r) = >>=-eq-ok (normalize_params oa ob p) _ h in
      rw (normalize_params-perm oa ob p q n same et es e) r

  -- What a successful creation does.
  pub record IsCreated (params : AccountInitParams) (w : World oa ob d c) (a : Address)
      (w' : World oa ob d c) : Type 0 where
    pub normalized : NormalizedParams
    pub normal : IsNormal oa ob params normalized
    pub address : get_account_address oa ob d c params w ≡ ok a
    pub deployed : c.executable a w'.chain ≡ true
    pub configured : d.get config w'.store ≡ d.get config w.store
    pub effect :
        ((c.executable a w.chain ≡ true) × (w'.chain ≡ w.chain) × (w'.events ≡ w.events))
        ⊎ ((c.executable a w.chain ≡ false)
            × ((cfg : FactoryConfig) × (d.get config w.store ≡ some cfg)
                × (c.deploy_v2
                      (compute_account_deploy_salt oa ob d c normalized)
                      cfg.smart_account_wasm_hash
                      (build_account_signers cfg normalized.signers)
                      (build_account_policies cfg normalized.effective_threshold
                        (length (build_account_signers cfg normalized.signers)))
                      w.chain
                    ≡ some w'.chain))
            × (w'.events ≡ w.events ++ account_created a ∷ []))

  -- A successful `create_account` returns the address that `get_account_address` computes for the
  -- same parameters, and that address has code afterwards. If it had code before, the chain and the
  -- events are unchanged; if not, one contract is deployed under the salt of the normalized
  -- parameters, with the signers and the policies built from them, and one event is published. The
  -- stored configuration stays.
  pub create_account-IsCreated :
      (params : AccountInitParams) (w w' : World oa ob d c) (a : Address)
      → create_account oa ob d c params w ≡ ok (a, w')
      → IsCreated params w a w'
  unfolding create_account get_account_address deploy_account get_config
  create_account-IsCreated params w w' a h =
      let (cfg, e0, r0) = >>=-eq-ok (get_config oa ob d c w) _ h in
      let (n, e1, r1) = >>=-eq-ok (normalize_params oa ob params) _ r0 in
      let at = c.deployed_address (compute_account_deploy_salt oa ob d c n) in
      let normal = normalize_params-IsNormal oa ob params n e1 in
      let kept : d.get config (extend_ttl oa ob d c w).store ≡ d.get config w.store =
        d.get-extend_ttl config config singleton_ttl_threshold singleton_extend_amount w.store in
      elim (Bool-cases (c.executable at w.chain)) [
        | inl there ↦
            let r2 : ok (at, extend_ttl oa ob d c w) ≡ ok (a, w') = rw there at r1 in
            let same = ok-injective r2 in
            subst (λ r. IsCreated params w r.0 r.1) same
              (record {
                normalized = n;
                normal = normal;
                address = rw e1;
                deployed = there;
                configured = kept;
                effect = inl (there, refl, refl);
              })
        | inr new ↦
            let r2 : deploy_account oa ob d c cfg n (extend_ttl oa ob d c w) ≡ ok (a, w') =
              rw new at r1 in
            let (chain', e2, r3) = >>=-eq-ok (unwrap (c.deploy_v2 _ _ _ _ _)) _ r2 in
            let made = unwrap-eq-ok _ e2 in
            subst (λ r. IsCreated params w r.0 r.1) (ok-injective r3)
              (record {
                normalized = n;
                normal = normal;
                address = rw e1;
                deployed = c.executable-deploy_v2 _ _ _ _ _ _ made;
                configured = kept;
                effect = inr (new, (cfg, sym kept ∙ unwrap_or_panic-eq-ok _ _ e0, made), refl);
              })
      ]

  get_config_after :
      (params : AccountInitParams) (w w' : World oa ob d c) (a : Address)
      → IsCreated params w a w'
      → get_config oa ob d c w' ≡ get_config oa ob d c w
  unfolding get_config
  get_config_after params w w' a r = rw (d.get-extend_ttl, d.get-extend_ttl, r.configured)

  -- Creation is idempotent: after a successful `create_account`, a call with the same signers in any
  -- order, the same threshold and the same account salt succeeds with the same address and leaves the
  -- chain and the events as they are.
  pub create_account-again :
      (p q : AccountInitParams) (w w' : World oa ob d c) (a : Address)
      → Perm p.signers q.signers
      → p.threshold ≡ q.threshold
      → p.account_salt ≡ q.account_salt
      → create_account oa ob d c p w ≡ ok (a, w')
      → create_account oa ob d c q w' ≡ ok (a, extend_ttl oa ob d c w')
  unfolding create_account get_account_address
  create_account-again p q w w' a same et es h =
      let r = create_account-IsCreated p w w' a h in
      let (cfg, e0, _) = >>=-eq-ok (get_config oa ob d c w) _ h in
      let (n, e1, r1) = >>=-eq-ok (normalize_params oa ob p) _ r.address in
      let e2 = normalize_params-perm oa ob p q n same et es e1 in
      let at : c.deployed_address (compute_account_deploy_salt oa ob d c n) ≡ a = ok-injective r1 in
      rw (get_config_after p w w' a r, e0, e2, at, r.deployed)

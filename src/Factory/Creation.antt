-- ===== src/Factory/Creation.antt =====
-- How `create_account` of account-factory/contracts/factory-contract/src/lib.rs may end.
use latch_contracts.Base.{
  ◌≡◌, refl, false, Option, none, some, length, inl, inr, if◌then◌else◌, Option-cases, Bool-cases,
}
use latch_contracts.Soroban.{Address, Bytes, Outcome, ok, panic, trap, ◌>>=◌, Storage}
use latch_contracts.Factory.{
  Order, FactoryError, missing_config, AccountInitParams, NormalizedParams, normalize_params,
  DataKey, FactoryConfig, Chain, World, create_account, get_config, deploy_account, extend_ttl,
  config, singleton_ttl_threshold, singleton_extend_amount, compute_account_deploy_salt,
  build_account_signers, build_account_policies,
}
use latch_contracts.Factory.Refusals.{IsAcceptable, Read, normalize_params-Read}

module _ (oa : Order Address) (ob : Order Bytes) (d : Storage DataKey FactoryConfig)
    (c : Chain) where
  -- The call of the deployer for an account that is not there yet.
  abbrev pub deployment : FactoryConfig → NormalizedParams → World oa ob d c → Option c.State
  deployment cfg n w =
      let signers = build_account_signers cfg n.signers in
      c.deploy_v2 (compute_account_deploy_salt oa ob d c n) cfg.smart_account_wasm_hash signers
        (build_account_policies cfg n.effective_threshold (length signers)) w.chain

  -- How creating an account may end.
  abbrev pub Creation :
      AccountInitParams
      → World oa ob d c
      → Outcome FactoryError (Address × World oa ob d c)
      → Type 0
  Creation params w (ok (a, w')) =
      IsAcceptable params × (cfg : FactoryConfig) × (d.get config w.store ≡ some cfg)
  Creation params w (panic missing_config) = d.get config w.store ≡ none
  Creation params w (panic e) =
      ((cfg : FactoryConfig) × (d.get config w.store ≡ some cfg)) × Read params (panic e)
  Creation params w trap =
      (n : NormalizedParams) × (cfg : FactoryConfig) × (normalize_params oa ob params ≡ ok n)
      × (c.executable (c.deployed_address (compute_account_deploy_salt oa ob d c n)) w.chain
          ≡ false)
      × (deployment cfg n w ≡ none)

  -- Whichever way `create_account` ends: it succeeds only in a configured factory and for acceptable
  -- parameters; it panics with `MissingConfig` only if nothing is configured, and otherwise with the
  -- error that says what is wrong with the parameters; and it traps only if the parameters are
  -- accepted, their address has no code yet and the deployment itself fails.
  pub create_account-Ends :
      (params : AccountInitParams) (w : World oa ob d c)
      → Creation params w (create_account oa ob d c params w)
  unfolding create_account get_config deploy_account
  create_account-Ends params w =
      let kept : d.get config (extend_ttl oa ob d c w).store ≡ d.get config w.store =
        d.get-extend_ttl config config singleton_ttl_threshold singleton_extend_amount w.store in
      elim (Option-cases (d.get config w.store)) [
        | inl absent ↦ rw (kept, absent) absent
        | inr (cfg, found) ↦
            rw (kept, found) (read cfg found _ refl (normalize_params-Read oa ob params))
      ]
    where
      deployed :
          (cfg : FactoryConfig) (n : NormalizedParams)
          → d.get config w.store ≡ some cfg
          → normalize_params oa ob params ≡ ok n
          → IsAcceptable params
          → c.executable (c.deployed_address (compute_account_deploy_salt oa ob d c n)) w.chain
            ≡ false
          → Creation params w (deploy_account oa ob d c cfg n (extend_ttl oa ob d c w))
      deployed cfg n found e good new = elim (Option-cases (deployment cfg n w)) [
        | inl failed ↦ rw failed (n, cfg, e, new, failed)
        | inr (chain', made) ↦ rw made (good, cfg, found)
      ]

      read :
          (cfg : FactoryConfig)
          → d.get config w.store ≡ some cfg
          → (o : Outcome FactoryError NormalizedParams) → normalize_params oa ob params ≡ o
          → Read params o
          → Creation params w (
              o >>= λ n.
              let at = c.deployed_address (compute_account_deploy_salt oa ob d c n) in
              if c.executable at w.chain
              then ok (at, extend_ttl oa ob d c w)
              else deploy_account oa ob d c cfg n (extend_ttl oa ob d c w))
      read cfg found (ok n) e good =
          elim (Bool-cases
            (c.executable (c.deployed_address (compute_account_deploy_salt oa ob d c n)) w.chain)) [
              | inl there ↦ rw there (good, cfg, found)
              | inr new ↦ rw new (deployed cfg n found e good new)
            ]
      read cfg found (panic missing_config) e h = absurd h
      read cfg found (panic x) e h = ((cfg, found), h)
      read cfg found trap e h = absurd h

-- ===== src/Account/Registry.antt =====
-- The registry of deployed contracts of latch-smart-account/src/lib.rs.
use latch_contracts.Base.{
  ℕ, zero, suc, ◌+◌, ◌^◌, ◌<◌, ◌≡◌, ◌≢◌, inl, inr, refl, sym, ap, ◌∙◌, Option, none, some, List, [],
  ◌∷◌, ◌++◌, arith, length, length-append, get_elem?, dec_lt, ℕ_discrete, lt→ltb, ltb-false,
  Option-cases, get_or,
}
use latch_contracts.Soroban.{Address, Bytes, Outcome, ok, panic, trap, Storage}
use latch_contracts.Account.{
  DeployedContract, CountKey, deployed_contract_count, RecordKey, deployed_contract,
  LatchSmartAccountError, math_overflow, deployed_contract_not_found, Event, contract_deployed,
  checked_succ, Library, World, get_deployed_contract_count, register, deploy_contract,
  get_deployed_contract,
}

-- The record that an event announces.
abbrev pub recorded : Option Event → Option DeployedContract
recorded none = none
recorded (some (contract_deployed address wasm_hash)) =
    some (record { address = address; wasm_hash = wasm_hash })

deployed_contract-injective : {j k : ℕ} → deployed_contract j ≡ deployed_contract k → j ≡ k
deployed_contract-injective h = cc

get_elem?-snoc_ne :
    (es : List Event) (e : Event) (j : ℕ)
    → j ≢ length es
    → get_elem? (es ++ e ∷ []) j ≡ get_elem? es j
get_elem?-snoc_ne [] e zero h = absurd (h refl)
get_elem?-snoc_ne [] e (suc j) h = refl
get_elem?-snoc_ne (x ∷ es) e zero h = refl
get_elem?-snoc_ne (x ∷ es) e (suc j) h = get_elem?-snoc_ne es e j (λ q. h (ap suc q))

get_elem?-snoc_self : (es : List Event) (e : Event) → get_elem? (es ++ e ∷ []) (length es) ≡ some e
get_elem?-snoc_self [] e = refl
get_elem?-snoc_self (x ∷ es) e = get_elem?-snoc_self es e

module _ {Val : Type 0} (i : Storage CountKey ℕ) (p : Storage RecordKey DeployedContract)
    (l : Library Val) where
  -- The registry mirrors the events: the count is their number, which is a `u32`, and the record at
  -- each index is that of the event at the index, none where there is no event.
  pub record IsRegistered (w : World i p l) : Type 0 where
    pub counted : get_deployed_contract_count i p l w ≡ length w.events
    pub bounded : length w.events < 2 ^ 32
    pub listed : (j : ℕ) → p.get (deployed_contract j) w.records ≡ recorded (get_elem? w.events j)

  -- How a deployment ends: it reports the address that the deployer gave and adds the contract behind
  -- the registered ones; or the deployer fails; or the registry is full, at 2 ^ 32 - 1 contracts.
  abbrev pub Ends :
      Bytes
      → Bytes
      → List Val
      → World i p l
      → Outcome LatchSmartAccountError (Address × World i p l)
      → Type 0
  Ends wasm salt args w (ok (a, w')) =
      (l.deploy_v2 salt wasm args w.rest ≡ some (a, w'.rest))
      × (w'.events ≡ w.events ++ contract_deployed a wasm ∷ [])
      × IsRegistered w'
  Ends wasm salt args w (panic e) = (e ≡ math_overflow) × (length w.events + 1 ≡ 2 ^ 32)
  Ends wasm salt args w trap = l.deploy_v2 salt wasm args w.rest ≡ none

  listed_after :
      (w : World i p l) (c : DeployedContract) (n j : ℕ)
      → IsRegistered w
      → n ≡ length w.events
      → p.get (deployed_contract j) (
          p.extend_ttl
            (deployed_contract n)
            l.ttl_threshold
            l.extend_amount
            (p.set (deployed_contract n) c w.records))
        ≡ recorded (get_elem? (w.events ++ contract_deployed c.address c.wasm_hash ∷ []) j)
  listed_after w c n j h e =
      p.get-extend_ttl (deployed_contract j) (deployed_contract n) _ _ _ ∙ elim (ℕ_discrete j n) [
        | yes same ↦
            rw (same, e)
              (p.get-set_self (deployed_contract (length w.events)) c w.records
                ∙ sym (
                    ap recorded
                      (get_elem?-snoc_self w.events (contract_deployed c.address c.wasm_hash))))
        | no other ↦
            p.get-set_ne (deployed_contract j) (deployed_contract n) c w.records
              (λ q. other (deployed_contract-injective q))
            ∙ h.listed j
            ∙ ap recorded (
                sym (
                  get_elem?-snoc_ne w.events (contract_deployed c.address c.wasm_hash) j
                    (λ q. other (q ∙ sym e))))
      ]

  -- Every way `deploy_contract` can end from a registry that mirrors the published events: it reports the
  -- address that the deployer gave, publishes one event for it, and the registry mirrors the events
  -- with this one; it panics, with `MathOverflow`, only when 2 ^ 32 - 1 contracts are registered; and
  -- it traps only when the deployer fails.
  pub deploy_contract-Ends :
      (wasm salt : Bytes) (args : List Val) (w : World i p l)
      → IsRegistered w
      → Ends wasm salt args w (deploy_contract i p l wasm salt args w)
  unfolding deploy_contract register checked_succ get_deployed_contract_count
  deploy_contract-Ends wasm salt args w h =
      let counted : get_or (i.get deployed_contract_count w.count) 0 ≡ length w.events =
        h.counted in
      elim (Option-cases (l.deploy_v2 salt wasm args w.rest)) [
        | inl failed ↦ rw failed failed
        | inr ((a, rest'), deployed) ↦ elim (dec_lt (length w.events + 1) (2 ^ 32)) [
          | yes room ↦
              let rest_length : length (w.events ++ contract_deployed a wasm ∷ [])
                  ≡ length w.events + 1 =
                length-append w.events (contract_deployed a wasm ∷ []) in
              rw (deployed, counted, lt→ltb _ _ room)
                (
                  deployed,
                  refl,
                  record {
                    counted =
                        ap (λ o. get_or o 0)
                          (i.get-set_self deployed_contract_count (length w.events + 1) w.count)
                        ∙ sym rest_length;
                    bounded = omega (arith, rest_length, room);
                    listed = λ j.
                        listed_after w (record { address = a; wasm_hash = wasm }) (length w.events)
                          j h refl;
                  },
                )
          | no full ↦
              rw (deployed, counted, ltb-false _ _ full) (refl, omega (arith, h.bounded, full))
        ]
      ]

  -- One deployment of a sequence.
  pub record Call : Type 0 where
    pub wasm_hash : Bytes
    pub salt : Bytes
    pub constructor_args : List Val

  -- A call that fails leaves the world as it was.
  abbrev pub after :
      World i p l → Outcome LatchSmartAccountError (Address × World i p l) → World i p l
  after w (ok (a, w')) = w'
  after w (panic _) = w
  after w trap = w

  pub run : List Call → World i p l → World i p l
  run [] w = w
  run (c ∷ cs) w = run cs (after w (deploy_contract i p l c.wasm_hash c.salt c.constructor_args w))

  after-IsRegistered :
      (wasm salt : Bytes) (args : List Val) (w : World i p l)
      (r : Outcome LatchSmartAccountError (Address × World i p l))
      → IsRegistered w
      → Ends wasm salt args w r
      → IsRegistered (after w r)
  after-IsRegistered wasm salt args w (ok (a, w')) h e = e.2
  after-IsRegistered wasm salt args w (panic _) h e = h
  after-IsRegistered wasm salt args w trap h e = h

  run-keeps : (calls : List Call) (w : World i p l) → IsRegistered w → IsRegistered (run calls w)
  unfolding run
  run-keeps [] w h = h
  run-keeps (c ∷ cs) w h =
      run-keeps cs (after w (deploy_contract i p l c.wasm_hash c.salt c.constructor_args w)) (
        after-IsRegistered c.wasm_hash c.salt c.constructor_args w
          (deploy_contract i p l c.wasm_hash c.salt c.constructor_args w) h
          (deploy_contract-Ends c.wasm_hash c.salt c.constructor_args w h))

  -- After any deployments by a new account, each of which may fail, the registry mirrors the published
  -- events: the count is their number, and the record at an index is that of the event there.
  pub run-IsRegistered :
      (calls : List Call) (w : World i p l)
      → i.get deployed_contract_count w.count ≡ none
      → ((j : ℕ) → p.get (deployed_contract j) w.records ≡ none)
      → w.events ≡ []
      → IsRegistered (run calls w)
  unfolding get_deployed_contract_count
  run-IsRegistered calls w none_counted none_listed new = run-keeps calls w (record {
    counted = rw (none_counted, new);
    bounded = rw new (omega arith);
    listed = λ j. none_listed j ∙ ap (λ es. recorded (get_elem? es j)) (sym new);
  })

  -- What the reader answers at an index, by the event there.
  abbrev pub Answers : World i p l → ℕ → Option Event → Type 0
  Answers w j none = get_deployed_contract i p l j w ≡ panic deployed_contract_not_found
  Answers w j (some (contract_deployed address wasm_hash)) =
      get_deployed_contract i p l j w
      ≡ ok (
        record { address = address; wasm_hash = wasm_hash },
        record w {
          records = p.extend_ttl (deployed_contract j) l.ttl_threshold l.extend_amount w.records;
        },
      )

  answers :
      (w : World i p l) (j : ℕ) (o : Option Event)
      → p.get (deployed_contract j) w.records ≡ recorded o
      → Answers w j o
  unfolding get_deployed_contract
  answers w j none e = rw e
  answers w j (some (contract_deployed a wasm)) e = rw e

  -- In a sound registry the reader answers with the address and the hash of the contract registered at
  -- an index, and with `deployed_contract_not_found` at an index with none; nothing but the lifetime of
  -- the record changes.
  get_deployed_contract-listed :
      (w : World i p l) (j : ℕ) → IsRegistered w → Answers w j (get_elem? w.events j)
  get_deployed_contract-listed w j h = answers w j (get_elem? w.events j) (h.listed j)

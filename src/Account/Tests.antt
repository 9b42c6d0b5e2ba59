-- ===== src/Account/Tests.antt =====
-- The registry's theorems at a new account that deploys two contracts.
use latch_contracts.Base.{ℕ, ◌+◌, refl, none, some, List, [], ◌∷◌, arith, ℕ_discrete}
use latch_contracts.Soroban.{map_storage, Storage}
use latch_contracts.Account.{
  DeployedContract, CountKey, RecordKey, Library, World, deploy_contract,
  get_deployed_contract_count,
}
use latch_contracts.Account.Registry.{
  IsRegistered, Ends, deploy_contract-Ends, Call, run, run-IsRegistered,
}

instance count_discrete : Discrete CountKey
count_discrete = hlevel

instance record_discrete : Discrete RecordKey
record_discrete = hlevel (ℕ_discrete)

abbrev counts : Storage CountKey ℕ
counts = map_storage count_discrete

abbrev records : Storage RecordKey DeployedContract
records = map_storage record_discrete

-- Every deployment gets the next address.
abbrev library : Library ℕ
library = record {
  State = ℕ;
  Payload = ℕ;
  add_context_rule = λ _ _ _ _ _ n. some n;
  batch_add_signer = λ _ _ n. some n;
  do_check_auth = λ _ _ _ n. some n;
  upgrade = λ _ n. some n;
  deploy_v2 = λ _ _ _ n. some (n, n + 1);
  extend_amount = 30;
  ttl_threshold = 29;
}

abbrev new_account : World counts records library
new_account = record { count = λ _. none; records = λ _. none; rest = 40; events = [] }

abbrev deployments : List (Call counts records library)
deployments =
    record { wasm_hash = 1 ∷ []; salt = 2 ∷ []; constructor_args = [] }
    ∷ record { wasm_hash = 3 ∷ []; salt = 4 ∷ []; constructor_args = [] }
    ∷ []

run-IsRegistered_example :
    IsRegistered counts records library (run counts records library deployments new_account)
run-IsRegistered_example =
    run-IsRegistered counts records library deployments new_account refl (λ _. refl) refl

new_account-IsRegistered : IsRegistered counts records library new_account
unfolding get_deployed_contract_count
new_account-IsRegistered = record { counted = refl; bounded = omega arith; listed = λ _. refl }

deploy_contract-Ends_example :
    Ends counts records library
      (1 ∷ [])
      (2 ∷ [])
      []
      new_account
      (deploy_contract counts records library (1 ∷ []) (2 ∷ []) [] new_account)
deploy_contract-Ends_example =
    deploy_contract-Ends counts records library (1 ∷ []) (2 ∷ []) [] new_account
      new_account-IsRegistered

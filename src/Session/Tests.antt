-- ===== src/Session/Tests.antt =====
-- The session policy's theorems at concrete calls.
use latch_contracts.Base.{ℕ, ◌≡◌, ◌↔◌, ◌≤◌, true, some, refl, none, List, [], ◌∷◌, ◌==◌, map}
use latch_contracts.Soroban.{
  Symbol, Context, ok, Auth, ContractContext, contract, other, ContextRule, call_contract,
  delegated, World, map_storage, Storage,
}
use latch_contracts.Session.{
  Event, SessionData, SessionStorageKey, account_context, contains, enforce,
}
use latch_contracts.Session.Log.{key_discrete, replay}
use latch_contracts.Session.Decisions.{run-enforce_iff}
use latch_contracts.Session.Replay.{
  Call, enforce_by, install_by, uninstall_by, run, announcement, let_through, IsLogged,
  run-IsLogged,
}

abbrev store : Storage SessionStorageKey SessionData
store = map_storage key_discrete

abbrev fresh : World store.State Event
fresh = record { store = λ _. none; events = [] }

abbrev by_account : Auth
by_account a = a == 7

abbrev rule : ContextRule
rule = record { id = 1; context_type = call_contract 50; signers = [] }

abbrev swap_call : ContractContext ℕ
swap_call = record { contract = 50; fn_name = "swap"; args = [] }

-- A context that is not a contract call, and a function that is not in the list, are not let through.
abbrev calls : List (Call ℕ)
calls =
    install_by by_account (record { allowed_fns = "swap" ∷ [] }) rule 7
    ∷ enforce_by by_account (contract swap_call) (delegated 8 ∷ []) rule 7
    ∷ enforce_by by_account other (delegated 8 ∷ []) rule 7
    ∷ enforce_by by_account (contract (record swap_call { fn_name = "burn" })) (delegated 8 ∷ [])
        rule 7
    ∷ uninstall_by by_account rule 7
    ∷ []

run-IsLogged_example :
    IsLogged store (run store calls fresh)
    × (map some (run store calls fresh).events ≡ map announcement (let_through store calls fresh))
run-IsLogged_example = run-IsLogged store calls fresh refl (λ _. refl)

abbrev first_calls : List (Call ℕ)
first_calls =
    install_by by_account (record { allowed_fns = "swap" ∷ [] }) rule 7
    ∷ enforce_by by_account (contract swap_call) (delegated 8 ∷ []) rule 7
    ∷ []

run-enforce_iff_example :
    ((w' : World store.State Event) × (enforce store by_account
          (contract swap_call)
          (delegated 8 ∷ [])
          rule
          7
          (run store first_calls fresh)
        ≡ ok w'))
    ↔ ((c : ContractContext ℕ) × (fns : List Symbol) × (◌≡◌ {A = Context ℕ}
          (contract swap_call)
          (contract c))
        × (true ≡ true)
        × (1 ≤ 1)
        × (replay (run store first_calls fresh).events (λ _. none) (account_context 7 1)
            ≡ some (record { allowed_fns = fns }))
        × (contains fns c.fn_name ≡ true))
run-enforce_iff_example =
    run-enforce_iff store first_calls fresh by_account (contract swap_call) (delegated 8 ∷ []) rule
      7 refl (λ _. refl)

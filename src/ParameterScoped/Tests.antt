-- ===== src/ParameterScoped/Tests.antt =====
-- The parameter-scoped policy's theorems at a rule that sets a floor for the third argument of `swap`.
use latch_contracts.Base.{◌≤◌, ◌≡◌, ◌↔◌, ◌⊎◌, refl, true, none, some, [], ◌∷◌, ◌==◌, ℕ_discrete}
use latch_contracts.Base.Int.{ℤ, pos}
use latch_contracts.Soroban.{
  Auth, Context, ContractContext, contract, ContextRule, call_contract, delegated, World, ok,
  map_storage, Storage,
}
use latch_contracts.ParameterScoped.{
  gte, i128, Condition, Conditions, Decoders, Event, conditions_enforced, conditions_installed,
  ParameterScopedData, ParameterScopedStorageKey, account_context, enforce, install, check_params,
  check_operators,
}
use latch_contracts.ParameterScoped.Calls.{IsAllowed, after_call, enforce-IsAllowed_iff}
use latch_contracts.ParameterScoped.Installs.{IsValid, install-IsValid}

instance key_discrete : Discrete ParameterScopedStorageKey
key_discrete = hlevel (ℕ_discrete)

-- Every argument is an integer.
abbrev integers_only : Decoders ℤ
integers_only = record {
  to_u32 = λ _. none;
  to_u64 = λ _. none;
  to_u128 = λ _. none;
  to_i32 = λ _. none;
  to_i64 = λ _. none;
  to_i128 = λ v. some v;
  to_symbol = λ _. none;
  to_address = λ _. none;
}

abbrev floor : Condition
floor = record { arg_index = 1; operator = gte; expected_value = i128 (pos 90) }

abbrev rules : Conditions
rules = ("swap", floor ∷ []) ∷ []

abbrev store : Storage ParameterScopedStorageKey ParameterScopedData
store = map_storage key_discrete

abbrev by_account : Auth
by_account a = a == 7

abbrev rule : ContextRule
rule = record { id = 1; context_type = call_contract 50; signers = [] }

abbrev fresh : World store.State Event
fresh = record { store = λ _. none; events = [] }

abbrev installed : World store.State Event
installed = record {
  store = store.set (account_context 7 1) (record { conditions = rules }) (λ _. none);
  events = [];
}

abbrev swap_call : ContractContext ℤ
swap_call = record { contract = 50; fn_name = "swap"; args = pos 100 ∷ pos 95 ∷ [] }

abbrev swapped : World store.State Event
swapped = record { store = installed.store; events = conditions_enforced 7 1 "swap" ∷ [] }

enforce-IsAllowed_iff_example :
    (enforce store integers_only by_account (contract swap_call) (delegated 8 ∷ []) rule 7 installed
      ≡ ok swapped)
    ↔ ((c : ContractContext ℤ) × (◌≡◌ {A = Context ℤ} (contract swap_call) (contract c))
        × (1 ≤ 1)
        × IsAllowed store integers_only by_account c rule 7 installed
        × (swapped ≡ after_call store integers_only rule 7 c.fn_name installed))
enforce-IsAllowed_iff_example =
    enforce-IsAllowed_iff store integers_only by_account (contract swap_call) (delegated 8 ∷ [])
      rule 7 installed swapped

abbrev after_install : World store.State Event
after_install = record { store = installed.store; events = conditions_installed 7 1 ∷ [] }

install_swap :
    install store by_account (record { conditions = rules }) rule 7 fresh ≡ ok after_install
unfolding install check_params check_operators
install_swap = refl

install-IsValid_example :
    (true ≡ true)
    × (true ≡ true)
    × (store.get (account_context 7 1) fresh.store ≡ none)
    × IsValid rules
    × (store.get (account_context 7 1) after_install.store ≡ some (record { conditions = rules }))
    × ((k : ParameterScopedStorageKey)
        → (k ≡ account_context 7 1) ⊎ (store.get k after_install.store ≡ store.get k fresh.store))
install-IsValid_example =
    install-IsValid store by_account (record { conditions = rules }) rule 7 fresh after_install
      install_swap

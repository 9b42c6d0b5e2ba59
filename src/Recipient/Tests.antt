-- ===== src/Recipient/Tests.antt =====
-- The recipient allowlist policy's theorems at a rule that allows payments to 90.
use latch_contracts.Base.{ℕ, ◌≤◌, ◌≡◌, ◌↔◌, refl, none, some, List, [], ◌∷◌, ◌++◌, ◌==◌, ℕ_discrete}
use latch_contracts.Soroban.{
  Address, Auth, Context, ContractContext, contract, ContextRule, call_contract, delegated, World,
  ok, map_storage, Storage,
}
use latch_contracts.Recipient.{
  Event, recipient_enforced, recipient_installed, RecipientData, RecipientStorageKey,
  account_context, enforce, install,
}
use latch_contracts.Recipient.Bounds.{
  Call, enforce_by, install_by, set_by, AllBounded, run, run-AllBounded,
}
use latch_contracts.Recipient.Transfers.{IsPermitted, after_transfer, enforce-IsPermitted_iff}

instance key_discrete : Discrete RecipientStorageKey
key_discrete = hlevel (ℕ_discrete)

abbrev store : Storage RecipientStorageKey RecipientData
store = map_storage key_discrete

abbrev by_account : Auth
by_account a = a == 7

abbrev rule : ContextRule
rule = record { id = 1; context_type = call_contract 50; signers = [] }

abbrev fresh : World store.State Event
fresh = record { store = λ _. none; events = [] }

abbrev listed : List Address → store.State
listed rs = store.set (account_context 7 1) (record { allowed_recipients = rs }) (λ _. none)

abbrev installed : World store.State Event
installed = record { store = listed (90 ∷ []); events = recipient_installed 7 1 (90 ∷ []) ∷ [] }

-- Every argument is an address.
abbrev payment : ContractContext ℕ
payment = record { contract = 50; fn_name = "transfer"; args = 7 ∷ 90 ∷ 3 ∷ [] }

install_one :
    install store by_account (record { allowed_recipients = 90 ∷ [] }) rule 7 fresh ≡ ok installed
unfolding install
install_one = refl

abbrev paid : World store.State Event
paid = record {
  store = installed.store;
  events = installed.events ++ recipient_enforced 7 1 90 ∷ [];
}

enforce-IsPermitted_iff_example :
    (enforce store
        (λ (a : ℕ). some a)
        by_account
        (contract payment)
        (delegated 8 ∷ [])
        rule
        7
        installed
      ≡ ok paid)
    ↔ ((c : ContractContext ℕ) × (to : Address) × (◌≡◌ {A = Context ℕ}
          (contract payment)
          (contract c))
        × (1 ≤ 1)
        × IsPermitted store (λ (a : ℕ). some a) by_account c rule 7 to installed
        × (paid ≡ after_transfer store (λ (a : ℕ). some a) rule 7 to installed))
enforce-IsPermitted_iff_example =
    enforce-IsPermitted_iff store (λ (a : ℕ). some a) by_account (contract payment)
      (delegated 8 ∷ []) rule 7 installed paid

abbrev calls : List (Call ℕ)
calls =
    install_by by_account (record { allowed_recipients = 90 ∷ [] }) rule 7
    ∷ enforce_by by_account (contract payment) (delegated 8 ∷ []) rule 7
    ∷ set_by by_account (91 ∷ 92 ∷ []) 1 7
    ∷ []

run-AllBounded_example : AllBounded store (run store (λ (a : ℕ). some a) calls fresh)
run-AllBounded_example = run-AllBounded store (λ (a : ℕ). some a) calls fresh (λ _. refl)

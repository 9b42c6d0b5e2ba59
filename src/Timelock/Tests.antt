-- ===== src/Timelock/Tests.antt =====
-- The vault's theorems at a concrete vault, whose owner 7 can withdraw from ledger 100.
use latch_contracts.Base.{ℕ, ◌+◌, ◌<◌, ◌≡◌, refl, Option, none, some, [], ◌∷◌, All, ◌==◌}
use latch_contracts.Base.Int.{pos}
use latch_contracts.Soroban.{Auth, Ledger, Tokens, ok, map_storage, Storage}
use latch_contracts.Timelock.{
  DataKey, owner, unlock_ledger, World, constructor, extend_state_ttl, withdraw,
}
use latch_contracts.Timelock.Funds.{Moves, constructor-Moves}
use latch_contracts.Timelock.Withdrawals.{
  Call, withdraw_of, Holds, Ends, withdraw-Ends, constructor-locked, final, withdrawals, Guarded,
}

instance key_discrete : Discrete DataKey
key_discrete = hlevel

abbrev store : Storage DataKey ℕ
store = map_storage key_discrete

-- Counts the transfers.
abbrev tokens : Tokens
tokens = record { State = ℕ; transfer = λ _ _ _ _ n. some (n + 1); balance = λ _ _ n. pos n }

abbrev fresh : World store tokens
fresh = record { store = λ _. none; tokens = 0; events = [] }

abbrev stored : DataKey → Option ℕ
stored = store.set unlock_ledger 100 (store.set owner 7 (λ _. none))

abbrev vault : World store tokens
vault = record { store = stored; tokens = 0; events = [] }

abbrev by_owner : Auth
by_owner a = a == 7

abbrev at : ℕ → Ledger
at n = record { sequence = n; timestamp = 0 }

vault-built : constructor store tokens (at 10) 7 100 fresh ≡ ok vault
unfolding constructor extend_state_ttl
vault-built = refl

vault-Holds : Holds store tokens 500 7 100 vault
unfolding key_discrete
vault-Holds = record { owned = refl; unlocks = refl }

abbrev late_call : Call
late_call = record { auth = by_owner; ledger = at 100; action = withdraw_of 3 (pos 5) 9 }

abbrev early_call : Call
early_call = record { auth = by_owner; ledger = at 99; action = withdraw_of 3 (pos 5) 9 }

withdraw-Ends_example :
    Ends store tokens 500 7 100 late_call 3
      (pos 5)
      9
      vault
      (withdraw store tokens by_owner (at 100) 500 3 (pos 5) 9 vault)
withdraw-Ends_example = withdraw-Ends store tokens 500 7 100 late_call 3 (pos 5) 9 vault vault-Holds

constructor-locked_example :
    (10 < 100)
    × Holds store tokens 500 7 100 (final store tokens 500 (early_call ∷ late_call ∷ []) vault)
    × All
        (Guarded store tokens 500 7 100)
        (withdrawals store tokens 500 (early_call ∷ late_call ∷ []) vault)
constructor-locked_example =
    constructor-locked store tokens 500 (at 10) 7 100 fresh vault (early_call ∷ late_call ∷ [])
      vault-built

constructor-Moves_example :
    Moves tokens 500 7 100
      (early_call ∷ late_call ∷ [])
      0
      (final store tokens 500 (early_call ∷ late_call ∷ []) vault).tokens
constructor-Moves_example =
    constructor-Moves store tokens 500 7 100 (at 10) fresh vault (early_call ∷ late_call ∷ [])
      vault-built

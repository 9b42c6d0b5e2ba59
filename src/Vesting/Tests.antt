-- ===== src/Vesting/Tests.antt =====
-- The vesting theorems at a schedule of 1000 from ledger 100 to 200, with a cliff at 120.
use latch_contracts.Base.{ℕ, ◌+◌, ◌≤◌, ◌≡◌, refl, none, some, List, [], ◌∷◌, arith, ◌==◌}
use latch_contracts.Base.Int.{pos}
use latch_contracts.Soroban.{Auth, Ledger, Tokens, ok, map_storage, Storage}
use latch_contracts.Vesting.{
  DataKey, schedule, ScheduleData, World, constructor, claim, compute_vested, schedule_created,
  new_schedule,
}
use latch_contracts.Vesting.Curve.{vested, compute_vested-exact}
use latch_contracts.Vesting.Claims.{Call, run, Holds, Claimed, claim-Claimed}
use latch_contracts.Vesting.Payments.{payments, moves, Signed, total_paid, constructor-run-payments}
use latch_contracts.Vesting.Lifetime.{constructor-run, CatchesUp, constructor-run-claim-ok}

instance key_discrete : Discrete DataKey
key_discrete = hlevel

abbrev store : Storage DataKey ScheduleData
store = map_storage key_discrete

-- Counts the transfers.
abbrev tokens : Tokens
tokens = record { State = ℕ; transfer = λ _ _ _ _ n. some (n + 1); balance = λ _ _ n. pos n }

abbrev fresh : World store tokens
fresh = record { store = λ _. none; tokens = 0; events = [] }

abbrev built : World store tokens
built = record {
  store = store.set schedule (new_schedule 7 3 (pos 1000) 100 (some 120) 200) (λ _. none);
  tokens = 0;
  events = schedule_created 7 3 (pos 1000) 100 (some 120) 200 ∷ [];
}

built-ok : constructor store tokens 7 3 (pos 1000) 100 (some 120) 200 fresh ≡ ok built
unfolding constructor
built-ok = refl

abbrev by_owner : Auth
by_owner a = a == 7

abbrev at : ℕ → Ledger
at n = record { sequence = n; timestamp = 0 }

abbrev call_at : ℕ → Call
call_at n = record { auth = by_owner; ledger = at n; to = 9 }

compute_vested-exact_example :
    compute_vested (pos 1000) 100 (some 120) 200 150 ≡ ok (pos (vested 1000 100 (some 120) 200 150))
compute_vested-exact_example =
    compute_vested-exact 1000 100 (some 120) 200 150 (omega arith) (omega arith) (omega arith)

built-Holds : Holds store tokens 500 7 3 1000 100 (some 120) 200 0 built
built-Holds =
    store.get-set_self schedule (new_schedule 7 3 (pos 1000) 100 (some 120) 200) (λ _. none)

claim-Claimed_example :
    Claimed store tokens 500 7 3 1000 100
      (some 120)
      200
      by_owner
      9
      0
      (vested 1000 100 (some 120) 200 150)
      150
      built
      (claim store tokens by_owner (at 150) 500 9 built)
claim-Claimed_example =
    claim-Claimed store tokens 500 7 3 1000 100 (some 120) 200 (omega arith) (omega arith)
      (omega arith) by_owner (at 150) 9 0 built built-Holds (omega arith)

constructor-run_example :
    ((run store tokens 500 (call_at 110 ∷ call_at 150 ∷ []) built).0
      ≤ vested 1000 100 (some 120) 200 160)
    × Holds store tokens 500 7 3 1000 100
        (some 120)
        200
        (run store tokens 500 (call_at 110 ∷ call_at 150 ∷ []) built).0
        (run store tokens 500 (call_at 110 ∷ call_at 150 ∷ []) built).1
constructor-run_example =
    constructor-run store tokens 500 7 3 1000 100 (some 120) 200 (omega arith) (omega arith) fresh
      built built-ok 160 (call_at 110 ∷ call_at 150 ∷ []) (omega arith, (omega arith, tt))

abbrev three_calls : List Call
three_calls = call_at 110 ∷ call_at 150 ∷ call_at 180 ∷ []

constructor-run-payments_example :
    (moves store tokens 500 3 (payments store tokens 500 three_calls built) built.tokens
      ≡ some (run store tokens 500 three_calls built).1.tokens)
    × Signed store tokens 500 7 3 1000 100
        (some 120)
        200
        (payments store tokens 500 three_calls built)
    × (total_paid (payments store tokens 500 three_calls built)
        ≤ vested 1000 100 (some 120) 200 180)
constructor-run-payments_example =
    constructor-run-payments store tokens 500 7 3 1000 100 (some 120) 200 (omega arith)
      (omega arith) fresh built built-ok 180 three_calls
      (omega arith, (omega arith, (omega arith, tt)))

constructor-run-claim-ok_example :
    CatchesUp store tokens 500 7 3 1000 100
      (some 120)
      200
      (omega arith)
      (omega arith)
      fresh
      built
      built-ok
      (call_at 150 ∷ [])
      by_owner
      (at 180)
      9
constructor-run-claim-ok_example =
    constructor-run-claim-ok store tokens 500 7 3 1000 100 (some 120) 200 (omega arith)
      (omega arith) fresh built built-ok 160 (call_at 150 ∷ []) (omega arith, tt) by_owner (at 180)
      9 (omega arith) refl (λ e. absurd (cc))

-- ===== src/Vesting/Payments.antt =====
-- What the calls of `claim` of templates/vesting-schedule/src/lib.rs make the token move.
use latch_contracts.Base.{
  ℕ, zero, suc, ◌+◌, ◌^◌, ◌≤◌, ◌<◌, ◌≡◌, ◌∙◌, refl, true, Option, none, some, List, [], ◌∷◌, ◌++◌,
  arith, All, inl, inr, All-append,
}
use latch_contracts.Base.Int.{ℤ, pos, negsuc}
use latch_contracts.Soroban.{Address, Outcome, ok, panic, trap, Storage, Tokens}
use latch_contracts.Vesting.{DataKey, ScheduleData, VestingScheduleError, World, constructor, claim}
use latch_contracts.Vesting.Curve.{vested, vested-le, vested_mono}
use latch_contracts.Vesting.Claims.{
  Call, after_claim, run, Holds, Claimed, claim-Claimed, after_claim-Holds,
}
use latch_contracts.Vesting.Lifetime.{made, constructor-run}

-- An amount that a call pays.
pub record Payment : Type 0 where
  pub call : Call
  pub amount : ℕ

abbrev pub total_paid : List Payment → ℕ
total_paid [] = 0
total_paid (p ∷ ps) = p.amount + total_paid ps

module _ (d : Storage DataKey ScheduleData) (t : Tokens) (this : Address) where
  abbrev pub payment_by : Call → Outcome VestingScheduleError (ℤ × World d t) → List Payment
  payment_by c (ok (pos (suc n), _)) = record { call = c; amount = suc n } ∷ []
  payment_by c (ok (pos zero, _)) = []
  payment_by c (ok (negsuc _, _)) = []
  payment_by c (panic _) = []
  payment_by c trap = []

  -- What a sequence of calls pays.
  unfoldable pub payments : List Call → World d t → List Payment
  payments [] w = []
  payments (c ∷ cs) w =
      let o = claim d t c.auth c.ledger this c.to w in
      payment_by c o ++ payments cs (after_claim d t this w o).1

  -- The token after it has made these payments out of the contract's funds, one after the other.
  unfoldable pub moves : Address → List Payment → t.State → Option t.State
  moves token [] s = some s
  moves token (p ∷ ps) s = elim (t.transfer token this p.call.to (pos p.amount) s) [
    | none ↦ none
    | some s' ↦ moves token ps s'
  ]

module _ (d : Storage DataKey ScheduleData) (t : Tokens) (this owner token total start : ℕ)
    (cliff : Option ℕ) (end : ℕ) where
  abbrev pub Signed : List Payment → Type 0
  Signed ps = All (λ p. p.call.auth owner ≡ true) ps

  -- One call moves what it releases, in the token, and nothing else.
  abbrev Accounts : Call → World d t → Outcome VestingScheduleError (ℤ × World d t) → Type 0
  Accounts k w o =
      (total_paid (payment_by d t this k o) ≡ (after_claim d t this w o).0)
      × Signed (payment_by d t this k o)
      × ((rest : List Payment)
          → moves d t this token (payment_by d t this k o ++ rest) w.tokens
            ≡ moves d t this token rest (after_claim d t this w o).1.tokens)

  Claimed-Accounts :
      (k : Call) (c v now : ℕ) (w : World d t) (o : Outcome VestingScheduleError (ℤ × World d t))
      → Claimed d t this owner token total start cliff end k.auth k.to c v now w o
      → Accounts k w o
  unfolding after_claim moves
  Claimed-Accounts k c v now w (ok (pos (suc n), w')) (signed, inl p) =
      (omega arith, (signed, tt), λ rest. rw (p.released, p.moved) refl)
  Claimed-Accounts k c v now w (ok (pos zero, w')) (signed, inl p) =
      absurd (ground (arith, p.released, p.due))
  Claimed-Accounts k c v now w (ok (negsuc n, w')) (signed, inl p) =
      absurd (ground (arith, p.released))
  Claimed-Accounts k c v now w (ok (pos (suc n), w')) (signed, inr p) =
      absurd (ground (arith, p.nothing))
  Claimed-Accounts k c v now w (ok (pos zero, w')) (signed, inr p) =
      (refl, tt, λ rest. rw p.unmoved refl)
  Claimed-Accounts k c v now w (ok (negsuc n, w')) (signed, inr p) =
      (refl, tt, λ rest. rw p.unmoved refl)
  Claimed-Accounts k c v now w (panic _) bad = absurd bad
  Claimed-Accounts k c v now w trap _ = (refl, tt, λ rest. refl)

  total_paid-append : (xs ys : List Payment) → total_paid (xs ++ ys) ≡ total_paid xs + total_paid ys
  total_paid-append [] ys = omega arith
  total_paid-append (x ∷ xs) ys = omega (arith, total_paid-append xs ys)

  module _ (small : total < 2 ^ 127) (order : start < end) (range : end < 2 ^ 32) where
    run-Accounts :
        (last : ℕ) (cs : List Call) (c : ℕ) (w : World d t)
        → Holds d t this owner token total start cliff end c w
        → c ≤ vested total start cliff end last
        → All (λ k. k.ledger.sequence ≤ last) cs
        → (total_paid (payments d t this cs w) ≡ (run d t this cs w).0)
          × Signed (payments d t this cs w)
          × (moves d t this token (payments d t this cs w) w.tokens
              ≡ some (run d t this cs w).1.tokens)
    unfolding run payments moves
    run-Accounts last [] c w h le all = (refl, tt, refl)
    run-Accounts last (k ∷ cs) c w h le all =
        let o = claim d t k.auth k.ledger this k.to w in
        let case =
          claim-Claimed d t this owner token total start cliff end small order range k.auth k.ledger
            k.to c w h (omega (arith, vested-le total start cliff end last order)) in
        let step =
          after_claim-Holds d t this owner token total start cliff end k.auth k.to c
            (vested total start cliff end k.ledger.sequence) k.ledger.sequence
            (vested total start cliff end last) w h le
            (vested_mono total start cliff end k.ledger.sequence last order all.0) o case in
        let (r, w1) = after_claim d t this w o in
        let here =
          Claimed-Accounts k c (vested total start cliff end k.ledger.sequence) k.ledger.sequence w
            o case in
        let rest = run-Accounts last cs (c + r) w1 step.0 step.1 all.1 in
        let later = payments d t this cs w1 in
        (
          omega (arith, here.0, rest.0, total_paid-append (payment_by d t this k o) later),
          All-append (λ p. p.call.auth owner ≡ true) (payment_by d t this k o) later here.1 rest.1,
          here.2 later ∙ rest.2,
        )

module _ (d : Storage DataKey ScheduleData) (t : Tokens) (this owner token : Address)
    (total start : ℕ) (cliff : Option ℕ) (end : ℕ) (small : total < 2 ^ 127) (range : end < 2 ^ 32)
    (w w' : World d t)
    (built : constructor d t owner token (pos total) start cliff end w ≡ ok w') where
  -- What leaves the schedule: after a successful construction with a total that fits `i128` and ledgers
  -- that fit `u32`, whatever calls of `claim` follow at ledgers up to `last`, the token ends where the
  -- payments of the successful calls, made in their order from the contract to the recipients they
  -- name, bring it from where it was; each of these calls carries the owner's authorization; and
  -- together they pay no more than the curve has reached at `last`.
  pub constructor-run-payments :
      (last : ℕ) (cs : List Call)
      → All (λ k. k.ledger.sequence ≤ last) cs
      → (moves d t this token (payments d t this cs w') w'.tokens
          ≡ some (run d t this cs w').1.tokens)
        × Signed d t this owner token total start cliff end (payments d t this cs w')
        × (total_paid (payments d t this cs w') ≤ vested total start cliff end last)
  constructor-run-payments last cs all =
      let m = made d t this owner token total start cliff end small range w w' built in
      let accounts =
        run-Accounts d t this owner token total start cliff end small m.3 range last cs 0 w' m.0
          (omega arith) all in
      let bound =
        constructor-run d t this owner token total start cliff end small range w w' built last cs
          all in
      (accounts.2, accounts.1, omega (arith, accounts.0, bound.0))

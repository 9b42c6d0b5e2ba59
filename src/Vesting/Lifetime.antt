-- ===== src/Vesting/Lifetime.antt =====
-- The constructor of templates/vesting-schedule/src/lib.rs, and a schedule from its construction on.
use latch_contracts.Base.{
  ℕ, ◌+◌, ◌-◌, refl, none, inl, inr, ◌^◌, ◌≤◌, ◌<◌, ◌≡◌, subst, true, false, Option, some, List,
  arith, All,
}
use latch_contracts.Base.Int.{ℤ, pos, pos_part, ◌≤ℤ◌}
use latch_contracts.Soroban.{Address, Auth, Ledger, Outcome, ok, panic, trap, Storage, Tokens, has}
use latch_contracts.Vesting.{
  DataKey, schedule, ScheduleData, VestingScheduleError, already_initialized, invalid_amount,
  invalid_ledger_range, invalid_cliff_ledger, not_initialized, new_schedule, World, constructor,
  claim, bad_cliff,
}
use latch_contracts.Vesting.Curve.{vested, vested-le, vested-end, vested_mono}
use latch_contracts.Vesting.Claims.{Call, run, Holds, run-Holds, claim-Claimed, Claimed}

module _ (d : Storage DataKey ScheduleData) (t : Tokens) where
  -- How the constructor may end, with what it has then checked.
  abbrev pub Constructed :
      Address
      → Address
      → ℤ
      → ℕ
      → Option ℕ
      → ℕ
      → World d t
      → Outcome VestingScheduleError (World d t)
      → Type 0
  Constructed owner token total start cliff end w (ok w') =
      (d.get schedule w'.store ≡ some (new_schedule owner token total start cliff end))
      × (has d schedule w.store ≡ false)
      × (pos 1 ≤ℤ total)
      × (start < end)
      × (bad_cliff cliff start end ≡ false)
  Constructed owner token total start cliff end w (panic already_initialized) =
      has d schedule w.store ≡ true
  Constructed owner token total start cliff end w (panic invalid_amount) = total ≤ℤ pos 0
  Constructed owner token total start cliff end w (panic invalid_ledger_range) = end ≤ start
  Constructed owner token total start cliff end w (panic invalid_cliff_ledger) =
      bad_cliff cliff start end ≡ true
  Constructed owner token total start cliff end w (panic not_initialized) = ⊥
  Constructed owner token total start cliff end w trap = ⊥

  -- The constructor stores the schedule with nothing claimed, on fresh storage, for a positive amount,
  -- an ordered range and a cliff within it; otherwise it panics with the error of the check that
  -- fails. It never traps.
  pub constructor-Constructed :
      (owner token : Address) (total : ℤ) (start : ℕ) (cliff : Option ℕ) (end : ℕ) (w : World d t)
      → Constructed owner token total start cliff end w
          (constructor d t owner token total start cliff end w)
  unfolding constructor
  constructor-Constructed owner token total start cliff end w =
      let s = new_schedule owner token total start cliff end in
      ground (
        arith,
        d.get-extend_ttl schedule schedule 501120 518400 (d.set schedule s w.store),
        d.get-set_self schedule s w.store,
      )

  module _ (this owner token : Address) (total start : ℕ) (cliff : Option ℕ) (end : ℕ)
      (small : total < 2 ^ 127) (range : end < 2 ^ 32) (w w' : World d t)
      (built : constructor d t owner token (pos total) start cliff end w ≡ ok w') where
    pub made : Constructed owner token (pos total) start cliff end w (ok w')
    made =
        subst (Constructed owner token (pos total) start cliff end w) built
          (constructor-Constructed owner token (pos total) start cliff end w)

    -- After a successful construction with a total that fits `i128` and ledgers that fit `u32`,
    -- whatever calls of `claim` follow at ledgers up to `last` (failed ones are rolled back) release
    -- together at most what the curve has reached at `last`, and the stored claimed amount is the sum
    -- of what they released.
    pub constructor-run :
        (last : ℕ) (cs : List Call)
        → All (λ k. k.ledger.sequence ≤ last) cs
        → ((run d t this cs w').0 ≤ vested total start cliff end last)
          × Holds d t this owner token total start cliff end
              (run d t this cs w').0
              (run d t this cs w').1
    constructor-run last cs all =
        let r =
          run-Holds d t this owner token total start cliff end small made.3 range last cs 0 w'
            made.0 (omega arith) all in
        ground (arith, r)

    -- How often one claims does not matter: after a successful construction and any calls of `claim`
    -- at ledgers up to `last`, a call at `last` or later that ends well brings what was released
    -- together exactly to what the curve has reached at its ledger, and stores that as claimed.
    constructor-run-claim-vested :
        (last : ℕ) (cs : List Call)
        → All (λ k. k.ledger.sequence ≤ last) cs
        → (auth : Auth) (ledger : Ledger) (to : Address) (amount : ℤ) (w3 : World d t)
        → last ≤ ledger.sequence
        → claim d t auth ledger this to (run d t this cs w').1 ≡ ok (amount, w3)
        → (pos_part amount + (run d t this cs w').0 ≡ vested total start cliff end ledger.sequence)
          × Holds d t this owner token total start cliff end
              (vested total start cliff end ledger.sequence)
              w3
    constructor-run-claim-vested last cs all auth ledger to amount w3 later paid =
        let r = constructor-run last cs all in
        let c = (run d t this cs w').0 in
        let v = vested total start cliff end ledger.sequence in
        let bound = vested-le total start cliff end last made.3 in
        let more = vested_mono total start cliff end last ledger.sequence made.3 later in
        let case =
          subst
            (Claimed d t this owner token total start cliff end auth to c v ledger.sequence
              (run d t this cs w').1)
            paid
            (claim-Claimed d t this owner token total start cliff end small made.3 range auth ledger
              to c (run d t this cs w').1 r.1 (omega arith)) in
        ground (arith, case, more, r.0)

    -- A call of `claim` after the calls `cs` succeeds, what is released catches up with the curve, and the
    -- schedule stores that as claimed.
    abbrev pub CatchesUp : List Call → Auth → Ledger → Address → Type 0
    CatchesUp cs auth ledger to =
        (amount : ℤ) × (w3 : World d t) × (claim d t auth ledger this to (run d t this cs w').1
          ≡ ok (amount, w3))
        × (pos_part amount + (run d t this cs w').0 ≡ vested total start cliff end ledger.sequence)
        × Holds d t this owner token total start cliff end
            (vested total start cliff end ledger.sequence) w3

    -- The owner is never locked out, and how often one claims does not matter: after a successful
    -- construction and any calls of `claim` at ledgers up to `last`, a call at `last` or later with the
    -- owner's authorization succeeds, if the token would move what the curve has reached and was not
    -- released yet. It brings what was released together exactly to what the curve has reached at its
    -- ledger, and stores that as claimed.
    pub constructor-run-claim-ok :
        (last : ℕ) (cs : List Call)
        → All (λ k. k.ledger.sequence ≤ last) cs
        → (auth : Auth) (ledger : Ledger) (to : Address) → last ≤ ledger.sequence
        → auth owner ≡ true
        → ¬ (
            t.transfer token this to
              (pos (vested total start cliff end ledger.sequence - (run d t this cs w').0))
              (run d t this cs w').1.tokens
            ≡ none)
        → CatchesUp cs auth ledger to
    constructor-run-claim-ok last cs all auth ledger to later signed moves =
        let r = constructor-run last cs all in
        let bound = vested-le total start cliff end last made.3 in
        succeeds _ refl (
          claim-Claimed d t this owner token total start cliff end small made.3 range auth ledger to
            (run d t this cs w').0 (run d t this cs w').1 r.1 (omega arith))
      where
        succeeds :
            (o : Outcome VestingScheduleError (ℤ × World d t))
            → claim d t auth ledger this to (run d t this cs w').1 ≡ o
            → Claimed d t this owner token total start cliff end auth to
                (run d t this cs w').0
                (vested total start cliff end ledger.sequence)
                ledger.sequence
                (run d t this cs w').1
                o
            → CatchesUp cs auth ledger to
        succeeds (ok (amount, w3)) e c =
            let paid = constructor-run-claim-vested last cs all auth ledger to amount w3 later e in
            (amount, w3, e, paid.0, paid.1)
        succeeds (panic _) e c = absurd c
        succeeds trap e (inl unsigned) = absurd (cc)
        succeeds trap e (inr (_, refused)) = absurd (moves refused)

    -- No dust is left: after a successful construction and any calls of `claim`, a call that ends well
    -- at or after the end returns exactly the part of the total that was not released before, and
    -- stores the total as claimed.
    constructor-run-claim :
        (last : ℕ) (cs : List Call)
        → All (λ k. k.ledger.sequence ≤ last) cs
        → (auth : Auth) (ledger : Ledger) (to : Address) (amount : ℤ) (w3 : World d t)
        → end ≤ ledger.sequence
        → claim d t auth ledger this to (run d t this cs w').1 ≡ ok (amount, w3)
        → (pos_part amount + (run d t this cs w').0 ≡ total)
          × Holds d t this owner token total start cliff end total w3
    constructor-run-claim last cs all auth ledger to amount w3 late paid =
        let r = constructor-run last cs all in
        let c = (run d t this cs w').0 in
        let bound = vested-le total start cliff end last made.3 in
        let full = vested-end total start cliff end ledger.sequence late made.3 made.4 in
        let case =
          subst
            (Claimed d t this owner token total start cliff end auth to c
              (vested total start cliff end ledger.sequence) ledger.sequence (run d t this cs w').1)
            paid
            (claim-Claimed d t this owner token total start cliff end small made.3 range auth ledger
              to c (run d t this cs w').1 r.1 (omega arith)) in
        ground (arith, case, full)

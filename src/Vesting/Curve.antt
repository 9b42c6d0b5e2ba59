-- ===== src/Vesting/Curve.antt =====
-- The curve of `compute_vested` in templates/vesting-schedule/src/lib.rs.
use latch_contracts.Base.{
  ℕ, ◌-◌, ◌*◌, ◌/◌, ◌^◌, ◌≤◌, ◌<◌, ◌≡◌, Option, false, arith, if◌then◌else◌, ltb, leb, ◌||◌,
}
use latch_contracts.Base.Int.{pos}
use latch_contracts.Soroban.{ok}
use latch_contracts.Vesting.{
  compute_vested, vested_within, before_cliff, bad_cliff, as_u128, as_i128,
}
use latch_contracts.Vesting.Arithmetic.{mul_div_u128-exact, le_quotient, line_mono}

-- The schedule that the template promises, over unbounded numbers: nothing before the start or the
-- cliff, everything from the end on, and a straight line, rounded down, between.
unfoldable pub vested : ℕ → ℕ → Option ℕ → ℕ → ℕ → ℕ
vested total start cliff end now =
    if ltb now start || before_cliff cliff now
    then 0
    else if leb end now
    then total
    else total * (now - start) / (end - start)

module _ (total start : ℕ) (cliff : Option ℕ) (end : ℕ) where
  vested_within-exact :
      (now : ℕ)
      → total < 2 ^ 127
      → start ≤ now
      → now < end
      → end < 2 ^ 32
      → vested_within (pos total) start end now ≡ ok (pos (total * (now - start) / (end - start)))
  unfolding vested_within as_u128 as_i128
  vested_within-exact now small from before range = ground (
    arith,
    mul_div_u128-exact total (now - start) (end - start),
    le_quotient total (now - start) (end - start),
  )

  -- For an amount that fits in `i128`, ledgers that fit in `u32` and a start before the end,
  -- `compute_vested` returns the promised amount at every ledger: nothing before the start or the cliff,
  -- everything from the end on, and between them the share of the time that has passed, rounded down.
  -- It neither overflows nor rounds otherwise.
  pub compute_vested-exact :
      (now : ℕ)
      → total < 2 ^ 127
      → start < end
      → end < 2 ^ 32
      → compute_vested (pos total) start cliff end now ≡ ok (pos (vested total start cliff end now))
  unfolding compute_vested vested
  compute_vested-exact now small order range = ground (arith, vested_within-exact now)

  pub vested-le : (now : ℕ) → start < end → vested total start cliff end now ≤ total
  unfolding vested
  vested-le now order = ground (arith, le_quotient total (now - start) (end - start))

  pub vested_mono :
      (u v : ℕ)
      → start < end
      → u ≤ v
      → vested total start cliff end u ≤ vested total start cliff end v
  unfolding vested
  vested_mono u v order h = ground (
    arith,
    le_quotient total (u - start) (end - start),
    le_quotient total (v - start) (end - start),
    line_mono total (end - start) (u - start) (v - start),
  )

  -- Everything is vested from the end on, if the cliff is not later.
  pub vested-end :
      (now : ℕ)
      → end ≤ now
      → start < end
      → bad_cliff cliff start end ≡ false
      → vested total start cliff end now ≡ total
  unfolding vested
  vested-end now late order within = ground arith

-- ===== src/Vesting.antt =====
-- The vesting schedule template, templates/vesting-schedule/src/lib.rs. `u32` and `u128` values are
-- natural numbers, and an operation that overflows traps, as it does in the release profile.
pub mod Arithmetic
pub mod Curve
pub mod Claims
pub mod Lifetime
pub mod Payments
mod Tests
use latch_contracts.Base.{
  ℕ, ◌+◌, ◌-◌, ◌*◌, ◌/◌, ◌%◌, ◌^◌, Bool, false, Option, none, some, List, [], ◌∷◌, ◌++◌, ltb, leb,
  ◌==◌, ◌||◌, if◌then◌else◌, get_or,
}
use latch_contracts.Base.Int.{ℤ, pos, negsuc, ltb_ℤ, leb_ℤ, saturating_sub, checked_add}
use latch_contracts.Soroban.{
  Address, Auth, Ledger, Outcome, ok, trap, ◌>>=◌, ◌>>◌, panic_if, require_auth, unwrap,
  unwrap_or_panic, Storage, has, Tokens,
}

pub data DataKey : Type 0 where
  schedule : DataKey

pub record ScheduleData : Type 0 where
  pub owner : Address
  pub token : Address
  pub total_amount : ℤ
  pub start_ledger : ℕ
  pub cliff_ledger : Option ℕ
  pub end_ledger : ℕ
  pub claimed_amount : ℤ

pub data VestingScheduleError : Type 0 where
  already_initialized invalid_amount invalid_ledger_range : VestingScheduleError
  invalid_cliff_ledger not_initialized : VestingScheduleError

pub data Event : Type 0 where
  schedule_created : Address → Address → ℤ → ℕ → Option ℕ → ℕ → Event
  claimed : Address → Address → ℤ → ℕ → Event

abbrev pub u128_mod : ℕ
u128_mod = 2 ^ 128

-- `as u128` and `as i128`
unfoldable pub as_u128 : ℤ → ℕ
as_u128 (pos n) = n
as_u128 (negsuc n) = u128_mod - (n + 1)

unfoldable pub as_i128 : ℕ → ℤ
as_i128 n = if ltb n (2 ^ 127) then pos n else negsuc (u128_mod - n - 1)

-- `+`, `-`, `*` and `/` of the release profile, which checks for overflow.
abbrev pub in_u128 : ℕ → Outcome VestingScheduleError ℕ
in_u128 n = if ltb n u128_mod then ok n else trap

abbrev pub checked_quotient : ℕ → ℕ → Outcome VestingScheduleError ℕ
checked_quotient a b = if b == 0 then trap else ok (a / b)

abbrev pub checked_remainder : ℕ → ℕ → Outcome VestingScheduleError ℕ
checked_remainder a b = if b == 0 then trap else ok (a % b)

abbrev pub checked_difference : ℕ → ℕ → Outcome VestingScheduleError ℕ
checked_difference a b = if ltb a b then trap else ok (a - b)

-- The branch of `mul_div_u128` for a product that does not fit. A shift drops the high bits.
unfoldable pub mul_div_wide : ℕ → ℕ → ℕ → Outcome VestingScheduleError ℕ
mul_div_wide total elapsed duration = do
  let hi = total / 2 ^ 64
  let lo = total % 2 ^ 64
  hi_prod ← in_u128 (hi * elapsed)
  lo_prod ← in_u128 (lo * elapsed)
  hi_div ← checked_quotient hi_prod duration
  hi_rem ← checked_remainder hi_prod duration
  lo_sum ← in_u128 ((hi_rem * 2 ^ 64) % u128_mod + lo_prod)
  lo_div ← checked_quotient lo_sum duration
  in_u128 ((hi_div * 2 ^ 64) % u128_mod + lo_div)

unfoldable pub mul_div_u128 : ℕ → ℕ → ℕ → Outcome VestingScheduleError ℕ
mul_div_u128 total elapsed duration =
    if ltb (total * elapsed) u128_mod
    then checked_quotient (total * elapsed) duration
    else mul_div_wide total elapsed duration

abbrev pub before_cliff : Option ℕ → ℕ → Bool
before_cliff none current_ledger = false
before_cliff (some cliff) current_ledger = ltb current_ledger cliff

-- The last part of `compute_vested`, between the start and the end.
unfoldable pub vested_within : ℤ → ℕ → ℕ → ℕ → Outcome VestingScheduleError ℤ
vested_within total_amount start_ledger end_ledger current_ledger = do
  elapsed ← checked_difference current_ledger start_ledger
  duration ← checked_difference end_ledger start_ledger
  vested ← mul_div_u128 (as_u128 total_amount) elapsed duration
  ok (as_i128 vested)

unfoldable pub compute_vested : ℤ → ℕ → Option ℕ → ℕ → ℕ → Outcome VestingScheduleError ℤ
compute_vested total_amount start_ledger cliff_ledger end_ledger current_ledger =
    if ltb current_ledger start_ledger
    then ok (pos 0)
    else if before_cliff cliff_ledger current_ledger
    then ok (pos 0)
    else if leb end_ledger current_ledger
    then ok total_amount
    else vested_within total_amount start_ledger end_ledger current_ledger

abbrev pub bad_cliff : Option ℕ → ℕ → ℕ → Bool
bad_cliff none start_ledger end_ledger = false
bad_cliff (some cliff) start_ledger end_ledger = ltb cliff start_ledger || ltb end_ledger cliff

abbrev pub instance_extend_amount : ℕ
instance_extend_amount = 30 * 17280

abbrev pub instance_ttl_threshold : ℕ
instance_ttl_threshold = instance_extend_amount - 17280

abbrev pub new_schedule : Address → Address → ℤ → ℕ → Option ℕ → ℕ → ScheduleData
new_schedule owner token total_amount start_ledger cliff_ledger end_ledger = record {
  owner = owner;
  token = token;
  total_amount = total_amount;
  start_ledger = start_ledger;
  cliff_ledger = cliff_ledger;
  end_ledger = end_ledger;
  claimed_amount = pos 0;
}

module _ (d : Storage DataKey ScheduleData) (t : Tokens) where
  -- The contract's instance storage, the token contracts, and the published events.
  pub record World : Type 0 where
    pub store : d.State
    pub tokens : t.State
    pub events : List Event

  abbrev pub extend_instance_ttl : World → World
  extend_instance_ttl w = record w {
    store = d.extend_ttl schedule instance_ttl_threshold instance_extend_amount w.store;
  }

  abbrev pub publish : Event → World → World
  publish e w = record w { events = w.events ++ e ∷ [] }

  abbrev pub get_schedule_data : World → Outcome VestingScheduleError ScheduleData
  get_schedule_data w = unwrap_or_panic (d.get schedule w.store) not_initialized

  pub constructor :
      Address → Address → ℤ → ℕ → Option ℕ → ℕ → World → Outcome VestingScheduleError World
  constructor owner token total_amount start_ledger cliff_ledger end_ledger w = do
    panic_if (has d schedule w.store) already_initialized
    panic_if (leb_ℤ total_amount (pos 0)) invalid_amount
    panic_if (leb end_ledger start_ledger) invalid_ledger_range
    panic_if (bad_cliff cliff_ledger start_ledger end_ledger) invalid_cliff_ledger
    let s = new_schedule owner token total_amount start_ledger cliff_ledger end_ledger
    let w' = extend_instance_ttl (record w { store = d.set schedule s w.store })
    ok (publish (schedule_created owner token total_amount start_ledger cliff_ledger end_ledger) w')

  -- The write, the transfer and the event of a claim that releases something.
  pub release :
      ScheduleData → Address → Address → ℤ → ℕ → World → Outcome VestingScheduleError (ℤ × World)
  release s this to claimable current_ledger w = do
    let claimed' = get_or (checked_add s.claimed_amount claimable) s.total_amount
    let store' = d.set schedule (record s { claimed_amount = claimed' }) w.store
    tokens' ← unwrap (t.transfer s.token this to claimable w.tokens)
    let w' = record w { store = store'; tokens = tokens' }
    ok (claimable, publish (claimed s.owner to claimable current_ledger) w')

  -- The part of `claim` behind `compute_vested`; `this` is `e.current_contract_address()`.
  pub settle :
      ScheduleData → Address → Address → ℤ → ℕ → World → Outcome VestingScheduleError (ℤ × World)
  settle s this to vested current_ledger w =
      let claimable = saturating_sub vested s.claimed_amount in
      if ltb_ℤ (pos 0) claimable
      then release s this to claimable current_ledger w
      else ok (claimable, w)

  pub claim : Auth → Ledger → Address → Address → World → Outcome VestingScheduleError (ℤ × World)
  claim auth ledger this to w = do
    let w0 = extend_instance_ttl w
    s ← get_schedule_data w0
    require_auth (auth s.owner)
    vested ←
        compute_vested s.total_amount s.start_ledger s.cliff_ledger s.end_ledger ledger.sequence
    settle s this to vested ledger.sequence w0

  -- The views return a value and the world with the lifetime extended.
  pub get_schedule : World → Outcome VestingScheduleError (ScheduleData × World)
  get_schedule w = do let w0 = extend_instance_ttl w; s ← get_schedule_data w0; ok (s, w0)

  pub vested_amount : Ledger → World → Outcome VestingScheduleError (ℤ × World)
  vested_amount ledger w = do
    let w0 = extend_instance_ttl w
    s ← get_schedule_data w0
    vested ←
        compute_vested s.total_amount s.start_ledger s.cliff_ledger s.end_ledger ledger.sequence
    ok (vested, w0)

  pub claimable_amount : Ledger → World → Outcome VestingScheduleError (ℤ × World)
  claimable_amount ledger w = do
    let w0 = extend_instance_ttl w
    s ← get_schedule_data w0
    vested ←
        compute_vested s.total_amount s.start_ledger s.cliff_ledger s.end_ledger ledger.sequence
    ok (saturating_sub vested s.claimed_amount, w0)

  pub claimed_amount : World → Outcome VestingScheduleError (ℤ × World)
  claimed_amount w = do
    let w0 = extend_instance_ttl w
    s ← get_schedule_data w0
    ok (s.claimed_amount, w0)

  pub owner : World → Outcome VestingScheduleError (Address × World)
  owner w = do let w0 = extend_instance_ttl w; s ← get_schedule_data w0; ok (s.owner, w0)

  pub token : World → Outcome VestingScheduleError (Address × World)
  token w = do let w0 = extend_instance_ttl w; s ← get_schedule_data w0; ok (s.token, w0)

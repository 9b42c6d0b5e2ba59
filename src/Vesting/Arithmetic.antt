-- ===== src/Vesting/Arithmetic.antt =====
-- `mul_div_u128` and `compute_vested` of templates/vesting-schedule/src/lib.rs are exact and do not
-- overflow.
use native.Mathlib.Nat.{
  mul-add-div_right, div-le_of_le-mul, mod-lt, div-add-mod, mul-le-mul_left, le-div_iff_mul-le,
  div-mul-le_self,
}
use latch_contracts.Base.{ℕ, ◌+◌, ◌-◌, ◌*◌, ◌/◌, ◌%◌, ◌^◌, ◌≤◌, ◌<◌, ◌≡◌, arith, ap}
use latch_contracts.Soroban.{ok}
use latch_contracts.Vesting.{u128_mod, mul_div_wide, mul_div_u128}

-- The quotient of a number given by two 64-bit words, the high one divided first.
div_words :
    (hi lo e d : ℕ)
    → 0 < d
    → (hi * 2 ^ 64 + lo) * e / d ≡ hi * e / d * 2 ^ 64 + (hi * e % d * 2 ^ 64 + lo * e) / d
div_words hi lo e d h =
    let split : (hi * 2 ^ 64 + lo) * e ≡ hi * e / d * 2 ^ 64 * d + (hi * e % d * 2 ^ 64 + lo * e) =
      omega (arith, ap (λ (t : ℕ). t * 2 ^ 64) (div-add-mod (hi * e) d)) in
    rw split (mul-add-div_right h (hi * e / d * 2 ^ 64) (hi * e % d * 2 ^ 64 + lo * e))

pub le_quotient : (total e d : ℕ) → e ≤ d → total * e / d ≤ total
le_quotient total e d h = div-le_of_le-mul d (grind arith)

quotient_mono : (m n d : ℕ) → 0 < d → m ≤ n → m / d ≤ n / d
quotient_mono m n d p h = (le-div_iff_mul-le p).1 (omega (arith, div-mul-le_self m d))

pub line_mono : (total d x y : ℕ) → 0 < d → x ≤ y → total * x / d ≤ total * y / d
line_mono total d x y p h = quotient_mono (total * x) (total * y) d p (mul-le-mul_left total h)

word_product : (x e : ℕ) → x < 2 ^ 64 → e < 2 ^ 63 → x * e < 2 ^ 127
word_product x e h k =
    let small : e ≤ 2 ^ 63 - 1 = omega arith in
    let step : x * e ≤ x * (2 ^ 63 - 1) = mul-le-mul_left x small in omega arith

-- The wide branch, once its two words are named: every intermediate value fits in 128 bits.
wide_words :
    (hi lo e d : ℕ)
    → 0 < d
    → e ≤ d
    → d < 2 ^ 63
    → lo < 2 ^ 64
    → hi < 2 ^ 64
    → (hi * e < u128_mod) × (lo * e < 2 ^ 127) × (hi * e % d * 2 ^ 64 < 2 ^ 127)
wide_words hi lo e d p le small l h = (
  omega (arith, word_product hi e h (omega arith)),
  word_product lo e l (omega arith),
  omega (arith, mod-lt (hi * e) p),
)

module _ (total e d : ℕ) (pos : 0 < d) (le : e ≤ d) (small : d < 2 ^ 63)
    (fits : total < u128_mod) where
  pub mul_div_wide-exact : mul_div_wide total e d ≡ ok (total * e / d)
  unfolding mul_div_wide
  mul_div_wide-exact = ground (
    arith,
    div_words (total / 2 ^ 64) (total % 2 ^ 64) e d,
    wide_words (total / 2 ^ 64) (total % 2 ^ 64) e d,
    le_quotient total e d le,
  )

  -- For a total that fits `u128`, a positive divisor below 2 ^ 63 and a factor up to the divisor, the
  -- split multiplication and division is exact: it neither overflows nor loses a carry.
  pub mul_div_u128-exact : mul_div_u128 total e d ≡ ok (total * e / d)
  unfolding mul_div_u128
  mul_div_u128-exact = ground (arith, mul_div_wide-exact)

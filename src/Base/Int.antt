-- ===== src/Base/Int.antt =====
-- Signed machine integers: ℤ over the native numbers, and Rust's checked and saturating `i128`.
use Prim.Native.Nat.{ℕ, suc, ◌+◌, ◌-◌, ◌*◌, ◌/◌, ◌≤◌, ◌<◌}
use mathlib.Core.Path.{◌≡◌}
use mathlib.Core.Bool.{Bool, false, ◌&&◌}
use mathlib.Core.Option.{Option, none, some}
use native.Mathlib.Omega.{arith}
use latch_contracts.Base.Tests.{ltb, leb, ◌==◌, if◌then◌else◌}

-- `negsuc n` is -(n + 1).
pub data ℤ : Type 0 where
  pos : ℕ → ℤ
  negsuc : ℕ → ℤ

abbrev pub pos_part : ℤ → ℕ
pos_part (pos n) = n
pos_part (negsuc n) = 0

abbrev pub neg_part : ℤ → ℕ
neg_part (pos n) = 0
neg_part (negsuc n) = suc n

-- a - b, as an integer.
abbrev pub sub_ℕ : ℕ → ℕ → ℤ
sub_ℕ a b = if leb b a then pos (a - b) else negsuc (b - a - 1)

infixl 65 ◌+ℤ◌ ◌-ℤ◌
infixl 70 ◌*ℤ◌
infix 50 ◌≤ℤ◌ ◌<ℤ◌
unfoldable pub ◌+ℤ◌ : ℤ → ℤ → ℤ
a +ℤ b = sub_ℕ (pos_part a + pos_part b) (neg_part a + neg_part b)

unfoldable pub ◌-ℤ◌ : ℤ → ℤ → ℤ
a -ℤ b = sub_ℕ (pos_part a + neg_part b) (neg_part a + pos_part b)

unfoldable pub ◌*ℤ◌ : ℤ → ℤ → ℤ
a *ℤ b =
    sub_ℕ (pos_part a * pos_part b + neg_part a * neg_part b)
      (pos_part a * neg_part b + neg_part a * pos_part b)

-- Division rounds toward zero, as Rust's does; the divisor is not zero where this is called.
unfoldable pub div_toward_zero : ℤ → ℤ → ℤ
div_toward_zero a b =
    sub_ℕ (pos_part a / pos_part b + neg_part a / neg_part b)
      (pos_part a / neg_part b + neg_part a / pos_part b)

abbrev pub ◌≤ℤ◌ : ℤ → ℤ → Type 0
a ≤ℤ b = pos_part a + neg_part b ≤ pos_part b + neg_part a

abbrev pub ◌<ℤ◌ : ℤ → ℤ → Type 0
a <ℤ b = pos_part a + neg_part b < pos_part b + neg_part a

abbrev pub ltb_ℤ : ℤ → ℤ → Bool
ltb_ℤ a b = ltb (pos_part a + neg_part b) (pos_part b + neg_part a)

abbrev pub leb_ℤ : ℤ → ℤ → Bool
leb_ℤ a b = leb (pos_part a + neg_part b) (pos_part b + neg_part a)

abbrev pub eqb_ℤ : ℤ → ℤ → Bool
eqb_ℤ a b = (pos_part a + neg_part b) == (pos_part b + neg_part a)

-- 2^127 - 1, and -2^127.
abbrev pub max_i128 : ℕ
max_i128 = 170141183460469231731687303715884105727

abbrev pub i128_max : ℤ
i128_max = pos max_i128

abbrev pub i128_min : ℤ
i128_min = negsuc max_i128

abbrev pub in_i128 : ℤ → Bool
in_i128 a = leb_ℤ i128_min a && leb_ℤ a i128_max

unfoldable pub checked : ℤ → Option ℤ
checked a = if in_i128 a then some a else none

unfoldable pub saturate : ℤ → ℤ
saturate a = if ltb_ℤ a i128_min then i128_min else if ltb_ℤ i128_max a then i128_max else a

-- `i128::checked_mul`, `checked_div`, `checked_add`, `saturating_add`, `saturating_sub`.
unfoldable pub checked_mul : ℤ → ℤ → Option ℤ
unfolding checked ◌*ℤ◌
checked_mul a b = checked (a *ℤ b)

unfoldable pub checked_div : ℤ → ℤ → Option ℤ
unfolding checked div_toward_zero
checked_div a b = if eqb_ℤ b (pos 0) then none else checked (div_toward_zero a b)

unfoldable pub checked_add : ℤ → ℤ → Option ℤ
unfolding checked ◌+ℤ◌
checked_add a b = checked (a +ℤ b)

unfoldable pub saturating_add : ℤ → ℤ → ℤ
unfolding saturate ◌+ℤ◌
saturating_add a b = saturate (a +ℤ b)

unfoldable pub saturating_sub : ℤ → ℤ → ℤ
unfolding saturate ◌-ℤ◌
saturating_sub a b = saturate (a -ℤ b)

pub saturating_add-pos : (a b : ℕ) → a + b ≤ max_i128 → saturating_add (pos a) (pos b) ≡ pos (a + b)
unfolding saturating_add
saturating_add-pos a b h = ground arith

pub saturating_sub-pos :
    (a b : ℕ) → b ≤ a → a ≤ max_i128 → saturating_sub (pos a) (pos b) ≡ pos (a - b)
unfolding saturating_sub
saturating_sub-pos a b h k = ground arith

pub saturating_sub-le_zero :
    (a b : ℕ)
    → a ≤ b
    → b ≤ max_i128
    → (ltb_ℤ (pos 0) (saturating_sub (pos a) (pos b)) ≡ false)
      × (pos_part (saturating_sub (pos a) (pos b)) ≡ 0)
unfolding saturating_sub
saturating_sub-le_zero a b h k = ground arith

pub checked_mul-pos :
    (a b : ℕ)
    → checked_mul (pos a) (pos b) ≡ (if leb (a * b) max_i128 then some (pos (a * b)) else none)
unfolding checked_mul
checked_mul-pos a b = ground arith

pub checked_div-pos :
    (a b : ℕ)
    → checked_div (pos a) (pos b)
      ≡ (if b == 0 then none else if leb (a / b) max_i128 then some (pos (a / b)) else none)
unfolding checked_div
checked_div-pos a b = ground arith

-- ===== src/MultiToken/Rounding.antt =====
-- The rounding of a transfer's value in policies/multi-token-spending-limit-policy/src/lib.rs.
use native.Mathlib.Nat.{
  mul-pos, div-div-eq-div-mul, le-div_iff_mul-le, div-lt_iff_lt-mul, div-mul-le_self,
}
use latch_contracts.Base.{ℕ, ◌+◌, ◌*◌, ◌/◌, ◌≤◌, ◌<◌, ◌≡◌, ◌↔◌, ap, subst, sym, arith, dec_le}
use latch_contracts.Base.Int.{ℤ, pos, max_i128}
use latch_contracts.Soroban.{Outcome, ok}
use latch_contracts.MultiToken.{Error, usd_value}
use latch_contracts.MultiToken.Prices.{usd_value-pos, usd_value-overflow}

-- The quotient of a division is the only number that its multiples bracket.
module _ (n d : ℕ) (pd : 0 < d) where
  quotient_brackets : (n / d * d ≤ n) × (n < (n / d + 1) * d)
  quotient_brackets = (div-mul-le_self n d, (div-lt_iff_lt-mul pd).0 (omega arith))

  bracketed : (v : ℕ) → v * d ≤ n → n < (v + 1) * d → v ≡ n / d
  bracketed v low high =
      let least = (le-div_iff_mul-le pd).1 low in
      let most = (div-lt_iff_lt-mul pd).1 high in omega arith

-- The whole multiples of one US dollar's worth that an amount covers.
abbrev pub IsRounded : ℕ → ℕ → ℕ → ℕ → ℕ → Type 0
IsRounded amount price usd token v =
    (v * (usd * token) ≤ amount * price) × (amount * price < (v + 1) * (usd * token))

module _ (amount price usd token : ℕ) (pu : 0 < usd) (pt : 0 < token) where
  abbrev value : Outcome Error ℤ
  value = usd_value (pos amount) (pos price) (pos usd) (pos token)

  rounded : amount * price / usd / token ≡ amount * price / (usd * token)
  rounded = div-div-eq-div-mul (amount * price) usd token

  -- The two divisions of the conversion lose nothing more than one division would: for an amount and
  -- a price that are not negative and positive divisors, it gives `v` exactly when the product of
  -- amount and price fits an `i128` and lies between `v` times the product of the divisors and the
  -- next multiple of it.
  pub usd_value_iff :
      (v : ℕ)
      → (value ≡ ok (pos v)) ↔ ((amount * price ≤ max_i128) × IsRounded amount price usd token v)
  usd_value_iff v = elim (dec_le (amount * price) max_i128) [
    | yes fits ↦
        rw (usd_value-pos amount price usd token fits pu pt, rounded)
          (
            λ e. (fits, subst (IsRounded amount price usd token) (cc) brackets),
            λ h.
                ap (λ n. ok (pos n))
                  (sym (bracketed (amount * price) (usd * token) divisor v h.1.0 h.1.1)),
          )
    | no over ↦
        rw (usd_value-overflow amount price (pos usd) (pos token) (omega arith))
          (λ e. absurd (cc), λ h. absurd (omega arith))
  ]
    where
      divisor : 0 < usd * token
      divisor = mul-pos pu pt

      brackets : IsRounded amount price usd token (amount * price / (usd * token))
      brackets = quotient_brackets (amount * price) (usd * token) divisor

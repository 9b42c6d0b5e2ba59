-- ===== src/MultiToken/Prices.antt =====
-- The pricing of a transfer in policies/multi-token-spending-limit-policy/src/lib.rs and oracle.rs.
use native.Mathlib.Nat.{div-le_self}
use latch_contracts.Base.{
  ℕ, ◌+◌, ◌*◌, ◌/◌, ◌≤◌, ◌<◌, ◌≡◌, refl, Option, none, some, false, arith, get_elem?, Option-cases,
  inl, inr,
}
use latch_contracts.Base.Int.{ℤ, pos, negsuc, max_i128, checked_mul-pos, checked_div-pos, leb_ℤ}
use latch_contracts.Soroban.{Address, Context, contract, other, Ledger, Outcome, ok, panic, trap}
use latch_contracts.MultiToken.{
  Error, amount_conversion_overflow, PolicyData, PriceData, Answers, first_index_of, usd_value,
  transfer_call, transfer_usd, fetch_price, max_staleness_secs,
}
use latch_contracts.MultiToken.Window.{IsPos}

-- With positive factors the conversion is the rounded-down quotient.
pub usd_value-pos :
    (amount price usd token : ℕ)
    → amount * price ≤ max_i128
    → 0 < usd
    → 0 < token
    → usd_value (pos amount) (pos price) (pos usd) (pos token)
      ≡ ok (pos (amount * price / usd / token))
unfolding usd_value
usd_value-pos amount price usd token h pu pt = ground (
  arith,
  checked_mul-pos amount price,
  checked_div-pos (amount * price) usd,
  checked_div-pos (amount * price / usd) token,
  div-le_self (amount * price) usd,
  div-le_self (amount * price / usd) token,
)

-- A product that does not fit fails closed.
pub usd_value-overflow :
    (amount price : ℕ) (usd token : ℤ)
    → max_i128 < amount * price
    → usd_value (pos amount) (pos price) usd token ≡ panic amount_conversion_overflow
unfolding usd_value
usd_value-overflow amount price usd token h = ground (arith, checked_mul-pos amount price)

pub usd_value-IsPos :
    (amount price usd token v : ℤ)
    → IsPos amount
    → IsPos price
    → IsPos usd
    → IsPos token
    → usd_value amount price usd token ≡ ok v
    → IsPos v
unfolding usd_value
usd_value-IsPos (pos amount) (pos price) (pos usd) (pos token) v _ _ _ _ e = ground (
  arith,
  checked_mul-pos amount price,
  checked_div-pos (amount * price) usd,
  checked_div-pos (amount * price / usd) token,
)
usd_value-IsPos (negsuc _) _ _ _ _ h _ _ _ _ = absurd h
usd_value-IsPos (pos _) (negsuc _) _ _ _ _ h _ _ _ = absurd h
usd_value-IsPos (pos _) (pos _) (negsuc _) _ _ _ _ h _ _ = absurd h
usd_value-IsPos (pos _) (pos _) (pos _) (negsuc _) _ _ _ _ h _ = absurd h

-- The amount that a call names is not negative.
pub transfer_call-IsPos :
    {Val : Type 0} (to_i128 : Val → Option ℤ) (context : Context Val) (target : Address)
    (amount : ℤ)
    → transfer_call to_i128 context ≡ ok (target, amount)
    → IsPos amount
unfolding transfer_call
transfer_call-IsPos to_i128 other target amount e = absurd (cc)
transfer_call-IsPos to_i128 (contract c) target amount e = ground arith

pub positive-IsPos : (x : ℤ) → leb_ℤ x (pos 0) ≡ false → IsPos x
positive-IsPos (pos n) h = tt
positive-IsPos (negsuc n) h = ground arith

-- An oracle's answer that the policy trusts at this ledger.
pub record IsTrusted (ledger : Ledger) (q : PriceData) : Type 0 where
  pub positive : leb_ℤ q.price (pos 0) ≡ false
  pub not_future : q.timestamp ≤ ledger.timestamp
  pub fresh : ledger.timestamp ≤ q.timestamp + max_staleness_secs

module _ (a : Answers) (ledger : Ledger) (p : PolicyData) (target : Address) where
  fetch_price-ok :
      (q : PriceData)
      → fetch_price a ledger p.oracle_address target ≡ ok q
      → (a.lastprice p.oracle_address target ≡ some (some q))
        × (leb_ℤ q.price (pos 0) ≡ false)
        × (q.timestamp ≤ ledger.timestamp)
  unfolding fetch_price
  fetch_price-ok q e = ground arith

  -- A trusted price for an allowed token, and the value `v` that it gives the amount.
  pub record IsPriced (amount v : ℤ) : Type 0 where
    pub index : ℕ
    pub divisor : ℤ
    pub quote : PriceData
    pub allowed : first_index_of target p.allowed_tokens ≡ some index
    pub cached : get_elem? p.token_divisors index ≡ some divisor
    pub answered : a.lastprice p.oracle_address target ≡ some (some quote)
    pub trusted : IsTrusted ledger quote
    pub value : usd_value amount quote.price p.usd_divisor divisor ≡ ok v

  IsPriced-by :
      (amount v : ℤ) (i : ℕ) (t : ℤ)
      → first_index_of target p.allowed_tokens ≡ some i
      → get_elem? p.token_divisors i ≡ some t
      → (o : Outcome Error PriceData) → fetch_price a ledger p.oracle_address target ≡ o
      → transfer_usd a ledger p target amount ≡ ok v
      → IsPriced amount v
  unfolding transfer_usd
  IsPriced-by amount v i t found divisor (ok q) eq e =
      let known = fetch_price-ok q eq in
      record {
        index = i;
        divisor = t;
        quote = q;
        allowed = found;
        cached = divisor;
        answered = known.0;
        trusted = record { positive = known.1; not_future = known.2; fresh = ground arith };
        value = ground arith;
      }
  IsPriced-by amount v i t found divisor (panic x) eq e = absurd (ground arith)
  IsPriced-by amount v i t found divisor trap eq e = absurd (ground arith)

  -- The pricing of a call fails closed: it gives a value only if the target is an allowed token with
  -- a divisor at its position, and the oracle has answered with a price that is positive, not from
  -- the future and at most 500 seconds old; the value is then that of the checked conversion.
  pub transfer_usd-IsPriced :
      (amount v : ℤ) → transfer_usd a ledger p target amount ≡ ok v → IsPriced amount v
  unfolding transfer_usd
  transfer_usd-IsPriced amount v e = elim (Option-cases (first_index_of target p.allowed_tokens)) [
    | inl absent ↦ absurd (not_priced absent)
    | inr (i, found) ↦ elim (Option-cases (get_elem? p.token_divisors i)) [
      | inl absent ↦ absurd (no_divisor i found absent)
      | inr (t, divisor) ↦ IsPriced-by amount v i t found divisor _ refl e
    ]
  ]
    where
      not_priced : first_index_of target p.allowed_tokens ≡ none → ⊥
      not_priced absent = ground arith

      no_divisor :
          (i : ℕ)
          → first_index_of target p.allowed_tokens ≡ some i
          → get_elem? p.token_divisors i ≡ none
          → ⊥
      no_divisor i found absent = ground arith

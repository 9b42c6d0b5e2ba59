-- ===== src/MultiToken.antt =====
-- The multi-token spending limit policy, policies/multi-token-spending-limit-policy/src/lib.rs and
-- oracle.rs. The oracle's and the tokens' answers are arguments, with `none` for a call that reverts.
pub mod Contract
pub mod Loop
pub mod Window
pub mod Spend
pub mod Prices
pub mod Rounding
pub mod Life
pub mod History
pub mod Stored
pub mod Acceptance
pub mod Calls
pub mod Deployment
pub mod Deployed
pub mod Scales
pub mod Quotes
mod Samples
mod Tests
mod SharedTests
use latch_contracts.Base.{
  ℕ, zero, suc, ◌+◌, ◌-◌, ◌*◌, ◌^◌, Bool, Option, none, some, List, [], ◌∷◌, ◌++◌, ltb, leb, ◌==◌,
  ◌||◌, not, str_eq, length, get_elem?, if◌then◌else◌,
}
use latch_contracts.Base.Int.{
  ℤ, pos, ltb_ℤ, leb_ℤ, max_i128, checked_mul, checked_div, saturating_add, saturating_sub,
}
use latch_contracts.Soroban.{
  Address, Auth, Ledger, Context, contract, other, ContextRule, is_call_contract, Outcome, ok,
  panic, trap, ◌>>=◌, ◌>>◌, panic_if, require_auth, unwrap, unwrap_or_panic, Storage, has,
}

pub data Error : Type 0 where
  invalid_context_rule invalid_install_params already_installed not_installed : Error
  token_not_allowed invalid_transfer_args stale_oracle_price spending_limit_exceeded : Error
  history_capacity_exceeded invalid_oracle_response invalid_token_response : Error
  amount_conversion_overflow : Error

pub record AccountParams : Type 0 where
  pub spending_limit_usd : ℤ
  pub period_ledgers : ℕ
  pub oracle_address : Address
  pub allowed_tokens : List Address

pub record SpendingEntry : Type 0 where
  pub amount_usd : ℤ
  pub ledger : ℕ

pub record PolicyData : Type 0 where
  pub spending_limit_usd : ℤ
  pub period_ledgers : ℕ
  pub oracle_address : Address
  pub usd_divisor : ℤ
  pub allowed_tokens : List Address
  pub token_divisors : List ℤ
  pub spending_history : List SpendingEntry
  pub cached_total_spent_usd : ℤ

pub data DataKey : Type 0 where
  account_context : Address → ℕ → DataKey

pub record PriceData : Type 0 where
  pub price : ℤ
  pub timestamp : ℕ

abbrev pub policy_extend_amount : ℕ
policy_extend_amount = 30 * 17280

abbrev pub policy_ttl_threshold : ℕ
policy_ttl_threshold = policy_extend_amount - 17280

abbrev pub max_history_entries : ℕ
max_history_entries = 1000

-- `MAX_STALENESS_LEDGERS as u64 * LEDGER_CLOSE_TIME_SECS`
abbrev pub max_staleness_secs : ℕ
max_staleness_secs = 100 * 5

abbrev pub max_token_decimals : ℕ
max_token_decimals = 20

abbrev pub max_oracle_decimals : ℕ
max_oracle_decimals = 30

-- `10i128.checked_pow(n)`
unfoldable pub checked_pow10 : ℕ → Option ℤ
checked_pow10 n = if leb (10 ^ n) max_i128 then some (pos (10 ^ n)) else none

-- `Vec::first_index_of`
pub first_index_of : Address → List Address → Option ℕ
first_index_of a [] = none
first_index_of a (b ∷ bs) =
    if a == b then some 0 else elim (first_index_of a bs) [ none ↦ none | some i ↦ some (suc i) ]

-- The loop of `cleanup_old_entries`: what is left, behind the total removed.
pub evict : ℕ → ℤ → List SpendingEntry → ℤ × List SpendingEntry
evict cutoff_ledger removed_total [] = (removed_total, [])
evict cutoff_ledger removed_total (entry ∷ rest) =
    if leb entry.ledger cutoff_ledger
    then evict cutoff_ledger (saturating_add removed_total entry.amount_usd) rest
    else (removed_total, entry ∷ rest)

-- `current_ledger.saturating_sub(period_ledgers)` is the truncated difference.
pub cleanup_old_entries : List SpendingEntry → ℕ → ℕ → ℤ × List SpendingEntry
unfolding evict
cleanup_old_entries spending_history current_ledger period_ledgers =
    evict (current_ledger - period_ledgers) (pos 0) spending_history

-- The last part of `enforce`: the limit, the capacity, and the new entry.
pub spend : PolicyData → ℤ → ℕ → Outcome Error PolicyData
unfolding cleanup_old_entries
spend p amount_usd current_ledger = do
  let (removed_amount, history) =
      cleanup_old_entries p.spending_history current_ledger p.period_ledgers
  let total = saturating_sub p.cached_total_spent_usd removed_amount
  panic_if (ltb_ℤ p.spending_limit_usd (saturating_add total amount_usd)) spending_limit_exceeded
  panic_if (leb max_history_entries (length history)) history_capacity_exceeded
  ok (record p {
    spending_history = history ++ record { amount_usd = amount_usd; ledger = current_ledger } ∷ [];
    cached_total_spent_usd = saturating_add total amount_usd;
  })

-- `amount * price / usd_divisor / token_divisor`, each step checked.
unfoldable pub usd_value : ℤ → ℤ → ℤ → ℤ → Outcome Error ℤ
usd_value amount price usd_divisor token_divisor = do
  v ← unwrap_or_panic (checked_mul amount price) amount_conversion_overflow
  v' ← unwrap_or_panic (checked_div v usd_divisor) amount_conversion_overflow
  unwrap_or_panic (checked_div v' token_divisor) amount_conversion_overflow

-- The answers of `decimals()` and of an oracle's `lastprice(asset)` in one transaction.
pub record Answers : Type 0 where
  pub decimals : Address → Option ℕ
  pub lastprice : Address → Address → Option (Option PriceData)

pub fetch_usd_divisor : Answers → Address → Outcome Error ℤ
fetch_usd_divisor a oracle_address = do
  n ← unwrap (a.decimals oracle_address)
  panic_if (ltb max_oracle_decimals n) invalid_oracle_response
  unwrap_or_panic (checked_pow10 n) invalid_oracle_response

pub fetch_token_divisor : Answers → Address → Outcome Error ℤ
fetch_token_divisor a token = do
  n ← unwrap (a.decimals token)
  panic_if (ltb max_token_decimals n) invalid_token_response
  unwrap_or_panic (checked_pow10 n) invalid_token_response

-- The loop of `install` over the allowed tokens.
pub fetch_token_divisors : Answers → List Address → Outcome Error (List ℤ)
unfolding fetch_token_divisor
fetch_token_divisors a [] = ok []
fetch_token_divisors a (token ∷ tokens) = do
  divisor ← fetch_token_divisor a token
  divisors ← fetch_token_divisors a tokens
  ok (divisor ∷ divisors)

pub fetch_price : Answers → Ledger → Address → Address → Outcome Error PriceData
fetch_price a ledger oracle_address token = do
  answer ← unwrap (a.lastprice oracle_address token)
  price_data ← unwrap_or_panic answer invalid_oracle_response
  panic_if (leb_ℤ price_data.price (pos 0) || ltb ledger.timestamp price_data.timestamp)
      invalid_oracle_response
  ok price_data

-- The part of `enforce` that finds the token's divisor, asks the oracle and converts.
pub transfer_usd : Answers → Ledger → PolicyData → Address → ℤ → Outcome Error ℤ
unfolding first_index_of fetch_price
transfer_usd a ledger p target amount = do
  token_idx ← unwrap_or_panic (first_index_of target p.allowed_tokens) token_not_allowed
  token_divisor ← unwrap_or_panic (get_elem? p.token_divisors token_idx) token_not_allowed
  price_data ← fetch_price a ledger p.oracle_address target
  panic_if (ltb max_staleness_secs (ledger.timestamp - price_data.timestamp)) stale_oracle_price
  usd_value amount price_data.price p.usd_divisor token_divisor

-- The part of `enforce` that reads the call: the target contract and the amount. `to_i128` is the
-- host's conversion of an argument, `none` for one of another type.
pub transfer_call : {Val : Type 0} → (Val → Option ℤ) → Context Val → Outcome Error (Address × ℤ)
transfer_call to_i128 other = panic invalid_transfer_args
transfer_call to_i128 (contract c) = do
  panic_if (not (str_eq c.fn_name "transfer")) invalid_transfer_args
  amount_val ← unwrap_or_panic (get_elem? c.args 2) invalid_transfer_args
  amount ← unwrap_or_panic (to_i128 amount_val) invalid_transfer_args
  panic_if (ltb_ℤ amount (pos 0)) invalid_transfer_args
  ok (c.contract, amount)

module _ (d : Storage DataKey PolicyData) where
  -- The checks at the head of `install`.
  pub check_install :
      Auth → AccountParams → ContextRule → Address → d.State → Outcome Error (Unit {0})
  check_install auth params context_rule smart_account s = do
    require_auth (auth smart_account)
    panic_if (not (is_call_contract context_rule.context_type)) invalid_context_rule
    panic_if
        (leb_ℤ params.spending_limit_usd (pos 0)
          || params.period_ledgers == 0
          || length params.allowed_tokens == 0)
        invalid_install_params
    panic_if (has d (account_context smart_account context_rule.id) s) already_installed

  pub install :
      Auth → Answers → AccountParams → ContextRule → Address → d.State → Outcome Error d.State
  unfolding check_install fetch_usd_divisor fetch_token_divisors
  install auth a params context_rule smart_account s = do
    check_install auth params context_rule smart_account s
    usd_divisor ← fetch_usd_divisor a params.oracle_address
    token_divisors ← fetch_token_divisors a params.allowed_tokens
    ok (
        d.set (account_context smart_account context_rule.id)
          (record {
            spending_limit_usd = params.spending_limit_usd;
            period_ledgers = params.period_ledgers;
            oracle_address = params.oracle_address;
            usd_divisor = usd_divisor;
            allowed_tokens = params.allowed_tokens;
            token_divisors = token_divisors;
            spending_history = [];
            cached_total_spent_usd = pos 0;
          })
          s)

  pub uninstall : Auth → ContextRule → Address → d.State → Outcome Error d.State
  uninstall auth context_rule smart_account s = do
    require_auth (auth smart_account)
    let key = account_context smart_account context_rule.id
    panic_if (not (has d key s)) not_installed
    ok (d.remove key s)

  -- The stored data, and the state with its lifetime extended.
  pub get_policy_data : ℕ → Address → d.State → Outcome Error (PolicyData × d.State)
  get_policy_data context_rule_id smart_account s = do
    let key = account_context smart_account context_rule_id
    p ← unwrap_or_panic (d.get key s) not_installed
    ok (p, d.extend_ttl key policy_ttl_threshold policy_extend_amount s)

  module _ {Val : Type 0} (to_i128 : Val → Option ℤ) (auth : Auth) (a : Answers) (ledger : Ledger)
      (context : Context Val) (context_rule : ContextRule) (smart_account : Address) where
    -- `enforce` up to the conversion: the stored data, the state, and the transfer's value in USD.
    pub priced : d.State → Outcome Error (PolicyData × d.State × ℤ)
    unfolding transfer_call get_policy_data transfer_usd
    priced s = do
      require_auth (auth smart_account)
      (target, amount) ← transfer_call to_i128 context
      (p, s') ← get_policy_data context_rule.id smart_account s
      amount_usd ← transfer_usd a ledger p target amount
      ok (p, s', amount_usd)

    pub enforce : d.State → Outcome Error d.State
    unfolding priced spend
    enforce s = do
      (p, s', amount_usd) ← priced s
      p' ← spend p amount_usd ledger.sequence
      ok (d.set (account_context smart_account context_rule.id) p' s')

-- ===== src/MultiToken/Samples.antt =====
-- An installation of the spending limit to try: 1000 per 10 ledgers, for one token.
use latch_contracts.Base.{◌≡◌, refl, Option, none, some, List, [], ◌∷◌, arith, ◌==◌, ℕ_discrete}
use latch_contracts.Base.Int.{
  ℤ, pos, checked_mul, checked_div, ◌*ℤ◌, ◌+ℤ◌, ◌-ℤ◌, div_toward_zero, saturating_add,
  saturating_sub,
}
use latch_contracts.Soroban.{
  Auth, Ledger, Context, contract, ContextRule, call_contract, ok, map_storage, Storage,
}
use latch_contracts.MultiToken.{
  AccountParams, SpendingEntry, PolicyData, DataKey, account_context, Answers, install, enforce,
  cleanup_old_entries, priced, transfer_usd, spend, check_install, fetch_usd_divisor,
  fetch_token_divisors, fetch_token_divisor, checked_pow10, transfer_call, get_policy_data,
  first_index_of, fetch_price, usd_value,
}
use latch_contracts.MultiToken.Life.{Life, installed, enforced}

instance unfoldable pub key_discrete : Discrete DataKey
key_discrete = hlevel (ℕ_discrete)

abbrev pub store : Storage DataKey PolicyData
store = map_storage key_discrete

abbrev pub by_account : Auth
by_account a = a == 7

abbrev pub rule : ContextRule
rule = record { id = 1; context_type = call_contract 50; signers = [] }

abbrev pub params : AccountParams
params = record {
  spending_limit_usd = pos 1000;
  period_ledgers = 10;
  oracle_address = 60;
  allowed_tokens = 50 ∷ [];
}

-- One unit of the token is worth three; no decimals.
abbrev pub answers : Answers
answers = record {
  decimals = λ _. some 0;
  lastprice = λ _ _. some (some (record { price = pos 3; timestamp = 990 }));
}

abbrev pub ledger : Ledger
ledger = record { sequence = 20; timestamp = 1000 }

abbrev pub fresh : store.State
fresh = λ _. none

abbrev pub policy_data : PolicyData
policy_data = record {
  spending_limit_usd = pos 1000;
  period_ledgers = 10;
  oracle_address = 60;
  usd_divisor = pos 1;
  allowed_tokens = 50 ∷ [];
  token_divisors = pos 1 ∷ [];
  spending_history = [];
  cached_total_spent_usd = pos 0;
}

abbrev pub after_install : store.State
after_install = store.set (account_context 7 1) policy_data fresh

pub install_ok : install store by_account answers params rule 7 fresh ≡ ok after_install
unfolding install check_install fetch_usd_divisor fetch_token_divisors fetch_token_divisor
    checked_pow10
install_ok = refl

abbrev pub to_integer : ℤ → Option ℤ
to_integer a = some a

abbrev pub transfer_of : ℤ → Context ℤ
transfer_of amount =
    contract (record { contract = 50; fn_name = "transfer"; args = pos 7 ∷ pos 90 ∷ amount ∷ [] })

pub life : Life store to_integer 7 rule params after_install [] 20
life = installed by_account answers fresh 20 install_ok

pub call_priced :
    (s1 : store.State) × (priced store to_integer by_account answers ledger
        (transfer_of (pos 400))
        rule
        7
        after_install
      ≡ ok (policy_data, s1, pos 1200))
unfolding priced transfer_usd first_index_of fetch_price usd_value checked_mul checked_div ◌*ℤ◌
    div_toward_zero transfer_call get_policy_data key_discrete ℕ_discrete
call_priced = (_, refl)

pub small_call_priced :
    (s1 : store.State) × (priced store to_integer by_account answers ledger
        (transfer_of (pos 100))
        rule
        7
        after_install
      ≡ ok (policy_data, s1, pos 300))
unfolding priced transfer_usd first_index_of fetch_price usd_value checked_mul checked_div ◌*ℤ◌
    div_toward_zero transfer_call get_policy_data key_discrete ℕ_discrete
small_call_priced = (_, refl)

pub small_call_made :
    (s' : store.State) × (enforce store to_integer by_account answers ledger
        (transfer_of (pos 100))
        rule
        7
        after_install
      ≡ ok s')
unfolding enforce spend cleanup_old_entries saturating_add saturating_sub ◌+ℤ◌ ◌-ℤ◌ priced
    transfer_usd first_index_of fetch_price usd_value checked_mul checked_div ◌*ℤ◌ div_toward_zero
    transfer_call get_policy_data key_discrete ℕ_discrete
small_call_made = (_, refl)

abbrev pub one_transfer : List SpendingEntry
one_transfer = record { amount_usd = pos 300; ledger = 20 } ∷ []

pub life_with_transfer : Life store to_integer 7 rule params small_call_made.0 one_transfer 20
life_with_transfer =
    enforced by_account answers ledger (transfer_of (pos 100)) policy_data small_call_priced.0
      (pos 300) life (omega arith) small_call_priced.1 small_call_made.1

abbrev pub later_ledger : Ledger
later_ledger = record { sequence = 30; timestamp = 1000 }

abbrev pub data_with_transfer : PolicyData
data_with_transfer = record policy_data {
  spending_history = one_transfer;
  cached_total_spent_usd = pos 300;
}

pub later_call_priced :
    (s1 : store.State) × (priced store to_integer by_account answers later_ledger
        (transfer_of (pos 300))
        rule
        7
        small_call_made.0
      ≡ ok (data_with_transfer, s1, pos 900))
unfolding small_call_made priced transfer_usd first_index_of fetch_price usd_value checked_mul
    checked_div ◌*ℤ◌ div_toward_zero transfer_call get_policy_data key_discrete ℕ_discrete
later_call_priced = (_, refl)

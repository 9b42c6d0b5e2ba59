-- ===== src/MultiToken/Contract.antt =====
-- The contract of policies/multi-token-spending-limit-policy/src/lib.rs as an implementation of
-- `Policy`.
use latch_contracts.Base.{
  ℕ, ◌≡◌, inl, inr, refl, sym, ap, ◌∙◌, Bool, true, false, Option, none, some, List, [], arith,
  length, leb, ◌&&◌, if◌then◌else◌,
}
use latch_contracts.Base.Int.{ℤ, pos, ltb_ℤ}
use latch_contracts.Soroban.{
  Address, Auth, Ledger, Context, ContextRule, is_call_contract, Outcome, ok, panic, trap, ◌>>=◌,
  require_auth, unwrap_or_panic, Storage,
}
use latch_contracts.Policies.{Policy, Does, installed_from, enforced_from, uninstalled_from}
use latch_contracts.Policies.Entries.{set-Others, remove-Others}
use latch_contracts.MultiToken.{
  Error, not_installed, AccountParams, PolicyData, DataKey, account_context, Answers, install,
  check_install, enforce, priced, spend, transfer_call, transfer_usd, get_policy_data,
  fetch_usd_divisor, fetch_token_divisors, uninstall, policy_ttl_threshold, policy_extend_amount,
}

pub key-injective :
    (a b : Address) (i j : ℕ) → account_context a i ≡ account_context b j → (a ≡ b) × (i ≡ j)
key-injective a b i j e = (cc, cc)

abbrev pub succeeded : {E A : Type 0} → Outcome E A → Option A
succeeded (ok a) = some a
succeeded (panic _) = none
succeeded trap = none

-- The data of a new installation, from the divisors that the oracle and the tokens give.
abbrev pub new_data : AccountParams → ℤ → List ℤ → PolicyData
new_data params usd_divisor token_divisors = record {
  spending_limit_usd = params.spending_limit_usd;
  period_ledgers = params.period_ledgers;
  oracle_address = params.oracle_address;
  usd_divisor = usd_divisor;
  allowed_tokens = params.allowed_tokens;
  token_divisors = token_divisors;
  spending_history = [];
  cached_total_spent_usd = pos 0;
}

-- An install of a positive limit and period and some token, on a rule for one contract.
abbrev pub accepts : Answers → ContextRule → AccountParams → Option PolicyData
accepts a rule params =
    if is_call_contract rule.context_type
      && (ltb_ℤ (pos 0) params.spending_limit_usd
          && (leb 1 params.period_ledgers && leb 1 (length params.allowed_tokens)))
    then succeeded (
        fetch_usd_divisor a params.oracle_address >>= λ usd.
        fetch_token_divisors a params.allowed_tokens >>= λ tokens. ok (new_data params usd tokens))
    else none

-- A transfer that is priced and fits the rolling limit. It is recorded.
abbrev pub allows :
    {Val : Type 0}
    → (Val → Option ℤ)
    → Answers
    → Ledger
    → Context Val
    → PolicyData
    → Option PolicyData
allows to_i128 a ledger context stored = succeeded (
    transfer_call to_i128 context >>= λ call.
    transfer_usd a ledger stored call.0 call.1 >>= λ usd. spend stored usd ledger.sequence)

module _ (d : Storage DataKey PolicyData) where
  abbrev pub lookup : Address → ℕ → d.State → Option PolicyData
  lookup a i s = d.get (account_context a i) s

  module _ (auth : Auth) (params : AccountParams) (rule : ContextRule) (account : Address)
      (s : d.State) where
    -- `install` behind the answers for the divisors.
    install_with :
        (usd : Outcome Error ℤ) (tokens : Outcome Error (List ℤ))
        → Does lookup account rule.id s
            (installed_from
              (auth account)
              (if is_call_contract rule.context_type
                  && (ltb_ℤ (pos 0) params.spending_limit_usd
                      && (leb 1 params.period_ledgers && leb 1 (length params.allowed_tokens)))
                then succeeded (usd >>= λ u. tokens >>= λ t. ok (new_data params u t))
                else none)
              (lookup account rule.id s))
            (check_install d auth params rule account s >>= λ _. usd >>= λ u.
              tokens >>= λ t. ok (d.set (account_context account rule.id) (new_data params u t) s))
    unfolding check_install
    install_with (ok usd) (ok tokens) =
        let new = new_data params usd tokens in
        let set = d.get-set_self (account_context account rule.id) new s in
        let rest = set-Others d account_context key-injective account rule.id new s in
        ground (arith, set, rest)
    install_with (ok usd) (panic e) = ground arith
    install_with (ok usd) trap = ground arith
    install_with (panic e) tokens = ground arith
    install_with trap tokens = ground arith

  pub install-Does :
      (a : Answers) (auth : Auth) (params : AccountParams) (rule : ContextRule) (account : Address)
      (s : d.State)
      → Does lookup account rule.id s
          (installed_from (auth account) (accepts a rule params) (lookup account rule.id s))
          (install d auth a params rule account s)
  unfolding install
  install-Does a auth params rule account s =
      install_with auth params rule account s (fetch_usd_divisor a params.oracle_address)
        (fetch_token_divisors a params.allowed_tokens)

  pub uninstall-Does :
      (auth : Auth) (rule : ContextRule) (account : Address) (s : d.State)
      → Does lookup account rule.id s
          (uninstalled_from (auth account) (lookup account rule.id s))
          (uninstall d auth rule account s)
  unfolding uninstall
  uninstall-Does auth rule account s =
      let removed = d.get-remove_self (account_context account rule.id) s in
      let rest = remove-Others d account_context key-injective account rule.id s in
      ground (arith, removed, rest)

  module _ (rule : ContextRule) (account : Address) (s : d.State) where
    abbrev key : DataKey
    key = account_context account rule.id

    abbrev extended : d.State
    extended = d.extend_ttl key policy_ttl_threshold policy_extend_amount s

    record_with :
        (p : PolicyData) (r : Outcome Error PolicyData)
        → lookup account rule.id s ≡ some p
        → Does lookup account rule.id s
            (enforced_from true (λ _. succeeded r) (some p))
            (r >>= λ p'. ok (d.set key p' extended))
    record_with p (ok p') h =
        let set = d.get-set_self key p' extended in
        (
          ap some (sym set),
          λ a i. elim (set-Others d account_context key-injective account rule.id p' extended a i) [
            | inl same ↦ inl same
            | inr kept ↦ inr (kept ∙ d.get-extend_ttl (account_context a i) key _ _ s)
          ],
        )
    record_with p (panic _) h = refl
    record_with p trap h = refl

    abbrev stored_with : Option PolicyData → Outcome Error (PolicyData × d.State)
    stored_with stored = unwrap_or_panic stored not_installed >>= pair
      where
        pair : PolicyData → Outcome Error (PolicyData × d.State)
        pair p = ok (p, extended)

    abbrev ok_with : PolicyData → d.State → ℤ → Outcome Error (PolicyData × d.State × ℤ)
    ok_with p s' usd = ok (p, s', usd)

    abbrev priced_with :
        Bool
        → Option PolicyData
        → Outcome Error (Address × ℤ)
        → (PolicyData → Address × ℤ → Outcome Error ℤ)
        → Outcome Error (PolicyData × d.State × ℤ)
    priced_with authorized stored call value = require_auth authorized >>= λ _.
        call >>= λ c. stored_with stored >>= λ t. value t.0 c >>= λ usd. ok_with t.0 t.1 usd

    -- `enforce` behind the call, the value and the new data.
    enforce_with :
        (authorized : Bool) (stored : Option PolicyData) (call : Outcome Error (Address × ℤ))
        (value : PolicyData → Address × ℤ → Outcome Error ℤ)
        (next : PolicyData → ℤ → Outcome Error PolicyData)
        → lookup account rule.id s ≡ stored
        → Does lookup account rule.id s
            (enforced_from authorized
              (λ p. succeeded (call >>= λ c. value p c >>= λ usd. next p usd))
              stored)
            (priced_with authorized stored call value >>= λ t.
              next t.0 t.2 >>= λ p'. ok (d.set key p' t.1))
    enforce_with false stored call value next h = refl
    enforce_with true none (ok c) value next h = refl
    enforce_with true none (panic _) value next h = refl
    enforce_with true none trap value next h = refl
    enforce_with true (some p) (panic _) value next h = refl
    enforce_with true (some p) trap value next h = refl
    enforce_with true (some p) (ok c) value next h = value_with (value p c)
      where
        value_with :
            (v : Outcome Error ℤ)
            → Does lookup account rule.id s
                (enforced_from true (λ _. succeeded (v >>= λ usd. next p usd)) (some p))
                (v >>= (λ usd. ok_with p extended usd) >>= λ t.
                  next t.0 t.2 >>= λ p'. ok (d.set key p' t.1))
        value_with (ok usd) = record_with p (next p usd) h
        value_with (panic _) = refl
        value_with trap = refl

  pub enforce-Does :
      {Val : Type 0} (to_i128 : Val → Option ℤ) (auth : Auth) (a : Answers) (ledger : Ledger)
      (context : Context Val) (rule : ContextRule) (account : Address) (s : d.State)
      → Does lookup account rule.id s
          (enforced_from
            (auth account)
            (allows to_i128 a ledger context)
            (lookup account rule.id s))
          (enforce d to_i128 auth a ledger context rule account s)
  unfolding enforce priced get_policy_data
  enforce-Does to_i128 auth a ledger context rule account s =
      enforce_with rule account s (auth account) (lookup account rule.id s)
        (transfer_call to_i128 context) (λ p c. transfer_usd a ledger p c.0 c.1)
        (λ p usd. spend p usd ledger.sequence) refl

  -- `impl Policy for MultiTokenSpendingLimitPolicy`
  abbrev pub multi_token_policy : (Val : Type 0) → (Val → Option ℤ) → Policy Val
  multi_token_policy Val to_i128 = record {
    State = d.State;
    Params = AccountParams;
    Stored = PolicyData;
    Error = Error;
    Facts = Answers × Ledger;
    Config = ⊥;
    lookup = lookup;
    accepts = λ f. accepts f.0;
    allows = λ f context signers stored. allows to_i128 f.0 f.1 context stored;
    enforce = λ f auth context signers rule account s.
        enforce d to_i128 auth f.0 f.1 context rule account s;
    install = λ f auth params rule account s. install d auth f.0 params rule account s;
    configured = λ c. absurd c;
    configure = λ _ c. absurd c;
    configure-Does = λ _ c. absurd c;
    uninstall = uninstall d;
    install-Does = λ f. install-Does f.0;
    enforce-Does = λ f auth context signers rule account s.
        enforce-Does to_i128 auth f.0 f.1 context rule account s;
    uninstall-Does = uninstall-Does;
  }

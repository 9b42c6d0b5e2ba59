-- ===== src/MultiToken/Life.antt =====
-- The life of one installation of policies/multi-token-spending-limit-policy/src/lib.rs: an install,
-- then any calls of `enforce`. The stored data stays sound.
use mathlib.Core.Option.{some-injective}
use latch_contracts.Base.{
  ℕ, zero, suc, ◌≤◌, ◌<◌, ◌≡◌, ◌∙◌, refl, sym, ap, subst, List, [], ◌∷◌, ◌++◌, Option, some, arith,
  All, get_elem?, length, ltb,
}
use latch_contracts.Base.Int.{ℤ, pos, negsuc, max_i128}
use latch_contracts.Soroban.{
  Address, Auth, Ledger, Context, ContextRule, ok, Storage, >>=-eq-ok, ok-injective, unwrap,
  unwrap_or_panic, panic_if, require_auth,
}
use latch_contracts.MultiToken.{
  Error, AccountParams, SpendingEntry, PolicyData, DataKey, account_context, Answers, install,
  check_install, enforce, priced, spend, transfer_call, get_policy_data, transfer_usd,
  fetch_usd_divisor, fetch_token_divisor, fetch_token_divisors, checked_pow10, max_oracle_decimals,
  max_token_decimals, max_history_entries,
}
use latch_contracts.MultiToken.Window.{IsPos, AllPos, AllPos-append}
use latch_contracts.MultiToken.Prices.{
  transfer_call-IsPos, positive-IsPos, transfer_usd-IsPriced, usd_value-IsPos,
}
use latch_contracts.MultiToken.Spend.{Tracks, Spent, spend-Spent, spend-divisors, spend-length}

module _ (d : Storage DataKey PolicyData) {Val : Type 0} (to_i128 : Val → Option ℤ)
    (smart_account : Address) (rule : ContextRule) (params : AccountParams) where
  abbrev pub key : DataKey
  key = account_context smart_account rule.id

  -- The states that one installation goes through, with the log of the transfers let through and the
  -- ledger of the last one. `elsewhere` is anything that leaves the entry alone, a failed call too.
  pub data Life : d.State → List SpendingEntry → ℕ → Type 0 where
    installed :
        (auth : Auth) (a : Answers) (s : d.State) {s' : d.State} (n : ℕ)
        → install d auth a params rule smart_account s ≡ ok s'
        → Life s' [] n
    enforced :
        {s s' : d.State} {log : List SpendingEntry} {last : ℕ} (auth : Auth) (a : Answers)
        (ledger : Ledger) (context : Context Val) (p : PolicyData) (s1 : d.State) (usd : ℤ)
        → Life s log last
        → last ≤ ledger.sequence
        → priced d to_i128 auth a ledger context rule smart_account s ≡ ok (p, s1, usd)
        → enforce d to_i128 auth a ledger context rule smart_account s ≡ ok s'
        → Life s'
            (log ++ record { amount_usd = usd; ledger = ledger.sequence } ∷ [])
            ledger.sequence
    elsewhere :
        {s s' : d.State} {log : List SpendingEntry} {last : ℕ}
        → Life s log last
        → d.get key s' ≡ d.get key s
        → Life s' log last

  -- The stored data is there, agrees with the log, and has positive divisors.
  pub record IsSound (limit : ℕ) (s : d.State) (log : List SpendingEntry) (last : ℕ) : Type 0 where
    pub data' : PolicyData
    pub stored : d.get key s ≡ some data'
    pub tracks : Tracks limit params.period_ledgers last log data'
    pub usd : IsPos data'.usd_divisor
    pub tokens : All IsPos data'.token_divisors
    pub amounts : AllPos log
    pub short : length data'.spending_history ≤ max_history_entries

  All-get_elem? : (ts : List ℤ) (i : ℕ) (t : ℤ) → All IsPos ts → get_elem? ts i ≡ some t → IsPos t
  All-get_elem? [] i t h e = absurd (cc)
  All-get_elem? (x ∷ ts) zero t h e = ground arith
  All-get_elem? (x ∷ ts) (suc i) t h e = All-get_elem? ts i t h.1 e

  -- What a priced call has found: the stored data, and a value that is not negative.
  pub priced-IsPos :
      (auth : Auth) (a : Answers) (ledger : Ledger) (context : Context Val) (s s1 : d.State)
      (p0 p : PolicyData) (usd : ℤ)
      → d.get key s ≡ some p0
      → IsPos p0.usd_divisor
      → All IsPos p0.token_divisors
      → priced d to_i128 auth a ledger context rule smart_account s ≡ ok (p, s1, usd)
      → (p ≡ p0) × IsPos usd
  unfolding priced get_policy_data
  priced-IsPos auth a ledger context s s1 p0 p usd stored hu ht e =
      let (_, _, e1) = >>=-eq-ok (require_auth (auth smart_account)) _ e in
      let (call, e2, r2) = >>=-eq-ok (transfer_call to_i128 context) _ e1 in
      let (data', e3, r3) = >>=-eq-ok (get_policy_data d rule.id smart_account s) _ r2 in
      let (v, e4, r4) = >>=-eq-ok (transfer_usd a ledger data'.0 call.0 call.1) _ r3 in
      let same : data'.0 ≡ p0 = ground arith in
      let quoted = transfer_usd-IsPriced a ledger data'.0 call.0 call.1 v e4 in
      let divisor =
        All-get_elem? data'.0.token_divisors quoted.index quoted.divisor (rw same ht)
          quoted.cached in
      let value =
        usd_value-IsPos call.1 quoted.quote.price data'.0.usd_divisor quoted.divisor v
          (transfer_call-IsPos to_i128 context call.0 call.1 e2)
          (positive-IsPos quoted.quote.price quoted.trusted.positive) (rw same hu) divisor
          quoted.value in
      (ground arith, subst IsPos (ap (λ x. x.2) (ok-injective r4)) value)

  checked_pow10-IsPos :
      (n : ℕ) (err : Error) (v : ℤ) → unwrap_or_panic (checked_pow10 n) err ≡ ok v → IsPos v
  unfolding checked_pow10
  checked_pow10-IsPos n err v e = ground arith

  fetch_usd_divisor-IsPos :
      (a : Answers) (oracle : Address) (v : ℤ) → fetch_usd_divisor a oracle ≡ ok v → IsPos v
  unfolding fetch_usd_divisor
  fetch_usd_divisor-IsPos a oracle v e =
      let (n, _, e1) = >>=-eq-ok (unwrap (a.decimals oracle)) _ e in
      let (_, _, e2) = >>=-eq-ok (panic_if (ltb max_oracle_decimals n) _) _ e1 in
      checked_pow10-IsPos n _ v e2

  fetch_token_divisor-IsPos :
      (a : Answers) (token : Address) (v : ℤ) → fetch_token_divisor a token ≡ ok v → IsPos v
  unfolding fetch_token_divisor
  fetch_token_divisor-IsPos a token v e =
      let (n, _, e1) = >>=-eq-ok (unwrap (a.decimals token)) _ e in
      let (_, _, e2) = >>=-eq-ok (panic_if (ltb max_token_decimals n) _) _ e1 in
      checked_pow10-IsPos n _ v e2

  fetch_token_divisors-IsPos :
      (a : Answers) (tokens : List Address) (vs : List ℤ)
      → fetch_token_divisors a tokens ≡ ok vs
      → All IsPos vs
  unfolding fetch_token_divisors
  fetch_token_divisors-IsPos a [] vs e = subst (All IsPos) (ok-injective e) tt
  fetch_token_divisors-IsPos a (t ∷ ts) vs e =
      let (v, e1, r1) = >>=-eq-ok (fetch_token_divisor a t) _ e in
      let (vs', e2, r2) = >>=-eq-ok (fetch_token_divisors a ts) _ r1 in
      subst (All IsPos) (ok-injective r2)
        (fetch_token_divisor-IsPos a t v e1, fetch_token_divisors-IsPos a ts vs' e2)

  module _ (limit : ℕ) (small : limit < max_i128)
      (capped : params.spending_limit_usd ≡ pos limit) where
    install-IsSound :
        (auth : Auth) (a : Answers) (s s' : d.State) (n : ℕ)
        → install d auth a params rule smart_account s ≡ ok s'
        → IsSound limit s' [] n
    unfolding install
    install-IsSound auth a s s' n e =
        let (_, _, e1) = >>=-eq-ok (check_install d auth params rule smart_account s) _ e in
        let (u, hu, e2) = >>=-eq-ok (fetch_usd_divisor a params.oracle_address) _ e1 in
        let (ts, ht, e3) = >>=-eq-ok (fetch_token_divisors a params.allowed_tokens) _ e2 in
        let p0 : PolicyData = record {
          spending_limit_usd = params.spending_limit_usd;
          period_ledgers = params.period_ledgers;
          oracle_address = params.oracle_address;
          usd_divisor = u;
          allowed_tokens = params.allowed_tokens;
          token_divisors = ts;
          spending_history = [];
          cached_total_spent_usd = pos 0;
        } in
        record {
          data' = p0;
          stored = subst (λ t. d.get key t ≡ some p0) (ok-injective e3) (d.get-set_self key p0 s);
          tracks = record {
            capped = capped;
            rolling = refl;
            entries = tt;
            cached = refl;
            under = omega arith;
            ordered = omega arith;
            tracked = λ _ _. (refl, refl);
          };
          usd = fetch_usd_divisor-IsPos a params.oracle_address u hu;
          tokens = fetch_token_divisors-IsPos a params.allowed_tokens ts ht;
          amounts = tt;
          short = omega arith;
        }

    -- A transfer that is let through keeps the data sound, behind the longer log.
    spend-IsSound :
        (s s' s1 : d.State) (log : List SpendingEntry) (last now : ℕ) (p : PolicyData) (usd : ℤ)
        → IsSound limit s log last
        → last ≤ now
        → d.get key s ≡ some p
        → IsPos usd
        → (p' : PolicyData) → spend p usd now ≡ ok p'
        → d.set key p' s1 ≡ s'
        → IsSound limit s' (log ++ record { amount_usd = usd; ledger = now } ∷ []) now
    spend-IsSound s s' s1 log last now p (negsuc n) h later stored bad p' e e' = absurd bad
    spend-IsSound s s' s1 log last now p (pos n) h later stored good p' e e' =
        let same : h.data' ≡ p = some-injective _ _ (sym h.stored ∙ stored) in
        let case = subst (Spent limit params.period_ledgers small log p n now) e (
          spend-Spent limit params.period_ledgers small last now later log p
            (subst (Tracks limit params.period_ledgers last log) same h.tracks) n) in
        let divisors = spend-divisors p p' (pos n) now e in
        record {
          data' = p';
          stored = subst (λ t. d.get key t ≡ some p') e' (d.get-set_self key p' s1);
          tracks = case.0;
          usd = rw (divisors.0, ← same) h.usd;
          tokens = rw (divisors.1, ← same) h.tokens;
          amounts = AllPos-append log _ h.amounts (tt, tt);
          short = spend-length p p' (pos n) now e;
        }

    pub Life-IsSound :
        {s : d.State} {log : List SpendingEntry} {last : ℕ}
        → Life s log last
        → IsSound limit s log last
    unfolding enforce
    Life-IsSound (installed auth a s {s'} n e) = install-IsSound auth a s s' n e
    Life-IsSound (enforced {s} {s'} {log} {last} auth a ledger context p s1 usd life later e e') =
        let h = Life-IsSound life in
        let q = priced-IsPos auth a ledger context s s1 h.data' p usd h.stored h.usd h.tokens e in
        let (p', e1, e2) = >>=-eq-ok (spend p usd ledger.sequence) _ (rw e at e') in
        spend-IsSound s s' s1 log last ledger.sequence p usd h later (rw q.0 h.stored) q.1 p' e1
          (ok-injective e2)
    Life-IsSound (elsewhere life same) =
        let h = Life-IsSound life in
        record {
          data' = h.data';
          stored = same ∙ h.stored;
          tracks = h.tracks;
          usd = h.usd;
          tokens = h.tokens;
          amounts = h.amounts;
          short = h.short;
        }

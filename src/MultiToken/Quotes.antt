-- ===== src/MultiToken/Quotes.antt =====
-- What a transfer is worth to policies/multi-token-spending-limit-policy/src/lib.rs, from the install on.
use native.Mathlib.Nat.{one-le-pow}
use latch_contracts.Base.{
  ℕ, ◌^◌, ◌*◌, ◌≤◌, ◌≡◌, ◌∙◌, inl, inr, refl, ap, subst, true, Option, some, List, [], ◌∷◌, arith,
  All, get_elem?, get_or, Bool-cases,
}
use latch_contracts.Base.Int.{ℤ, pos, negsuc, max_i128}
use latch_contracts.Soroban.{
  Address, Auth, Ledger, Context, ContextRule, Outcome, ok, panic, trap, Storage, ◌>>=◌, >>=-eq-ok,
  ok-injective, require_auth,
}
use latch_contracts.Policies.{enforced_from}
use latch_contracts.Policies.Isolation.{
  enforce_call, install_call, configure_call, uninstall_call, effect, run,
}
use latch_contracts.Policies.Kept.{installed_from-some, KeepsEntry, run-Kept}
use latch_contracts.MultiToken.{
  Error, AccountParams, PolicyData, PriceData, DataKey, Answers, install, priced, transfer_call,
  transfer_usd, get_policy_data, spend, usd_value, first_index_of,
}
use latch_contracts.MultiToken.Contract.{allows, succeeded}
use latch_contracts.MultiToken.Calls.{ContractAction, ContractCall, Undisturbed, Keeps, shared}
use latch_contracts.MultiToken.Window.{IsPos}
use latch_contracts.MultiToken.Prices.{
  transfer_call-IsPos, positive-IsPos, usd_value-IsPos, IsTrusted, IsPriced, transfer_usd-IsPriced,
}
use latch_contracts.MultiToken.Rounding.{IsRounded, usd_value_iff}
use latch_contracts.MultiToken.Scales.{
  IsScaled, install-IsScaled, spend-IsScaled, first_index_of-get_elem?,
}

-- The entry of an installation whose divisors the answers `a` gave.
abbrev Scaled : Answers → AccountParams → Option PolicyData → Type 0
Scaled a params e = (p : PolicyData) × (e ≡ some p) × IsScaled a params p

module _ {Val : Type 0} (to_i128 : Val → Option ℤ) (a : Answers) (params : AccountParams) where
  allows-Scaled :
      (b : Answers) (ledger : Ledger) (context : Context Val) (p : PolicyData)
      → IsScaled a params p
      → Scaled a params
          (get_or (enforced_from true (allows to_i128 b ledger context) (some p)) (some p))
  allows-Scaled b ledger context p h =
      next_with
        (transfer_call to_i128 context >>= λ call.
          transfer_usd b ledger p call.0 call.1 >>= λ usd. spend p usd ledger.sequence)
        (λ p' e.
          let (call, _, e1) = >>=-eq-ok (transfer_call to_i128 context) _ e in
          let (usd, _, e2) = >>=-eq-ok (transfer_usd b ledger p call.0 call.1) _ e1 in
          spend-IsScaled a params p p' usd ledger.sequence e2 h)
    where
      next_with :
          (o : Outcome Error PolicyData)
          → ((p' : PolicyData) → o ≡ ok p' → IsScaled a params p')
          → Scaled a params (get_or (enforced_from true (λ _. succeeded o) (some p)) (some p))
      next_with (ok p') scaled = (p', refl, scaled p' refl)
      next_with (panic _) scaled = (p, refl, h)
      next_with trap scaled = (p, refl, h)

  effect-Scaled :
      (d : Storage DataKey PolicyData) (auth : Auth) (account : Address) (rule : ContextRule)
      (action : ContractAction Val) (e : Option PolicyData)
      → Keeps auth account action
      → Scaled a params e
      → Scaled a params (get_or (effect (shared d to_i128) (auth account) rule action e) e)
  unfolding effect
  effect-Scaled d auth account rule (enforce_call f context signers) e keeps (p, same, h) =
      elim (Bool-cases (auth account)) [
        | inl signed ↦ rw (same, signed) (allows-Scaled f.0 f.1 context p h)
        | inr unsigned ↦ rw (same, unsigned) (p, refl, h)
      ]
  effect-Scaled d auth account rule (install_call f params') e keeps (p, same, h) =
      rw (same, installed_from-some _ _ p) (p, refl, h)
  effect-Scaled d auth account rule (configure_call c) e keeps k = absurd c
  effect-Scaled d auth account rule uninstall_call e keeps k = rw keeps k

  Undisturbed-KeepsEntry :
      (d : Storage DataKey PolicyData) (account : Address) (id : ℕ)
      (calls : List (ContractCall Val))
      → All (Undisturbed d to_i128 account id) calls
      → All (KeepsEntry (shared d to_i128) account id (Scaled a params)) calls
  Undisturbed-KeepsEntry d account id [] all = tt
  Undisturbed-KeepsEntry d account id (c ∷ cs) all = (
    elim all.0 [
      | inl other ↦ inl other
      | inr keeps ↦ inr (λ e k. effect-Scaled d c.auth account c.rule c.action e keeps k)
    ],
    Undisturbed-KeepsEntry d account id cs all.1,
  )

-- What a call is worth: the amount that it names of a token on the list, at a price that the oracle has
-- answered and the policy trusts, in the decimals that the token and the oracle had at the install,
-- rounded down.
pub record IsQuoted (a b : Answers) (params : AccountParams) (ledger : Ledger) (call : Address × ℤ)
    (usd : ℤ) : Type 0 where
  pub index : ℕ
  pub amount : ℕ
  pub price : ℕ
  pub oracle_decimals : ℕ
  pub token_decimals : ℕ
  pub v : ℕ
  pub quote : PriceData
  pub listed : get_elem? params.allowed_tokens index ≡ some call.0
  pub named : call.1 ≡ pos amount
  pub answered : b.lastprice params.oracle_address call.0 ≡ some (some quote)
  pub trusted : IsTrusted ledger quote
  pub priced_at : quote.price ≡ pos price
  pub oracle_scale : a.decimals params.oracle_address ≡ some oracle_decimals
  pub token_scale : a.decimals call.0 ≡ some token_decimals
  pub worth : usd ≡ pos v
  pub fits : amount * price ≤ max_i128
  pub rounded : IsRounded amount price (10 ^ oracle_decimals) (10 ^ token_decimals) v

natural : (x : ℤ) → IsPos x → (n : ℕ) × (x ≡ pos n)
natural (pos n) h = (n, refl)
natural (negsuc n) h = absurd h

module _ (a b : Answers) (params : AccountParams) (ledger : Ledger) where
  Scaled-IsQuoted :
      (p : PolicyData) (target : Address) (amount usd : ℤ)
      → IsScaled a params p
      → IsPos amount
      → IsPriced b ledger p target amount usd
      → IsQuoted a b params ledger (target, amount) usd
  Scaled-IsQuoted p target amount usd h positive q =
      let price_sign = positive-IsPos q.quote.price q.trusted.positive in
      let place = subst (λ l. first_index_of target l ≡ some q.index) h.allowed q.allowed in
      let at = first_index_of-get_elem? target params.allowed_tokens q.index place in
      let (n, dn, usd_scale) = h.usd in
      let (m, dm, token_scale) = h.tokens q.index target q.divisor at q.cached in
      let (x, named) = natural amount positive in
      let (y, priced_at) = natural q.quote.price price_sign in
      let value : usd_value (pos x) (pos y) (pos (10 ^ n)) (pos (10 ^ m)) ≡ ok usd =
        rw (← named, ← priced_at, ← usd_scale, ← token_scale) q.value in
      let sign =
        usd_value-IsPos (pos x) (pos y) (pos (10 ^ n)) (pos (10 ^ m)) usd tt tt tt tt value in
      let (v, worth) = natural usd sign in
      let (fits, rounded) =
        (usd_value_iff x y (10 ^ n) (10 ^ m) (one-le-pow n 10 (omega arith))
            (one-le-pow m 10 (omega arith)) v).0
          (value ∙ ap ok worth) in
      record {
        index = q.index;
        amount = x;
        price = y;
        oracle_decimals = n;
        token_decimals = m;
        v = v;
        quote = q.quote;
        listed = at;
        named = named;
        answered = subst (λ o. b.lastprice o target ≡ some (some q.quote)) h.oracle q.answered;
        trusted = q.trusted;
        priced_at = priced_at;
        oracle_scale = dn;
        token_scale = dm;
        worth = worth;
        fits = fits;
        rounded = rounded;
      }

module _ (d : Storage DataKey PolicyData) {Val : Type 0} (to_i128 : Val → Option ℤ)
    (smart_account : Address) (rule : ContextRule) (params : AccountParams) where
  -- Every transfer counts for what it is worth. After a successful install for an account and a rule,
  -- in a transaction in which the oracle and the tokens answer `a`, and whatever calls anyone makes of
  -- the contract, as long as the account does not uninstall this policy: if a call of the account under
  -- the rule is priced at `usd`, then it names an amount of a token on the installed list, the
  -- installed oracle has answered with a price that is positive, not from the future and at most 500
  -- seconds old, and `usd` is the amount times the price in units of ten to the decimals that oracle
  -- and token had at the install, rounded down, the product fitting an `i128`.
  pub run-IsQuoted :
      (auth : Auth) (a : Answers) (s0 s : d.State) (calls : List (ContractCall Val)) (auth' : Auth)
      (b : Answers) (ledger : Ledger) (context : Context Val) (p : PolicyData) (s1 : d.State)
      (usd : ℤ)
      → install d auth a params rule smart_account s0 ≡ ok s
      → All (Undisturbed d to_i128 smart_account rule.id) calls
      → priced d to_i128 auth' b ledger context rule smart_account (run (shared d to_i128) calls s)
        ≡ ok (p, s1, usd)
      → (call : Address × ℤ) × (transfer_call to_i128 context ≡ ok call)
        × IsQuoted a b params ledger call usd
  unfolding priced get_policy_data
  run-IsQuoted auth a s0 s calls auth' b ledger context p s1 usd made keeps e =
      let policy = shared d to_i128 in
      let start = install-IsScaled d auth a params rule smart_account s0 s made in
      let (stored, there, scaled) =
        run-Kept policy smart_account rule.id (Scaled a params) calls s
          (Undisturbed-KeepsEntry to_i128 a params d smart_account rule.id calls keeps) start in
      let (_, _, e1) = >>=-eq-ok (require_auth (auth' smart_account)) _ e in
      let (call, e2, r2) = >>=-eq-ok (transfer_call to_i128 context) _ e1 in
      let (data', e3, r3) =
        >>=-eq-ok (get_policy_data d rule.id smart_account (run policy calls s)) _ r2 in
      let (v, e4, r4) = >>=-eq-ok (transfer_usd b ledger data'.0 call.0 call.1) _ r3 in
      let same : data'.0 ≡ stored = ground arith in
      let worth : v ≡ usd = ap (λ x. x.2) (ok-injective r4) in
      (
        call,
        e2,
        Scaled-IsQuoted a b params ledger data'.0 call.0 call.1 usd (rw same scaled)
            (transfer_call-IsPos to_i128 context call.0 call.1 e2)
            (transfer_usd-IsPriced b ledger data'.0 call.0 call.1 usd (e4 ∙ ap ok worth)),
      )

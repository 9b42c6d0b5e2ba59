-- ===== src/MultiToken/Scales.antt =====
-- The divisors that `install` of policies/multi-token-spending-limit-policy/src/lib.rs reads from the oracle and
-- the tokens, and how long they stay.
use mathlib.Core.Option.{some-injective}
use latch_contracts.Base.{
  ℕ, zero, suc, ◌^◌, ◌≡◌, ◌∙◌, inl, inr, refl, sym, subst, some, List, [], ◌∷◌, arith, get_elem?,
  ◌==◌, Bool-cases, Option-cases,
}
use latch_contracts.Base.Int.{ℤ, pos}
use latch_contracts.Soroban.{
  Address, Auth, ContextRule, ok, Storage, >>=-eq-ok, ok-injective, unwrap, unwrap-eq-ok,
}
use latch_contracts.MultiToken.Contract.{new_data}
use latch_contracts.MultiToken.{
  AccountParams, PolicyData, DataKey, account_context, Answers, install, check_install, spend,
  fetch_usd_divisor, fetch_token_divisor, fetch_token_divisors, checked_pow10, first_index_of,
}
use latch_contracts.MultiToken.Spend.{spend-divisors}

-- A divisor is the power of ten of the decimals that `source` has reported.
abbrev pub ScaledBy : Answers → Address → ℤ → Type 0
ScaledBy a source divisor = (n : ℕ) × (a.decimals source ≡ some n) × (divisor ≡ pos (10 ^ n))

fetch_usd_divisor-ScaledBy :
    (a : Answers) (oracle : Address) (v : ℤ)
    → fetch_usd_divisor a oracle ≡ ok v
    → ScaledBy a oracle v
unfolding fetch_usd_divisor checked_pow10
fetch_usd_divisor-ScaledBy a oracle v e =
    let (n, e0, e1) = >>=-eq-ok (unwrap (a.decimals oracle)) _ e in
    (n, unwrap-eq-ok _ e0, ground arith)

fetch_token_divisor-ScaledBy :
    (a : Answers) (token : Address) (v : ℤ)
    → fetch_token_divisor a token ≡ ok v
    → ScaledBy a token v
unfolding fetch_token_divisor checked_pow10
fetch_token_divisor-ScaledBy a token v e =
    let (n, e0, e1) = >>=-eq-ok (unwrap (a.decimals token)) _ e in
    (n, unwrap-eq-ok _ e0, ground arith)

fetch_token_divisors-ScaledBy :
    (a : Answers) (tokens : List Address) (vs : List ℤ) (i : ℕ) (token : Address) (v : ℤ)
    → fetch_token_divisors a tokens ≡ ok vs
    → get_elem? tokens i ≡ some token
    → get_elem? vs i ≡ some v
    → ScaledBy a token v
unfolding fetch_token_divisors
fetch_token_divisors-ScaledBy a [] vs i token v e at of = absurd (cc)
fetch_token_divisors-ScaledBy a (t ∷ ts) vs i token v e at of =
    let (v0, e1, r1) = >>=-eq-ok (fetch_token_divisor a t) _ e in
    let (vs', e2, r2) = >>=-eq-ok (fetch_token_divisors a ts) _ r1 in
    placed v0 vs' e1 (λ j. fetch_token_divisors-ScaledBy a ts vs' j token v e2) i at
      (subst (λ l. get_elem? l i ≡ some v) (sym (ok-injective r2)) of)
  where
    placed :
        (v0 : ℤ) (vs' : List ℤ)
        → fetch_token_divisor a t ≡ ok v0
        → ((j : ℕ) → get_elem? ts j ≡ some token → get_elem? vs' j ≡ some v → ScaledBy a token v)
        → (j : ℕ) → get_elem? (t ∷ ts) j ≡ some token
        → get_elem? (v0 ∷ vs') j ≡ some v
        → ScaledBy a token v
    placed v0 vs' e1 rest zero at of =
        subst (λ x. ScaledBy a x v) (some-injective _ _ at)
          (subst (ScaledBy a t) (some-injective _ _ of) (fetch_token_divisor-ScaledBy a t v0 e1))
    placed v0 vs' e1 rest (suc j) at of = rest j at of

pub first_index_of-get_elem? :
    (a : Address) (bs : List Address) (i : ℕ)
    → first_index_of a bs ≡ some i
    → get_elem? bs i ≡ some a
unfolding first_index_of
first_index_of-get_elem? a [] i e = absurd (cc)
first_index_of-get_elem? a (b ∷ bs) i e = elim (Bool-cases (a == b)) [
  | inl same ↦ let first : 0 ≡ i = some-injective _ _ (rw same at e) in rw (← first) (ground arith)
  | inr other ↦ elim (Option-cases (first_index_of a bs)) [
    | inl absent ↦ absurd (ground arith)
    | inr (j, found) ↦
        let next : suc j ≡ i = some-injective _ _ (rw (other, found) at e) in
        rw (← next) (first_index_of-get_elem? a bs j found)
  ]
]

-- Stored data with the oracle and the tokens of `params` and with the divisors of `a`.
pub record IsScaled (a : Answers) (params : AccountParams) (p : PolicyData) : Type 0 where
  pub oracle : p.oracle_address ≡ params.oracle_address
  pub allowed : p.allowed_tokens ≡ params.allowed_tokens
  pub usd : ScaledBy a params.oracle_address p.usd_divisor
  pub tokens :
      (i : ℕ) (token : Address) (v : ℤ)
      → get_elem? params.allowed_tokens i ≡ some token
      → get_elem? p.token_divisors i ≡ some v
      → ScaledBy a token v

spend-kept :
    (p p' : PolicyData) (amount : ℤ) (now : ℕ)
    → spend p amount now ≡ ok p'
    → (p'.oracle_address ≡ p.oracle_address) × (p'.allowed_tokens ≡ p.allowed_tokens)
unfolding spend
spend-kept p p' amount now e = ground arith

-- A transfer that is let through keeps all this.
pub spend-IsScaled :
    (a : Answers) (params : AccountParams) (p p' : PolicyData) (amount : ℤ) (now : ℕ)
    → spend p amount now ≡ ok p'
    → IsScaled a params p
    → IsScaled a params p'
spend-IsScaled a params p p' amount now e h =
    let kept = spend-kept p p' amount now e in
    let divisors = spend-divisors p p' amount now e in
    record {
      oracle = kept.0 ∙ h.oracle;
      allowed = kept.1 ∙ h.allowed;
      usd = rw divisors.0 h.usd;
      tokens = λ i token v at of. h.tokens i token v at (rw divisors.1 at of);
    }

module _ (d : Storage DataKey PolicyData) where
  pub install-IsScaled :
      (auth : Auth) (a : Answers) (params : AccountParams) (rule : ContextRule) (account : Address)
      (s s' : d.State)
      → install d auth a params rule account s ≡ ok s'
      → (p : PolicyData) × (d.get (account_context account rule.id) s' ≡ some p)
        × IsScaled a params p
  unfolding install
  install-IsScaled auth a params rule account s s' e =
      let key = account_context account rule.id in
      let (_, _, e1) = >>=-eq-ok (check_install d auth params rule account s) _ e in
      let (u, hu, e2) = >>=-eq-ok (fetch_usd_divisor a params.oracle_address) _ e1 in
      let (ts, ht, e3) = >>=-eq-ok (fetch_token_divisors a params.allowed_tokens) _ e2 in
      let p = new_data params u ts in
      (
        p,
        subst (λ t. d.get key t ≡ some p) (ok-injective e3) (d.get-set_self key p s),
        record {
          oracle = refl;
          allowed = refl;
          usd = fetch_usd_divisor-ScaledBy a params.oracle_address u hu;
          tokens = λ i token v at of.
              fetch_token_divisors-ScaledBy a params.allowed_tokens ts i token v ht at of;
        },
      )

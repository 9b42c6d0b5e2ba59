-- ===== src/Threshold/Tests.antt =====
-- The threshold policy's theorem at a small library, which stores one number for each account and rule,
-- and two signers of whom both are needed.

use mathlib.Core.List.Sublist
use latch_contracts.Base.{
  ℕ, ◌≤◌, ◌≡◌, refl, ap, sym, true, false, Bool, Option, none, some, List, [], ◌∷◌, arith, length,
  leb, ◌==◌, ◌&&◌, if◌then◌else◌,
}
use latch_contracts.Soroban.{
  other, delegated, Address, Auth, Context, ContextRule, Signer, call_contract, Outcome, ok, panic,
}
use latch_contracts.Factory.{ThresholdParams}
use latch_contracts.Factory.{build_account_signers, build_account_policies}
use latch_contracts.Factory.Samples.{
  by_number, by_bytes, first_order, normalized, params_of, configured, normalized_ok,
}
use latch_contracts.Threshold.{Library, install}
use latch_contracts.Threshold.Quorum.{IsGuarded, enforce_all, normalize_params-IsGuarded}

abbrev State : Type 0
State = Address → ℕ → Option ℕ

abbrev put : Address → ℕ → Option ℕ → State → State
put a i o s b j = if a == b && i == j then o else s b j

abbrev set_with : Bool → ℕ → ContextRule → Address → State → Outcome ℕ State
set_with allowed t rule account s =
    if allowed && (leb 1 t && leb t (length rule.signers))
    then ok (put account rule.id (some t) s)
    else panic 1

abbrev vacant : Option ℕ → Bool
vacant none = true
vacant (some _) = false

abbrev enough : Bool → Option ℕ → ℕ → Bool
enough allowed none n = false
enough allowed (some t) n = allowed && leb t n

put_self : (a : Address) (i : ℕ) (o : Option ℕ) (s : State) → put a i o s a i ≡ o
put_self a i o s = ground arith

abbrev get : Option ℕ → Outcome ℕ ℕ
get none = panic 2
get (some t) = ok t

set_with-stored :
    (t : ℕ) (rule : ContextRule) (account : Address) (s : State)
    → 1 ≤ t
    → t ≤ length rule.signers
    → (s' : State) × (set_with true t rule account s ≡ ok s') × (s' account rule.id ≡ some t)
set_with-stored t rule account s low high =
    (put account rule.id (some t) s, ground arith, put_self account rule.id (some t) s)

abbrev check : Bool → Option ℕ → ℕ → State → Outcome ℕ State
check allowed t n s = if enough allowed t n then ok s else panic 3

check-ok :
    (allowed : Bool) (o : Option ℕ) (n : ℕ) (s s' : State) → check allowed o n s ≡ ok s' → s ≡ s'
check-ok allowed o n s s' e = ground arith

check-passes :
    (allowed : Bool) (o : Option ℕ) (t n : ℕ) (s : State)
    → allowed ≡ true
    → o ≡ some t
    → t ≤ n
    → check allowed o n s ≡ ok s
check-passes allowed o t n s by e high = ground arith

check-passed :
    (allowed : Bool) (o : Option ℕ) (t n : ℕ) (s s' : State)
    → check allowed o n s ≡ ok s'
    → o ≡ some t
    → (allowed ≡ true) × (t ≤ n)
check-passed false none t n s s' done e = absurd (cc)
check-passed false (some u) t n s s' done e = absurd (cc)
check-passed true none t n s s' done e = absurd (cc)
check-passed true (some u) t n s s' done e = (refl, ground arith)

-- The first signers of the rule stand for those that authenticate.
abbrev library : Library ℕ
library = record {
  State = State;
  Error = ℕ;
  stored = λ a i s. s a i;
  enforce = λ auth context authenticated rule account s.
      check (auth account) (s account rule.id) (length authenticated) s;
  install = λ auth p rule account s.
      set_with (auth account && vacant (s account rule.id)) p.threshold rule account s;
  uninstall =
      λ auth rule account s. if auth account then ok (put account rule.id none s) else panic 4;
  get_threshold = λ i a s. get (s a i);
  set_threshold = λ auth t rule account s. set_with (auth account) t rule account s;
  install-stored = λ auth p rule account s by fresh low high.
      rw (by, fresh) (set_with-stored p.threshold rule account s low high);
  set_threshold-stored =
      λ auth t u rule account s by old low high. rw by (set_with-stored t rule account s low high);
  get_threshold-stored = λ i a s t e. rw e refl;
  enforce-stored = λ auth context authenticated rule account s s' e.
      ap (λ (u : State). u account rule.id)
        (sym (check-ok (auth account) (s account rule.id) (length authenticated) s s' e));
  enforce-enough = λ auth context authenticated rule account s t by e sub high.
      (s, check-passes (auth account) (s account rule.id) t (length authenticated) s by e high);
  enforce-only_enough = λ auth context authenticated rule account s s' t done e sub.
      check-passed (auth account) (s account rule.id) t (length authenticated) s s' done e;
}

abbrev rule : ContextRule
rule = record {
  id = 1;
  context_type = call_contract 50;
  signers = build_account_signers configured normalized.signers;
}

abbrev by_account : Auth
by_account a = a == 7

-- One signer asks and is refused; then both ask.
abbrev calls : List (Auth × Context ℕ × List Signer)
calls = (by_account, other, delegated 4 ∷ []) ∷ []

normalize_params-IsGuarded_example :
    (p : ThresholdParams) × (build_account_policies configured 2 (length rule.signers)
      ≡ (configured.threshold_policy, p) ∷ [])
    × (some 2 ≡ some p.threshold)
    × (s' : State) × (install library by_account p rule 7 (λ _ _. none) ≡ ok s')
    × IsGuarded library rule 7 p.threshold by_account other rule.signers
        (enforce_all library rule 7 calls s')
normalize_params-IsGuarded_example =
    normalize_params-IsGuarded library by_number by_bytes configured (params_of first_order)
      normalized by_account rule 7 (λ _ _. none) calls by_account other rule.signers normalized_ok
      (omega arith) refl refl refl (Sublist.refl rule.signers)

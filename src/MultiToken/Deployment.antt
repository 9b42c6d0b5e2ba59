-- ===== src/MultiToken/Deployment.antt =====
-- One installation of policies/multi-token-spending-limit-policy/src/lib.rs in the contract that all accounts
-- share: which calls count as its own, and what each call does to its life.
use latch_contracts.Base.{
  ℕ, ◌≤◌, ◌<◌, ◌≡◌, ◌∙◌, inl, inr, refl, true, false, Option, none, List, [], ◌++◌, arith,
  Bool-cases,
}
use latch_contracts.Base.Int.{ℤ, pos, max_i128}
use latch_contracts.Soroban.{
  Address, Auth, Ledger, Context, ContextRule, Outcome, ok, panic, trap, Storage, >>=-eq-ok,
}
use mathlib.Core.List.{append-nil}
use latch_contracts.Policies.{Policy}
use latch_contracts.Policies.Kept.{installed_from-some}
use latch_contracts.Policies.Isolation.{
  enforce_call, install_call, configure_call, uninstall_call, perform, perform_action, after,
  concerns, effect, after-lookup,
}
use latch_contracts.MultiToken.{
  Error, AccountParams, SpendingEntry, PolicyData, DataKey, account_context, Answers, enforce,
  priced, get_policy_data,
}
use latch_contracts.MultiToken.Contract.{multi_token_policy}
use latch_contracts.MultiToken.Life.{Life, enforced, elsewhere, Life-IsSound}
use latch_contracts.MultiToken.Calls.{
  ContractAction, ContractCall, ledger_after, Keeps, paid, transfer_by, Undisturbed, transfer_for,
}

module _ (d : Storage DataKey PolicyData) {Val : Type 0} (to_i128 : Val → Option ℤ)
    (smart_account : Address) (rule : ContextRule) (params : AccountParams) (limit : ℕ)
    (small : limit < max_i128) (capped : params.spending_limit_usd ≡ pos limit) where
  abbrev key : DataKey
  key = account_context smart_account rule.id

  abbrev policy : Policy Val
  policy = multi_token_policy d Val to_i128

  -- The life that goes on at a ledger up to `last`.
  abbrev pub Lives : d.State → List SpendingEntry → ℕ → Type 0
  Lives s log last = (l : ℕ) × (l ≤ last) × Life d to_i128 smart_account rule params s log l

  unchanged :
      (s s' : d.State) (log : List SpendingEntry) (l last : ℕ)
      → Life d to_i128 smart_account rule params s log l
      → l ≤ last
      → d.get key s' ≡ d.get key s
      → Lives s' (log ++ []) last
  unchanged s s' log l last life low same = rw append-nil (l, low, elsewhere life same)

  -- `enforce` reads the number of the rule only.
  module _ (auth : Auth) (a : Answers) (ledger : Ledger) (context : Context Val) (r : ContextRule)
      (same : r.id ≡ rule.id) (s : d.State) where
    priced-rule :
        priced d to_i128 auth a ledger context r smart_account s
        ≡ priced d to_i128 auth a ledger context rule smart_account s
    unfolding priced get_policy_data
    priced-rule = rw same refl

    enforce-rule :
        enforce d to_i128 auth a ledger context r smart_account s
        ≡ enforce d to_i128 auth a ledger context rule smart_account s
    unfolding enforce
    enforce-rule = rw (priced-rule, same) refl

    pays :
        (log : List SpendingEntry) (l last : ℕ)
        → Life d to_i128 smart_account rule params s log l
        → l ≤ last
        → last ≤ ledger.sequence
        → (o : Outcome Error d.State)
        → enforce d to_i128 auth a ledger context rule smart_account s ≡ o
        → Lives
            (after policy s o)
            (log
              ++ paid d to_i128 ledger.sequence o
                  (priced d to_i128 auth a ledger context rule smart_account s))
            ledger.sequence
    unfolding enforce
    pays log l last life low later (ok s') e =
        let ((p, s1, usd), e1, e2) =
          >>=-eq-ok (priced d to_i128 auth a ledger context rule smart_account s) _ e in
        rw e1 (
          ledger.sequence,
          omega arith,
          enforced auth a ledger context p s1 usd life (omega arith) e1 e,
        )
    pays log l last life low later (panic _) e =
        unchanged s s log l ledger.sequence life (omega arith) refl
    pays log l last life low later trap e =
        unchanged s s log l ledger.sequence life (omega arith) refl

  -- A call that has no effect on the entry leaves it alone.
  idle :
      (auth : Auth) (r : ContextRule) (a : ContractAction Val) (s : d.State)
      → r.id ≡ rule.id
      → effect policy (auth smart_account) r a (d.get key s) ≡ none
      → d.get key (after policy s (perform_action policy auth r smart_account a s)) ≡ d.get key s
  idle auth r a s same none_done =
      let c : ContractCall Val = record {
        auth = auth;
        account = smart_account;
        rule = r;
        action = a;
      } in
      let mine : concerns policy smart_account rule.id c ≡ true = ground arith in
      after-lookup policy smart_account rule.id c s ∙ rw (mine, none_done) refl

  -- A call of the installation's own account and rule.
  own_call :
      (auth : Auth) (r : ContextRule) (a : ContractAction Val) (s : d.State)
      (log : List SpendingEntry) (l last : ℕ)
      → r.id ≡ rule.id
      → Life d to_i128 smart_account rule params s log l
      → l ≤ last
      → last ≤ ledger_after last a
      → Keeps auth smart_account a
      → Lives
          (after policy s (perform_action policy auth r smart_account a s))
          (log ++ transfer_by d to_i128 auth r smart_account a s)
          (ledger_after last a)
  unfolding perform_action effect
  own_call auth r (enforce_call f context signers) s log l last same life low later keeps =
      rw (enforce-rule auth f.0 f.1 context r same s, priced-rule auth f.0 f.1 context r same s)
        (pays auth f.0 f.1 context r same s log l last life low later _ refl)
  own_call auth r (install_call f params') s log l last same life low later keeps =
      let h = Life-IsSound d to_i128 smart_account rule params limit small capped life in
      unchanged s _ log l f.1.sequence life (omega arith)
        (idle auth r (install_call f params') s same (rw h.stored (installed_from-some _ _ _)))
  own_call auth r (configure_call c) s log l last same life low later keeps = absurd c
  own_call auth r uninstall_call s log l last same life low later keeps =
      unchanged s _ log l last life low (idle auth r uninstall_call s same (rw keeps refl))

  -- A call of another account or rule.
  other_call :
      (c : ContractCall Val) (s : d.State)
      → concerns policy smart_account rule.id c ≡ false
      → d.get key (after policy s (perform policy c s)) ≡ d.get key s
  other_call c s other = after-lookup policy smart_account rule.id c s ∙ rw other refl

  pub any_call :
      (c : ContractCall Val) (s : d.State) (log : List SpendingEntry) (l last : ℕ)
      → Life d to_i128 smart_account rule params s log l
      → l ≤ last
      → last ≤ ledger_after last c.action
      → Undisturbed d to_i128 smart_account rule.id c
      → Lives
          (after policy s (perform policy c s))
          (log ++ transfer_for d to_i128 smart_account rule.id c s)
          (ledger_after last c.action)
  any_call c s log l last life low later keeps =
      elim (Bool-cases (concerns policy smart_account rule.id c)) [
        | inl mine ↦
            let account : c.account ≡ smart_account = ground arith in
            let own_rule : c.rule.id ≡ rule.id = ground arith in
            rw (mine, account)
              (own_call c.auth c.rule c.action s log l last own_rule life low later
                (kept mine keeps))
        | inr other ↦ rw other (
            unchanged s _ log l (ledger_after last c.action) life (omega arith)
              (other_call c s other))
      ]
    where
      kept :
          concerns policy smart_account rule.id c ≡ true
          → Undisturbed d to_i128 smart_account rule.id c
          → Keeps c.auth smart_account c.action
      kept mine (inl other) = absurd (cc)
      kept mine (inr keeps') = keeps'

-- ===== src/FeeForwarder/Tests.antt =====
-- The fee forwarder's theorems at a small library, which keeps a table of roles, the tokens allowed and
-- the amount collected; every fee of at most the maximum is paid.
use latch_contracts.Base.{
  ℕ, ◌≡◌, ◌⊎◌, ◌↔◌, refl, Bool, true, false, List, [], ◌∷◌, arith, ◌==◌, ◌&&◌, ◌||◌, All, eq_iff,
  str_eq, if◌then◌else◌,
}
use latch_contracts.Base.Int.{ℤ, pos, leb_ℤ, saturating_add}
use latch_contracts.Soroban.{Address, Symbol, Auth, Outcome, ok, panic, trap}
use latch_contracts.FeeForwarder.{
  manager_role, executor_role, Library, Request, grant_executors, constructor, forward,
  enable_fee_token, disable_fee_token, sweep_tokens,
}
use latch_contracts.FeeForwarder.Roles.{IsIn}
use latch_contracts.FeeForwarder.Steps.{Call, forward_call, sweep_call, run}
use latch_contracts.FeeForwarder.Deployed.{
  IsManaged, IsOutsider, constructor-run-forward, constructor-run-manage,
  constructor-run-unauthorized,
}

record State : Type 0 where
  roles : Address → Symbol → Bool
  allowed : Address → Bool
  collected : ℤ

abbrev give : Address → Symbol → State → State
give a r s = record s { roles = λ x y. (x == a && str_eq y r) || s.roles x y }

abbrev role_check : Auth → Address → Symbol → State → Outcome ℕ (Unit {0})
role_check auth a r s = if s.roles a r && auth a then ok tt else panic 1

abbrev collect : Auth → Request ℕ → Address → Unit {0} → State → Outcome ℕ (ℕ × State)
collect auth q to approval s =
    if auth q.user && (s.allowed q.fee_token && leb_ℤ q.fee_amount q.max_fee_amount)
    then ok (q.target_contract, record s { collected = saturating_add s.collected q.fee_amount })
    else trap

role_check_iff :
    (auth : Auth) (a : Address) (r : Symbol) (s : State)
    → (role_check auth a r s ≡ ok tt) ↔ ((s.roles a r ≡ true) × (auth a ≡ true))
role_check_iff auth a r s = ground arith

give_iff :
    (account : Address) (role : Symbol) (caller : Address) (s s' : State)
    → ◌≡◌ {A = Outcome ℕ State} (ok (give account role s)) (ok s')
    → (a : Address) (r : Symbol)
    → (s'.roles a r ≡ true) ↔ (((a ≡ account) × (r ≡ role)) ⊎ (s.roles a r ≡ true))
give_iff account role caller s s' h a r = let e = eq_iff r role in ground (arith, e)

collect-roles :
    (auth : Auth) (q : Request ℕ) (to : Address) (approval : Unit {0}) (s : State) (v : ℕ)
    (s' : State)
    → collect auth q to approval s ≡ ok (v, s')
    → (a : Address) (r : Symbol) → s'.roles a r ≡ s.roles a r
collect-roles auth q to approval s v s' h a r = ground arith

ok-roles :
    (t s s' : State)
    → ((a : Address) (r : Symbol) → t.roles a r ≡ s.roles a r)
    → ◌≡◌ {A = Outcome ℕ State} (ok t) (ok s')
    → (a : Address) (r : Symbol) → s'.roles a r ≡ s.roles a r
ok-roles t s s' same h a r = let e = same a r in ground arith

swept-roles :
    (s : State) (n m : ℤ) (s' : State)
    → ◌≡◌ {A = Outcome ℕ (ℤ × State)} (ok (m, record s { collected = pos 0 })) (ok (n, s'))
    → (a : Address) (r : Symbol) → s'.roles a r ≡ s.roles a r
swept-roles s n m s' h a r = ground arith

abbrev allow : Address → Bool → State → State
allow token b s = record s { allowed = λ t. if t == token then b else s.allowed t }

abbrev library : Library ℕ
library = record {
  State = State;
  Error = ℕ;
  Approval = Unit {0};
  lazy = tt;
  has_role = λ a r s. s.roles a r;
  only_role = role_check;
  set_admin = λ _ s. ok s;
  grant_role_no_auth = λ a r _ s. ok (give a r s);
  collect_fee_and_invoke = collect;
  set_allowed_fee_token = λ token b s. ok (allow token b s);
  sweep_token = λ token recipient s. ok (s.collected, record s { collected = pos 0 });
  only_role_iff = role_check_iff;
  has_role-set_admin = λ admin s s'. ok-roles s s s' (λ _ _. refl);
  has_role-grant_role_no_auth = give_iff;
  has_role-collect_fee_and_invoke = collect-roles;
  has_role-set_allowed_fee_token = λ token b s s'. ok-roles (allow token b s) s s' (λ _ _. refl);
  has_role-sweep_token = λ token recipient s n s'. swept-roles s n s.collected s';
}

abbrev before : State
before = record { roles = λ _ _. false; allowed = λ _. true; collected = pos 0 }

abbrev after : State
after = give 4 executor_role (give 3 executor_role (give 2 manager_role before))

deployed : constructor library 1 2 (3 ∷ 4 ∷ []) before ≡ ok after
unfolding constructor grant_executors
deployed = refl

abbrev by_executor : Auth
by_executor a = a == 3 || a == 9

abbrev request : Request ℕ
request = record {
  fee_token = 50;
  fee_amount = pos 5;
  max_fee_amount = pos 6;
  expiration_ledger = 100;
  target_contract = 60;
  target_fn = "swap";
  target_args = [];
  user = 9;
}

-- An executor relays for 9; then someone without a role tries to sweep.
abbrev calls : List (Call ℕ)
calls =
    record { auth = by_executor; action = forward_call request 3 }
    ∷ record { auth = λ a. a == 9; action = sweep_call 50 9 9 }
    ∷ []

abbrev sweep_by_user : List (Call ℕ)
sweep_by_user = record { auth = λ a. a == 9; action = sweep_call 50 9 9 } ∷ []

denied : All (IsOutsider 2 (3 ∷ 4 ∷ [])) sweep_by_user
denied = ((λ a r given. ground arith), tt)

constructor-run-unauthorized_example : run library 70 sweep_by_user after ≡ after
constructor-run-unauthorized_example =
    constructor-run-unauthorized library 70 1 2 (3 ∷ 4 ∷ []) before after (λ _ _. refl) deployed
      sweep_by_user denied

constructor-run-forward_example :
    (forward library by_executor 70 request 3 (run library 70 calls after)
      ≡ ok (60, record after { collected = pos 10 }))
    ↔ (IsIn 3 (3 ∷ 4 ∷ [])
        × (by_executor 3 ≡ true)
        × (collect by_executor request 70 tt (run library 70 calls after)
            ≡ ok (60, record after { collected = pos 10 })))
constructor-run-forward_example =
    constructor-run-forward library 70 1 2 (3 ∷ 4 ∷ []) before after (λ _ _. refl) deployed calls
      by_executor request 3 60 (record after { collected = pos 10 })

abbrev by_manager : Auth
by_manager a = a == 2

abbrev now : State
now = run library 70 calls after

abbrev swept : State
swept = record now { collected = pos 0 }

constructor-run-manage_example :
    IsManaged 2 by_manager 2
      (library.set_allowed_fee_token 50 true now)
      swept
      (enable_fee_token library by_manager 50 2 now)
    × IsManaged 2 by_manager 2
        (library.set_allowed_fee_token 50 false now)
        swept
        (disable_fee_token library by_manager 50 2 now)
    × IsManaged 2 by_manager 2
        (library.sweep_token 50 80 now)
        (pos 5, swept)
        (sweep_tokens library by_manager 50 80 2 now)
constructor-run-manage_example =
    constructor-run-manage library 70 1 2 (3 ∷ 4 ∷ []) before after (λ _ _. refl) deployed calls
      by_manager 50 80 2 (pos 5) swept

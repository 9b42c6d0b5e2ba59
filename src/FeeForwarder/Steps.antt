-- ===== src/FeeForwarder/Steps.antt =====
-- Calls of the fee forwarder by anyone, after its construction: forward, enable_fee_token,
-- disable_fee_token and sweep_tokens of fee-forwarder/src/lib.rs. The calls of the AccessControl
-- interface, which change the roles, are code of the library.
use latch_contracts.Base.{◌≡◌, ◌↔◌, refl, ◌∙◌, Bool, true, false, List, [], ◌∷◌, arith}
use latch_contracts.Base.Int.{ℤ}
use latch_contracts.Soroban.{Address, Symbol, Auth, Outcome, ok, panic, trap, ◌>>◌}
use latch_contracts.FeeForwarder.{
  manager_role, executor_role, Library, Request, forward, enable_fee_token, disable_fee_token,
  sweep_tokens,
}

pub data Action (Val : Type 0) : Type 0 where
  forward_call : Request Val → (relayer : Address) → Action Val
  enable_call disable_call : (token operator : Address) → Action Val
  sweep_call : (token recipient operator : Address) → Action Val

-- A call, with the authorizations of its transaction.
pub record Call (Val : Type 0) : Type 0 where
  pub auth : Auth
  pub action : Action Val

-- The state that a call leaves; one that fails is rolled back.
abbrev pub left_by : {E S : Type 0} → S → Outcome E S → S
left_by s (ok s') = s'
left_by s (panic _) = s
left_by s trap = s

abbrev pub left_by_result : {E A S : Type 0} → S → Outcome E (A × S) → S
left_by_result s (ok (a, s')) = s'
left_by_result s (panic _) = s
left_by_result s trap = s

module _ {Val : Type 0} (l : Library Val) (this : Address) where
  pub perform : Auth → Action Val → l.State → l.State
  perform auth (forward_call q relayer) s = left_by_result s (forward l auth this q relayer s)
  perform auth (enable_call token operator) s = left_by s (enable_fee_token l auth token operator s)
  perform auth (disable_call token operator) s =
      left_by s (disable_fee_token l auth token operator s)
  perform auth (sweep_call token recipient operator) s =
      left_by_result s (sweep_tokens l auth token recipient operator s)

  unfoldable pub run : List (Call Val) → l.State → l.State
  run [] s = s
  run (c ∷ cs) s = run cs (perform c.auth c.action s)

  -- What `only_role` lets through is the call behind it.
  pub guarded_iff :
      {A : Type 0} (auth : Auth) (operator : Address) (role : Symbol) (s : l.State)
      (call : Outcome l.Error A) (a : A)
      → (l.only_role auth operator role s >> call ≡ ok a)
        ↔ ((l.has_role operator role s ≡ true) × (auth operator ≡ true) × (call ≡ ok a))
  guarded_iff auth operator role s call a =
      let checked = l.only_role_iff auth operator role s in ground (arith, checked)

  left_by_lem :
      (P : l.State → Type 0) (s : l.State) (r : Outcome l.Error l.State)
      → P s
      → ((s' : l.State) → r ≡ ok s' → P s')
      → P (left_by s r)
  left_by_lem P s (ok s') h next = next s' refl
  left_by_lem P s (panic _) h next = h
  left_by_lem P s trap h next = h

  left_by_result_lem :
      {A : Type 0} (P : l.State → Type 0) (s : l.State) (r : Outcome l.Error (A × l.State))
      → P s
      → ((a : A) (s' : l.State) → r ≡ ok (a, s') → P s')
      → P (left_by_result s r)
  left_by_result_lem P s (ok (a, s')) h next = next a s' refl
  left_by_result_lem P s (panic _) h next = h
  left_by_result_lem P s trap h next = h

  -- What holds before a call and after what it may do, by whom it may do it, holds after it.
  pub perform_lem :
      (P : l.State → Type 0) (auth : Auth) (action : Action Val) (s : l.State)
      → P s
      → ((a : Address)
          → (l.has_role a executor_role s ≡ true)
          → (auth a ≡ true)
          → (q : Request Val) (v : Val) (s' : l.State)
          → l.collect_fee_and_invoke auth q this l.lazy s ≡ ok (v, s')
          → P s')
      → ((a : Address)
          → (l.has_role a manager_role s ≡ true)
          → (auth a ≡ true)
          → ((token : Address) (b : Bool) (s' : l.State)
              → l.set_allowed_fee_token token b s ≡ ok s'
              → P s')
            × ((token recipient : Address) (n : ℤ) (s' : l.State)
                → l.sweep_token token recipient s ≡ ok (n, s')
                → P s'))
      → P (perform auth action s)
  unfolding perform forward enable_fee_token disable_fee_token sweep_tokens
  perform_lem P auth (forward_call q relayer) s h executed managed =
      left_by_result_lem P s _ h (λ v s' e.
        let (role, by, done) = (guarded_iff auth relayer "executor" s _ (v, s')).0 e in
        executed relayer role by q v s' done)
  perform_lem P auth (enable_call token operator) s h executed managed =
      left_by_lem P s _ h (λ s' e.
        let (role, by, done) = (guarded_iff auth operator "manager" s _ s').0 e in
        (managed operator role by).0 token true s' done)
  perform_lem P auth (disable_call token operator) s h executed managed =
      left_by_lem P s _ h (λ s' e.
        let (role, by, done) = (guarded_iff auth operator "manager" s _ s').0 e in
        (managed operator role by).0 token false s' done)
  perform_lem P auth (sweep_call token recipient operator) s h executed managed =
      left_by_result_lem P s _ h (λ n s' e.
        let (role, by, done) = (guarded_iff auth operator "manager" s _ (n, s')).0 e in
        (managed operator role by).1 token recipient n s' done)

  pub run-has_role :
      (calls : List (Call Val)) (s : l.State) (a : Address) (r : Symbol)
      → l.has_role a r (run calls s) ≡ l.has_role a r s
  unfolding run
  run-has_role [] s a r = refl
  run-has_role (c ∷ cs) s a r =
      run-has_role cs (perform c.auth c.action s) a r
      ∙ perform_lem (λ s'. l.has_role a r s' ≡ l.has_role a r s) c.auth c.action s refl
          (λ x _ _ q v s' done.
            l.has_role-collect_fee_and_invoke c.auth q this l.lazy s v s' done a r)
          (λ x _ _. (
            λ token b s' done. l.has_role-set_allowed_fee_token token b s s' done a r,
            λ token recipient n s' done. l.has_role-sweep_token token recipient s n s' done a r,
          ))

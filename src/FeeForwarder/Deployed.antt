-- ===== src/FeeForwarder/Deployed.antt =====
-- The fee forwarder after its deployment: who can make which call of fee-forwarder/src/lib.rs,
-- through any calls of its entry points.
use latch_contracts.Base.{◌≡◌, ◌↔◌, refl, ap, ◌∙◌, true, false, List, [], ◌∷◌, arith, All, eq_iff}
use latch_contracts.Base.Int.{ℤ}
use latch_contracts.Soroban.{Address, Symbol, Auth, Outcome, ok, ◌>>◌}
use latch_contracts.FeeForwarder.{
  manager_role, executor_role, Library, Request, constructor, forward, enable_fee_token,
  disable_fee_token, sweep_tokens,
}
use latch_contracts.FeeForwarder.Roles.{IsIn, IsGranted, constructor-has_role}
use latch_contracts.FeeForwarder.Steps.{Call, perform, run, guarded_iff, perform_lem, run-has_role}

-- An entry point that ends in `a` exactly if the manager calls it and the call behind it ends in
-- `a`.
abbrev pub IsManaged :
    {E A : Type 0}
    → Address
    → Auth
    → Address
    → (call : Outcome E A) → (a : A) → (entry_point : Outcome E A) → Type 0
IsManaged manager auth operator call a entry_point =
    (entry_point ≡ ok a) ↔ ((operator ≡ manager) × (auth operator ≡ true) × (call ≡ ok a))

-- No authorization in the transaction is one of a manager or an executor of the deployment.
abbrev pub IsOutsider : {Val : Type 0} → Address → List Address → Call Val → Type 0
IsOutsider manager executors c =
    (a : Address) (r : Symbol) → IsGranted manager executors a r → c.auth a ≡ false

module _ {Val : Type 0} (l : Library Val) (this : Address) where
  module _ (admin manager : Address) (executors : List Address) (s s' : l.State)
      (fresh : (a : Address) (r : Symbol) → l.has_role a r s ≡ false)
      (deployed : constructor l admin manager executors s ≡ ok s') (calls : List (Call Val)) where
    run-IsGranted :
        (a : Address) (r : Symbol)
        → (l.has_role a r (run l this calls s') ≡ true) ↔ IsGranted manager executors a r
    run-IsGranted a r =
        let same = run-has_role l this calls s' a r in
        let given = constructor-has_role l admin manager executors s s' fresh deployed a r in
        ground (arith, same, given)

    -- Through any calls of its own entry points after a deployment that found nobody with a role,
    -- the forwarder relays for its executors only, and for them always: `forward` returns a result
    -- exactly if the relayer is one of the executors of the deployment and authorizes the call, and
    -- the fee abstraction collects the fee for the forwarder itself and invokes the target with
    -- that result.
    pub constructor-run-forward :
        (auth : Auth) (q : Request Val) (relayer : Address) (v : Val) (end : l.State)
        → (forward l auth this q relayer (run l this calls s') ≡ ok (v, end)) ↔ (
            IsIn relayer executors
            × (auth relayer ≡ true)
            × (l.collect_fee_and_invoke auth q this l.lazy (run l this calls s') ≡ ok (v, end)))
    unfolding forward
    constructor-run-forward auth q relayer v end =
        let guard =
          guarded_iff l this auth relayer "executor" (run l this calls s')
            (l.collect_fee_and_invoke auth q this l.lazy (run l this calls s')) (v, end) in
        let given = run-IsGranted relayer executor_role in
        let names = eq_iff manager_role executor_role in ground (arith, guard, given, names)

    -- Through any calls of its own entry points after a deployment that found nobody with a role,
    -- the forwarder's manager, with the manager's authorization, and nobody else can allow a fee
    -- token, disallow one and sweep what was collected; for the manager each of the three does what
    -- the fee abstraction does.
    pub constructor-run-manage :
        (auth : Auth) (token recipient operator : Address) (n : ℤ) (end : l.State)
        → IsManaged manager auth operator
            (l.set_allowed_fee_token token true (run l this calls s'))
            end
            (enable_fee_token l auth token operator (run l this calls s'))
          × IsManaged manager auth operator
              (l.set_allowed_fee_token token false (run l this calls s'))
              end
              (disable_fee_token l auth token operator (run l this calls s'))
          × IsManaged manager auth operator
              (l.sweep_token token recipient (run l this calls s'))
              (n, end)
              (sweep_tokens l auth token recipient operator (run l this calls s'))
    unfolding enable_fee_token disable_fee_token sweep_tokens
    constructor-run-manage auth token recipient operator n end = (
      managed (l.set_allowed_fee_token token true (run l this calls s')) end,
      managed (l.set_allowed_fee_token token false (run l this calls s')) end,
      managed (l.sweep_token token recipient (run l this calls s')) (n, end),
    )
      where
        managed :
            {A : Type 0} (call : Outcome l.Error A) (a : A)
            → IsManaged manager auth operator call a
                (l.only_role auth operator "manager" (run l this calls s') >> call)
        managed call a =
            let guard =
              guarded_iff l this auth operator manager_role (run l this calls s') call a in
            let given = run-IsGranted operator manager_role in
            let names = eq_iff manager_role executor_role in ground (arith, guard, given, names)

  module _ (admin manager : Address) (executors : List Address) where
    perform-unauthorized :
        (c : Call Val) (s : l.State)
        → ((a : Address) (r : Symbol) → (l.has_role a r s ≡ true) ↔ IsGranted manager executors a r)
        → IsOutsider manager executors c
        → perform l this c.auth c.action s ≡ s
    perform-unauthorized c s given denied =
        perform_lem l this (λ s'. s' ≡ s) c.auth c.action s refl
          (λ a role by q v s' done.
            let no = denied a executor_role ((given a executor_role).0 role) in absurd (cc))
          (λ a role by.
            let no = denied a manager_role ((given a manager_role).0 role) in absurd (cc))

    run-unauthorized :
        (calls : List (Call Val)) (s : l.State)
        → ((a : Address) (r : Symbol) → (l.has_role a r s ≡ true) ↔ IsGranted manager executors a r)
        → All
            (λ c. (a : Address) (r : Symbol) → IsGranted manager executors a r → c.auth a ≡ false)
            calls
        → run l this calls s ≡ s
    unfolding run
    run-unauthorized [] s given denied = refl
    run-unauthorized (c ∷ cs) s given denied =
        ap (run l this cs) (perform-unauthorized c s given denied.0)
        ∙ run-unauthorized cs s given denied.1

    -- Nobody else can do anything: after a deployment that found nobody with a role, any calls of
    -- the forwarder's own entry points whose transactions carry no authorization of the manager or
    -- of an executor leave the whole state as it is, the tokens and the target contracts included.
    pub constructor-run-unauthorized :
        (s s' : l.State)
        → ((a : Address) (r : Symbol) → l.has_role a r s ≡ false)
        → constructor l admin manager executors s ≡ ok s'
        → (calls : List (Call Val))
        → All
            (λ c. (a : Address) (r : Symbol) → IsGranted manager executors a r → c.auth a ≡ false)
            calls
        → run l this calls s' ≡ s'
    constructor-run-unauthorized s s' fresh deployed calls =
        run-unauthorized calls s'
          (constructor-has_role l admin manager executors s s' fresh deployed)

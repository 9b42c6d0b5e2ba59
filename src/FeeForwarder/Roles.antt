-- ===== src/FeeForwarder/Roles.antt =====
-- The roles that the fee forwarder's constructor gives, in __constructor of fee-forwarder/src/lib.rs.
use latch_contracts.Base.{◌≡◌, ◌⊎◌, ◌↔◌, true, false, List, [], ◌∷◌, arith}
use latch_contracts.Soroban.{Address, Symbol, ok, ok-injective, >>=-eq-ok}
use latch_contracts.FeeForwarder.{
  manager_role, executor_role, Library, grant_executors, constructor,
}

abbrev pub IsIn : Address → List Address → Type 0
IsIn a [] = ⊥
IsIn a (b ∷ bs) = (a ≡ b) ⊎ IsIn a bs

-- The roles that a deployment is to give.
abbrev pub IsGranted : Address → List Address → Address → Symbol → Type 0
IsGranted manager executors a r =
    ((a ≡ manager) × (r ≡ manager_role)) ⊎ (IsIn a executors × (r ≡ executor_role))

module _ {Val : Type 0} (l : Library Val) where
  grant_executors-has_role :
      (executors : List Address) (admin : Address) (s s' : l.State) (a : Address) (r : Symbol)
      → grant_executors l executors admin s ≡ ok s'
      → (l.has_role a r s' ≡ true)
        ↔ ((IsIn a executors × (r ≡ executor_role)) ⊎ (l.has_role a r s ≡ true))
  unfolding grant_executors
  grant_executors-has_role [] admin s s' a r h = let e = ok-injective h in ground (arith, e)
  grant_executors-has_role (executor ∷ executors) admin s s' a r h =
      let (s₁, granted, rest) =
        >>=-eq-ok (l.grant_role_no_auth executor executor_role admin s)
          (λ s₁. grant_executors l executors admin s₁) h in
      let one = l.has_role-grant_role_no_auth executor executor_role admin s s₁ granted a r in
      let others = grant_executors-has_role executors admin s₁ s' a r rest in
      ground (arith, one, others)

  -- A deployment gives the roles that it is asked to give and no others: if nobody has a role before
  -- and the constructor succeeds, an address has a role exactly if it is the manager and the role is
  -- `manager`, or it is one of the executors and the role is `executor`.
  pub constructor-has_role :
      (admin manager : Address) (executors : List Address) (s s' : l.State)
      → ((a : Address) (r : Symbol) → l.has_role a r s ≡ false)
      → constructor l admin manager executors s ≡ ok s'
      → (a : Address) (r : Symbol) → (l.has_role a r s' ≡ true) ↔ IsGranted manager executors a r
  unfolding constructor
  constructor-has_role admin manager executors s s' fresh h a r =
      let (s₁, with_admin, h₁) = >>=-eq-ok (l.set_admin admin s) _ h in
      let (s₂, with_manager, h₂) =
        >>=-eq-ok (l.grant_role_no_auth manager manager_role admin s₁) _ h₁ in
      let none_before = fresh a r in
      let none_then = l.has_role-set_admin admin s s₁ with_admin a r in
      let one = l.has_role-grant_role_no_auth manager manager_role admin s₁ s₂ with_manager a r in
      let others = grant_executors-has_role executors admin s₂ s' a r h₂ in ground arith

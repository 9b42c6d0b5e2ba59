-- ===== src/Policies/Entries.antt =====
-- The entries of a storage whose keys are made of an account and a rule.
use latch_contracts.Base.{ℕ, ◌≡◌, ◌⊎◌, inl, inr, ℕ_discrete}
use latch_contracts.Soroban.{Address, Storage}

module _ {K V : Type 0} (d : Storage K V) (key : Address → ℕ → K)
    (key-injective : (a b : Address) (i j : ℕ) → key a i ≡ key b j → (a ≡ b) × (i ≡ j)) where
  -- The entry is the one of the account and the rule, or it is what it was.
  abbrev pub Others : Address → ℕ → d.State → d.State → Type 0
  Others account id s s' =
      (a : Address) (i : ℕ) → ((a ≡ account) × (i ≡ id)) ⊎ (d.get (key a i) s' ≡ d.get (key a i) s)

  split :
      (account : Address) (id : ℕ) (s s' : d.State)
      → ((k : K) → ¬ (k ≡ key account id) → d.get k s' ≡ d.get k s)
      → Others account id s s'
  split account id s s' kept a i = elim (ℕ_discrete a account) [
    | yes p ↦ elim (ℕ_discrete i id) [
      | yes q ↦ inl (p, q)
      | no n ↦ inr (kept (key a i) (λ e. n (key-injective a account i id e).1))
    ]
    | no n ↦ inr (kept (key a i) (λ e. n (key-injective a account i id e).0))
  ]

  pub set-Others :
      (account : Address) (id : ℕ) (v : V) (s : d.State)
      → Others account id s (d.set (key account id) v s)
  set-Others account id v s = split account id s _ (λ k n. d.get-set_ne k (key account id) v s n)

  pub remove-Others :
      (account : Address) (id : ℕ) (s : d.State) → Others account id s (d.remove (key account id) s)
  remove-Others account id s = split account id s _ (λ k n. d.get-remove_ne k (key account id) s n)

  pub extend_ttl-Others :
      (account : Address) (id t x : ℕ) (s : d.State)
      → Others account id s (d.extend_ttl (key account id) t x s)
  extend_ttl-Others account id t x s a i = inr (d.get-extend_ttl (key a i) (key account id) t x s)

-- ===== src/Policies/Kept.antt =====
-- What the calls for an account and a rule keep of their entry, the contract keeps of it.
use latch_contracts.Base.{
  ℕ, ◌≡◌, ◌⊎◌, inl, inr, sym, subst, Bool, refl, none, some, true, false, Option, List, [], ◌∷◌,
  arith, All, get_or, Bool-cases,
}
use latch_contracts.Soroban.{Address}
use latch_contracts.Policies.{Policy, installed_from}
use latch_contracts.Policies.Isolation.{Call, run, concerns, effect, replay, run-replay}

-- Nothing is installed where something is.
pub installed_from-some :
    {Stored : Type 0} (authorized : Bool) (accepted : Option Stored) (stored : Stored)
    → installed_from authorized accepted (some stored) ≡ none
installed_from-some false accepted stored = refl
installed_from-some true none stored = refl
installed_from-some true (some new) stored = refl

module _ {Val : Type 0} (p : Policy Val) (account : Address) (id : ℕ)
    (Kept : Option p.Stored → Type 0) where
  -- A call for another account or rule, or one whose effect on the entry keeps it.
  abbrev pub KeepsEntry : Call Val p.Facts p.Params p.Config → Type 0
  KeepsEntry c =
      (concerns p account id c ≡ false)
      ⊎ ((e : Option p.Stored)
          → Kept e
          → Kept (get_or (effect p (c.auth account) c.rule c.action e) e))

  replay-Kept :
      (calls : List (Call Val p.Facts p.Params p.Config)) (e : Option p.Stored)
      → All KeepsEntry calls
      → Kept e
      → Kept (replay p account id calls e)
  unfolding replay
  replay-Kept [] e all k = k
  replay-Kept (c ∷ cs) e all k = elim (Bool-cases (concerns p account id c)) [
    | inr other ↦ rw other (replay-Kept cs e all.1 k)
    | inl mine ↦
        let own : c.account ≡ account = ground arith in
        rw (mine, own) (replay-Kept cs _ all.1 (kept mine all.0))
  ]
    where
      kept :
          concerns p account id c ≡ true
          → KeepsEntry c
          → Kept (get_or (effect p (c.auth account) c.rule c.action e) e)
      kept mine (inl other) = absurd (cc)
      kept mine (inr keeps) = keeps e k

  pub run-Kept :
      (calls : List (Call Val p.Facts p.Params p.Config)) (s : p.State)
      → All KeepsEntry calls
      → Kept (p.lookup account id s)
      → Kept (p.lookup account id (run p calls s))
  run-Kept calls s all k =
      subst Kept (sym (run-replay p account id calls s)) (replay-Kept calls _ all k)

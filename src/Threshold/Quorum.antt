-- ===== src/Threshold/Quorum.antt =====
-- The threshold policy on an account that the factory makes: what build_account_signers and
-- build_account_policies of account-factory/contracts/factory-contract/src/lib.rs hand to the account is
-- what policies/threshold-policy/src/lib.rs takes.
use mathlib.Core.List.{Sublist}
use latch_contracts.Base.{
  ℕ, suc, ◌≤◌, ◌<◌, ◌≡◌, ◌↔◌, refl, ap, ◌∙◌, true, none, some, List, [], ◌∷◌, arith, length,
}
use latch_contracts.Soroban.{
  Address, Bytes, Auth, Context, ContextRule, Signer, Outcome, ok, panic, trap,
}
use latch_contracts.Factory.{
  FactoryConfig, AccountInitParams, AccountSignerInit, NormalizedParams, ThresholdParams, Order,
  normalize_params, build_account_signers, build_account_policies,
}
use latch_contracts.Factory.Create.{normalize_params-IsNormal, effective_threshold-given}
use latch_contracts.Threshold.{Library, enforce, install, get_threshold}

abbrev pub kept : {E S : Type 0} → S → Outcome E S → S
kept s (ok s') = s'
kept s (panic _) = s
kept s trap = s

length-build_account_signers :
    (cfg : FactoryConfig) (signers : List AccountSignerInit)
    → length (build_account_signers cfg signers) ≡ length signers
unfolding build_account_signers
length-build_account_signers cfg [] = refl
length-build_account_signers cfg (s ∷ signers) = ap suc (length-build_account_signers cfg signers)

module _ {Val : Type 0} (l : Library Val) where
  -- The account reads the threshold, which lies between one and the number of the rule's signers, and
  -- the call is let through exactly if the account authorizes it and as many signers authenticated it.
  pub record IsGuarded (rule : ContextRule) (account : Address) (threshold : ℕ) (auth : Auth)
      (context : Context Val) (authenticated : List Signer) (s : l.State) : Type 0 where
    pub read : get_threshold l rule.id account s ≡ ok threshold
    pub at_least_one : 1 ≤ threshold
    pub at_most_all : threshold ≤ length rule.signers
    pub quorum :
        ((s' : l.State) × (enforce l auth context authenticated rule account s ≡ ok s'))
        ↔ ((auth account ≡ true) × (threshold ≤ length authenticated))

  stored-IsGuarded :
      (rule : ContextRule) (account : Address) (t : ℕ) (auth : Auth) (context : Context Val)
      (authenticated : List Signer) (s : l.State)
      → Sublist authenticated rule.signers
      → 1 ≤ t
      → t ≤ length rule.signers
      → l.stored account rule.id s ≡ some t
      → IsGuarded rule account t auth context authenticated s
  unfolding enforce get_threshold
  stored-IsGuarded rule account t auth context authenticated s sub low high stored = record {
    read = l.get_threshold-stored rule.id account s t stored;
    at_least_one = low;
    at_most_all = high;
    quorum = (
      λ passed.
          l.enforce-only_enough auth context authenticated rule account s passed.0 t passed.1 stored
            sub,
      λ enough.
          l.enforce-enough auth context authenticated rule account s t enough.0 stored sub enough.1,
    );
  }

  -- Calls that the account asks the policy about, one after the other; a refused one changes nothing.
  pub enforce_all :
      ContextRule → Address → List (Auth × Context Val × List Signer) → l.State → l.State
  unfolding enforce
  enforce_all rule account [] s = s
  enforce_all rule account ((auth, context, authenticated) ∷ calls) s =
      enforce_all rule account calls (kept s (enforce l auth context authenticated rule account s))

  stored-enforce_all :
      (rule : ContextRule) (account : Address) (calls : List (Auth × Context Val × List Signer))
      (s : l.State)
      → l.stored account rule.id (enforce_all rule account calls s) ≡ l.stored account rule.id s
  unfolding enforce_all enforce
  stored-enforce_all rule account [] s = refl
  stored-enforce_all rule account ((auth, context, authenticated) ∷ calls) s =
      stored-enforce_all rule account calls
        (kept s (enforce l auth context authenticated rule account s))
      ∙ stored-kept (l.enforce auth context authenticated rule account s)
          (λ s' e. l.enforce-stored auth context authenticated rule account s s' e)
    where
      stored-kept :
          (r : Outcome l.Error l.State)
          → ((s' : l.State) → r ≡ ok s' → l.stored account rule.id s' ≡ l.stored account rule.id s)
          → l.stored account rule.id (kept s r) ≡ l.stored account rule.id s
      stored-kept (ok s') next = next s' refl
      stored-kept (panic _) next = refl
      stored-kept trap next = refl

  -- The threshold policy guards an account as the factory's caller asked. If the factory accepts the
  -- parameters of an account with more than one signer, the policies that it builds are the threshold
  -- policy alone, with the threshold that the parameters give. On a rule with the signers that it
  -- builds, the policy accepts this installation by the account where nothing is installed. Afterwards,
  -- and after any calls that it was asked about, the account reads that threshold, it lies between one
  -- and the number of signers, and a call that some of the rule's signers authenticated is let through
  -- exactly if the account authorizes it and they are at least as many as the threshold.
  pub normalize_params-IsGuarded :
      (oa : Order Address) (ob : Order Bytes) (cfg : FactoryConfig) (params : AccountInitParams)
      (n : NormalizedParams) (auth : Auth) (rule : ContextRule) (account : Address) (s : l.State)
      (calls : List (Auth × Context Val × List Signer)) (asked : Auth) (context : Context Val)
      (authenticated : List Signer)
      → normalize_params oa ob params ≡ ok n
      → 1 < length n.signers
      → rule.signers ≡ build_account_signers cfg n.signers
      → auth account ≡ true
      → l.stored account rule.id s ≡ none
      → Sublist authenticated rule.signers
      → (p : ThresholdParams) × (build_account_policies cfg n.effective_threshold
            (length rule.signers)
          ≡ (cfg.threshold_policy, p) ∷ [])
        × (params.threshold ≡ some p.threshold)
        × (s' : l.State) × (install l auth p rule account s ≡ ok s')
        × IsGuarded rule account p.threshold asked context authenticated
            (enforce_all rule account calls s')
  unfolding build_account_policies install
  normalize_params-IsGuarded oa ob cfg params n auth rule account s calls asked context
        authenticated h several signers by fresh sub =
      let normal = normalize_params-IsNormal oa ob params n h in
      let count : length rule.signers ≡ length n.signers =
        ap length signers ∙ length-build_account_signers cfg n.signers in
      let p : ThresholdParams = record { threshold = n.effective_threshold } in
      let below : n.effective_threshold ≤ length rule.signers =
        omega (arith, count, normal.at_most_all) in
      let (s', done, stored) =
        l.install-stored auth p rule account s by fresh normal.at_least_one below in
      (
        p,
        ground (arith, count, several),
        effective_threshold-given (length n.signers) params.threshold n.effective_threshold several
            normal.resolved,
        s',
        done,
        stored-IsGuarded rule account n.effective_threshold asked context authenticated
            (enforce_all rule account calls s') sub normal.at_least_one below
            (stored-enforce_all rule account calls s' ∙ stored),
      )

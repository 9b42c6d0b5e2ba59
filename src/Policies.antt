-- ===== src/Policies.antt =====
-- The trait `Policy` that the contracts under policies/ implement, as an interface: the operations, the
-- entry that an account and a rule have in the contract's storage, and what the operations may do to
-- it. One deployed policy serves every account, so the laws say of each call which entry it reads and
-- changes, and that it leaves the others alone.
pub mod Entries
pub mod Isolation
pub mod Kept
pub mod Deployed
mod Tests
use latch_contracts.Base.{ℕ, ◌≡◌, ◌⊎◌, Bool, true, false, Option, none, some, List}
use latch_contracts.Soroban.{Address, Auth, Context, ContextRule, Signer, Outcome, ok, panic, trap}

-- What an operation does to the entry of its own account and rule, `none` for a call that fails.
abbrev pub Entry : Type 0 → Type 0
Entry Stored = Option (Option Stored)

-- One entry's life: it is installed where nothing is, and enforced and uninstalled where it is there;
-- the account must authorize each of these.
abbrev pub installed_from : {Stored : Type 0} → Bool → Option Stored → Option Stored → Entry Stored
installed_from false accepted entry = none
installed_from true none entry = none
installed_from true (some stored) none = some (some stored)
installed_from true (some stored) (some _) = none

abbrev pub enforced_from :
    {Stored : Type 0} → Bool → (Stored → Option Stored) → Option Stored → Entry Stored
enforced_from false f entry = none
enforced_from true f none = none
enforced_from true f (some stored) = elim (f stored) [ none ↦ none | some next ↦ some (some next) ]

abbrev pub uninstalled_from : {Stored : Type 0} → Bool → Option Stored → Entry Stored
uninstalled_from false entry = none
uninstalled_from true none = none
uninstalled_from true (some _) = some none

-- The outcome of a call for `account` and `id` in state `s`, given what it should do to its entry.
module _ {State Stored Error : Type 0} (lookup : Address → ℕ → State → Option Stored) where
  abbrev pub Does : Address → ℕ → State → Entry Stored → Outcome Error State → Type 0
  Does account id s e (ok s') =
      (e ≡ some (lookup account id s'))
      × ((a : Address) (i : ℕ) → ((a ≡ account) × (i ≡ id)) ⊎ (lookup a i s' ≡ lookup a i s))
  Does account id s e (panic _) = e ≡ none
  Does account id s e trap = e ≡ none

-- `Facts` is what a transaction finds outside the contract's storage, such as the ledger and the
-- answers of an oracle. `accepts` and `allows` say what the policy is about: which entry an install
-- makes, and what a call of the account does to it. `configure` is what a contract offers beyond the
-- trait to change an entry, `Config` being empty for a contract without it.
pub record Policy (Val : Type 0) : Type 1 where
  pub State : Type 0
  pub Params : Type 0
  pub Stored : Type 0
  pub Error : Type 0
  pub Facts : Type 0
  pub Config : Type 0
  pub lookup : Address → ℕ → State → Option Stored
  pub accepts : Facts → ContextRule → Params → Option Stored
  pub allows : Facts → Context Val → List Signer → Stored → Option Stored
  pub configured : Config → Stored → Option Stored
  pub enforce :
      Facts → Auth → Context Val → List Signer → ContextRule → Address → State → Outcome Error State
  pub install : Facts → Auth → Params → ContextRule → Address → State → Outcome Error State
  pub configure : Auth → Config → ContextRule → Address → State → Outcome Error State
  pub uninstall : Auth → ContextRule → Address → State → Outcome Error State
  pub install-Does :
      (f : Facts) (auth : Auth) (params : Params) (rule : ContextRule) (account : Address)
      (s : State)
      → Does lookup account rule.id s
          (installed_from (auth account) (accepts f rule params) (lookup account rule.id s))
          (install f auth params rule account s)
  pub enforce-Does :
      (f : Facts) (auth : Auth) (context : Context Val) (signers : List Signer) (rule : ContextRule)
      (account : Address) (s : State)
      → Does lookup account rule.id s
          (enforced_from (auth account) (allows f context signers) (lookup account rule.id s))
          (enforce f auth context signers rule account s)
  pub configure-Does :
      (auth : Auth) (c : Config) (rule : ContextRule) (account : Address) (s : State)
      → Does lookup account rule.id s
          (enforced_from (auth account) (configured c) (lookup account rule.id s))
          (configure auth c rule account s)
  pub uninstall-Does :
      (auth : Auth) (rule : ContextRule) (account : Address) (s : State)
      → Does lookup account rule.id s
          (uninstalled_from (auth account) (lookup account rule.id s))
          (uninstall auth rule account s)

-- ===== src/Timelock.antt =====
-- The timelock vault, templates/timelock-vault/src/lib.rs. The token contracts are a parameter.
pub mod Withdrawals
pub mod Funds
mod Tests
use latch_contracts.Base.{ℕ, ◌-◌, ◌*◌, Bool, Option, List, [], ◌∷◌, ◌++◌, ltb, leb}
use latch_contracts.Base.Int.{ℤ}
use latch_contracts.Soroban.{
  Address, Auth, Ledger, Tokens, Outcome, ok, panic, trap, ◌>>=◌, ◌>>◌, panic_if, require_auth,
  unwrap, Storage,
}

pub data DataKey : Type 0 where
  owner unlock_ledger : DataKey

pub data VaultError : Type 0 where
  still_locked invalid_unlock_ledger : VaultError

-- The fields are token, from and amount; token, to and amount.
pub data Event : Type 0 where
  deposited withdrawn : Address → Address → ℤ → Event

abbrev pub extend_amount : ℕ
extend_amount = 120 * 17280

abbrev pub ttl_threshold : ℕ
ttl_threshold = extend_amount - 17280

-- Both stored values, an address and a ledger number, are numbers here.
module _ (d : Storage DataKey ℕ) (t : Tokens) where
  -- The vault's storage, the token contracts, and the events that the vault has published.
  pub record World : Type 0 where
    pub store : d.State
    pub tokens : t.State
    pub events : List Event

  pub extend_state_ttl : d.State → d.State
  extend_state_ttl s =
      d.extend_ttl unlock_ledger ttl_threshold extend_amount
        (d.extend_ttl owner ttl_threshold extend_amount s)

  pub constructor : Ledger → Address → ℕ → World → Outcome VaultError World
  unfolding extend_state_ttl
  constructor ledger owner' unlock_ledger' w = do
    panic_if (leb unlock_ledger' ledger.sequence) invalid_unlock_ledger
    let s = d.set unlock_ledger unlock_ledger' (d.set owner owner' w.store)
    ok (record w { store = extend_state_ttl s })

  pub bump_ttl : World → World
  unfolding extend_state_ttl
  bump_ttl w = record w { store = extend_state_ttl w.store }

  -- `this` is the vault's own address.
  pub deposit : Auth → Address → Address → Address → ℤ → World → Outcome VaultError World
  unfolding extend_state_ttl
  deposit auth this from token amount w = do
    require_auth (auth from)
    tokens' ← unwrap (t.transfer token from this amount w.tokens)
    ok (record {
      store = extend_state_ttl w.store;
      tokens = tokens';
      events = w.events ++ deposited token from amount ∷ [];
    })

  pub withdraw : Auth → Ledger → Address → Address → ℤ → Address → World → Outcome VaultError World
  unfolding extend_state_ttl
  withdraw auth ledger this token amount to w = do
    owner' ← unwrap (d.get owner w.store)
    require_auth (auth owner')
    unlock_ledger' ← unwrap (d.get unlock_ledger w.store)
    panic_if (ltb ledger.sequence unlock_ledger') still_locked
    tokens' ← unwrap (t.transfer token this to amount w.tokens)
    ok (record {
      store = extend_state_ttl w.store;
      tokens = tokens';
      events = w.events ++ withdrawn token to amount ∷ [];
    })

  pub get_owner : World → Outcome VaultError Address
  get_owner w = unwrap (d.get owner w.store)

  pub get_unlock_ledger : World → Outcome VaultError ℕ
  get_unlock_ledger w = unwrap (d.get unlock_ledger w.store)

  pub get_balance : Address → Address → World → ℤ
  get_balance this token w = t.balance token this w.tokens

-- ===== src/Policies/Tests.antt =====
-- The policies in one deployment: two accounts share the contracts, and calls for one of them, allowed
-- and refused ones, leave the other's entry alone.
use latch_contracts.Base.{ℕ, ◌≡◌, refl, none, some, List, [], ◌∷◌, ◌==◌, ℕ_discrete}
use latch_contracts.Base.Int.{pos}
use latch_contracts.Soroban.{
  Auth, Ledger, Context, contract, ContextRule, call_contract, delegated, map_storage, World,
}
use latch_contracts.Policies.Isolation.{
  Call, enforce_call, install_call, uninstall_call, run, replay,
}
use latch_contracts.Policies.Deployed.{
  session, multi_token, Host, deployed, deployed-replay, deployed-unauthorized,
}
use latch_contracts.ParameterScoped.{ParameterScopedStorageKey}
use latch_contracts.Session.{account_context, SessionAccountParams, Event, SessionStorageKey}
use latch_contracts.Recipient.{RecipientStorageKey}
use latch_contracts.MultiToken.{AccountParams, Answers, DataKey}

instance session_discrete : Discrete SessionStorageKey
session_discrete = hlevel (ℕ_discrete)

instance parameter_scoped_discrete : Discrete ParameterScopedStorageKey
parameter_scoped_discrete = hlevel (ℕ_discrete)

instance recipient_discrete : Discrete RecipientStorageKey
recipient_discrete = hlevel (ℕ_discrete)

instance multi_token_discrete : Discrete DataKey
multi_token_discrete = hlevel (ℕ_discrete)

-- Every argument is an integer, and an address.
abbrev host : Host ℕ
host = record {
  session_storage = map_storage session_discrete;
  parameter_scoped_storage = map_storage parameter_scoped_discrete;
  recipient_storage = map_storage recipient_discrete;
  multi_token_storage = map_storage multi_token_discrete;
  decoders = record {
    to_u32 = λ _. none;
    to_u64 = λ _. none;
    to_u128 = λ _. none;
    to_i32 = λ _. none;
    to_i64 = λ _. none;
    to_i128 = λ v. some (pos v);
    to_symbol = λ _. none;
    to_address = λ v. some v;
  };
}

abbrev by_account : Auth
by_account a = a == 7

abbrev by_other : Auth
by_other a = a == 8

abbrev rule : ContextRule
rule = record { id = 1; context_type = call_contract 50; signers = [] }

abbrev transfer_call : Context ℕ
transfer_call = contract (record { contract = 50; fn_name = "transfer"; args = 7 ∷ 90 ∷ 3 ∷ [] })

-- The account 8 installs, calls with no authorization and uninstalls what 7 has.
abbrev session_calls : List (Call ℕ (Unit {0}) SessionAccountParams ⊥)
session_calls =
    record {
      auth = by_other;
      account = 8;
      rule = rule;
      action = install_call tt (record { allowed_fns = "transfer" ∷ [] });
    }
    ∷ record {
      auth = by_other;
      account = 8;
      rule = rule;
      action = enforce_call tt transfer_call (delegated 9 ∷ []);
    }
    ∷ record { auth = by_other; account = 7; rule = rule; action = uninstall_call }
    ∷ []

abbrev session_state : World host.session_storage.State Event
session_state = record {
  store =
      host.session_storage.set (account_context 7 1) (record { allowed_fns = "swap" ∷ [] })
        (λ _. none);
  events = [];
}

deployed-unauthorized_example :
    (deployed host session).lookup 7 1 (run (deployed host session) session_calls session_state)
    ≡ (deployed host session).lookup 7 1 session_state
deployed-unauthorized_example =
    deployed-unauthorized host session 7 1 session_calls session_state (refl, (refl, (refl, tt)))

-- One unit of the token is worth three; no decimals.
abbrev facts : Answers × Ledger
facts = (
  record {
    decimals = λ _. some 0;
    lastprice = λ _ _. some (some (record { price = pos 3; timestamp = 990 }));
  },
  record { sequence = 20; timestamp = 1000 },
)

abbrev params : AccountParams
params = record {
  spending_limit_usd = pos 1000;
  period_ledgers = 10;
  oracle_address = 60;
  allowed_tokens = 50 ∷ [];
}

-- An install and a transfer for 7, with an install for 8 between them.
abbrev transfers : List (Call ℕ (Answers × Ledger) AccountParams ⊥)
transfers =
    record { auth = by_account; account = 7; rule = rule; action = install_call facts params }
    ∷ record { auth = by_other; account = 8; rule = rule; action = install_call facts params }
    ∷ record {
      auth = by_account;
      account = 7;
      rule = rule;
      action = enforce_call facts transfer_call (delegated 9 ∷ []);
    }
    ∷ []

deployed-replay_example :
    (deployed host multi_token).lookup 7 1 (run (deployed host multi_token) transfers (λ _. none))
    ≡ replay (deployed host multi_token) 7 1 transfers none
deployed-replay_example = deployed-replay host multi_token 7 1 transfers (λ _. none)

-- ===== src/Lib.antt =====
-- Latch contracts: the Soroban contracts of this repository, modelled and verified.
--
-- The program. Users hold a smart account (latch-smart-account) that an account factory
-- (account-factory/contracts/factory-contract) deploys at an address derived from its signers. The
-- account authorizes calls by context rules; a rule names signers, whose signatures the verifiers
-- (latch-verifiers) check, and policies (policies), whose `enforce` may refuse a call. One deployed
-- policy serves every account. A fee forwarder (fee-forwarder) lets a relayer submit calls for accounts
-- and take its fee. Two templates (templates) hold funds: a vesting schedule and a timelock vault.
--
-- The files.
--   Base, with Base/*: shared names, Boolean tests, lists and integers.
--   Soroban, with Soroban/*: the host as the contracts see it. A call ends in an `Outcome`: a value, a
--     panic with the contract's own error, or a trap of the host or of another contract. A failed call
--     is rolled back, so no state comes with it. Storage is a record of operations and laws; lifetimes
--     are not visible to `get`, and the archival of entries is not modelled.
--   MultiToken: policies/multi-token-spending-limit-policy/src/lib.rs and oracle.rs. Window and Spend
--     hold the rolling history, Loop its `while` loop, Prices the oracle, Rounding the
--     conversion, Life the life of one installation, History its limit, Acceptance the calls that it
--     lets through, Stored the ranges of what is stored; Calls, Deployment and Deployed put this
--     installation into the contract that all accounts share, Scales and Quotes are about its prices
--     there; Samples has an installation to test with.
--   Vesting: templates/vesting-schedule/src/lib.rs. Arithmetic holds the 128-bit division, Curve the
--     vested amount, Claims one call and sequences of calls, Lifetime what follows a
--     construction, Payments what the token moves.
--   Factory: account-factory/contracts/factory-contract/src/lib.rs. Types holds its data, Preimage
--     the preimage of the salt. Signers is about the order on signers, Insert, Reorder and Canonical
--     about the canonicalization, Loop about its loops, Salt about the preimage, Shapes, Listing and
--     Refusals about the checks of the parameters, Create and Creation about the deployment, Identity
--     about which parameters share an address; Samples has accounts to test with.
--   Session: policies/session-policy/src/allowlist.rs. Log holds the event that each call has to
--     publish and an abstract state that the events rebuild, Replay any sequence of calls against
--     it, Decisions which calls are let through after them.
--   ParameterScoped: policies/parameter-scoped-policy/src/conditions.rs. Checks reads the
--     conditions, Calls holds `enforce`, Installs `install`.
--   Recipient: policies/recipient-allowlist-policy/src/lib.rs. Transfers holds one
--     transfer, Lists what is stored, Bounds any sequence of calls.
--   Policies: the trait `Policy` that four of the contracts implement, with the setter of one of them, as an
--     interface of operations and laws.
--     Each of MultiToken, Session, ParameterScoped and Recipient has a child Contract that fills it.
--     Isolation takes any implementation and any calls of it by anyone; Kept is about what an
--     entry keeps; Deployed is about the four
--     contracts.
--   Threshold: policies/threshold-policy/src/lib.rs. Quorum puts it together with what the factory
--     installs.
--   Weighted and SpendingLimit: policies/weighted-threshold-policy/src/lib.rs and
--     policies/spending-limit-policy/src/lib.rs.
--   FeeForwarder: fee-forwarder/src/lib.rs. Roles holds the constructor, Steps
--     sequences of calls, Deployed who can make which call.
--   Timelock: templates/timelock-vault/src/lib.rs. Withdrawals holds who can withdraw and
--     when, Funds what the tokens move.
--   Account: latch-smart-account/src/lib.rs. Registry holds the contracts that it has deployed.
--   Verifiers: the verifiers of latch-verifiers (p256-verifier, secp256k1-verifier, webauthn-verifier and
--     ed25519-verifier, each in src/lib.rs) and demo/modified-ed25519-verifier/src/lib.rs.
--   Each component's Tests apply its theorems at concrete inputs.
--
-- The correspondence. A definition has the name of the function, type or constant that it models, in
-- snake case; a part of a long function that has a name of its own says which part. State is passed
-- explicitly. The contract's own address, the transaction's authorizations and the ledger are
-- arguments. Tokens, the oracle's answers, the deployer, hashes, signatures and the conversions of
-- argument values are parameters: arguments, or records of operations with the laws that the code
-- relies on. An address is a number, a symbol a string, a `u32` a natural number; where the code adds,
-- multiplies or casts, the bounds of the machine integer are written out.
--
-- Bounds. The `for` loops are structural recursion on the list that the source iterates over, and the two
-- `while` loops are too in the definitions that the rest stands on. The `while` loops are also written as
-- they stand in the source, on fuel, for which the number of elements (plus one for the history) is
-- enough. The vested amount is exact for totals below 2 ^ 127 and ledgers below 2 ^ 32, which their types
-- give. The rolling limit is stated for limits below the maximum of `i128`.
--
-- Not modelled. The stellar-accounts library: what the threshold, weighted threshold and spending limit
-- policies and the ed25519 and webauthn verifiers forward to is a parameter, and of the weighted
-- threshold and spending limit policies and the ed25519 verifier, which do nothing else, nothing is
-- stated. The AccessControl interface of the fee forwarder, which changes roles after the construction, and
-- the default methods of the smart account's interfaces are the libraries'.
-- Dummy contracts, tests, scripts and deployment files.
pub mod Base
pub mod Soroban
pub mod Vesting
pub mod MultiToken
pub mod Factory
pub mod Session
pub mod Policies
pub mod ParameterScoped
pub mod Recipient
pub mod Timelock
pub mod Account
pub mod FeeForwarder
pub mod Threshold
pub mod Weighted
pub mod SpendingLimit
pub mod Verifiers

-- ===== src/Factory/Tests.antt =====
-- The factory's theorems at an account with two delegated signers, with the lexicographic order on
-- bytes and a chain that records what is deployed.

use mathlib.Core.List.{Perm}
use latch_contracts.Base.{◌≡◌, ◌↔◌, refl, Bool, true, false, none, some, [], ◌∷◌, arith}
use latch_contracts.Soroban.{Address, Bytes, ok, map_storage, Storage}
use latch_contracts.Factory.{
  DataKey, config, FactoryConfig, Chain, World, validate_signer_shape, compare_signers,
  effective_threshold, canonicalize_signers, normalize_params, NormalizedParams,
  get_account_address, create_account, extend_ttl,
}
use latch_contracts.Factory.Samples.{
  by_number, by_bytes, first_order, second_order, reordered, normalized, normalized_ok,
  normalized_again, salt, params_of, configured,
}
use latch_contracts.Factory.Loop.{for_signers, for_signers-canonicalize_signers}
use latch_contracts.Factory.Salt.{IsEncodable, salt_preimage-injective}
use latch_contracts.Factory.Identity.{get_account_address_iff}
use latch_contracts.Factory.Refusals.{IsAcceptable, normalize_params-IsAcceptable}
use latch_contracts.Factory.Creation.{Creation, create_account-Ends}
use latch_contracts.Factory.Create.{IsCreated, create_account-IsCreated, create_account-again}

abbrev one_byte : Address → Bytes
one_byte a = a ∷ []

one_byte-injective : (a b : Address) → one_byte a ≡ one_byte b → a ≡ b
one_byte-injective a b h = cc

-- Every salt gives the address 1, and the state says whether it has code.
abbrev chain : Chain
chain = record {
  State = Bool;
  to_xdr = one_byte;
  sha256 = λ b. b;
  deployed_address = λ _. 1;
  executable = λ a s. s;
  deploy_v2 = λ _ _ _ _ _. some true;
  executable-deploy_v2 = λ _ _ _ _ _ _ e. cc;
}

instance key_discrete : Discrete DataKey
key_discrete = hlevel

abbrev store : Storage DataKey FactoryConfig
store = map_storage key_discrete

normalized-IsEncodable : IsEncodable one_byte one_byte-injective normalized
normalized-IsEncodable = record {
  salt = refl;
  count = omega arith;
  threshold = omega arith;
  short = (omega arith, (omega arith, tt));
}

salt_preimage-injective_example : normalized ≡ normalized
salt_preimage-injective_example =
    salt_preimage-injective one_byte one_byte-injective normalized normalized normalized-IsEncodable
      normalized-IsEncodable refl

abbrev before : World by_number by_bytes store chain
before = record { store = store.set config configured (λ _. none); chain = false; events = [] }

get_account_address_iff_example :
    (get_account_address by_number by_bytes store chain (params_of first_order) before
      ≡ get_account_address by_number by_bytes store chain (params_of second_order) before)
    ↔ (Perm first_order second_order
        × (normalized.effective_threshold ≡ normalized.effective_threshold)
        × (salt ≡ salt))
get_account_address_iff_example =
    get_account_address_iff by_number by_bytes store chain one_byte-injective
      (params_of first_order) (params_of second_order) normalized normalized before before
      normalized_ok normalized_again normalized-IsEncodable normalized-IsEncodable (λ _. refl)

normalize_params-IsAcceptable_example :
    ((n : NormalizedParams) × (normalize_params by_number by_bytes (params_of first_order) ≡ ok n))
    ↔ IsAcceptable (params_of first_order)
normalize_params-IsAcceptable_example =
    normalize_params-IsAcceptable by_number by_bytes (params_of first_order)

create_account-Ends_example :
    Creation by_number by_bytes store chain
      (params_of first_order)
      before
      (create_account by_number by_bytes store chain (params_of first_order) before)
create_account-Ends_example =
    create_account-Ends by_number by_bytes store chain (params_of first_order) before

created :
    (w' : World by_number by_bytes store chain) × (create_account by_number by_bytes store chain
        (params_of first_order)
        before
      ≡ ok (1, w'))
unfolding create_account canonicalize_signers validate_signer_shape compare_signers
    effective_threshold key_discrete
created = (_, refl)

create_account-IsCreated_example :
    IsCreated by_number by_bytes store chain (params_of first_order) before 1 created.0
create_account-IsCreated_example =
    create_account-IsCreated by_number by_bytes store chain (params_of first_order) before created.0
      1 created.1

create_account-again_example :
    create_account by_number by_bytes store chain (params_of second_order) created.0
    ≡ ok (1, extend_ttl by_number by_bytes store chain created.0)
create_account-again_example =
    create_account-again by_number by_bytes store chain (params_of first_order)
      (params_of second_order) before created.0 1 reordered refl refl created.1

for_signers-canonicalize_signers_example :
    for_signers by_number by_bytes 2 [] first_order
    ≡ some (canonicalize_signers by_number by_bytes first_order)
for_signers-canonicalize_signers_example =
    for_signers-canonicalize_signers by_number by_bytes 2 first_order (omega arith)

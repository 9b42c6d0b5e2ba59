-- ===== src/Factory/Samples.antt =====
-- Accounts to try the factory with: two delegated signers in both orders, and the lexicographic order
-- on bytes.
use Prim.Native.Nat.{Ordering, compare}
use mathlib.Core.List.{Perm}
use mathlib.Core.List.Perm
use latch_contracts.Base.{◌≡◌, refl, some, List, [], ◌∷◌, arith}
use latch_contracts.Soroban.{Address, Bytes, ok}
use latch_contracts.Factory.{
  normalize_params, FactoryConfig, AccountSignerInit, delegated_init, AccountInitParams,
  NormalizedParams, Order, then_with, validate_signer_shape, compare_signers, effective_threshold,
  canonicalize_signers,
}

abbrev pub by_number : Order Address
by_number = record {
  cmp = compare;
  cmp_refl = λ a. ground arith;
  eq_of_cmp = λ a b h. ground arith;
  cmp_lt_gt = λ a b h. ground arith;
  cmp_gt_lt = λ a b h. ground arith;
  cmp_trans = λ a b c h k. ground arith;
}

abbrev pub lex : Bytes → Bytes → Ordering
lex [] [] = Ordering.eq
lex [] (_ ∷ _) = Ordering.lt
lex (_ ∷ _) [] = Ordering.gt
lex (x ∷ xs) (y ∷ ys) = then_with (compare x y) (lex xs ys)

pub lex_refl : (a : Bytes) → lex a a ≡ Ordering.eq
lex_refl [] = refl
lex_refl (x ∷ xs) = ground (arith, lex_refl xs)

pub eq_of_lex : (a b : Bytes) → lex a b ≡ Ordering.eq → a ≡ b
eq_of_lex [] [] h = refl
eq_of_lex [] (y ∷ ys) h = absurd (cc)
eq_of_lex (x ∷ xs) [] h = absurd (cc)
eq_of_lex (x ∷ xs) (y ∷ ys) h = ground (arith, eq_of_lex xs ys)

pub lex_lt_gt : (a b : Bytes) → lex a b ≡ Ordering.lt → lex b a ≡ Ordering.gt
lex_lt_gt [] [] h = absurd (cc)
lex_lt_gt [] (y ∷ ys) h = refl
lex_lt_gt (x ∷ xs) [] h = absurd (cc)
lex_lt_gt (x ∷ xs) (y ∷ ys) h = ground (arith, lex_lt_gt xs ys)

pub lex_gt_lt : (a b : Bytes) → lex a b ≡ Ordering.gt → lex b a ≡ Ordering.lt
lex_gt_lt [] [] h = absurd (cc)
lex_gt_lt [] (y ∷ ys) h = absurd (cc)
lex_gt_lt (x ∷ xs) [] h = refl
lex_gt_lt (x ∷ xs) (y ∷ ys) h = ground (arith, lex_gt_lt xs ys)

pub lex_trans :
    (a b c : Bytes) → lex a b ≡ Ordering.lt → lex b c ≡ Ordering.lt → lex a c ≡ Ordering.lt
lex_trans [] [] c h k = absurd (cc)
lex_trans [] (y ∷ ys) [] h k = absurd (cc)
lex_trans [] (y ∷ ys) (z ∷ zs) h k = refl
lex_trans (x ∷ xs) [] c h k = absurd (cc)
lex_trans (x ∷ xs) (y ∷ ys) [] h k = absurd (cc)
lex_trans (x ∷ xs) (y ∷ ys) (z ∷ zs) h k = ground (arith, lex_trans xs ys zs)

abbrev pub by_bytes : Order Bytes
by_bytes = record {
  cmp = lex;
  cmp_refl = lex_refl;
  eq_of_cmp = eq_of_lex;
  cmp_lt_gt = lex_lt_gt;
  cmp_gt_lt = lex_gt_lt;
  cmp_trans = lex_trans;
}

abbrev pub first_order : List AccountSignerInit
first_order = delegated_init 5 ∷ delegated_init 4 ∷ []

abbrev pub second_order : List AccountSignerInit
second_order = delegated_init 4 ∷ delegated_init 5 ∷ []

pub reordered : Perm first_order second_order
reordered = Perm.swap _ _ _

abbrev pub salt : Bytes
salt =
    1 ∷ 2 ∷ 3 ∷ 4 ∷ 5 ∷ 6 ∷ 7 ∷ 8 ∷ 1 ∷ 2 ∷ 3 ∷ 4 ∷ 5 ∷ 6 ∷ 7 ∷ 8 ∷ 1 ∷ 2 ∷ 3 ∷ 4 ∷ 5 ∷ 6 ∷ 7 ∷ 8
    ∷ 1 ∷ 2 ∷ 3 ∷ 4 ∷ 5 ∷ 6 ∷ 7 ∷ 8 ∷ []

abbrev pub normalized : NormalizedParams
normalized = record { signers = second_order; effective_threshold = 2; account_salt = salt }

abbrev pub params_of : List AccountSignerInit → AccountInitParams
params_of signers = record { signers = signers; threshold = some 2; account_salt = salt }

abbrev pub configured : FactoryConfig
configured = record {
  smart_account_wasm_hash = 8 ∷ [];
  ed25519_verifier = 20;
  webauthn_verifier = 21;
  threshold_policy = 22;
}

pub normalized_ok : normalize_params by_number by_bytes (params_of first_order) ≡ ok normalized
unfolding normalize_params canonicalize_signers validate_signer_shape compare_signers
    effective_threshold
normalized_ok = refl

pub normalized_again : normalize_params by_number by_bytes (params_of second_order) ≡ ok normalized
unfolding normalize_params canonicalize_signers validate_signer_shape compare_signers
    effective_threshold
normalized_again = refl

-- ===== src/Factory/Signers.antt =====
-- The order of signers in account-factory/contracts/factory-contract/src/lib.rs: `compare_signers` is
-- a total order that tells distinct signers apart.
use Prim.Native.Nat.{Ordering}
use latch_contracts.Base.{◌≡◌, arith}
use latch_contracts.Soroban.{Address, Bytes}
use latch_contracts.Factory.{
  AccountSignerInit, delegated_init, external_init, Order, compare_signers,
}

module _ (oa : Order Address) (ob : Order Bytes) where
  pub compare_refl : (s : AccountSignerInit) → compare_signers oa ob s s ≡ Ordering.eq
  unfolding compare_signers
  compare_refl (delegated_init a) = ground (arith, oa.cmp_refl a)
  compare_refl (external_init e) = ground (arith, ob.cmp_refl e.key_data)

  pub eq_of_compare : (s t : AccountSignerInit) → compare_signers oa ob s t ≡ Ordering.eq → s ≡ t
  unfolding compare_signers
  eq_of_compare (delegated_init a) (delegated_init b) h = ground (arith, oa.eq_of_cmp a b)
  eq_of_compare (external_init e) (external_init f) h =
      ground (arith, ob.eq_of_cmp e.key_data f.key_data)
  eq_of_compare (delegated_init a) (external_init f) h = ground arith
  eq_of_compare (external_init e) (delegated_init b) h = ground arith

  pub compare_lt_gt :
      (s t : AccountSignerInit)
      → compare_signers oa ob s t ≡ Ordering.lt
      → compare_signers oa ob t s ≡ Ordering.gt
  unfolding compare_signers
  compare_lt_gt (delegated_init a) (delegated_init b) h = ground (arith, oa.cmp_lt_gt a b)
  compare_lt_gt (external_init e) (external_init f) h =
      ground (arith, ob.cmp_lt_gt e.key_data f.key_data)
  compare_lt_gt (delegated_init a) (external_init f) h = ground arith
  compare_lt_gt (external_init e) (delegated_init b) h = ground arith

  pub compare_gt_lt :
      (s t : AccountSignerInit)
      → compare_signers oa ob s t ≡ Ordering.gt
      → compare_signers oa ob t s ≡ Ordering.lt
  unfolding compare_signers
  compare_gt_lt (delegated_init a) (delegated_init b) h = ground (arith, oa.cmp_gt_lt a b)
  compare_gt_lt (external_init e) (external_init f) h =
      ground (arith, ob.cmp_gt_lt e.key_data f.key_data)
  compare_gt_lt (delegated_init a) (external_init f) h = ground arith
  compare_gt_lt (external_init e) (delegated_init b) h = ground arith

  pub compare_trans :
      (s t u : AccountSignerInit)
      → compare_signers oa ob s t ≡ Ordering.lt
      → compare_signers oa ob t u ≡ Ordering.lt
      → compare_signers oa ob s u ≡ Ordering.lt
  unfolding compare_signers
  compare_trans (delegated_init a) (delegated_init b) (delegated_init c) h k =
      ground (arith, oa.cmp_trans a b c)
  compare_trans (external_init e) (external_init f) (external_init g) h k =
      ground (arith, ob.cmp_trans e.key_data f.key_data g.key_data)
  compare_trans (delegated_init a) (delegated_init b) (external_init g) h k = ground arith
  compare_trans (delegated_init a) (external_init f) (external_init g) h k = ground arith
  compare_trans (delegated_init a) (external_init f) (delegated_init g) h k = ground arith
  compare_trans (external_init e) (delegated_init b) u h k = ground arith
  compare_trans (external_init e) (external_init f) (delegated_init c) h k = ground arith

  -- `compare_signers` is itself a total order in the sense of the host's orders.
  abbrev pub signer_order : Order AccountSignerInit
  signer_order = record {
    cmp = compare_signers oa ob;
    cmp_refl = compare_refl;
    eq_of_cmp = eq_of_compare;
    cmp_lt_gt = compare_lt_gt;
    cmp_gt_lt = compare_gt_lt;
    cmp_trans = compare_trans;
  }

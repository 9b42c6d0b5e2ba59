-- ===== src/Vesting/Claims.antt =====
-- What `claim` of templates/vesting-schedule/src/lib.rs releases, in one call and over any sequence
-- of calls.
use latch_contracts.Base.{
  ℕ, ◌+◌, ◌-◌, ◌^◌, ◌≤◌, ◌<◌, ◌≡◌, ◌⊎◌, ◌∙◌, refl, true, false, ◌++◌, Option, none, some, List, [],
  ◌∷◌, arith, dec_lt, lt→ltb, inl, inr, All, Bool-cases, Option-cases,
}
use latch_contracts.Base.Int.{
  ℤ, pos, pos_part, checked_add, checked, ◌+ℤ◌, saturating_sub-pos, saturating_sub-le_zero,
}
use latch_contracts.Soroban.{Address, Auth, Ledger, Outcome, ok, panic, trap, Storage, Tokens}
use latch_contracts.Vesting.{
  DataKey, schedule, ScheduleData, VestingScheduleError, claimed, new_schedule, World, release,
  settle, claim, extend_instance_ttl,
}
use latch_contracts.Vesting.Curve.{vested, compute_vested-exact, vested-le, vested_mono}

-- One call of `claim`: the transaction's authorizations, the ledger, and the recipient.
pub record Call : Type 0 where
  pub auth : Auth
  pub ledger : Ledger
  pub to : Address

module _ (d : Storage DataKey ScheduleData) (t : Tokens) (this : Address) where
  -- The amount that a call releases, and the state after it. A call that fails is rolled back.
  unfoldable pub after_claim :
      World d t → Outcome VestingScheduleError (ℤ × World d t) → ℕ × World d t
  after_claim w (ok (amount, w')) = (pos_part amount, w')
  after_claim w (panic _) = (0, w)
  after_claim w trap = (0, w)

  unfoldable pub run : List Call → World d t → ℕ × World d t
  run [] w = (0, w)
  run (c ∷ cs) w =
      let (r, w') = after_claim w (claim d t c.auth c.ledger this c.to w) in
      let (rs, w'') = run cs w' in (r + rs, w'')

module _ (d : Storage DataKey ScheduleData) (t : Tokens) (this : Address)
    (owner token total start : ℕ) (cliff : Option ℕ) (end : ℕ) where
  -- The stored schedule when `c` has been claimed.
  abbrev pub held : ℕ → ScheduleData
  held c = record (new_schedule owner token (pos total) start cliff end) { claimed_amount = pos c }

  abbrev pub Holds : ℕ → World d t → Type 0
  Holds c w = d.get schedule w.store ≡ some (held c)

  abbrev pub curve : ℕ → ℕ
  curve = vested total start cliff end

  -- A call at ledger `now` that pays what is missing: the token moves it, one event says so, and the
  -- claimed amount catches up with the curve.
  pub record Paid (to c v now : ℕ) (amount : ℤ) (w w' : World d t) : Type 0 where
    pub due : c < v
    pub released : amount ≡ pos (v - c)
    pub moved : t.transfer token this to (pos (v - c)) w.tokens ≡ some w'.tokens
    pub published : w'.events ≡ w.events ++ claimed owner to (pos (v - c)) now ∷ []
    pub recorded : Holds v w'

  -- A call that pays nothing, since the curve has not passed the claimed amount.
  pub record Idle (c v : ℕ) (amount : ℤ) (w w' : World d t) : Type 0 where
    pub reached : v ≤ c
    pub nothing : pos_part amount ≡ 0
    pub unmoved : w'.tokens ≡ w.tokens
    pub silent : w'.events ≡ w.events
    pub kept : Holds c w'

  -- How a call at ledger `now` may end when `c` has been claimed and the curve stands at `v`: the owner
  -- has authorized it and it pays what is missing or nothing; or the owner's authorization is missing
  -- or the token refuses the transfer.
  abbrev pub Claimed :
      Auth → Address → ℕ → ℕ → ℕ → World d t → Outcome VestingScheduleError (ℤ × World d t) → Type 0
  Claimed auth to c v now w (ok (amount, w')) =
      (auth owner ≡ true) × (Paid to c v now amount w w' ⊎ Idle c v amount w w')
  Claimed auth to c v now w (panic _) = ⊥
  Claimed auth to c v now w trap =
      (auth owner ≡ false) ⊎ ((c < v) × (t.transfer token this to (pos (v - c)) w.tokens ≡ none))

  module _ (auth : Auth) (signed : auth owner ≡ true) (to : Address) (c v now : ℕ)
      (w w0 : World d t) (h0 : Holds c w0) (same : w0.tokens ≡ w.tokens)
      (same_events : w0.events ≡ w.events) where
    release-Claimed :
        c < v
        → v < 2 ^ 127
        → Claimed auth to c v now w (release d t (held c) this to (pos (v - c)) now w0)
    unfolding release checked_add checked ◌+ℤ◌
    release-Claimed lt small =
        elim (Option-cases (t.transfer token this to (pos (v - c)) w0.tokens)) [
          | inl reverted ↦ rw reverted (inr (lt, rw same at reverted))
          | inr (tokens', moved) ↦ rw moved (
            signed,
            inl (record {
              due = lt;
              released = refl;
              moved = rw same at moved;
              published = rw same_events refl;
              recorded = ground (arith, d.get-set_self schedule (held v) w0.store);
            }),
          )
        ]

    settle-Claimed :
        c < 2 ^ 127
        → v < 2 ^ 127
        → Claimed auth to c v now w (settle d t (held c) this to (pos v) now w0)
    unfolding settle
    settle-Claimed lc lv = elim (dec_lt c v) [
      | yes p ↦
          rw
            (saturating_sub-pos v c (omega arith) (omega arith), lt→ltb 0 (v - c + 0) (omega arith))
            (release-Claimed p lv)
      | no p ↦
          let rest = saturating_sub-le_zero v c (omega arith) (omega arith) in
          rw rest.0 (
            signed,
            inr (record {
              reached = omega arith;
              nothing = rest.1;
              unmoved = same;
              silent = same_events;
              kept = h0;
            }),
          )
    ]

  module _ (small : total < 2 ^ 127) (order : start < end) (range : end < 2 ^ 32) where
    -- For a schedule whose numbers fit their types and which holds a claimed amount up to its total,
    -- a call of `claim` ends in one of these ways. With the owner's authorization, it returns what the
    -- curve has reached and is not claimed yet: the token has moved that amount from the contract to
    -- the recipient, one event is published, and the curve's value is stored as claimed. Or it moves
    -- nothing, publishes nothing and stores nothing new, when the curve has not passed the claimed
    -- amount. Or it traps, only without the owner's authorization or because the token refuses the
    -- transfer of a positive amount. It never panics.
    pub claim-Claimed :
        (auth : Auth) (ledger : Ledger) (to : Address) (c : ℕ) (w : World d t)
        → Holds c w
        → c ≤ total
        → Claimed auth to c
            (curve ledger.sequence)
            ledger.sequence
            w
            (claim d t auth ledger this to w)
    unfolding claim
    claim-Claimed auth ledger to c w h le =
        let now = ledger.sequence in
        let w0 = extend_instance_ttl d t w in
        let h0 : Holds c w0 = d.get-extend_ttl schedule schedule _ _ w.store ∙ h in
        rw (h0, compute_vested-exact total start cliff end now small order range)
          (elim (Bool-cases (auth owner)) [
            | inl signed ↦ rw signed (
                settle-Claimed auth signed to c (curve now) now w w0 h0 refl refl (omega arith)
                  (omega (arith, vested-le total start cliff end now order)))
            | inr unsigned ↦ rw unsigned (inl unsigned)
          ])

  -- A call keeps the books: what it releases is added to the claimed amount, up to any bound `m` on
  -- the two.
  pub after_claim-Holds :
      (auth : Auth) (to : Address) (c v now m : ℕ) (w : World d t)
      → Holds c w
      → c ≤ m
      → v ≤ m
      → (o : Outcome VestingScheduleError (ℤ × World d t)) → Claimed auth to c v now w o
      → Holds (c + (after_claim d t this w o).0) (after_claim d t this w o).1
        × (c + (after_claim d t this w o).0 ≤ m)
  unfolding after_claim
  after_claim-Holds auth to c v now m w h lc lv (ok (amount, w')) (_, inl p) =
      ground (arith, p.due, p.released, p.recorded)
  after_claim-Holds auth to c v now m w h lc lv (ok (amount, w')) (_, inr p) =
      ground (arith, p.nothing, p.kept)
  after_claim-Holds auth to c v now m w h lc lv (panic _) bad = absurd bad
  after_claim-Holds auth to c v now m w h lc lv trap _ = ground arith

  module _ (small : total < 2 ^ 127) (order : start < end) (range : end < 2 ^ 32) where
    -- Over any sequence of calls at ledgers up to `last`, failed calls included, the released amounts
    -- add up to the growth of the stored claimed amount, and the claimed amount never passes the
    -- curve's value at `last`.
    pub run-Holds :
        (last : ℕ) (cs : List Call) (c : ℕ) (w : World d t)
        → Holds c w
        → c ≤ curve last
        → All (λ k. k.ledger.sequence ≤ last) cs
        → Holds (c + (run d t this cs w).0) (run d t this cs w).1
          × (c + (run d t this cs w).0 ≤ curve last)
    unfolding run
    run-Holds last [] c w h le all = ground arith
    run-Holds last (k ∷ cs) c w h le all =
        let o = claim d t k.auth k.ledger this k.to w in
        let step =
          after_claim-Holds k.auth k.to c (curve k.ledger.sequence) k.ledger.sequence (curve last) w
            h le (vested_mono total start cliff end k.ledger.sequence last order all.0) o
            (claim-Claimed small order range k.auth k.ledger k.to c w h
              (omega (arith, vested-le total start cliff end last order))) in
        let (r, w') = after_claim d t this w o in
        let rest = run-Holds last cs (c + r) w' step.0 step.1 all.1 in ground (arith, rest)

-- ===== src/MultiToken/Window.antt =====
-- The rolling window of policies/multi-token-spending-limit-policy/src/lib.rs: what
-- `cleanup_old_entries` removes and keeps.
use latch_contracts.Base.{
  ℕ, ◌+◌, ◌-◌, ◌≤◌, ◌<◌, ◌≡◌, refl, List, [], ◌∷◌, ◌++◌, arith, All, length, ltb, leb,
  if◌then◌else◌,
}
use latch_contracts.Base.Int.{ℤ, pos, negsuc, pos_part, max_i128, saturating_add-pos}
use latch_contracts.MultiToken.{SpendingEntry, evict}

-- No entry is negative.
abbrev pub IsPos : ℤ → Type 0
IsPos (pos _) = Unit
IsPos (negsuc _) = ⊥

abbrev pub AllPos : List SpendingEntry → Type 0
AllPos [] = Unit
AllPos (e ∷ es) = IsPos e.amount_usd × AllPos es

-- The ledgers rise along the list, from `lo` to `hi` at most.
abbrev pub Ordered : ℕ → List SpendingEntry → ℕ → Type 0
Ordered lo [] hi = lo ≤ hi
Ordered lo (e ∷ es) hi = (lo ≤ e.ledger) × Ordered e.ledger es hi

-- The whole amount of a list of entries, and the amount of those after a ledger.
abbrev pub sum : List SpendingEntry → ℕ
sum [] = 0
sum (e ∷ es) = pos_part e.amount_usd + sum es

abbrev pub sum_after : ℕ → List SpendingEntry → ℕ
sum_after cutoff [] = 0
sum_after cutoff (e ∷ es) =
    (if ltb cutoff e.ledger then pos_part e.amount_usd else 0) + sum_after cutoff es

abbrev pub count_after : ℕ → List SpendingEntry → ℕ
count_after cutoff [] = 0
count_after cutoff (e ∷ es) = (if ltb cutoff e.ledger then 1 else 0) + count_after cutoff es

-- The entries that the loop keeps, and the amount that it removes.
abbrev pub kept : ℕ → List SpendingEntry → List SpendingEntry
kept cutoff [] = []
kept cutoff (e ∷ es) = if leb e.ledger cutoff then kept cutoff es else e ∷ es

abbrev pub gone : ℕ → List SpendingEntry → ℕ
gone cutoff [] = 0
gone cutoff (e ∷ es) = if leb e.ledger cutoff then pos_part e.amount_usd + gone cutoff es else 0

Ordered-weaken :
    (lo lo' : ℕ) (es : List SpendingEntry) (hi : ℕ)
    → lo ≤ lo'
    → Ordered lo' es hi
    → Ordered lo es hi
Ordered-weaken lo lo' [] hi h k = omega arith
Ordered-weaken lo lo' (e ∷ es) hi h k = (omega arith, k.1)

module _ (cutoff : ℕ) where
  pub gone-kept : (es : List SpendingEntry) → gone cutoff es + sum (kept cutoff es) ≡ sum es
  gone-kept [] = refl
  gone-kept (e ∷ es) = ground (arith, gone-kept es)

  pub evict_lem :
      (r : ℕ) (es : List SpendingEntry)
      → AllPos es
      → r + sum es ≤ max_i128
      → evict cutoff (pos r) es ≡ (pos (r + gone cutoff es), kept cutoff es)
  unfolding evict
  evict_lem r [] h k = ground arith
  evict_lem r (e ∷ es) h k = ground (
    arith,
    saturating_add-pos r (pos_part e.amount_usd),
    evict_lem (r + pos_part e.amount_usd) es h.1,
  )

  pub kept-AllPos : (es : List SpendingEntry) → AllPos es → AllPos (kept cutoff es)
  kept-AllPos [] h = tt
  kept-AllPos (e ∷ es) h = ground (arith, kept-AllPos es h.1)

  pub kept-Ordered :
      (lo : ℕ) (es : List SpendingEntry) (hi : ℕ)
      → Ordered lo es hi
      → Ordered lo (kept cutoff es) hi
  kept-Ordered lo [] hi h = h
  kept-Ordered lo (e ∷ es) hi h =
      ground
        (arith, kept-Ordered e.ledger es hi h.1, Ordered-weaken lo e.ledger (kept cutoff es) hi)

  -- What is removed lies at or before the cutoff, so no later window counts it.
  pub sum_after-kept :
      (later : ℕ) (es : List SpendingEntry)
      → cutoff ≤ later
      → sum_after later (kept cutoff es) ≡ sum_after later es
  sum_after-kept later [] h = refl
  sum_after-kept later (e ∷ es) h = ground (arith, sum_after-kept later es h)

  pub sum_after-le : (es : List SpendingEntry) → sum_after cutoff es ≤ sum es
  sum_after-le [] = omega arith
  sum_after-le (e ∷ es) = ground (arith, sum_after-le es)

  sum-sum_after :
      (lo : ℕ) (es : List SpendingEntry) (hi : ℕ)
      → Ordered lo es hi
      → cutoff < lo
      → sum es ≡ sum_after cutoff es
  sum-sum_after lo [] hi h k = refl
  sum-sum_after lo (e ∷ es) hi h k = ground (arith, sum-sum_after e.ledger es hi h.1)

  -- In a history whose ledgers rise, what is kept is exactly the window.
  pub sum-kept :
      (lo : ℕ) (es : List SpendingEntry) (hi : ℕ)
      → Ordered lo es hi
      → sum (kept cutoff es) ≡ sum_after cutoff es
  sum-kept lo [] hi h = refl
  sum-kept lo (e ∷ es) hi h =
      ground (arith, sum-kept e.ledger es hi h.1, sum-sum_after e.ledger es hi h.1)

  pub count_after-kept :
      (later : ℕ) (es : List SpendingEntry)
      → cutoff ≤ later
      → count_after later (kept cutoff es) ≡ count_after later es
  count_after-kept later [] h = refl
  count_after-kept later (e ∷ es) h = ground (arith, count_after-kept later es h)

  length-count_after :
      (lo : ℕ) (es : List SpendingEntry) (hi : ℕ)
      → Ordered lo es hi
      → cutoff < lo
      → length es ≡ count_after cutoff es
  length-count_after lo [] hi h k = refl
  length-count_after lo (e ∷ es) hi h k = ground (arith, length-count_after e.ledger es hi h.1)

  pub length-kept :
      (lo : ℕ) (es : List SpendingEntry) (hi : ℕ)
      → Ordered lo es hi
      → length (kept cutoff es) ≡ count_after cutoff es
  length-kept lo [] hi h = refl
  length-kept lo (e ∷ es) hi h =
      ground (arith, length-kept e.ledger es hi h.1, length-count_after e.ledger es hi h.1)

-- Entries that are a period old or older are all outside the window.
pub after_past :
    (period now : ℕ) (es : List SpendingEntry)
    → All (λ e. e.ledger + period ≤ now) es
    → (sum_after (now - period) es ≡ 0) × (count_after (now - period) es ≡ 0)
after_past period now [] h = (refl, refl)
after_past period now (e ∷ es) h = let rest = after_past period now es h.1 in ground (arith, rest)

pub sum-append : (xs ys : List SpendingEntry) → sum (xs ++ ys) ≡ sum xs + sum ys
sum-append [] ys = omega arith
sum-append (x ∷ xs) ys = omega (arith, sum-append xs ys)

pub sum_after-append :
    (cutoff : ℕ) (xs ys : List SpendingEntry)
    → sum_after cutoff (xs ++ ys) ≡ sum_after cutoff xs + sum_after cutoff ys
sum_after-append cutoff [] ys = omega arith
sum_after-append cutoff (x ∷ xs) ys = omega (arith, sum_after-append cutoff xs ys)

pub count_after-append :
    (cutoff : ℕ) (xs ys : List SpendingEntry)
    → count_after cutoff (xs ++ ys) ≡ count_after cutoff xs + count_after cutoff ys
count_after-append cutoff [] ys = omega arith
count_after-append cutoff (x ∷ xs) ys = omega (arith, count_after-append cutoff xs ys)

pub AllPos-append : (xs ys : List SpendingEntry) → AllPos xs → AllPos ys → AllPos (xs ++ ys)
AllPos-append [] ys hx hy = hy
AllPos-append (x ∷ xs) ys hx hy = (hx.0, AllPos-append xs ys hx.1 hy)

pub Ordered-append :
    (lo : ℕ) (xs : List SpendingEntry) (mid : ℕ) (e : SpendingEntry)
    → Ordered lo xs mid
    → mid ≤ e.ledger
    → Ordered lo (xs ++ e ∷ []) e.ledger
Ordered-append lo [] mid e h k = omega arith
Ordered-append lo (x ∷ xs) mid e h k = (h.0, Ordered-append x.ledger xs mid e h.1 k)

-- ===== src/Soroban/Stores.antt =====
-- The host's key-value storage, which the contracts use through these operations and laws only.
use latch_contracts.Base.{
  ℕ, ◌≡◌, refl, sym, subst, ◌∙◌, ◌≢◌, Bool, Option, none, some, is_some, arith,
}

-- `get`, `set`, `remove` and `extend_ttl` of one kind of storage (persistent or instance). The laws
-- are the host's documented behaviour; a lifetime is not visible to `get`.
pub record Storage (K V : Type 0) : Type 1 where
  pub State : Type 0
  pub get : K → State → Option V
  pub set : K → V → State → State
  pub remove : K → State → State
  pub extend_ttl : K → ℕ → ℕ → State → State
  pub get-set_self : (k : K) (v : V) (s : State) → get k (set k v s) ≡ some v
  pub get-set_ne : (j k : K) (v : V) (s : State) → j ≢ k → get j (set k v s) ≡ get j s
  pub get-remove_self : (k : K) (s : State) → get k (remove k s) ≡ none
  pub get-remove_ne : (j k : K) (s : State) → j ≢ k → get j (remove k s) ≡ get j s
  pub get-extend_ttl : (j k : K) (t x : ℕ) (s : State) → get j (extend_ttl k t x s) ≡ get j s

-- `storage.has(&key)`
abbrev pub has : {K V : Type 0} (d : Storage K V) → K → d.State → Bool
has d k s = is_some (d.get k s)

-- A storage as a function, for keys with decidable equality. It forgets lifetimes.
module _ {K V : Type 0} (dec : Discrete K) where
  abbrev pub update : K → Option V → (K → Option V) → K → Option V
  update k o s j = elim (dec j k) [ yes _ ↦ o | no _ ↦ s j ]

  pub update_self : (k : K) (o : Option V) (s : K → Option V) → update k o s k ≡ o
  update_self k o s = ground arith

  pub update_ne : (j k : K) (o : Option V) (s : K → Option V) → j ≢ k → update k o s j ≡ s j
  update_ne j k o s h = ground arith

  abbrev pub map_storage : Storage K V
  map_storage = record {
    State = K → Option V;
    get = λ k s. s k;
    set = λ k v. update k (some v);
    remove = λ k. update k none;
    extend_ttl = λ _ _ _ s. s;
    get-set_self = λ k v. update_self k (some v);
    get-set_ne = λ j k v. update_ne j k (some v);
    get-remove_self = λ k. update_self k none;
    get-remove_ne = λ j k. update_ne j k none;
    get-extend_ttl = λ _ _ _ _ _. refl;
  }

-- `set` and `remove` of any storage are updates of what `get` sees.
module _ {K V : Type 0} (dec : Discrete K) (d : Storage K V) where
  pub get-set :
      (key k : K) (v : V) (s : d.State)
      → d.get k (d.set key v s) ≡ update dec key (some v) (λ j. d.get j s) k
  get-set key k v s = elim (dec k key) [
    | yes p ↦
        subst (λ j. d.get j (d.set key v s) ≡ update dec key (some v) (λ i. d.get i s) j) (sym p)
          (d.get-set_self key v s ∙ sym (update_self dec key (some v) (λ i. d.get i s)))
    | no n ↦ d.get-set_ne k key v s n ∙ sym (update_ne dec k key (some v) (λ i. d.get i s) n)
  ]

  pub get-remove :
      (key k : K) (s : d.State) → d.get k (d.remove key s) ≡ update dec key none (λ j. d.get j s) k
  get-remove key k s = elim (dec k key) [
    | yes p ↦
        subst (λ j. d.get j (d.remove key s) ≡ update dec key none (λ i. d.get i s) j) (sym p)
          (d.get-remove_self key s ∙ sym (update_self dec key none (λ i. d.get i s)))
    | no n ↦ d.get-remove_ne k key s n ∙ sym (update_ne dec k key none (λ i. d.get i s) n)
  ]

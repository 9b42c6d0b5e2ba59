-- ===== src/Soroban/Calls.antt =====
-- How a contract call ends, and `do` over it.
use latch_contracts.Base.{◌≡◌, refl, Bool, true, false, not, Option, none, some, is_some}

-- `panic` is `panic_with_error!` with the contract's own error; `trap` is a failure that the host or
-- another contract raises (a missing authorization, a reverted call, an `unwrap` of nothing). Either
-- one rolls the transaction back, so no state comes with it.
pub data Outcome (E A : Type 0) : Type 0 where
  ok : A → Outcome E A
  panic : E → Outcome E A
  trap : Outcome E A

infixl 5 ◌>>=◌ ◌>>◌
abbrev pub ◌>>=◌ : {E A B : Type 0} → Outcome E A → (A → Outcome E B) → Outcome E B
ok a >>= f = f a
panic e >>= f = panic e
trap >>= f = trap

abbrev pub ◌>>◌ : {E B : Type 0} → Outcome E (Unit {0}) → Outcome E B → Outcome E B
m >> k = m >>= λ _. k

module _ {E : Type 0} where
  -- `if b { panic_with_error!(e, err) }`
  abbrev pub panic_if : Bool → E → Outcome E (Unit {0})
  panic_if true err = panic err
  panic_if false err = ok tt

  -- `address.require_auth()`, with the transaction's authorizations as an argument.
  abbrev pub require_auth : Bool → Outcome E (Unit {0})
  require_auth true = ok tt
  require_auth false = trap

  -- `option.unwrap_or_else(|| panic_with_error!(e, err))`
  abbrev pub unwrap_or_panic : {A : Type 0} → Option A → E → Outcome E A
  unwrap_or_panic none err = panic err
  unwrap_or_panic (some a) err = ok a

  -- `option.unwrap()`, and the result of a call that may revert.
  abbrev pub unwrap : {A : Type 0} → Option A → Outcome E A
  unwrap none = trap
  unwrap (some a) = ok a

-- What a bind that succeeded went through.
pub >>=-eq-ok :
    {E A B : Type 0} (call : Outcome E A) (then' : A → Outcome E B) {end : B}
    → call >>= then' ≡ ok end
    → (between : A) × (call ≡ ok between) × (then' between ≡ ok end)
>>=-eq-ok trap then' e = cc
>>=-eq-ok (panic _) then' e = cc
>>=-eq-ok (ok between) then' e = (between, refl, e)

pub ok-injective : {E A : Type 0} {a b : A} → ◌≡◌ {A = Outcome E A} (ok a) (ok b) → a ≡ b
ok-injective h = cc

pub unwrap-eq-ok : {E A : Type 0} (o : Option A) {a : A} → unwrap {E = E} o ≡ ok a → o ≡ some a
unwrap-eq-ok none h = cc
unwrap-eq-ok (some a) h = cc

pub unwrap_or_panic-eq-ok :
    {E A : Type 0} (o : Option A) (e : E) {a : A} → unwrap_or_panic o e ≡ ok a → o ≡ some a
unwrap_or_panic-eq-ok none e h = cc
unwrap_or_panic-eq-ok (some a) e h = cc

-- What a passed test `if !storage.has(&key)` has found.
pub panic_if-is_some :
    {E A : Type 0} (o : Option A) (e : E) {u : Unit {0}}
    → panic_if (not (is_some o)) e ≡ ok u
    → (a : A) × (o ≡ some a)
panic_if-is_some none e h = absurd (cc)
panic_if-is_some (some a) e h = (a, refl)

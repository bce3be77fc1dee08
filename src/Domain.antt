-- ===== src/Domain.antt =====
-- The error type of crates/domain/src/error.rs, and effects: an operation takes the state and
-- returns its result with the new state. An error keeps what was done before it.
use nasserver.Base.{String, ◌≡◌, Bool, true, false, Option, none, some, refl, ◌⊎◌, inl, inr}

pub data Error : Type 0 where
  internal not_found unauthorized forbidden bad_request conflict io database : String → Error

pub data Result {ℓ} (A : Type ℓ) : Type ℓ where
  ok : A → Result A
  err : Error → Result A

-- The answer of a library call: a value, or the text of its error.
pub data Attempt {ℓ} (A : Type ℓ) : Type ℓ where
  done : A → Attempt A
  failed : String → Attempt A

-- An operation on a state of type `W`.
abbrev pub M : Type 0 → Type 0 → Type 0
M W A = W → Result A × W

module _ {W A : Type 0} where
  -- What follows a result.
  abbrev pub after : {B : Type 0} → Result A × W → (A → M W B) → Result B × W
  after (ok a, w) k = k a w
  after (err e, w) k = (err e, w)

  abbrev pub pure : A → M W A
  pure a w = (ok a, w)

  abbrev pub fail : Error → M W A
  fail e w = (err e, w)

  -- `let _ = action;`
  abbrev pub ignore : M W A → M W (Unit {0})
  ignore m w = (ok tt, (m w).1)

infixl 5 ◌>>=◌ ◌>>◌
abbrev pub ◌>>=◌ : {W A B : Type 0} → M W A → (A → M W B) → M W B
◌>>=◌ m k w = after (m w) k

abbrev pub ◌>>◌ : {W B : Type 0} → M W (Unit {0}) → M W B → M W B
m >> k = m >>= λ _. k

-- `if !test { return Err(e) }`
abbrev pub require : {W : Type 0} → Bool → Error → M W (Unit {0})
require true e = pure tt
require false e = fail e

-- `option.ok_or_else(|| e)?`
abbrev pub expect : {W A : Type 0} → Option A → Error → M W A
expect none e = fail e
expect (some a) e = pure a

pub Result-cases :
    {A : Type 0} → (r : Result A) → ((a : A) × (r ≡ ok a)) ⊎ ((e : Error) × (r ≡ err e))
Result-cases (ok a) = inl (a, refl)
Result-cases (err e) = inr (e, refl)

pub Attempt-cases :
    {A : Type 0} → (r : Attempt A) → ((a : A) × (r ≡ done a)) ⊎ ((m : String) × (r ≡ failed m))
Attempt-cases (done a) = inl (a, refl)
Attempt-cases (failed m) = inr (m, refl)

module _ {W A B : Type 0} where
  after-eq-ok :
      (r : Result A × W) (k : A → M W B) {b : B} {w' : W}
      → after r k ≡ (ok b, w')
      → (a : A) × (v : W) × (r ≡ (ok a, v)) × (k a v ≡ (ok b, w'))
  after-eq-ok (ok a, v) k e = (a, v, refl, e)
  after-eq-ok (err x, v) k e = cc

  -- A chain that succeeds: its first step does, and then the rest.
  pub >>=-eq-ok :
      (m : M W A) (k : A → M W B) (w : W) {b : B} {w' : W}
      → (m >>= k) w ≡ (ok b, w')
      → (a : A) × (v : W) × (m w ≡ (ok a, v)) × (k a v ≡ (ok b, w'))
  >>=-eq-ok m k w e = after-eq-ok (m w) k e

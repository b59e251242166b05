-- ===== src/Base/Results.antt =====
-- Thrown errors as values. A transaction that throws leaves no state behind: it returns `err`.
use mathlib.Core.Path.{◌≡◌, refl, ap}
use mathlib.Core.Logic.{◌⊎◌, inl, inr}
use mathlib.Core.Bool.{Bool, true, false}
use mathlib.Core.Option.{Option, none, some}
use makeup_booking_system.Errors.{Error}

-- What a function returns or throws.
pub data Result {ℓ} (Value : Type ℓ) : Type ℓ where
  err : Error → Result Value
  ok : Value → Result Value

module _ {ℓ} {A : Type ℓ} where
  -- The test for a value that is missing.
  abbrev pub is_none : Option A → Bool
  is_none none = true
  is_none (some a) = false

-- `if (test) throw error`
abbrev pub throw_if : Bool → Error → Result (Unit {0})
throw_if false error = ok tt
throw_if true error = err error

-- `if (!test) throw error`
abbrev pub guard : Bool → Error → Result (Unit {0})
guard false error = err error
guard true error = ok tt

pub throw_if-eq-ok :
    (test : Bool) (error : Error) {u : Unit {0}} → throw_if test error ≡ ok u → test ≡ false
throw_if-eq-ok false error thrown = refl
throw_if-eq-ok true error thrown = cc

pub guard-eq-ok :
    (test : Bool) (error : Error) {u : Unit {0}} → guard test error ≡ ok u → test ≡ true
guard-eq-ok false error thrown = cc
guard-eq-ok true error thrown = refl

module _ {ℓ} {A : Type ℓ} where
  -- `if (!value) throw error`
  abbrev pub or_throw : Option A → Error → Result A
  or_throw (some value) error = ok value
  or_throw none error = err error

  pub or_throw-eq-ok :
      (value : Option A) (error : Error) {a : A} → or_throw value error ≡ ok a → value ≡ some a
  or_throw-eq-ok (some value) error same = cc
  or_throw-eq-ok none error same = cc

  pub ok-injective : (x y : A) → ok x ≡ ok y → x ≡ y
  ok-injective x y same = cc

  pub Result-cases : (r : Result A) → ((a : A) × (r ≡ ok a)) ⊎ ((error : Error) × (r ≡ err error))
  Result-cases (err error) = inr (error, refl)
  Result-cases (ok value) = inl (value, refl)

module _ {ℓ κ} {A : Type ℓ} {B : Type κ} where
  infixl 5 ◌>>=◌
  -- `await` of a value, and what follows it.
  abbrev pub ◌>>=◌ : Result A → (A → Result B) → Result B
  err error >>= next = err error
  ok value >>= next = next value

  -- Where a sequence returns, its first part has returned.
  pub >>=-eq-ok :
      (first : Result A) (next : A → Result B) {b : B}
      → (first >>= next) ≡ ok b
      → (a : A) × (first ≡ ok a) × (next a ≡ ok b)
  >>=-eq-ok (err error) next returns = cc
  >>=-eq-ok (ok value) next returns = (value, refl, returns)

  pub ok-pair : (p q : A × B) → ok p ≡ ok q → (p.0 ≡ q.0) × (p.1 ≡ q.1)
  ok-pair p q same =
      let e = ok-injective p q same in (ap (λ (t : A × B). t.0) e, ap (λ (t : A × B). t.1) e)

module _ {κ} {B : Type κ} where
  infixl 5 ◌>>◌
  -- The second statement runs after the first has not thrown.
  abbrev pub ◌>>◌ : Result (Unit {0}) → Result B → Result B
  first >> next = first >>= λ done. next

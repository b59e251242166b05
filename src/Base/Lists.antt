-- ===== src/Base/Lists.antt =====
-- Lists searched by Boolean tests, and measured by native numbers.
use Prim.Native.Nat.{ℕ, suc}
use mathlib.Core.Path.{◌≡◌, refl, sym, subst, ◌∙◌}
use mathlib.Core.Logic.{inl, inr}
use mathlib.Core.Bool.{Bool, true, false, ◌&&◌, ◌||◌}
use mathlib.Core.Option.{Option, none, some}
use mathlib.Core.List.{List, [], ◌∷◌, ◌++◌}
use native.Mathlib.Omega.{arith}
use makeup_booking_system.Base.Tests.{◌==◌, if◌then◌else◌, Bool-cases}

module _ {ℓ} {A : Type ℓ} where
  abbrev pub length : List A → ℕ
  length [] = 0
  length (x ∷ xs) = suc (length xs)

  -- `Array.some`
  abbrev pub any : (A → Bool) → List A → Bool
  any p [] = false
  any p (x ∷ xs) = p x || any p xs

  -- `Array.every`
  abbrev pub all : (A → Bool) → List A → Bool
  all p [] = true
  all p (x ∷ xs) = p x && all p xs

  -- `Array.filter`
  abbrev pub filter : (A → Bool) → List A → List A
  filter p [] = []
  filter p (x ∷ xs) = let rest = filter p xs in if p x then x ∷ rest else rest

  -- The first record that fits, as `findFirst` and `findUnique` give it.
  abbrev pub find : (A → Bool) → List A → Option A
  find p [] = none
  find p (x ∷ xs) = let rest = find p xs in if p x then some x else rest

  -- Every element has the property.
  abbrev pub All {κ} : (A → Type κ) → List A → Type κ
  All P [] = Unit
  All P (x ∷ xs) = P x × All P xs

module _ {ℓ κ} {A : Type ℓ} {B : Type κ} where
  -- `Array.flatMap`
  abbrev pub flat_map : (A → List B) → List A → List B
  flat_map f [] = []
  flat_map f (x ∷ xs) = f x ++ flat_map f xs

-- `Array.includes` on numbers
abbrev pub includes : List ℕ → ℕ → Bool
includes [] n = false
includes (x ∷ xs) n = x == n || includes xs n

module _ {ℓ} {A : Type ℓ} (p : A → Bool) where
  pub any-append : (xs ys : List A) → any p (xs ++ ys) ≡ any p xs || any p ys
  any-append [] ys = refl
  any-append (x ∷ xs) ys = ground (arith, any-append xs ys)

  pub find_holds : (xs : List A) (a : A) → find p xs ≡ some a → p a ≡ true
  find_holds [] a h = ground arith
  find_holds (x ∷ xs) a h = ground (arith, find_holds xs a)

  pub find_here : (x : A) (xs : List A) → p x ≡ true → find p (x ∷ xs) ≡ some x
  find_here x xs h = ground arith

  pub find_later : (x : A) (xs : List A) → p x ≡ false → find p (x ∷ xs) ≡ find p xs
  find_later x xs h = ground arith

module _ {ℓ κ} {A : Type ℓ} (P : A → Type κ) where
  pub All-append : (xs ys : List A) → All P xs → All P ys → All P (xs ++ ys)
  All-append [] ys hx hy = hy
  All-append (x ∷ xs) ys hx hy = (hx.0, All-append xs ys hx.1 hy)

pub includes-append :
    (xs ys : List ℕ) (n : ℕ) → includes (xs ++ ys) n ≡ includes xs n || includes ys n
includes-append [] ys n = refl
includes-append (x ∷ xs) ys n = ground (arith, includes-append xs ys n)

module _ {ℓ κ} {A : Type ℓ} (P : A → Type κ) (p : A → Bool) where
  -- What holds of all elements holds of the one that is found.
  pub All-find : (xs : List A) (a : A) → All P xs → find p xs ≡ some a → P a
  All-find [] a h e = let k : none ≡ some a = e in cc
  All-find (x ∷ xs) a h e = elim (Bool-cases (p x)) [
    | inl y ↦
        let k : some x ≡ some a = sym (find_here p x xs y) ∙ e in
        let same : x ≡ a = cc in subst P same h.0
    | inr n ↦ All-find xs a h.1 (sym (find_later p x xs n) ∙ e)
  ]

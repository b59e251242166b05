-- ===== src/Tables/OneRow.antt =====
-- An update of one row of a table whose rows a constraint keeps apart (`updateMany` of
-- apps/api/src, prisma/migrations).
use makeup_booking_system.Base.{
  All, Bool, Bool-cases, List, [], any, ap, arith, false, inl, inr, refl, true, ◌∷◌, ◌≡◌, ◌≤◌,
}
use makeup_booking_system.Tables.{Apart, count_of, update_many}

module _ {A : Type 0} (clash : A → A → Bool) (p : A → Bool) (f : A → A) (x : A) where
  -- The updated row clashes only with what `x` clashes with.
  abbrev pub StandsIn : A → Type 0
  StandsIn c = (b : A) → clash x b ≡ false → (clash (f c) b ≡ false) × (clash b (f c) ≡ false)

  update_many-none : (rows : List A) → count_of p rows ≡ 0 → update_many p f rows ≡ rows
  update_many-none [] h = refl
  update_many-none (a ∷ rows) h = elim (Bool-cases (p a)) [
    | inl y ↦ let k = (rw y at h) in let wrong : true ≡ false = ground (arith, k) in cc
    | inr n ↦ rw n (ap (λ r. a ∷ r) (update_many-none rows (rw n at h)))
  ]

  any-update_many :
      (a : A) (rows : List A)
      → All (λ c. p c ≡ true → StandsIn c) rows
      → clash x a ≡ false
      → any (clash a) rows ≡ false
      → any (clash a) (update_many p f rows) ≡ false
  any-update_many a [] s k h = refl
  any-update_many a (b ∷ rows) s k h = elim (Bool-cases (p b)) [
    | inl y ↦ rw (y, (s.0 y a k).1) (any-update_many a rows s.1 k (ground arith))
    | inr n ↦ rw n (ground (arith, any-update_many a rows s.1 k))
  ]

  any-StandsIn :
      (c : A) (rows : List A)
      → StandsIn c
      → any (clash x) rows ≡ false
      → any (clash (f c)) rows ≡ false
  any-StandsIn c [] s h = refl
  any-StandsIn c (b ∷ rows) s h =
      let here : clash x b ≡ false = ground arith in
      rw (s b here).0 (any-StandsIn c rows s (ground arith))

  -- The update of a row that stands in for `x`, which clashes with no row, keeps rows apart.
  pub Apart-update_one :
      (rows : List A)
      → All (λ c. p c ≡ true → StandsIn c) rows
      → count_of p rows ≤ 1
      → any (clash x) rows ≡ false
      → Apart clash rows
      → Apart clash (update_many p f rows)
  Apart-update_one [] s n h k = tt
  Apart-update_one (a ∷ rows) s n h k = elim (Bool-cases (p a)) [
    | inl y ↦
        let none_left : count_of p rows ≡ 0 = omega (arith, (rw y at n)) in
        rw (y, update_many-none rows none_left) (any-StandsIn a rows (s.0 y) (ground arith), k.1)
    | inr m ↦ rw m (
      any-update_many a rows s.1 (ground arith) k.0,
      Apart-update_one rows s.1 (rw m at n) (ground arith) k.1,
    )
  ]

-- ===== src/Tables/Sorted.antt =====
-- Filters and orders of a table (`where` and `orderBy` of the queries of apps/api/src).
use makeup_booking_system.Base.{
  All, Bool, Bool-cases, List, [], false, filter, inl, inr, refl, subst, sym, true, ◌∙◌, ◌∷◌, ◌≡◌,
}
use makeup_booking_system.Tables.{All-imply, insert_by, sort_by}
use mathlib.Core.List.{Memᴰ}

module _ {ℓ κ} {A : Type ℓ} (P : A → Type κ) where
  pub All-filter : (p : A → Bool) (rows : List A) → All P rows → All P (filter p rows)
  All-filter p [] h = tt
  All-filter p (a ∷ rows) h = elim (Bool-cases (p a)) [
    | inl y ↦ rw y (h.0, All-filter p rows h.1)
    | inr n ↦ rw n (All-filter p rows h.1)
  ]

  All-insert_by :
      (le : A → A → Bool) (a : A) (rows : List A) → P a → All P rows → All P (insert_by le a rows)
  unfolding insert_by
  All-insert_by le a [] k h = (k, tt)
  All-insert_by le a (b ∷ rows) k h = elim (Bool-cases (le a b)) [
    | inl y ↦ rw y (k, h)
    | inr n ↦ rw n (h.0, All-insert_by le a rows k h.1)
  ]

  pub All-sort_by : (le : A → A → Bool) (rows : List A) → All P rows → All P (sort_by le rows)
  unfolding sort_by
  All-sort_by le [] h = tt
  All-sort_by le (a ∷ rows) h = All-insert_by le a (sort_by le rows) h.0 (All-sort_by le rows h.1)

-- The rows that are found are among the sorted ones.
module _ {A : Type 0} (le : A → A → Bool) where
  insert_by-here : (a : A) (rows : List A) → Memᴰ a (insert_by le a rows)
  unfolding insert_by
  insert_by-here a [] = Memᴰ.head refl
  insert_by-here a (b ∷ rows) = elim (Bool-cases (le a b)) [
    | inl y ↦ rw y (Memᴰ.head refl)
    | inr n ↦ rw n (Memᴰ.tail (insert_by-here a rows))
  ]

  insert_by-there : (a c : A) (rows : List A) → Memᴰ c rows → Memᴰ c (insert_by le a rows)
  unfolding insert_by
  insert_by-there a c [] m = elim m [ ]
  insert_by-there a c (b ∷ rows) (Memᴰ.head e) = elim (Bool-cases (le a b)) [
    | inl y ↦ rw y (Memᴰ.tail (Memᴰ.head e))
    | inr n ↦ rw n (Memᴰ.head e)
  ]
  insert_by-there a c (b ∷ rows) (Memᴰ.tail m) = elim (Bool-cases (le a b)) [
    | inl y ↦ rw y (Memᴰ.tail (Memᴰ.tail m))
    | inr n ↦ rw n (Memᴰ.tail (insert_by-there a c rows m))
  ]

  pub All-sorted :
      (p : A → Bool) (rows : List A)
      → All (λ a. p a ≡ true → Memᴰ a (sort_by le (filter p rows))) rows
  unfolding sort_by
  All-sorted p [] = tt
  All-sorted p (a ∷ rows) = elim (Bool-cases (p a)) [
    | inl y ↦
        let sorted = sort_by le (filter p rows) in
        let is_filter : a ∷ filter p rows ≡ filter p (a ∷ rows) = rw y refl in
        subst (λ r. All (λ c. p c ≡ true → Memᴰ c (sort_by le r)) (a ∷ rows)) is_filter
          (
            λ _. insert_by-here a sorted,
            All-imply (λ c g o. insert_by-there a c sorted (g o)) rows (All-sorted p rows),
          )
    | inr n ↦
        let is_filter : filter p rows ≡ filter p (a ∷ rows) = rw n refl in
        subst (λ r. All (λ c. p c ≡ true → Memᴰ c (sort_by le r)) (a ∷ rows)) is_filter
          (λ y. let wrong : true ≡ false = sym y ∙ n in cc, All-sorted p rows)
  ]

module _ {A : Type 0} (P : A → Type 0) where
  -- What holds of all rows holds of a row of the table.
  pub Memᴰ-All : {a : A} (rows : List A) → Memᴰ a rows → All P rows → P a
  Memᴰ-All [] m h = elim m [ ]
  Memᴰ-All (b ∷ rows) (Memᴰ.head e) h = subst P (sym e) h.0
  Memᴰ-All (b ∷ rows) (Memᴰ.tail m) h = Memᴰ-All rows m h.1

  pub All-Memᴰ : (rows : List A) → ((a : A) → Memᴰ a rows → P a) → All P rows
  All-Memᴰ [] h = tt
  All-Memᴰ (a ∷ rows) h = (h a (Memᴰ.head refl), All-Memᴰ rows (λ c m. h c (Memᴰ.tail m)))

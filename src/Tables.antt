-- ===== src/Tables.antt =====
-- Tables as lists of rows: rows that a constraint keeps apart, and rows that an update changes
-- (`updateMany` and the unique and exclusion constraints of prisma/migrations).
pub mod OneRow
pub mod Sorted
use makeup_booking_system.Base.{Option}
use makeup_booking_system.Base.{
  All, filter, if◌then◌else◌, length, ℕ, ap, find_here, find_later, some, suc, sym, true, ◌∙◌, Bool,
  Bool-cases, List, [], any, arith, false, find, inl, inr, map, refl, ◌∷◌, ◌≡◌,
}
use mathlib.Core.Option

module _ {ℓ} {A : Type ℓ} where
  -- `updateMany`: the rows that fit are changed.
  abbrev pub update_many : (A → Bool) → (A → A) → List A → List A
  update_many p f rows = map (λ a. if p a then f a else a) rows

  -- The count that `updateMany` returns.
  abbrev pub count_of : (A → Bool) → List A → ℕ
  count_of p rows = length (filter p rows)

module _ {ℓ} {A : Type ℓ} (le : A → A → Bool) where
  unfoldable pub insert_by : A → List A → List A
  insert_by a [] = a ∷ []
  insert_by a (b ∷ rows) = let rest = insert_by a rows in if le a b then a ∷ b ∷ rows else b ∷ rest

  -- `orderBy`: the rows in order, where rows that are equal in the order stay as they are.
  unfoldable pub sort_by : List A → List A
  sort_by [] = []
  sort_by (a ∷ rows) = insert_by a (sort_by rows)

  length-insert_by : (a : A) (rows : List A) → length (insert_by a rows) ≡ suc (length rows)
  unfolding insert_by
  length-insert_by a [] = refl
  length-insert_by a (b ∷ rows) = ground (arith, length-insert_by a rows)

  pub length-sort_by : (rows : List A) → length (sort_by rows) ≡ length rows
  unfolding sort_by
  length-sort_by [] = refl
  length-sort_by (a ∷ rows) = length-insert_by a (sort_by rows) ∙ ap suc (length-sort_by rows)

module _ {ℓ} {A : Type ℓ} (clash : A → A → Bool) where
  -- No row clashes with a later one.
  abbrev pub Apart : List A → Type 0
  Apart [] = Unit
  Apart (a ∷ rows) = (any (clash a) rows ≡ false) × Apart rows

module _ {ℓ} {A : Type ℓ} (clash : A → A → Bool) (f : A → A)
    (keeps : (a b : A) → clash a b ≡ false → clash (f a) (f b) ≡ false) where
  any-clash-map :
      (a : A) (rows : List A) → any (clash a) rows ≡ false → any (clash (f a)) (map f rows) ≡ false
  any-clash-map a [] h = refl
  any-clash-map a (b ∷ rows) h = ground (arith, keeps a b, any-clash-map a rows)

  -- An update that makes no two rows clash keeps the rows apart.
  pub Apart-map : (rows : List A) → Apart clash rows → Apart clash (map f rows)
  Apart-map [] h = tt
  Apart-map (a ∷ rows) h = (any-clash-map a rows h.0, Apart-map rows h.1)

module _ {ℓ} {A : Type ℓ} (q : A → Bool) (f : A → A) (kept : (a : A) → q (f a) ≡ q a) where
  -- A search by what the update keeps finds the updated row.
  pub find-map : (rows : List A) → find q (map f rows) ≡ Option.map f (find q rows)
  find-map [] = refl
  find-map (a ∷ rows) = elim (Bool-cases (q a)) [
    | inl y ↦ rw (kept a, y) refl
    | inr n ↦ rw (kept a, n) (find-map rows)
  ]

module _ {ℓ} {A : Type ℓ} (clash : A → A → Bool) (p : A → Bool)
    (same : (a b : A) → p a ≡ true → p b ≡ true → clash a b ≡ true) where
  none_later :
      (a : A) (rows : List A) → p a ≡ true → any (clash a) rows ≡ false → count_of p rows ≡ 0
  none_later a [] h k = refl
  none_later a (b ∷ rows) h k = ground (arith, same a b, none_later a rows)

  -- Rows that are apart have one row that fits, where any two that fit clash.
  pub count_of-Apart : (rows : List A) → Apart clash rows → any p rows ≡ true → count_of p rows ≡ 1
  count_of-Apart [] h k = cc
  count_of-Apart (a ∷ rows) h k = elim (Bool-cases (p a)) [
    | inl y ↦ rw y (ap suc (none_later a rows y h.0))
    | inr n ↦ rw n (count_of-Apart rows h.1 (rw n at k))
  ]

module _ {ℓ} {A : Type ℓ} (p : A → Bool) where
  pub count_of-none : (rows : List A) → any p rows ≡ false → count_of p rows ≡ 0
  count_of-none [] h = refl
  count_of-none (a ∷ rows) h = ground (arith, count_of-none rows)

  -- A row that is found shows that there is one.
  pub any-find :
      (q : A → Bool) (rows : List A) (a : A) → find q rows ≡ some a → p a ≡ true → any p rows ≡ true
  any-find q [] a h k = cc
  any-find q (b ∷ rows) a h k = elim (Bool-cases (q b)) [
    | inl y ↦
        let found : some b ≡ some a = sym (find_here q b rows y) ∙ h in
        let is_a : b ≡ a = cc in rw (ap p is_a ∙ k) refl
    | inr n ↦
        let rest = any-find q rows a (sym (find_later q b rows n) ∙ h) k in
        elim (Bool-cases (p b)) [ inl y ↦ rw y refl | inr m ↦ rw m rest ]
  ]

module _ {ℓ} {A : Type ℓ} (clash : A → A → Bool) (q : A → Bool)
    (same : (a b : A) → q a ≡ true → q b ≡ true → clash a b ≡ true) where
  -- Of rows that are apart, those that fit are the one that is found.
  pub any-Apart :
      (p : A → Bool) (rows : List A) (a : A)
      → ((b : A) → p b ≡ true → q b ≡ true)
      → Apart clash rows
      → find q rows ≡ some a
      → any p rows ≡ p a
  any-Apart p [] a i h k = cc
  any-Apart p (b ∷ rows) a i h k = elim (Bool-cases (q b)) [
    | inl y ↦
        let found : some b ≡ some a = sym (find_here q b rows y) ∙ k in
        let is_a : b ≡ a = cc in rw (none_else p b rows y h.0 i) (ground (arith, ap p is_a))
    | inr n ↦ rw (not_p b n (i b)) (any-Apart p rows a i h.1 (sym (find_later q b rows n) ∙ k))
  ]
    where
      not_p : (b : A) → q b ≡ false → (p b ≡ true → q b ≡ true) → p b ≡ false
      not_p b n i = ground (arith, i)

      none_else :
          (p : A → Bool) (b : A) (rows : List A)
          → q b ≡ true
          → any (clash b) rows ≡ false
          → ((c : A) → p c ≡ true → q c ≡ true)
          → any p rows ≡ false
      none_else p b [] y h i = refl
      none_else p b (c ∷ rows) y h i = ground (arith, same b c, i c, none_else p b rows)

module _ {ℓ κ} {A : Type ℓ} {P Q : A → Type κ} where
  pub All-imply : ((a : A) → P a → Q a) → (rows : List A) → All P rows → All Q rows
  All-imply f [] h = tt
  All-imply f (a ∷ rows) h = (f a h.0, All-imply f rows h.1)

module _ {A : Type 0} (clash : A → A → Bool) (q : A → Bool)
    (same : (a b : A) → q a ≡ true → q b ≡ true → clash a b ≡ true) where
  none_else_here :
      (b a : A) (rows : List A)
      → q b ≡ true
      → any (clash b) rows ≡ false
      → All (λ c. q c ≡ true → c ≡ a) rows
  none_else_here b a [] y h = tt
  none_else_here b a (c ∷ rows) y h = (
    λ z. let wrong : true ≡ false = ground (arith, same b c y z) in cc,
    none_else_here b a rows y (ground arith),
  )

  -- Of rows that are apart, only the one that is found fits.
  pub All-Apart :
      (rows : List A) (a : A)
      → Apart clash rows
      → find q rows ≡ some a
      → All (λ c. q c ≡ true → c ≡ a) rows
  All-Apart [] a h k = tt
  All-Apart (b ∷ rows) a h k = elim (Bool-cases (q b)) [
    | inl y ↦
        let found : some b ≡ some a = sym (find_here q b rows y) ∙ k in
        let is_a : b ≡ a = cc in (λ _. is_a, none_else_here b a rows y h.0)
    | inr n ↦ (
      λ y. let wrong : true ≡ false = sym y ∙ n in cc,
      All-Apart rows a h.1 (sym (find_later q b rows n) ∙ k),
    )
  ]

-- ===== src/Booking/Rows.antt =====
-- Updates of the rows of appointments (`updateMany`), and what they keep.
pub use makeup_booking_system.Tables.{count_of, update_many}
use makeup_booking_system.Base.{
  ap, find_here, find_later, sym, ◌∙◌, Bool-cases, find, inl, inr, some, ◌==◌, All, Bool, List, [],
  any, arith, false, if◌then◌else◌, map, refl, true, ◌∷◌, ◌≡◌, ℕ,
}
use makeup_booking_system.Booking.Appointments.{same_sequence, same_time}
use makeup_booking_system.Booking.Schedule.{ClashFree, IsConsistent, IsPlaced}
use makeup_booking_system.Database.{Appointment, is_occupying}

-- The second row is at the place of the first, and is active only if the first is.
pub record Keeps (a b : Appointment) : Type 0 where
  pub host_kept : b.host_id ≡ a.host_id
  pub artist_kept : b.artist_id ≡ a.artist_id
  pub date_kept : b.appointment_date ≡ a.appointment_date
  pub sequence_kept : b.daily_sequence ≡ a.daily_sequence
  pub start_kept : b.start_at ≡ a.start_at
  pub end_kept : b.end_at ≡ a.end_at
  pub occupation_kept : is_occupying b.status ≡ true → is_occupying a.status ≡ true

pub Keeps-refl : (a : Appointment) → Keeps a a
Keeps-refl a = record {
  host_kept = refl;
  artist_kept = refl;
  date_kept = refl;
  sequence_kept = refl;
  start_kept = refl;
  end_kept = refl;
  occupation_kept = λ h. h;
}

same_sequence-Keeps :
    (a a' b b' : Appointment)
    → Keeps a a'
    → Keeps b b'
    → same_sequence a b ≡ false
    → same_sequence a' b' ≡ false
unfolding same_sequence
same_sequence-Keeps a a' b b' k l h = ground (arith, k.occupation_kept, l.occupation_kept)

same_time-Keeps :
    (a a' b b' : Appointment)
    → Keeps a a'
    → Keeps b b'
    → same_time a b ≡ false
    → same_time a' b' ≡ false
unfolding same_time
same_time-Keeps a a' b b' k l h =
    rw
      (
        k.host_kept, k.artist_kept, l.host_kept, l.artist_kept, k.start_kept, k.end_kept,
        l.start_kept, l.end_kept,
      )
      (ground (arith, k.occupation_kept, l.occupation_kept))

IsPlaced-Keeps : (a b : Appointment) → Keeps a b → IsPlaced a → IsPlaced b
IsPlaced-Keeps a b k p = record {
  midnight = rw k.date_kept p.midnight;
  after_open = rw (k.date_kept, k.start_kept) p.after_open;
  before_end = rw (k.date_kept, k.end_kept) p.before_end;
  lasts = rw (k.start_kept, k.end_kept) p.lasts;
  sequence = rw k.sequence_kept p.sequence;
}

module _ (f : Appointment → Appointment) (keeps : (a : Appointment) → Keeps a (f a)) where
  any-same_sequence-map :
      (a : Appointment) (rows : List Appointment)
      → any (same_sequence a) rows ≡ false
      → any (same_sequence (f a)) (map f rows) ≡ false
  any-same_sequence-map a [] h = refl
  any-same_sequence-map a (b ∷ rows) h =
      ground (
        arith,
        same_sequence-Keeps a (f a) b (f b) (keeps a) (keeps b),
        any-same_sequence-map a rows,
      )

  any-same_time-map :
      (a : Appointment) (rows : List Appointment)
      → any (same_time a) rows ≡ false
      → any (same_time (f a)) (map f rows) ≡ false
  any-same_time-map a [] h = refl
  any-same_time-map a (b ∷ rows) h =
      ground (arith, same_time-Keeps a (f a) b (f b) (keeps a) (keeps b), any-same_time-map a rows)

  IsPlaced-map : (rows : List Appointment) → All IsPlaced rows → All IsPlaced (map f rows)
  IsPlaced-map [] h = tt
  IsPlaced-map (a ∷ rows) h = (IsPlaced-Keeps a (f a) (keeps a) h.0, IsPlaced-map rows h.1)

  ClashFree-map : (rows : List Appointment) → ClashFree rows → ClashFree (map f rows)
  ClashFree-map [] h = tt
  ClashFree-map (a ∷ rows) h =
      (any-same_sequence-map a rows h.0, any-same_time-map a rows h.1, ClashFree-map rows h.2)

  -- An update that keeps every row's place and makes no row active keeps the table consistent.
  pub IsConsistent-map : (rows : List Appointment) → IsConsistent rows → IsConsistent (map f rows)
  IsConsistent-map rows c = record {
    placed = IsPlaced-map rows c.placed;
    free = ClashFree-map rows c.free;
  }

Keeps-if : (b : Bool) (a a' : Appointment) → (b ≡ true → Keeps a a') → Keeps a (if b then a' else a)
Keeps-if true a a' k = k refl
Keeps-if false a a' k = Keeps-refl a

-- So does an `updateMany` of this kind.
pub IsConsistent-update_many :
    (p : Appointment → Bool) (f : Appointment → Appointment)
    → ((a : Appointment) → p a ≡ true → Keeps a (f a))
    → (rows : List Appointment) → IsConsistent rows
    → IsConsistent (update_many p f rows)
IsConsistent-update_many p f keeps rows c =
    IsConsistent-map (λ a. if p a then f a else a) (λ a. Keeps-if (p a) a (f a) (keeps a)) rows c

-- The row that `findUnique` finds by its id is the row that the update changes.
pub find-update_many :
    (id : ℕ) (p : Appointment → Bool) (f : Appointment → Appointment) (rows : List Appointment)
    (a : Appointment)
    → ((b : Appointment) → (f b).id ≡ b.id)
    → find (λ b. b.id == id) rows ≡ some a
    → p a ≡ true
    → find (λ b. b.id == id) (update_many p f rows) ≡ some (f a)
find-update_many id p f [] a kept h t = ground arith
find-update_many id p f (b ∷ rows) a kept h t = elim (Bool-cases (b.id == id)) [
  | inl this ↦
      let found : some b ≡ some a = sym (find_here (λ b. b.id == id) b rows this) ∙ h in
      let same : b ≡ a = cc in
      let fit : p b ≡ true = rw same t in
      rw fit (find_here (λ b. b.id == id) (f b) _ (rw (kept b) this) ∙ ap (λ b. some (f b)) same)
  | inr other ↦
      let rest =
        find-update_many id p f rows a kept (sym (find_later (λ b. b.id == id) b rows other) ∙ h)
          t in
      elim (Bool-cases (p b)) [
        | inl y ↦ rw y (find_later (λ b. b.id == id) (f b) _ (rw (kept b) other) ∙ rest)
        | inr n ↦ rw n (find_later (λ b. b.id == id) b _ other ∙ rest)
      ]
]

-- An update after which no row fits has nothing left to do.
pub update_many-map :
    (p : Appointment → Bool) (f g : Appointment → Appointment)
    → ((a : Appointment) → p (g a) ≡ false)
    → (rows : List Appointment)
    → (count_of p (map g rows) ≡ 0) × (update_many p f (map g rows) ≡ map g rows)
update_many-map p f g h [] = (refl, refl)
update_many-map p f g h (a ∷ rows) =
    let (x, y) = update_many-map p f g h rows in rw (h a) (x, ap (λ r. g a ∷ r) y)

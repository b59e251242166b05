-- ===== src/Booking/Schedule.antt =====
-- What holds of the table of appointments between two transactions.
use makeup_booking_system.Base.{
  sym, ◌≢◌, All, Bool, Bool-cases, List, [], any, arith, false, filter, inl, inr, leb, length, ltb,
  refl, subst, true, ◌&&◌, ◌+◌, ◌<◌, ◌==◌, ◌||◌, ◌∷◌, ◌≡◌, ◌≤◌, ◌⊎◌, ℕ, ℕ_discrete,
}
use makeup_booking_system.Booking.Appointments.{overlapping, same_sequence, same_time}
use makeup_booking_system.Database.{Appointment, is_occupying}
use makeup_booking_system.Shift.Calendar.{IsMidnight, business_offset_ms, day_ms}

-- The appointment lies in its business date, and has one of the two daily sequences.
pub record IsPlaced (a : Appointment) : Type 0 where
  pub midnight : IsMidnight a.appointment_date
  pub after_open : a.appointment_date ≤ a.start_at + business_offset_ms
  pub before_end : a.end_at + business_offset_ms ≤ a.appointment_date + day_ms
  pub lasts : a.start_at < a.end_at
  pub sequence : (a.daily_sequence ≡ 1) ⊎ (a.daily_sequence ≡ 2)

-- No two active appointments of a host or an artist overlap, and no two of a host have the same
-- daily sequence on a date.
abbrev pub ClashFree : List Appointment → Type 0
ClashFree [] = Unit
ClashFree (a ∷ rest) =
    (any (same_sequence a) rest ≡ false) × (any (same_time a) rest ≡ false) × ClashFree rest

pub record IsConsistent (appointments : List Appointment) : Type 0 where
  pub placed : All IsPlaced appointments
  pub free : ClashFree appointments

-- The active appointments of the host on the date.
abbrev pub occupies : ℕ → ℕ → Appointment → Bool
occupies host_id date a =
    is_occupying a.status && a.host_id == host_id && a.appointment_date == date

abbrev has_sequence : ℕ → ℕ → ℕ → Appointment → Bool
has_sequence host_id date k a = occupies host_id date a && a.daily_sequence == k

abbrev one_if : Bool → ℕ
one_if true = 1
one_if false = 0

-- An active appointment with the host, date and sequence of `a` would share its sequence.
no_other :
    (host_id date : ℕ) (a : Appointment) (rest : List Appointment)
    → occupies host_id date a ≡ true
    → any (same_sequence a) rest ≡ false
    → any (has_sequence host_id date a.daily_sequence) rest ≡ false
unfolding same_sequence
no_other host_id date a [] o h = refl
no_other host_id date a (b ∷ rest) o h = ground (arith, no_other host_id date a rest o)

count_le :
    (host_id date : ℕ) (rest : List Appointment)
    → All IsPlaced rest
    → ClashFree rest
    → length (filter (occupies host_id date) rest)
      ≤ one_if (any (has_sequence host_id date 1) rest)
        + one_if (any (has_sequence host_id date 2) rest)
count_le host_id date [] p f = omega arith
count_le host_id date (a ∷ rest) p f = elim (Bool-cases (occupies host_id date a)) [
  | inl o ↦ elim p.0.sequence [
    | inl e ↦ ground (
      arith,
      subst (λ k. any (has_sequence host_id date k) rest ≡ false) e
          (no_other host_id date a rest o f.0),
      count_le host_id date rest p.1 f.2,
    )
    | inr e ↦ ground (
      arith,
      subst (λ k. any (has_sequence host_id date k) rest ≡ false) e
          (no_other host_id date a rest o f.0),
      count_le host_id date rest p.1 f.2,
    )
  ]
  | inr o ↦ ground (arith, count_le host_id date rest p.1 f.2)
]

one_if-le : (b : Bool) → one_if b ≤ 1
one_if-le true = omega arith
one_if-le false = omega arith

-- In a consistent table a host has at most two active appointments on a date.
pub IsConsistent-daily_limit :
    (host_id date : ℕ) (rest : List Appointment)
    → IsConsistent rest
    → length (filter (occupies host_id date) rest) ≤ 2
IsConsistent-daily_limit host_id date rest c = omega (
  arith,
  count_le host_id date rest c.placed c.free,
  one_if-le (any (has_sequence host_id date 1) rest),
  one_if-le (any (has_sequence host_id date 2) rest),
)

-- The active appointments that `createFresh` reads tell whether a new one shares its sequence.
pub any-same_sequence :
    (row : Appointment) (artist_id : ℕ) (rest : List Appointment)
    → any
        (λ a. a.daily_sequence == row.daily_sequence)
        (filter
          (λ a. a.host_id == row.host_id)
          (filter
            (λ a.
              a.appointment_date == row.appointment_date
              && (a.artist_id == artist_id || a.host_id == row.host_id)
              && is_occupying a.status)
            rest))
      ≡ false
    → any (same_sequence row) rest ≡ false
unfolding same_sequence
any-same_sequence row artist_id [] h = refl
any-same_sequence row artist_id (a ∷ rest) h = ground (arith, any-same_sequence row artist_id rest)

-- Of at most one row, if one has sequence 1, none has sequence 2.
pub single_sequence :
    (rest : List Appointment)
    → leb 2 (length rest) ≡ false
    → any (λ a. a.daily_sequence == 1) rest ≡ true
    → any (λ a. a.daily_sequence == 2) rest ≡ false
single_sequence [] l h = refl
single_sequence (a ∷ []) l h = ground arith
single_sequence (a ∷ b ∷ rest) l h = ground arith

-- Two different days lie apart.
days_apart : (c d : ℕ) → IsMidnight c → IsMidnight d → c ≢ d → (c + day_ms ≤ d) ⊎ (d + day_ms ≤ c)
days_apart c d p q n = omega arith

-- Appointments of different dates do not overlap.
overlapping_dates :
    (a b : Appointment)
    → IsPlaced a
    → IsPlaced b
    → a.appointment_date ≢ b.appointment_date
    → (b.end_at ≤ a.start_at) ⊎ (a.end_at ≤ b.start_at)
overlapping_dates a b p q n =
    elim (days_apart a.appointment_date b.appointment_date p.midnight q.midnight n) [
      | inl h ↦ inr (omega (arith, p.before_end, q.after_open))
      | inr h ↦ inl (omega (arith, q.before_end, p.after_open))
    ]

same_time-dates :
    (a b : Appointment) → (b.end_at ≤ a.start_at) ⊎ (a.end_at ≤ b.start_at) → same_time a b ≡ false
unfolding same_time
same_time-dates a b h = ground arith

same_time-date :
    (row b : Appointment)
    → b.appointment_date ≡ row.appointment_date
    → same_time row b
      ≡ is_occupying row.status
        && (b.appointment_date == row.appointment_date
            && (b.artist_id == row.artist_id || b.host_id == row.host_id)
            && is_occupying b.status)
        && overlapping row b
unfolding same_time
same_time-date row b e = ground arith

-- The test by which the active appointments of the new one's date are read.
abbrev reads_for : Appointment → Appointment → Bool
reads_for row a =
    a.appointment_date == row.appointment_date
    && (a.artist_id == row.artist_id || a.host_id == row.host_id)
    && is_occupying a.status

same_time-reads :
    (row a : Appointment)
    → IsPlaced row
    → IsPlaced a
    → reads_for row a && overlapping row a ≡ false
    → same_time row a ≡ false
same_time-reads row a p q h = elim (ℕ_discrete a.appointment_date row.appointment_date) [
  | yes e ↦ rw (same_time-date row a e) (ground arith)
  | no n ↦ same_time-dates row a (overlapping_dates row a p q (λ e. n (sym e)))
]

any-filter :
    (p q : Appointment → Bool) (x : Appointment) (rest : List Appointment)
    → any q (filter p (x ∷ rest)) ≡ false
    → (p x && q x ≡ false) × (any q (filter p rest) ≡ false)
any-filter p q x rest h = ground arith

-- They tell whether a new one overlaps with another, as those of other dates lie apart.
pub any-same_time :
    (row : Appointment) (rest : List Appointment)
    → IsPlaced row
    → All IsPlaced rest
    → any
        (λ a. ltb row.start_at a.end_at && ltb a.start_at row.end_at)
        (filter
          (λ a.
            a.appointment_date == row.appointment_date
            && (a.artist_id == row.artist_id || a.host_id == row.host_id)
            && is_occupying a.status)
          rest)
      ≡ false
    → any (same_time row) rest ≡ false
any-same_time row [] p q h = refl
any-same_time row (a ∷ rest) p q h =
    let (x, y) = any-filter (reads_for row) (overlapping row) a rest h in
    rw (same_time-reads row a p q.0 x) (any-same_time row rest p q.1 y)

-- ===== src/Absence/Undisturbed.antt =====
-- No booked appointment lies in an absence (apps/api/src/leave, apps/api/src/unavailability and
-- apps/api/src/booking): what keeps this of the rows that an update changes or an insertion adds.
use makeup_booking_system.Base.{
  All, Bool, List, [], any, arith, false, if◌then◌else◌, is_id, leb, map, refl, true, ◌&&◌, ◌||◌,
  ◌∷◌, ◌≡◌,
}
use makeup_booking_system.Database.{
  Appointment, ArtistUnavailablePeriod, Database, LeaveRecord, is_absence_active, is_booked,
}
use makeup_booking_system.Unavailability.{appointment_where, range_of}

-- The second row is at the place of the first, and is booked only if the first is.
pub record KeepsBooked (a b : Appointment) : Type 0 where
  pub host_kept : b.host_id ≡ a.host_id
  pub artist_kept : b.artist_id ≡ a.artist_id
  pub date_kept : b.appointment_date ≡ a.appointment_date
  pub start_kept : b.start_at ≡ a.start_at
  pub end_kept : b.end_at ≡ a.end_at
  pub booked_kept : is_booked b.status ≡ true → is_booked a.status ≡ true

pub KeepsBooked-refl : (a : Appointment) → KeepsBooked a a
KeepsBooked-refl a = record {
  host_kept = refl;
  artist_kept = refl;
  date_kept = refl;
  start_kept = refl;
  end_kept = refl;
  booked_kept = λ h. h;
}

pub KeepsBooked-if :
    (b : Bool) (a a' : Appointment) → KeepsBooked a a' → KeepsBooked a (if b then a' else a)
KeepsBooked-if true a a' k = k
KeepsBooked-if false a a' k = KeepsBooked-refl a

module _ {X : Type 0} (hits : X → Appointment → Bool) where
  -- None of the absences hits an appointment.
  abbrev pub Clear : List X → List Appointment → Type 0
  Clear xs rows = All (λ a. any (λ x. hits x a) xs ≡ false) rows

  any-hits-map :
      (f : X → X) (g : Appointment → Appointment) (a : Appointment) (xs : List X)
      → All (λ x. hits (f x) (g a) ≡ true → hits x a ≡ true) xs
      → any (λ x. hits x a) xs ≡ false
      → any (λ x. hits x (g a)) (map f xs) ≡ false
  any-hits-map f g a [] k h = refl
  any-hits-map f g a (x ∷ xs) k h = ground (arith, k.0, any-hits-map f g a xs k.1)

  -- An update of both that makes no absence hit keeps all clear.
  pub Clear-map :
      (f : X → X) (g : Appointment → Appointment) (xs : List X) (rows : List Appointment)
      → ((a : Appointment) → All (λ x. hits (f x) (g a) ≡ true → hits x a ≡ true) xs)
      → Clear xs rows
      → Clear (map f xs) (map g rows)
  Clear-map f g xs [] k h = tt
  Clear-map f g xs (a ∷ rows) k h = (any-hits-map f g a xs (k a) h.0, Clear-map f g xs rows k h.1)

  -- So does a new absence that hits no row.
  pub Clear-add :
      (x : X) (xs : List X) (rows : List Appointment)
      → All (λ a. hits x a ≡ false) rows
      → Clear xs rows
      → Clear (x ∷ xs) rows
  Clear-add x xs [] k h = tt
  Clear-add x xs (a ∷ rows) k h = (rw k.0 h.0, Clear-add x xs rows k.1 h.1)

  module _
      (weakens : (x : X) (a b : Appointment)
        → KeepsBooked a b
        → hits x b ≡ true
        → hits x a ≡ true) where
    any-hits-KeepsBooked :
        (xs : List X) (a b : Appointment)
        → KeepsBooked a b
        → any (λ x. hits x a) xs ≡ false
        → any (λ x. hits x b) xs ≡ false
    any-hits-KeepsBooked [] a b k h = refl
    any-hits-KeepsBooked (x ∷ xs) a b k h =
        ground (arith, weakens x a b k, any-hits-KeepsBooked xs a b k)

    -- Appointments that are kept at their places, and not booked again, stay clear.
    pub Clear-rows :
        (g : Appointment → Appointment) (xs : List X) (rows : List Appointment)
        → ((a : Appointment) → KeepsBooked a (g a))
        → Clear xs rows
        → Clear xs (map g rows)
    Clear-rows g xs [] k h = tt
    Clear-rows g xs (a ∷ rows) k h =
        (any-hits-KeepsBooked xs a (g a) (k a) h.0, Clear-rows g xs rows k h.1)

-- An active period that meets a booked appointment of its artist.
abbrev pub period_hits : ArtistUnavailablePeriod → Appointment → Bool
period_hits p a = is_absence_active p.status && appointment_where p.artist_id (range_of p) a

-- An active leave on the date of a booked appointment of its artist or host.
abbrev pub leave_hits : LeaveRecord → Appointment → Bool
leave_hits l a =
    is_absence_active l.status
    && leb l.start_date a.appointment_date
    && leb a.appointment_date l.end_date
    && (is_id l.artist_id a.artist_id || is_id l.host_id a.host_id)
    && is_booked a.status

pub period_hits-KeepsBooked :
    (p : ArtistUnavailablePeriod) (a b : Appointment)
    → KeepsBooked a b
    → period_hits p b ≡ true
    → period_hits p a ≡ true
unfolding appointment_where
period_hits-KeepsBooked p a b k =
    rw (k.artist_kept, k.date_kept, k.start_kept, k.end_kept) (λ h. ground (arith, k.booked_kept))

pub leave_hits-KeepsBooked :
    (l : LeaveRecord) (a b : Appointment)
    → KeepsBooked a b
    → leave_hits l b ≡ true
    → leave_hits l a ≡ true
leave_hits-KeepsBooked l a b k =
    rw (k.artist_kept, k.host_kept, k.date_kept) (λ h. ground (arith, k.booked_kept))

-- No booked appointment lies in an active unavailable period of its artist, or on a date on which
-- its artist or its host is on leave.
pub record IsUndisturbed (db : Database) : Type 0 where
  pub periods_clear : Clear period_hits db.unavailable_periods db.appointments
  pub leaves_clear : Clear leave_hits db.leave_records db.appointments

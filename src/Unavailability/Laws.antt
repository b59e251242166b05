-- ===== src/Unavailability/Laws.antt =====
-- What the commands of apps/api/src/unavailability/artist-unavailability.service.ts keep: the
-- periods are apart, and no booked appointment lies in an active one.
use makeup_booking_system.Unavailability.Commands.{is_open_period}
use makeup_booking_system.Absence.Kept.{cancelled_row-KeepsBooked}
use makeup_booking_system.Absence.Undisturbed.{KeepsBooked, KeepsBooked-if}
use makeup_booking_system.Availability.Laws.{IsPeriod}
use makeup_booking_system.Base.{
  All, Bool, Bool-cases, List, Option, [], ap₂, arith, false, if◌then◌else◌, inl, inr, map, refl,
  some, subst, sym, true, ◌∷◌, ◌≡◌,
}
use makeup_booking_system.Database.{
  AbsenceStatus, Appointment, ArtistUnavailablePeriod, Text, absence_active, absence_cancelled,
  absence_pending, absence_rejected, artist_leave, is_absence_active, is_absence_open,
  is_absence_pending, unavailable_period_source,
}
use makeup_booking_system.Overtime.{Decision}
use makeup_booking_system.Shift.Intervals.{interval}
use makeup_booking_system.Shift.WellFormed.{IsAligned}
use makeup_booking_system.Unavailability.{appointment_where, range_of}
use makeup_booking_system.Unavailability.Commands.{
  cancelled_period, is_pending_period, reviewed_period, same_period, same_period_time,
}
use makeup_booking_system.Unavailability.Steps.{cancel_row_if, met_change}
use makeup_booking_system.Base.{ℕ}

-- The second row has the key and the time of the first, and is open only if the first is.
pub record KeepsPeriod (p q : ArtistUnavailablePeriod) : Type 0 where
  pub id_kept : q.id ≡ p.id
  pub artist_kept : q.artist_id ≡ p.artist_id
  pub date_kept : q.unavailable_date ≡ p.unavailable_date
  pub start_kept : q.start_minute ≡ p.start_minute
  pub end_kept : q.end_minute ≡ p.end_minute
  pub open_kept : is_absence_open q.status ≡ true → is_absence_open p.status ≡ true

pub KeepsPeriod-if :
    (b : Bool) (p q : ArtistUnavailablePeriod)
    → (b ≡ true → KeepsPeriod p q)
    → KeepsPeriod p (if b then q else p)
KeepsPeriod-if true p q k = k refl
KeepsPeriod-if false p q k = record {
  id_kept = refl;
  artist_kept = refl;
  date_kept = refl;
  start_kept = refl;
  end_kept = refl;
  open_kept = λ h. h;
}

pub same_period-KeepsPeriod :
    (p p' q q' : ArtistUnavailablePeriod)
    → KeepsPeriod p p'
    → KeepsPeriod q q'
    → same_period p q ≡ false
    → same_period p' q' ≡ false
unfolding same_period same_period_time
same_period-KeepsPeriod p p' q q' k l h =
    rw
      (
        k.id_kept, k.artist_kept, k.date_kept, k.start_kept, k.end_kept, l.id_kept, l.artist_kept,
        l.date_kept, l.start_kept, l.end_kept,
      )
      (ground (arith, k.open_kept, l.open_kept))

pending_open : (s : AbsenceStatus) → is_absence_pending s ≡ true → is_absence_open s ≡ true
pending_open absence_active h = refl
pending_open absence_pending h = refl
pending_open absence_rejected h = cc
pending_open absence_cancelled h = cc

pub reviewed_period-KeepsPeriod :
    (decision : Decision) (comment : Option Text) (affected : List Appointment)
    (now user_id id row_version : ℕ) (p : ArtistUnavailablePeriod)
    → is_pending_period id row_version p ≡ true
    → KeepsPeriod p (reviewed_period decision comment affected now user_id p)
reviewed_period-KeepsPeriod decision comment affected now user_id id row_version p h = record {
  id_kept = refl;
  artist_kept = refl;
  date_kept = refl;
  start_kept = refl;
  end_kept = refl;
  open_kept = λ _. pending_open p.status (ground arith);
}

pub cancelled_period-KeepsPeriod :
    (reason : Option Text) (now user_id id row_version : ℕ) (p : ArtistUnavailablePeriod)
    → is_open_period id row_version p ≡ true
    → KeepsPeriod p (cancelled_period reason now user_id p)
cancelled_period-KeepsPeriod reason now user_id id row_version p h = record {
  id_kept = refl;
  artist_kept = refl;
  date_kept = refl;
  start_kept = refl;
  end_kept = refl;
  open_kept = λ _. ground arith;
}

pub IsPeriod-map :
    (f : ArtistUnavailablePeriod → ArtistUnavailablePeriod)
    → ((p : ArtistUnavailablePeriod) → KeepsPeriod p (f p))
    → (ps : List ArtistUnavailablePeriod) → All IsPeriod ps
    → All IsPeriod (map f ps)
IsPeriod-map f k [] h = tt
IsPeriod-map f k (p ∷ ps) h = (
  subst IsAligned (ap₂ (λ (a b : ℕ). interval a b) (sym (k p).start_kept) (sym (k p).end_kept)) h.0,
  IsPeriod-map f k ps h.1,
)

-- The cancellation leaves no booked appointment in the period.
pub appointment_where-cancel_row_if :
    (period : ArtistUnavailablePeriod) (user_id now : ℕ) (a : Appointment)
    → appointment_where period.artist_id (range_of period) (cancel_row_if period user_id now a)
      ≡ false
unfolding appointment_where
appointment_where-cancel_row_if period user_id now a =
    elim (Bool-cases (appointment_where period.artist_id (range_of period) a)) [
      | inl y ↦ rw y (ground arith)
      | inr n ↦ rw n n
    ]

pub met_change-KeepsBooked :
    (status : AbsenceStatus) (period : ArtistUnavailablePeriod) (user_id now : ℕ) (a : Appointment)
    → KeepsBooked a (met_change status period user_id now a)
met_change-KeepsBooked status period user_id now a =
    KeepsBooked-if (is_absence_active status) a (cancel_row_if period user_id now a) (
      KeepsBooked-if (appointment_where period.artist_id (range_of period) a) a _ (
        cancelled_row-KeepsBooked artist_leave (some period.reason)
          (some (unavailable_period_source period.id)) now user_id a))

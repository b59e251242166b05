-- ===== src/Booking/Placed.antt =====
-- Where a bookable appointment lies in its business date
-- (apps/api/src/booking/booking-create.service.ts).
use makeup_booking_system.Access.{AuthorizationContext}
use makeup_booking_system.Availability.{ArtistDay}
use makeup_booking_system.Base.{
  ==→eq, >>=-eq-ok, arith, find, find_holds, includes, ok, or_throw, or_throw-eq-ok, some, true,
  ◌*◌, ◌+◌, ◌<◌, ◌==◌, ◌≡◌, ◌≤◌, ◌⊎◌,
}
use makeup_booking_system.Booking.Create.{
  BookingCreationOptions, CreateBookingCommand, new_appointment,
}
use makeup_booking_system.Booking.Occupation.{HostRecord, host}
use makeup_booking_system.Booking.Schedule.{IsPlaced}
use makeup_booking_system.Booking.Times.{durations, validate_booking_date, validate_booking_start}
use makeup_booking_system.Booking.TimesLaws.{
  validate_booking_date-eq-ok_iff, validate_booking_start-eq-ok_iff,
}
use makeup_booking_system.Database.{Database}
use makeup_booking_system.Errors.{booking_host_not_found}
use makeup_booking_system.Shift.Calendar.{
  IsMidnight, add_days, business_date_minute_to_instant, business_offset_ms, day_ms, minute_ms,
  to_business_date,
}
use makeup_booking_system.Shift.WellFormed.{IsStep}
use makeup_booking_system.Base.{ℕ}

-- What `validateBookingDate` and `validateBookingStart` leave to a command.
pub record IsBookable (date start_minute duration_minutes : ℕ) : Type 0 where
  pub midnight : IsMidnight date
  pub modern : business_offset_ms ≤ date
  pub start_step : IsStep start_minute
  pub listed : includes durations duration_minutes ≡ true
  pub lasts : 1 ≤ duration_minutes
  pub in_day : start_minute + duration_minutes ≤ 1440

later_date : (date now : ℕ) → add_days (to_business_date now) 1 ≤ date → business_offset_ms ≤ date
unfolding add_days
later_date date now h = omega arith

pub listed_positive : (d : ℕ) → includes durations d ≡ true → 1 ≤ d
listed_positive d h = ground arith

pub validate_booking-IsBookable :
    (date now start duration : ℕ)
    → validate_booking_date (some date) now ≡ ok tt
    → validate_booking_start start duration ≡ ok tt
    → IsBookable date start duration
validate_booking-IsBookable date now start duration h k =
    let (m, l, _) = (validate_booking_date-eq-ok_iff date now).0 h in
    let (d, s, e) = (validate_booking_start-eq-ok_iff start duration).0 k in
    record {
      midnight = m;
      modern = later_date date now l;
      start_step = s;
      listed = d;
      lasts = listed_positive duration d;
      in_day = e;
    }

pub host_lem :
    (db : Database) (id date : ℕ) (r : HostRecord) → host db id date ≡ ok r → r.profile.id ≡ id
unfolding host
host_lem db id date r h =
    let (p, e, h1) =
      >>=-eq-ok (or_throw (find (λ h. h.id == id) db.hosts) booking_host_not_found) _ h in
    let same : p.id ≡ id =
      ==→eq _ _ (find_holds (λ h. h.id == id) db.hosts p (or_throw-eq-ok _ _ e)) in
    ground arith

-- A row of a bookable stretch lies in its business date.
pub stretch_placed :
    (date start duration : ℕ)
    → IsBookable date start duration
    → let start_at = business_date_minute_to_instant date start in
      (date ≤ start_at + business_offset_ms)
      × (start_at + duration * minute_ms + business_offset_ms ≤ date + day_ms)
      × (start_at < start_at + duration * minute_ms)
unfolding business_date_minute_to_instant
stretch_placed date start duration b = omega (arith, b.modern, b.lasts, b.in_day)

pub new_appointment-IsPlaced :
    (context : AuthorizationContext) (command : CreateBookingCommand)
    (options : BookingCreationOptions) (r : HostRecord) (day : ArtistDay) (k id : ℕ)
    → IsBookable command.date command.start_minute command.duration_minutes
    → (k ≡ 1) ⊎ (k ≡ 2)
    → IsPlaced (new_appointment context command options r day k id)
unfolding new_appointment
new_appointment-IsPlaced context command options r day k id b s =
    let (x, y, z) = stretch_placed command.date command.start_minute command.duration_minutes b in
    record { midnight = b.midnight; after_open = x; before_end = y; lasts = z; sequence = s }

-- ===== src/Unavailability.antt =====
-- apps/api/src/unavailability/artist-unavailability.service.ts and
-- artist-unavailability.types.ts: the hours in which an artist is unavailable.
pub mod Commands
pub mod Steps
pub mod Laws
pub mod Orderly
pub mod Confirmed
use makeup_booking_system.Absence.{find_affected_appointments, to_affected_appointment}
use makeup_booking_system.Access.{
  AuthorizationContext, RoleCode, admin_role, artist_role, assert_role, assert_site_scope,
  customer_service_role, role_eq,
}
use makeup_booking_system.Availability.{day_intervals, get_day_with_client}
use makeup_booking_system.Base.{
  Bool, List, Option, Result, [], any, find, guard, if◌then◌else◌, is_id, leb, length, ltb, map,
  none, ok, or_throw, some, throw_if, true, ◌&&◌, ◌==◌, ◌>>=◌, ◌>>◌, ◌||◌, ◌∷◌,
}
use makeup_booking_system.Booking.Texts.{normalized_reason}
use makeup_booking_system.Database.{
  AbsenceStatus, AffectedAppointmentSummary, Appointment, ArtistProfile, ArtistUnavailablePeriod,
  Database, Text, is_active, is_booked,
}
use makeup_booking_system.Errors.{
  artist_unavailable_period_date_invalid, artist_unavailable_period_reason_invalid,
  artist_unavailable_period_schedule_conflict, artist_unavailable_period_target_invalid,
  authorization_denied,
}
use makeup_booking_system.Overtime.{Decision}
use makeup_booking_system.Shift.Calendar.{
  add_days, business_date_minute_to_instant, format_date_only, is_date_only, to_business_date,
}
use mathlib.Core.Option
use makeup_booking_system.Base.{ℕ}

pub record ArtistUnavailablePeriodRange : Type 0 where
  pub artist_id : Option ℕ
  pub end_minute : ℕ
  pub start_minute : ℕ
  pub unavailable_date : ℕ

-- The command's range is a field of its own.
pub record CreateArtistUnavailablePeriodCommand : Type 0 where
  pub range : ArtistUnavailablePeriodRange
  pub confirmed_affected_appointment_count : ℕ
  pub reason : Text

pub record CancelArtistUnavailablePeriodCommand : Type 0 where
  pub expected_row_version : ℕ
  pub period_id : ℕ
  pub reason : Option Text

pub record ReviewArtistUnavailablePeriodCommand : Type 0 where
  pub comment : Option Text
  pub confirmed_affected_appointment_count : ℕ
  pub decision : Decision
  pub expected_row_version : ℕ
  pub period_id : ℕ

pub record ArtistUnavailablePeriodPreview : Type 0 where
  pub affected_appointment_count : ℕ
  pub affected_appointments : List AffectedAppointmentSummary
  pub artist_id : ℕ
  pub end_minute : ℕ
  pub site_id : ℕ
  pub start_minute : ℕ
  pub unavailable_date : ℕ

pub record ArtistUnavailablePeriodSummary : Type 0 where
  pub preview : ArtistUnavailablePeriodPreview
  pub id : ℕ
  pub reason : Text
  pub row_version : ℕ
  pub review_comment : Option Text
  pub status : AbsenceStatus

-- The test of `reason` on the normalized text.
unfoldable pub period_reason_invalid : Option Text → Bool → Bool
period_reason_invalid none required = required
period_reason_invalid (some normalized) required = ltb 500 (length normalized)

unfoldable pub period_reason : (Text → Text) → Option Text → Bool → Result (Option Text)
period_reason nfkc value required =
    let normalized = normalized_reason nfkc value in
    throw_if (period_reason_invalid normalized required) artist_unavailable_period_reason_invalid
    >> ok normalized

-- `reason(value, true)!`: a required reason is present.
unfoldable pub required_reason : (Text → Text) → Text → Result Text
required_reason nfkc value = do
  normalized ← period_reason nfkc (some value) true
  or_throw normalized artist_unavailable_period_reason_invalid

-- An artist acts from tomorrow on, the back office from today.
abbrev pub earliest_date : RoleCode → ℕ → ℕ
earliest_date role now =
    if role_eq role artist_role then add_days (to_business_date now) 1 else to_business_date now

unfoldable pub validate_period_date : ℕ → RoleCode → ℕ → Result (Unit {0})
validate_period_date date role now = do
  guard (is_date_only (some date)) artist_unavailable_period_date_invalid
  throw_if (ltb date (earliest_date role now) || ltb (add_days (to_business_date now) 7) date)
      artist_unavailable_period_date_invalid

abbrev pub absence_roles : List RoleCode
absence_roles = artist_role ∷ customer_service_role ∷ admin_role ∷ []

unfoldable pub period_artist : Database → AuthorizationContext → Option ℕ → Option ArtistProfile
period_artist db context target_artist_id =
    if role_eq context.role_code artist_role
    then find (λ a. is_id a.user_id context.user_id) db.artists
    else Option.bind target_artist_id (λ id. find (λ a. a.id == id) db.artists)

-- An artist without a user is in no artist's own scope.
unfoldable pub assert_artist_scope : AuthorizationContext → ArtistProfile → Result (Unit {0})
assert_artist_scope context found =
    if role_eq context.role_code artist_role
    then guard (is_id found.user_id context.user_id) authorization_denied
    else assert_site_scope context found.site.id

-- The target is missing, or it is the artist.
abbrev pub targets : Option ℕ → ℕ → Bool
targets none id = true
targets (some target_artist_id) id = target_artist_id == id

unfoldable pub resolve_artist : Database → AuthorizationContext → Option ℕ → Result ArtistProfile
resolve_artist db context target_artist_id = do
  assert_role context absence_roles
  found ←
      or_throw (period_artist db context target_artist_id) artist_unavailable_period_target_invalid
  guard (is_active found.employment_status) artist_unavailable_period_target_invalid
  guard (targets target_artist_id found.id) authorization_denied
  assert_artist_scope context found
  ok found

unfoldable pub assert_fits_schedule :
    Database → ℕ → ArtistUnavailablePeriodRange → Result (Unit {0})
assert_fits_schedule db artist_id range = do
  day ← get_day_with_client db artist_id range.unavailable_date
  guard
      (any (λ i. leb i.start_minute range.start_minute && leb range.end_minute i.end_minute)
        (day_intervals day.outcome))
      artist_unavailable_period_schedule_conflict

-- The booked appointments that meet the range.
unfoldable pub appointment_where : ℕ → ArtistUnavailablePeriodRange → Appointment → Bool
appointment_where artist_id range a =
    a.artist_id == artist_id
    && a.appointment_date == range.unavailable_date
    && ltb (business_date_minute_to_instant range.unavailable_date range.start_minute) a.end_at
    && ltb a.start_at (business_date_minute_to_instant range.unavailable_date range.end_minute)
    && is_booked a.status

unfoldable pub affected_appointments :
    Database → ℕ → ArtistUnavailablePeriodRange → List Appointment
affected_appointments db artist_id range =
    find_affected_appointments db (appointment_where artist_id range)

abbrev pub range_of : ArtistUnavailablePeriod → ArtistUnavailablePeriodRange
range_of period = record {
  artist_id = some period.artist_id;
  end_minute = period.end_minute;
  start_minute = period.start_minute;
  unavailable_date = period.unavailable_date;
}

abbrev pub to_preview :
    ArtistProfile → ArtistUnavailablePeriodRange → List Appointment → ArtistUnavailablePeriodPreview
to_preview found range affected = record {
  affected_appointment_count = length affected;
  affected_appointments = map to_affected_appointment affected;
  artist_id = found.id;
  end_minute = range.end_minute;
  site_id = found.site.id;
  start_minute = range.start_minute;
  unavailable_date = format_date_only range.unavailable_date;
}

abbrev pub to_period_summary :
    ArtistUnavailablePeriod → List Appointment → ArtistUnavailablePeriodSummary
to_period_summary period affected = record {
  preview = record {
    affected_appointment_count = period.affected_appointment_count;
    affected_appointments = map to_affected_appointment affected;
    artist_id = period.artist_id;
    end_minute = period.end_minute;
    site_id = period.site_id;
    start_minute = period.start_minute;
    unavailable_date = format_date_only period.unavailable_date;
  };
  id = period.id;
  reason = period.reason;
  row_version = period.row_version;
  review_comment = period.review_comment;
  status = period.status;
}

-- `preview` of the service.
unfoldable pub preview_period :
    Database
    → AuthorizationContext
    → ArtistUnavailablePeriodRange
    → ℕ
    → Result ArtistUnavailablePeriodPreview
preview_period db context range now = do
  validate_period_date range.unavailable_date context.role_code now
  found ← resolve_artist db context range.artist_id
  assert_fits_schedule db found.id range
  ok (to_preview found range (affected_appointments db found.id range))

-- ===== src/Availability.antt =====
-- The day of an artist (apps/api/src/availability/artist-availability.service.ts).
pub mod Laws
use Prim.Native.String.{String}
use makeup_booking_system.Base.{
  ℕ, ◌%◌, Bool, true, false, ◌&&◌, not, Option, none, some, List, [], ◌∷◌, map, ltb, leb, ◌==◌,
  if◌then◌else◌, is_id, any, filter, find, includes, Result, ok, err, guard, or_throw, ◌>>=◌, ◌>>◌,
}
use makeup_booking_system.Errors.{
  DayReason, artist_inactive, artist_on_leave, non_working_day, shift_not_configured, site_inactive,
  availability_artist_not_found, availability_date_invalid,
}
use makeup_booking_system.Database.{
  Database, ArtistProfile, ArtistShiftTemplate, ArtistOvertime, LeaveRecord,
  ArtistUnavailablePeriod, is_active, is_absence_active, is_approved,
}
use makeup_booking_system.Shift.Intervals.{MinuteInterval, interval, subtract_minute_intervals}
use makeup_booking_system.Shift.Definition.{ShiftDefinition, work_intervals_for_weekday}
use makeup_booking_system.Shift.Calendar.{format_date_only, iso_weekday_for_date, is_date_only}

pub data AvailabilitySource : Type 0 where
  regular_shift approved_overtime : AvailabilitySource

-- What `AvailableArtistDay` and `UnavailableArtistDay` do not share.
pub data DayOutcome : Type 0 where
  day_available : List MinuteInterval → Option ℕ → ℕ → AvailabilitySource → DayOutcome
  day_unavailable : DayReason → DayOutcome

-- `ArtistDayAvailability`
pub record ArtistDay : Type 0 where
  pub artist_id : ℕ
  pub artist_nickname : String
  pub date : ℕ
  pub site_id : ℕ
  pub outcome : DayOutcome

-- `validFrom <= date` and `validUntil` null or `validUntil > date`
abbrev pub in_force : ℕ → Option ℕ → ℕ → Bool
in_force valid_from none date = leb valid_from date
in_force valid_from (some valid_until) date = leb valid_from date && ltb date valid_until

module _ {ℓ} {A : Type ℓ} where
  -- The first row under `orderBy: { key: 'desc' }`.
  unfoldable pub latest : (A → ℕ) → List A → Option A
  latest key [] = none
  latest key (x ∷ xs) = elim (latest key xs) [
    | none ↦ some x
    | some y ↦ if leb (key y) (key x) then some x else some y
  ]

unfoldable pub current_shift : Database → ℕ → ℕ → Option ArtistShiftTemplate
current_shift db artist_id date =
    latest (λ s. s.version_no)
      (filter (λ s. s.artist_id == artist_id && in_force s.valid_from s.valid_until date)
        db.shift_templates)

unfoldable pub artist_on_leave_on : Database → ℕ → ℕ → Bool
artist_on_leave_on db artist_id date =
    any
      (λ l.
        is_id l.artist_id artist_id
        && leb date l.end_date
        && leb l.start_date date
        && is_absence_active l.status)
      db.leave_records

unfoldable pub unavailable_intervals : Database → ℕ → ℕ → List MinuteInterval
unavailable_intervals db artist_id date =
    map (λ p. interval p.start_minute p.end_minute)
      (filter
        (λ p. p.artist_id == artist_id && is_absence_active p.status && p.unavailable_date == date)
        db.unavailable_periods)

unfoldable pub approved_overtime_on : Database → ℕ → ℕ → Option ArtistOvertime
approved_overtime_on db artist_id date =
    find (λ o. o.artist_id == artist_id && o.overtime_date == date && is_approved o.status)
      db.overtimes

-- `available`, where the definition's workdays are the date's weekday alone.
unfoldable pub available :
    ℕ
    → ℕ
    → Option ℕ
    → AvailabilitySource
    → ShiftDefinition
    → List MinuteInterval
    → Result DayOutcome
available date shift_template_id overtime_id source definition periods = do
  let weekday = iso_weekday_for_date date
  intervals ← work_intervals_for_weekday (record definition { workdays = weekday ∷ [] }) weekday
  ok (
      day_available (subtract_minute_intervals intervals periods) overtime_id shift_template_id
        source)

-- The working time of an overtime, as a definition.
abbrev pub overtime_definition : ArtistOvertime → ShiftDefinition
overtime_definition o = record {
  break_end_minute = o.break_end_minute;
  break_start_minute = o.break_start_minute;
  work_end_minute = o.work_end_minute;
  work_start_minute = o.work_start_minute;
  workdays = [];
}

-- A day that is no regular workday.
unfoldable pub overtime_outcome :
    ℕ → ArtistShiftTemplate → List MinuteInterval → Option ArtistOvertime → Result DayOutcome
overtime_outcome date shift periods none = ok (day_unavailable non_working_day)
overtime_outcome date shift periods (some overtime) =
    available date shift.id (some overtime.id) approved_overtime (overtime_definition overtime)
      periods

unfoldable pub shift_outcome : Database → ℕ → ℕ → Option ArtistShiftTemplate → Result DayOutcome
shift_outcome db artist_id date none = ok (day_unavailable shift_not_configured)
shift_outcome db artist_id date (some shift) =
    let periods = unavailable_intervals db artist_id date in
    if artist_on_leave_on db artist_id date
    then ok (day_unavailable artist_on_leave)
    else if includes shift.definition.workdays (iso_weekday_for_date date)
    then available date shift.id none regular_shift shift.definition periods
    else overtime_outcome date shift periods (approved_overtime_on db artist_id date)

unfoldable pub day_outcome : Database → ArtistProfile → ℕ → Result DayOutcome
day_outcome db artist date =
    if not (is_active artist.employment_status)
    then ok (day_unavailable artist_inactive)
    else if not (is_active artist.site.status)
    then ok (day_unavailable site_inactive)
    else shift_outcome db artist.id date (current_shift db artist.id date)

-- The record that is returned.
abbrev pub artist_day : ArtistProfile → ℕ → DayOutcome → ArtistDay
artist_day artist date outcome = record {
  artist_id = artist.id;
  artist_nickname = artist.nickname;
  date = format_date_only date;
  site_id = artist.site.id;
  outcome = outcome;
}

unfoldable pub get_day_with_client : Database → ℕ → ℕ → Result ArtistDay
get_day_with_client db artist_id date = do
  guard (is_date_only (some date)) availability_date_invalid
  artist ← or_throw (find (λ a. a.id == artist_id) db.artists) availability_artist_not_found
  outcome ← day_outcome db artist date
  ok (artist_day artist date outcome)

-- The intervals of a day, `[]` where the artist is unavailable.
abbrev pub day_intervals : DayOutcome → List MinuteInterval
day_intervals (day_available intervals overtime_id shift_template_id source) = intervals
day_intervals (day_unavailable reason) = []

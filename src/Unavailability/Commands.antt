-- ===== src/Unavailability/Commands.antt =====
-- The commands of apps/api/src/unavailability/artist-unavailability.service.ts that write.
use makeup_booking_system.Base.{◌||◌}
use makeup_booking_system.Absence.{affected_appointment_snapshot, cancel_affected}
use makeup_booking_system.Access.{
  AuthorizationContext, artist_role, assert_role, assert_site_scope, backoffice_roles, role_eq,
}
use makeup_booking_system.Base.{
  Bool, List, Option, Result, [], any, find, guard, if◌then◌else◌, leb, length, ltb, none, not, ok,
  or_throw, some, throw_if, ◌%◌, ◌&&◌, ◌+◌, ◌==◌, ◌>>=◌, ◌>>◌, ◌∷◌, ℕ,
}
use makeup_booking_system.Booking.Appointments.{append_audit}
use makeup_booking_system.Booking.Cancel.{cancelled_row}
use makeup_booking_system.Database.{
  AbsenceStatus, Appointment, ArtistProfile, ArtistUnavailablePeriod, AuditAction, AuditEntry,
  Database, Text, absence_active, absence_cancelled, absence_pending, absence_rejected,
  artist_leave, artist_unavailable_period_approved, artist_unavailable_period_cancelled,
  artist_unavailable_period_created, artist_unavailable_period_rejected,
  artist_unavailable_period_submitted, is_absence_active, is_absence_open, is_absence_pending,
  unavailable_period_source,
}
use makeup_booking_system.Errors.{
  artist_unavailable_period_date_invalid, artist_unavailable_period_impact_changed,
  artist_unavailable_period_not_found, artist_unavailable_period_state_conflict, database_error,
}
use makeup_booking_system.Overtime.{Decision, is_approve}
use makeup_booking_system.Shift.Calendar.{to_business_date}
use makeup_booking_system.Tables.{count_of, update_many}
use makeup_booking_system.Unavailability.{
  ArtistUnavailablePeriodSummary, CancelArtistUnavailablePeriodCommand,
  CreateArtistUnavailablePeriodCommand, ReviewArtistUnavailablePeriodCommand, absence_roles,
  appointment_where, assert_artist_scope, assert_fits_schedule, earliest_date, period_reason,
  range_of, required_reason, resolve_artist, to_period_summary, validate_period_date,
  affected_appointments,
}

-- artist_unavailable_periods_time_check
unfoldable pub period_time_check : ArtistUnavailablePeriod → Bool
period_time_check p =
    leb p.end_minute 1440
    && ltb p.start_minute p.end_minute
    && p.start_minute % 15 == 0
    && p.end_minute % 15 == 0

-- artist_unavailable_periods_active_time_excl
unfoldable pub same_period_time : ArtistUnavailablePeriod → ArtistUnavailablePeriod → Bool
same_period_time p q =
    is_absence_open p.status
    && is_absence_open q.status
    && p.artist_id == q.artist_id
    && p.unavailable_date == q.unavailable_date
    && ltb p.start_minute q.end_minute
    && ltb q.start_minute p.end_minute

-- Two periods that the table does not hold together.
unfoldable pub same_period : ArtistUnavailablePeriod → ArtistUnavailablePeriod → Bool
same_period p q = p.id == q.id || same_period_time p q

-- The insertion: a primary key that is taken is an error that the service does not map, and a
-- CHECK or an exclusion that fails (`P2004`) is a state conflict.
unfoldable pub insert_period : ArtistUnavailablePeriod → Database → Result Database
insert_period p db = do
  throw_if (any (λ q. p.id == q.id) db.unavailable_periods) database_error
  guard (period_time_check p) artist_unavailable_period_state_conflict
  throw_if (any (same_period_time p) db.unavailable_periods)
      artist_unavailable_period_state_conflict
  ok (record db { unavailable_periods = p ∷ db.unavailable_periods })

unfoldable pub new_period :
    AuthorizationContext
    → CreateArtistUnavailablePeriodCommand
    → ArtistProfile
    → Text
    → ℕ
    → ℕ
    → ArtistUnavailablePeriod
new_period context command found reason count id = record {
  id = id;
  artist_id = found.id;
  site_id = found.site.id;
  unavailable_date = command.range.unavailable_date;
  start_minute = command.range.start_minute;
  end_minute = command.range.end_minute;
  reason = reason;
  status = if role_eq context.role_code artist_role then absence_pending else absence_active;
  affected_appointment_count = count;
  row_version = 1;
  created_by_user_id = context.user_id;
  reviewed_at = none;
  reviewed_by_user_id = none;
  review_comment = none;
  review_impact_snapshot = [];
  cancelled_at = none;
  cancelled_by_user_id = none;
  cancellation_reason = none;
}

-- The cancellation of the appointments that a period meets, where the period is active.
unfoldable pub cancel_met :
    Database
    → AuthorizationContext
    → ArtistUnavailablePeriod
    → AbsenceStatus
    → ℕ
    → ℕ
    → Result Database
cancel_met db context period status count now =
    if is_absence_active status
    then cancel_affected artist_unavailable_period_impact_changed db
        (appointment_where period.artist_id (range_of period)) count
        (cancelled_row artist_leave (some period.reason)
          (some (unavailable_period_source period.id)) now context.user_id)
    else ok db

abbrev pub period_audit : AuditAction → AuthorizationContext → ℕ → Option Text → ℕ → AuditEntry
period_audit action context id reason site_id = record {
  action = action;
  actor_user_id = some context.user_id;
  object_id = id;
  reason = reason;
  site_id = site_id;
}

unfoldable pub create_period :
    (Text → Text)
    → Database
    → AuthorizationContext
    → CreateArtistUnavailablePeriodCommand
    → ℕ
    → ℕ
    → Result (ArtistUnavailablePeriodSummary × Database)
create_period nfkc db context command now id = do
  validate_period_date command.range.unavailable_date context.role_code now
  reason ← required_reason nfkc command.reason
  found ← resolve_artist db context command.range.artist_id
  assert_fits_schedule db found.id command.range
  let affected = affected_appointments db found.id command.range
  let count = length affected
  guard (count == command.confirmed_affected_appointment_count)
      artist_unavailable_period_impact_changed
  let period = new_period context command found reason count id
  inserted_db ← insert_period period db
  cancelled_db ← cancel_met inserted_db context period period.status count now
  ok (
    to_period_summary period affected,
    append_audit
        (period_audit
          (if role_eq context.role_code artist_role
            then artist_unavailable_period_submitted
            else artist_unavailable_period_created)
          context id (some reason) found.site.id)
        cancelled_db,
  )

unfoldable pub period_by_id : Database → ℕ → Result ArtistUnavailablePeriod
period_by_id db period_id =
    or_throw (find (λ p. p.id == period_id) db.unavailable_periods)
      artist_unavailable_period_not_found

-- The update of the periods that must change one row.
unfoldable pub update_period :
    Database
    → (ArtistUnavailablePeriod → Bool)
    → (ArtistUnavailablePeriod → ArtistUnavailablePeriod)
    → Result Database
update_period db fits change = do
  guard (count_of fits db.unavailable_periods == 1) artist_unavailable_period_state_conflict
  ok (record db { unavailable_periods = update_many fits change db.unavailable_periods })

abbrev pub is_pending_period : ℕ → ℕ → ArtistUnavailablePeriod → Bool
is_pending_period id row_version p =
    p.id == id && p.row_version == row_version && is_absence_pending p.status

abbrev pub reviewed_status : Decision → AbsenceStatus
reviewed_status decision = if is_approve decision then absence_active else absence_rejected

abbrev pub reviewed_period :
    Decision
    → Option Text
    → List Appointment
    → ℕ
    → ℕ
    → ArtistUnavailablePeriod
    → ArtistUnavailablePeriod
reviewed_period decision comment affected now user_id p = record p {
  affected_appointment_count = length affected;
  review_comment = comment;
  review_impact_snapshot = affected_appointment_snapshot affected;
  reviewed_at = some now;
  reviewed_by_user_id = some user_id;
  row_version = p.row_version + 1;
  status = reviewed_status decision;
}

unfoldable pub review_period :
    (Text → Text)
    → Database
    → AuthorizationContext
    → ReviewArtistUnavailablePeriodCommand
    → ℕ
    → Result (ArtistUnavailablePeriodSummary × Database)
review_period nfkc db context command now = do
  assert_role context backoffice_roles
  comment ← period_reason nfkc command.comment (not (is_approve command.decision))
  period ← period_by_id db command.period_id
  assert_site_scope context period.site_id
  throw_if (leb period.unavailable_date (to_business_date now))
      artist_unavailable_period_date_invalid
  let affected = affected_appointments db period.artist_id (range_of period)
  guard (length affected == command.confirmed_affected_appointment_count)
      artist_unavailable_period_impact_changed
  let status = reviewed_status command.decision
  updated ←
      update_period db (is_pending_period period.id command.expected_row_version)
        (reviewed_period command.decision comment affected now context.user_id)
  cancelled_db ← cancel_met updated context period status (length affected) now
  ok (
    to_period_summary
        (record period {
          affected_appointment_count = length affected;
          review_comment = comment;
          row_version = period.row_version + 1;
          status = status;
        })
        affected,
    append_audit
        (period_audit
          (if is_absence_active status
            then artist_unavailable_period_approved
            else artist_unavailable_period_rejected)
          context period.id comment period.site_id)
        cancelled_db,
  )

-- `period.artist`; a foreign key makes the artist present.
unfoldable pub artist_of_period : Database → ArtistUnavailablePeriod → Result ArtistProfile
artist_of_period db period =
    or_throw (find (λ a. a.id == period.artist_id) db.artists) database_error

abbrev pub is_open_period : ℕ → ℕ → ArtistUnavailablePeriod → Bool
is_open_period id row_version p =
    p.id == id && p.row_version == row_version && is_absence_open p.status

abbrev pub cancelled_period :
    Option Text → ℕ → ℕ → ArtistUnavailablePeriod → ArtistUnavailablePeriod
cancelled_period reason now user_id p = record p {
  cancellation_reason = reason;
  cancelled_at = some now;
  cancelled_by_user_id = some user_id;
  row_version = p.row_version + 1;
  status = absence_cancelled;
}

unfoldable pub cancel_period :
    (Text → Text)
    → Database
    → AuthorizationContext
    → CancelArtistUnavailablePeriodCommand
    → ℕ
    → Result Database
cancel_period nfkc db context command now = do
  assert_role context absence_roles
  reason ← period_reason nfkc command.reason (not (role_eq context.role_code artist_role))
  period ← period_by_id db command.period_id
  found ← artist_of_period db period
  assert_artist_scope context found
  throw_if (ltb period.unavailable_date (earliest_date context.role_code now))
      artist_unavailable_period_date_invalid
  updated ←
      update_period db (is_open_period period.id command.expected_row_version)
        (cancelled_period reason now context.user_id)
  ok (
      append_audit
        (period_audit artist_unavailable_period_cancelled context period.id reason found.site.id)
        updated)

-- ===== src/Leave.antt =====
-- apps/api/src/leave/leave.service.ts and leave.types.ts: the leaves of hosts and artists.
use makeup_booking_system.Absence.{
  cancel_affected, find_affected_appointments, to_affected_appointment,
}
pub mod Confirmed
pub mod Created
pub mod Orderly
pub mod Restored
pub mod Located
pub mod Cancelling
pub mod AllRestored
pub mod Steps
pub mod Review
pub mod Cancel
use makeup_booking_system.Access.{AuthorizationContext, artist_role, host_role, role_eq}
use makeup_booking_system.Base.{
  Bool, List, Option, Result, [], any, err, false, find, guard, if◌then◌else◌, is_id, leb, length,
  ltb, map, none, not, ok, or_throw, some, throw_if, true, ◌&&◌, ◌*◌, ◌-◌, ◌==◌, ◌>>=◌, ◌>>◌, ◌||◌,
  ◌∷◌, ℕ,
}
use makeup_booking_system.Booking.Appointments.{append_audit, same_id}
use makeup_booking_system.Booking.Cancel.{cancelled_row}
use makeup_booking_system.Booking.Occupation.{is_host_qualified_on}
use makeup_booking_system.Booking.Texts.{trim}
use makeup_booking_system.Database.{
  AbsenceStatus, AffectedAppointmentSummary, Appointment, AuditAction, AuditEntry,
  CancellationReasonCode, Database, LeaveRecord, Text, absence_active, absence_pending,
  artist_leave_submitted, host_leave, is_absence_active, is_absence_open, is_active, is_booked,
  leave_created, leave_record_source,
}
use makeup_booking_system.Errors.{
  authorization_denied, database_error, leave_date_range_invalid, leave_impact_changed,
  leave_reason_invalid, leave_subject_unavailable,
}
use makeup_booking_system.Overtime.{Decision}
use makeup_booking_system.Shift.Calendar.{
  add_days, day_ms, format_date_only, is_date_only, to_business_date,
}
use makeup_booking_system.Shift.Definition.{is_empty}
use mathlib.Core.Option

pub data SubjectType : Type 0 where
  artist_subject host_subject : SubjectType

abbrev pub is_artist_subject : SubjectType → Bool
is_artist_subject artist_subject = true
is_artist_subject host_subject = false

pub record LeaveSubject : Type 0 where
  pub id : ℕ
  pub site_id : ℕ
  pub subject_type : SubjectType

pub record LeaveDateRange : Type 0 where
  pub end_date : ℕ
  pub start_date : ℕ

-- The command's range is a field of its own.
pub record CreateLeaveCommand : Type 0 where
  pub range : LeaveDateRange
  pub confirmed_affected_appointment_count : ℕ
  pub reason : Option Text

pub record CancelLeaveCommand : Type 0 where
  pub expected_row_version : ℕ
  pub leave_id : ℕ
  pub reason : Option Text

pub record ReviewLeaveCommand : Type 0 where
  pub comment : Option Text
  pub confirmed_affected_appointment_count : ℕ
  pub decision : Decision
  pub expected_row_version : ℕ
  pub leave_id : ℕ

pub record LeaveImpactPreview : Type 0 where
  pub affected_appointment_count : ℕ
  pub affected_appointments : List AffectedAppointmentSummary
  pub end_date : ℕ
  pub start_date : ℕ
  pub subject_id : Option ℕ
  pub subject_type : SubjectType

pub record LeaveSummary : Type 0 where
  pub preview : LeaveImpactPreview
  pub id : ℕ
  pub reason : Option Text
  pub row_version : ℕ
  pub review_comment : Option Text
  pub status : AbsenceStatus

unfoldable pub optional_reason : (Text → Text) → Option Text → Result (Option Text)
optional_reason nfkc none = ok none
optional_reason nfkc (some value) =
    let result = trim (nfkc value) in
    throw_if (is_empty result || ltb 500 (length result)) leave_reason_invalid >> ok (some result)

-- From tomorrow on, at most seven days ahead, and at most seven days long.
unfoldable pub validate_range : LeaveDateRange → ℕ → Result (Unit {0})
validate_range range now = do
  guard (is_date_only (some range.start_date)) leave_date_range_invalid
  guard (is_date_only (some range.end_date)) leave_date_range_invalid
  throw_if
      (ltb range.start_date (add_days (to_business_date now) 1)
        || ltb (add_days (to_business_date now) 7) range.end_date
        || ltb range.end_date range.start_date
        || ltb (6 * day_ms) (range.end_date - range.start_date))
      leave_date_range_invalid

-- `clock` is the `new Date()` that the qualification is tested at.
unfoldable pub resolve_host : Database → AuthorizationContext → ℕ → Result LeaveSubject
resolve_host db context clock = do
  found ← or_throw (find (λ h. is_id h.user_id context.user_id) db.hosts) leave_subject_unavailable
  guard (is_host_qualified_on found clock) leave_subject_unavailable
  ok (record { id = found.id; site_id = found.site.id; subject_type = host_subject })

unfoldable pub resolve_leave_artist : Database → AuthorizationContext → Result LeaveSubject
resolve_leave_artist db context = do
  found ←
      or_throw (find (λ a. is_id a.user_id context.user_id) db.artists) leave_subject_unavailable
  guard (is_active found.employment_status) leave_subject_unavailable
  ok (record { id = found.id; site_id = found.site.id; subject_type = artist_subject })

unfoldable pub resolve_self : Database → AuthorizationContext → ℕ → Result LeaveSubject
resolve_self db context clock =
    let as_host = resolve_host db context clock in
    let as_artist = resolve_leave_artist db context in
    if role_eq context.role_code host_role
    then as_host
    else if role_eq context.role_code artist_role
    then as_artist
    else err authorization_denied

-- The booked appointments of the subject on the dates of the range.
unfoldable pub leave_where : LeaveSubject → LeaveDateRange → Appointment → Bool
leave_where subject range a =
    leb range.start_date a.appointment_date
    && leb a.appointment_date range.end_date
    && is_booked a.status
    && (if is_artist_subject subject.subject_type
        then a.artist_id == subject.id
        else a.host_id == subject.id)

abbrev pub affected_by_leave : Database → LeaveSubject → LeaveDateRange → List Appointment
affected_by_leave db subject range = find_affected_appointments db (leave_where subject range)

abbrev pub to_leave_preview : LeaveSubject → LeaveDateRange → List Appointment → LeaveImpactPreview
to_leave_preview subject range affected = record {
  affected_appointment_count = length affected;
  affected_appointments = map to_affected_appointment affected;
  end_date = format_date_only range.end_date;
  start_date = format_date_only range.start_date;
  subject_id = some subject.id;
  subject_type = subject.subject_type;
}

-- `(leave.hostId ?? leave.artistId)!`
abbrev pub leave_subject_id : LeaveRecord → Option ℕ
leave_subject_id leave = elim leave.host_id [ some id ↦ some id | none ↦ leave.artist_id ]

abbrev pub leave_subject_type : LeaveRecord → SubjectType
leave_subject_type leave = elim leave.host_id [ some id ↦ host_subject | none ↦ artist_subject ]

abbrev pub to_leave_summary : LeaveRecord → List Appointment → LeaveSummary
to_leave_summary leave affected = record {
  preview = record {
    affected_appointment_count = leave.affected_appointment_count;
    affected_appointments = map to_affected_appointment affected;
    end_date = format_date_only leave.end_date;
    start_date = format_date_only leave.start_date;
    subject_id = leave_subject_id leave;
    subject_type = leave_subject_type leave;
  };
  id = leave.id;
  reason = leave.reason;
  row_version = leave.row_version;
  review_comment = leave.review_comment;
  status = leave.status;
}

unfoldable pub preview_leave :
    Database → AuthorizationContext → LeaveDateRange → ℕ → ℕ → Result LeaveImpactPreview
preview_leave db context range now clock = do
  validate_range range now
  subject ← resolve_self db context clock
  ok (to_leave_preview subject range (affected_by_leave db subject range))

-- `leave_range` holds the dates from the start to the end.
abbrev pub same_dates : LeaveRecord → LeaveRecord → Bool
same_dates l m = leb l.start_date m.end_date && leb m.start_date l.end_date

-- leave_records_pkey
abbrev pub same_leave_id : LeaveRecord → LeaveRecord → Bool
same_leave_id l m = l.id == m.id

-- leave_records_active_artist_date_excl and leave_records_active_host_date_excl
unfoldable pub same_leave_dates : LeaveRecord → LeaveRecord → Bool
same_leave_dates l m =
    same_dates l m
    && ((same_id l.artist_id m.artist_id && is_absence_open l.status && is_absence_open m.status)
        || (same_id l.host_id m.host_id
            && is_absence_active l.status
            && is_absence_active m.status))

-- The insertion: no violation of a constraint is mapped to an error of the service.
unfoldable pub insert_leave : LeaveRecord → Database → Result Database
insert_leave l db = do
  throw_if (any (λ m. same_leave_id l m || same_leave_dates l m) db.leave_records) database_error
  ok (record db { leave_records = l ∷ db.leave_records })

unfoldable pub new_leave :
    AuthorizationContext → CreateLeaveCommand → LeaveSubject → Option Text → ℕ → ℕ → LeaveRecord
new_leave context command subject reason count id = record {
  id = id;
  artist_id = if is_artist_subject subject.subject_type then some subject.id else none;
  host_id = if is_artist_subject subject.subject_type then none else some subject.id;
  start_date = command.range.start_date;
  end_date = command.range.end_date;
  reason = reason;
  status = if is_artist_subject subject.subject_type then absence_pending else absence_active;
  affected_appointment_count = count;
  row_version = 1;
  created_by_user_id = context.user_id;
  reviewed_at = none;
  reviewed_by_user_id = none;
  review_comment = none;
  review_impact_snapshot = [];
  cancelled_at = none;
  cancelled_by_user_id = none;
  cancellation_reason = none;
}

-- The cancellation of the appointments of a subject on leave, where it takes place.
unfoldable pub cancel_on_leave :
    Bool
    → CancellationReasonCode
    → Database
    → AuthorizationContext
    → LeaveSubject
    → LeaveRecord
    → ℕ
    → ℕ
    → Result Database
cancel_on_leave false code db context subject leave count now = ok db
cancel_on_leave true code db context subject leave count now =
    cancel_affected leave_impact_changed db
      (leave_where subject (record { end_date = leave.end_date; start_date = leave.start_date }))
      count
      (cancelled_row code leave.reason (some (leave_record_source leave.id)) now context.user_id)

abbrev pub leave_audit : AuditAction → AuthorizationContext → ℕ → Option Text → ℕ → AuditEntry
leave_audit action context id reason site_id = record {
  action = action;
  actor_user_id = some context.user_id;
  object_id = id;
  reason = reason;
  site_id = site_id;
}

unfoldable pub create_leave :
    (Text → Text)
    → Database
    → AuthorizationContext
    → CreateLeaveCommand
    → ℕ
    → ℕ
    → ℕ
    → Result (LeaveSummary × Database)
create_leave nfkc db context command now clock id = do
  validate_range command.range now
  reason ← optional_reason nfkc command.reason
  subject ← resolve_self db context clock
  let affected = affected_by_leave db subject command.range
  let count = length affected
  guard (command.confirmed_affected_appointment_count == count) leave_impact_changed
  let leave = new_leave context command subject reason count id
  inserted_db ← insert_leave leave db
  cancelled_db ←
      cancel_on_leave (not (is_artist_subject subject.subject_type)) host_leave inserted_db context
        subject leave count now
  ok (
    to_leave_summary leave affected,
    append_audit
        (leave_audit
          (if is_artist_subject subject.subject_type then artist_leave_submitted else leave_created)
          context id reason subject.site_id)
        cancelled_db,
  )

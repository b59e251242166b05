-- ===== src/Leave/Review.antt =====
-- `review` of apps/api/src/leave/leave.service.ts.
use makeup_booking_system.Base.{is_none}
use makeup_booking_system.Absence.{affected_appointment_snapshot}
use makeup_booking_system.Access.{
  AuthorizationContext, assert_role, backoffice_roles, customer_service_role, role_eq,
}
use makeup_booking_system.Base.{
  Bool, List, Option, Result, find, guard, if◌then◌else◌, is_id, leb, length, not, ok, or_throw,
  some, throw_if, ◌&&◌, ◌+◌, ◌==◌, ◌>>=◌, ◌>>◌, ◌||◌,
}
use makeup_booking_system.Booking.Appointments.{append_audit}
use makeup_booking_system.Database.{
  Appointment, ArtistProfile, Database, LeaveRecord, Text, artist_leave, artist_leave_approved,
  artist_leave_rejected, is_absence_active, is_absence_pending,
}
use makeup_booking_system.Errors.{
  authorization_denied, leave_date_range_invalid, leave_impact_changed, leave_not_found,
  leave_reason_invalid, leave_state_conflict,
}
use makeup_booking_system.Leave.{
  LeaveDateRange, LeaveSubject, LeaveSummary, ReviewLeaveCommand, affected_by_leave, artist_subject,
  cancel_on_leave, leave_audit, optional_reason, to_leave_summary,
}
use makeup_booking_system.Overtime.{Decision, is_approve}
use makeup_booking_system.Shift.Calendar.{to_business_date}
use makeup_booking_system.Tables.{count_of, update_many}
use makeup_booking_system.Unavailability.Commands.{reviewed_status}
use mathlib.Core.Option
use makeup_booking_system.Base.{ℕ}

-- `leave.artist`, where the leave is an artist's; a foreign key makes the artist present.
unfoldable pub leave_artist : Database → LeaveRecord → Option ArtistProfile
leave_artist db leave = Option.bind leave.artist_id (λ id. find (λ a. a.id == id) db.artists)

abbrev pub leave_is : ℕ → LeaveRecord → Bool
leave_is leave_id leave = leave.id == leave_id

-- The customer service of another site, or of none, may not review.
abbrev pub in_review_site : AuthorizationContext → ℕ → Bool
in_review_site context site_id =
    not (role_eq context.role_code customer_service_role) || is_id context.site_id site_id

-- The update of the leaves that must change one row.
unfoldable pub update_leave :
    Database → (LeaveRecord → Bool) → (LeaveRecord → LeaveRecord) → Result Database
update_leave db fits change = do
  guard (count_of fits db.leave_records == 1) leave_state_conflict
  ok (record db { leave_records = update_many fits change db.leave_records })

abbrev pub is_pending_leave : ℕ → ℕ → LeaveRecord → Bool
is_pending_leave id row_version l =
    l.id == id && l.row_version == row_version && is_absence_pending l.status

abbrev pub reviewed_leave :
    Decision → Option Text → List Appointment → ℕ → ℕ → LeaveRecord → LeaveRecord
reviewed_leave decision comment affected now user_id l = record l {
  affected_appointment_count = length affected;
  review_comment = comment;
  review_impact_snapshot = affected_appointment_snapshot affected;
  reviewed_at = some now;
  reviewed_by_user_id = some user_id;
  row_version = l.row_version + 1;
  status = reviewed_status decision;
}

abbrev pub leave_range : LeaveRecord → LeaveDateRange
leave_range leave = record { end_date = leave.end_date; start_date = leave.start_date }

abbrev pub artist_leave_subject : ArtistProfile → LeaveSubject
artist_leave_subject found = record {
  id = found.id;
  site_id = found.site.id;
  subject_type = artist_subject;
}

-- The writes of the review.
unfoldable pub decide_leave :
    Database
    → AuthorizationContext
    → ReviewLeaveCommand
    → ℕ
    → Option Text
    → LeaveRecord
    → ArtistProfile
    → List Appointment
    → Result (LeaveSummary × Database)
decide_leave db context command now comment leave found affected = do
  let status = reviewed_status command.decision
  updated ←
      update_leave db (is_pending_leave leave.id command.expected_row_version)
        (reviewed_leave command.decision comment affected now context.user_id)
  cancelled_db ←
      cancel_on_leave (is_absence_active status) artist_leave updated context
        (artist_leave_subject found) leave (length affected) now
  ok (
    to_leave_summary
        (record leave {
          affected_appointment_count = length affected;
          review_comment = comment;
          row_version = leave.row_version + 1;
          status = status;
        })
        affected,
    append_audit
        (leave_audit
          (if is_absence_active status then artist_leave_approved else artist_leave_rejected)
          context leave.id comment found.site.id)
        cancelled_db,
  )

unfoldable pub review_leave :
    (Text → Text)
    → Database
    → AuthorizationContext
    → ReviewLeaveCommand
    → ℕ
    → Result (LeaveSummary × Database)
review_leave nfkc db context command now = do
  assert_role context backoffice_roles
  comment ← optional_reason nfkc command.comment
  throw_if (not (is_approve command.decision) && is_none comment) leave_reason_invalid
  leave ← or_throw (find (leave_is command.leave_id) db.leave_records) leave_not_found
  found ← or_throw (leave_artist db leave) leave_not_found
  guard (in_review_site context found.site.id) authorization_denied
  throw_if (leb leave.start_date (to_business_date now)) leave_date_range_invalid
  let affected = affected_by_leave db (artist_leave_subject found) (leave_range leave)
  guard (length affected == command.confirmed_affected_appointment_count) leave_impact_changed
  decide_leave db context command now comment leave found affected

-- ===== src/Overtime.antt =====
-- apps/api/src/overtime/overtime.service.ts and overtime.types.ts.
pub mod Laws
pub mod Steps
pub mod Machine
pub mod Withdrawal
pub mod Worked
use makeup_booking_system.Access.{
  AuthorizationContext, artist_role, assert_role, assert_site_scope, backoffice_roles,
}
use makeup_booking_system.Availability.{current_shift}
use makeup_booking_system.Base.{
  Bool, Option, Result, [], any, false, find, guard, if◌then◌else◌, includes, is_id, length, ltb,
  none, ok, or_throw, some, throw_if, true, ◌&&◌, ◌+◌, ◌==◌, ◌>>=◌, ◌>>◌, ◌||◌, ◌∷◌, ℕ,
}
use makeup_booking_system.Booking.Appointments.{append_audit}
use makeup_booking_system.Booking.Rows.{count_of, update_many}
use makeup_booking_system.Booking.Texts.{trim}
use makeup_booking_system.Booking.Times.{date_in_window}
use makeup_booking_system.Database.{
  ArtistOvertime, ArtistProfile, Database, RequestStatus, Text, approved, artist_overtime_approved,
  artist_overtime_rejected, is_active, is_approved, is_pending, pending, rejected, withdrawn,
  artist_overtime_directly_approved, artist_overtime_withdrawn, artist_overtime_submitted,
}
use makeup_booking_system.Errors.{
  authorization_denied, overtime_artist_not_found, overtime_artist_unavailable,
  overtime_date_invalid, overtime_not_found, overtime_pending_exists, overtime_reason_invalid,
  overtime_shift_not_configured, overtime_state_conflict, overtime_working_day,
}
use makeup_booking_system.Shift.Calendar.{format_date_only, is_date_only, iso_weekday_for_date}
use makeup_booking_system.Shift.Definition.{is_empty, validate_shift_definition}
use mathlib.Core.Option

-- `SubmitOvertimeCommand`, which extends `OvertimeDefinition`
pub record SubmitOvertimeCommand : Type 0 where
  pub artist_id : ℕ
  pub break_end_minute : Option ℕ
  pub break_start_minute : Option ℕ
  pub overtime_date : ℕ
  pub reason : Text
  pub work_end_minute : ℕ
  pub work_start_minute : ℕ

pub record WithdrawOvertimeCommand : Type 0 where
  pub expected_row_version : ℕ
  pub overtime_id : ℕ

pub data Decision : Type 0 where
  approve reject : Decision

abbrev pub is_approve : Decision → Bool
is_approve approve = true
is_approve reject = false

pub record ReviewOvertimeCommand : Type 0 where
  pub comment : Option Text
  pub decision : Decision
  pub expected_row_version : ℕ
  pub overtime_id : ℕ

pub record OvertimeSummary : Type 0 where
  pub affected_appointment_count : ℕ
  pub artist_id : ℕ
  pub break_end_minute : Option ℕ
  pub break_start_minute : Option ℕ
  pub id : ℕ
  pub overtime_date : ℕ
  pub reason : Text
  pub row_version : ℕ
  pub site_id : ℕ
  pub status : RequestStatus
  pub submitted_at : ℕ
  pub work_end_minute : ℕ
  pub work_start_minute : ℕ

abbrev pub to_overtime_summary : ArtistOvertime → OvertimeSummary
to_overtime_summary request = record {
  affected_appointment_count = request.affected_appointment_count;
  artist_id = request.artist_id;
  break_end_minute = request.break_end_minute;
  break_start_minute = request.break_start_minute;
  id = request.id;
  overtime_date = format_date_only request.overtime_date;
  reason = request.reason;
  row_version = request.row_version;
  site_id = request.site_id;
  status = request.status;
  submitted_at = request.submitted_at;
  work_end_minute = request.work_end_minute;
  work_start_minute = request.work_start_minute;
}

unfoldable pub normalized_required_text : (Text → Text) → Text → Result Text
normalized_required_text nfkc value =
    let result = trim (nfkc value) in
    throw_if (is_empty result || ltb 500 (length result)) overtime_reason_invalid >> ok result

unfoldable pub normalized_optional_text : (Text → Text) → Option Text → Result (Option Text)
unfolding normalized_required_text
normalized_optional_text nfkc none = ok none
normalized_optional_text nfkc (some value) = do
  result ← normalized_required_text nfkc value
  ok (some result)

-- A date from tomorrow on, at most seven days ahead.
unfoldable pub validate_date : Option ℕ → ℕ → Result (Unit {0})
validate_date value now = do
  guard (is_date_only value) overtime_date_invalid
  guard (date_in_window value now) overtime_date_invalid

unfoldable pub validate_definition : SubmitOvertimeCommand → Result (Unit {0})
validate_definition command = validate_shift_definition (record {
  break_end_minute = command.break_end_minute;
  break_start_minute = command.break_start_minute;
  work_end_minute = command.work_end_minute;
  work_start_minute = command.work_start_minute;
  workdays = 1 ∷ [];
})

unfoldable pub active_artist : Database → ℕ → Result ArtistProfile
active_artist db artist_id = do
  found ← or_throw (find (λ a. a.id == artist_id) db.artists) overtime_artist_not_found
  guard (is_active found.employment_status) overtime_artist_unavailable
  ok found

unfoldable pub assert_non_working_day : Database → ℕ → ℕ → Result (Unit {0})
assert_non_working_day db artist_id overtime_date = do
  shift ← or_throw (current_shift db artist_id overtime_date) overtime_shift_not_configured
  throw_if (includes shift.definition.workdays (iso_weekday_for_date overtime_date))
      overtime_working_day

-- The statuses of artist_overtimes_active_artist_date_uq.
abbrev pub is_open_request : RequestStatus → Bool
is_open_request status = is_pending status || is_approved status

-- artist_overtimes_pkey and artist_overtimes_active_artist_date_uq
unfoldable pub same_overtime : ArtistOvertime → ArtistOvertime → Bool
same_overtime o p =
    o.id == p.id
    || (is_open_request o.status
        && is_open_request p.status
        && o.artist_id == p.artist_id
        && o.overtime_date == p.overtime_date)

-- The row that is inserted: the status is APPROVED or the default PENDING.
unfoldable pub new_overtime :
    AuthorizationContext → SubmitOvertimeCommand → ℕ → Text → Bool → ℕ → ℕ → ℕ → ArtistOvertime
new_overtime context command site_id reason directly now id submitted_at = record {
  id = id;
  artist_id = command.artist_id;
  break_end_minute = command.break_end_minute;
  break_start_minute = command.break_start_minute;
  work_end_minute = command.work_end_minute;
  work_start_minute = command.work_start_minute;
  overtime_date = command.overtime_date;
  reason = reason;
  site_id = site_id;
  status = if directly then approved else pending;
  affected_appointment_count = 0;
  row_version = 1;
  submitted_at = submitted_at;
  submitted_by_user_id = context.user_id;
  review_comment = none;
  reviewed_at = if directly then some now else none;
  reviewed_by_user_id = if directly then some context.user_id else none;
}

-- `create`: a unique violation (`P2002`) becomes the error of a pending overtime.
unfoldable pub create_overtime :
    Database → AuthorizationContext → ArtistOvertime → Result (OvertimeSummary × Database)
create_overtime db context request = do
  throw_if (any (same_overtime request) db.overtimes) overtime_pending_exists
  ok (
    to_overtime_summary request,
    append_audit
        (record {
          action =
              if is_approved request.status
              then artist_overtime_directly_approved
              else artist_overtime_submitted;
          actor_user_id = some context.user_id;
          object_id = request.id;
          reason = some request.reason;
          site_id = request.site_id;
        })
        (record db { overtimes = request ∷ db.overtimes }),
  )

unfoldable pub submit :
    (Text → Text)
    → Database
    → AuthorizationContext
    → SubmitOvertimeCommand
    → ℕ
    → ℕ
    → ℕ
    → Result (OvertimeSummary × Database)
submit nfkc db context command now id submitted_at = do
  assert_role context (artist_role ∷ [])
  validate_date (some command.overtime_date) now
  validate_definition command
  reason ← normalized_required_text nfkc command.reason
  owner ← active_artist db command.artist_id
  guard (is_id owner.user_id context.user_id) authorization_denied
  assert_non_working_day db owner.id command.overtime_date
  create_overtime db context
      (new_overtime context command owner.site.id reason false now id submitted_at)

unfoldable pub direct_approve :
    (Text → Text)
    → Database
    → AuthorizationContext
    → SubmitOvertimeCommand
    → ℕ
    → ℕ
    → ℕ
    → Result (OvertimeSummary × Database)
direct_approve nfkc db context command now id submitted_at = do
  assert_role context backoffice_roles
  validate_date (some command.overtime_date) now
  validate_definition command
  reason ← normalized_required_text nfkc command.reason
  owner ← active_artist db command.artist_id
  assert_site_scope context owner.site.id
  assert_non_working_day db owner.id command.overtime_date
  create_overtime db context
      (new_overtime context command owner.site.id reason true now id submitted_at)

unfoldable pub overtime_by_id : Database → ℕ → Result ArtistOvertime
overtime_by_id db overtime_id =
    or_throw (find (λ o. o.id == overtime_id) db.overtimes) overtime_not_found

-- `request.artist`; a foreign key makes the artist present.
unfoldable pub artist_of : Database → ArtistOvertime → Option ArtistProfile
artist_of db request = find (λ a. a.id == request.artist_id) db.artists

-- The `where` of the updates.
abbrev pub is_pending_at : ℕ → ℕ → ArtistOvertime → Bool
is_pending_at id row_version o = o.id == id && o.row_version == row_version && is_pending o.status

-- The update of the overtimes that must change one row.
unfoldable pub update_overtime :
    Database → ℕ → ℕ → (ArtistOvertime → ArtistOvertime) → Result Database
update_overtime db id row_version change = do
  guard (count_of (is_pending_at id row_version) db.overtimes == 1) overtime_state_conflict
  ok (record db { overtimes = update_many (is_pending_at id row_version) change db.overtimes })

abbrev pub withdrawn_row : ArtistOvertime → ArtistOvertime
withdrawn_row o = record o { row_version = o.row_version + 1; status = withdrawn }

unfoldable pub withdraw :
    Database → AuthorizationContext → WithdrawOvertimeCommand → Result Database
withdraw db context command = do
  assert_role context (artist_role ∷ [])
  request ← overtime_by_id db command.overtime_id
  guard (is_id (Option.bind (artist_of db request) (λ a. a.user_id)) context.user_id)
      authorization_denied
  updated ← update_overtime db request.id command.expected_row_version withdrawn_row
  ok (
      append_audit
        (record {
          action = artist_overtime_withdrawn;
          actor_user_id = some context.user_id;
          object_id = request.id;
          reason = none;
          site_id = request.site_id;
        })
        updated)

-- The artist is employed, and still at the site of the request.
unfoldable pub works_at : Option ArtistProfile → ℕ → Bool
works_at none site_id = false
works_at (some a) site_id = a.site.id == site_id && is_active a.employment_status

abbrev pub decided : Decision → RequestStatus
decided decision = if is_approve decision then approved else rejected

abbrev pub reviewed_row : Decision → Option Text → ℕ → ℕ → ArtistOvertime → ArtistOvertime
reviewed_row decision comment now user_id o = record o {
  review_comment = comment;
  reviewed_at = some now;
  reviewed_by_user_id = some user_id;
  row_version = o.row_version + 1;
  status = decided decision;
}

unfoldable pub finish_review :
    Database
    → AuthorizationContext
    → ArtistOvertime
    → Decision
    → Option Text
    → ℕ
    → Result (OvertimeSummary × Database)
finish_review db context request decision comment now = do
  updated ←
      update_overtime db request.id request.row_version
        (reviewed_row decision comment now context.user_id)
  ok (
    to_overtime_summary
        (record request { row_version = request.row_version + 1; status = decided decision }),
    append_audit
        (record {
          action =
              if is_approve decision then artist_overtime_approved else artist_overtime_rejected;
          actor_user_id = some context.user_id;
          object_id = request.id;
          reason = comment;
          site_id = request.site_id;
        })
        updated,
  )

-- The tests of an approval alone.
unfoldable pub assert_approvable : Database → ArtistOvertime → Decision → ℕ → Result (Unit {0})
assert_approvable db request reject now = ok tt
assert_approvable db request approve now = do
  validate_date (some request.overtime_date) now
  guard (request.affected_appointment_count == 0) overtime_state_conflict
  assert_non_working_day db request.artist_id request.overtime_date

-- The request may still be decided.
abbrev pub is_reviewable : Database → ArtistOvertime → ℕ → Bool
is_reviewable db request expected_row_version =
    is_pending request.status
    && request.row_version == expected_row_version
    && works_at (artist_of db request) request.site_id

unfoldable pub review :
    (Text → Text)
    → Database
    → AuthorizationContext
    → ReviewOvertimeCommand
    → ℕ
    → Result (OvertimeSummary × Database)
review nfkc db context command now = do
  assert_role context backoffice_roles
  comment ← normalized_optional_text nfkc command.comment
  request ← overtime_by_id db command.overtime_id
  assert_site_scope context request.site_id
  throw_if (request.submitted_by_user_id == context.user_id) authorization_denied
  guard (is_reviewable db request command.expected_row_version) overtime_state_conflict
  assert_approvable db request command.decision now
  finish_review db context request command.decision comment now

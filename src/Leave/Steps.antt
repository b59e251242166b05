-- ===== src/Leave/Steps.antt =====
-- What the commands of apps/api/src/leave/leave.service.ts have tested and written, where they
-- return.
use makeup_booking_system.Leave.Review.{
  decide_leave, artist_leave_subject, in_review_site, is_pending_leave, leave_artist, leave_is,
  leave_range, review_leave, reviewed_leave, update_leave,
}
use makeup_booking_system.Access.{AuthorizationContext, assert_role, backoffice_roles}
use makeup_booking_system.Base.{
  ==→eq, >>=-eq-ok, Bool, List, Option, any, ap, false, find, guard, guard-eq-ok, if◌then◌else◌,
  is_none, leb, length, map, not, ok, ok-injective, ok-pair, or_throw, or_throw-eq-ok, refl, some,
  sym, throw_if, throw_if-eq-ok, true, ◌&&◌, ◌==◌, ◌||◌, ◌∙◌, ◌∷◌, ◌≡◌, ℕ,
}
use makeup_booking_system.Booking.Appointments.{append_audit, tables}
use makeup_booking_system.Booking.Cancel.{cancelled_row}
use makeup_booking_system.Database.{
  Appointment, ArtistProfile, CancellationReasonCode, Database, LeaveRecord, Text, artist_leave,
  host_leave, is_absence_active, leave_record_source,
}
use makeup_booking_system.Errors.{
  authorization_denied, database_error, leave_date_range_invalid, leave_impact_changed,
  leave_not_found, leave_reason_invalid, leave_state_conflict,
}
use makeup_booking_system.Leave.{
  CreateLeaveCommand, LeaveSubject, LeaveSummary, ReviewLeaveCommand, affected_by_leave,
  cancel_on_leave, create_leave, insert_leave, is_artist_subject, leave_where, new_leave,
  optional_reason, resolve_self, same_leave_dates, same_leave_id, validate_range,
}
use makeup_booking_system.Overtime.{is_approve}
use makeup_booking_system.Shift.Calendar.{to_business_date}
use makeup_booking_system.Tables.{count_of, update_many}
use makeup_booking_system.Unavailability.Commands.{reviewed_status}
use makeup_booking_system.Unavailability.Steps.{cancel_affected_inv, map_id}

-- The change that `cancel_on_leave` makes to an appointment.
abbrev pub on_leave_change :
    Bool → CancellationReasonCode → LeaveSubject → LeaveRecord → ℕ → ℕ → Appointment → Appointment
on_leave_change active_leave code subject leave user_id now a =
    if active_leave
    then if leave_where subject (leave_range leave) a
      then cancelled_row code leave.reason (some (leave_record_source leave.id)) now user_id a
      else a
    else a

pub cancel_on_leave_inv :
    (on_leave : Bool) (code : CancellationReasonCode) (db : Database)
    (context : AuthorizationContext) (subject : LeaveSubject) (leave : LeaveRecord) (count now : ℕ)
    (db' : Database)
    → cancel_on_leave on_leave code db context subject leave count now ≡ ok db'
    → db' ≡ record db {
      appointments =
          map (on_leave_change on_leave code subject leave context.user_id now) db.appointments;
    }
unfolding cancel_on_leave
cancel_on_leave_inv true code db context subject leave count now db' h =
    let (_, e) = cancel_affected_inv _ db _ count _ db' h in e
cancel_on_leave_inv false code db context subject leave count now db' h =
    sym (ok-injective db db' h)
    ∙ ap (λ (rows : List Appointment). record db { appointments = rows })
        (map_id (λ a. a) (λ a. refl) db.appointments)

pub insert_leave_inv :
    (l : LeaveRecord) (db db' : Database)
    → insert_leave l db ≡ ok db'
    → (any (λ m. same_leave_id l m || same_leave_dates l m) db.leave_records ≡ false)
      × (db' ≡ record db { leave_records = l ∷ db.leave_records })
unfolding insert_leave
insert_leave_inv l db db' h =
    let (_, e, k) =
      >>=-eq-ok
        (throw_if (any (λ m. same_leave_id l m || same_leave_dates l m) db.leave_records)
          database_error)
        _ h in
    (throw_if-eq-ok _ _ e, sym (ok-injective _ db' k))

-- What a leave that is created has passed and done.
pub record IsLeaveCreated (db : Database) (context : AuthorizationContext)
    (command : CreateLeaveCommand) (now clock id : ℕ) (db' : Database) : Type 0 where
  pub reason : Option Text
  pub subject : LeaveSubject
  pub resolved : resolve_self db context clock ≡ ok subject
  pub leave : LeaveRecord
  pub is_leave :
      leave
      ≡ new_leave context command subject reason
          (length (affected_by_leave db subject command.range))
          id
  pub confirmed :
      command.confirmed_affected_appointment_count
      ≡ length (affected_by_leave db subject command.range)
  pub is_new : any (λ m. same_leave_id leave m || same_leave_dates leave m) db.leave_records ≡ false
  pub tables_after : tables db' ≡ (db.rules, db.unavailable_periods, leave ∷ db.leave_records)
  pub rows_after :
      db'.appointments
      ≡ map
          (on_leave_change
            (not (is_artist_subject subject.subject_type))
            host_leave
            subject
            leave
            context.user_id
            now)
          db.appointments

pub create_leave-IsLeaveCreated :
    (nfkc : Text → Text) (db : Database) (context : AuthorizationContext)
    (command : CreateLeaveCommand) (now clock id : ℕ) (result : LeaveSummary) (db' : Database)
    → create_leave nfkc db context command now clock id ≡ ok (result, db')
    → IsLeaveCreated db context command now clock id db'
unfolding create_leave append_audit
create_leave-IsLeaveCreated nfkc db context command now clock id result db' h =
    let (_, _, h1) = >>=-eq-ok (validate_range command.range now) _ h in
    let (reason, _, h2) = >>=-eq-ok (optional_reason nfkc command.reason) _ h1 in
    let (subject, e3, h3) = >>=-eq-ok (resolve_self db context clock) _ h2 in
    let count = length (affected_by_leave db subject command.range) in
    let (_, e4, h4) =
      >>=-eq-ok (guard (command.confirmed_affected_appointment_count == count) leave_impact_changed)
        _ h3 in
    let leave = new_leave context command subject reason count id in
    let (db1, e5, h5) = >>=-eq-ok (insert_leave leave db) _ h4 in
    let on_leave = not (is_artist_subject subject.subject_type) in
    let (db2, e6, h6) =
      >>=-eq-ok (cancel_on_leave on_leave host_leave db1 context subject leave count now) _ h5 in
    let (_, y) = ok-pair {A = LeaveSummary} {B = Database} (_, _) (result, db') h6 in
    let (new, w1) = insert_leave_inv leave db db1 e5 in
    let w2 = cancel_on_leave_inv on_leave host_leave db1 context subject leave count now db2 e6 in
    record {
      reason = reason;
      subject = subject;
      resolved = e3;
      leave = leave;
      is_leave = refl;
      confirmed = ==→eq _ _ (guard-eq-ok _ _ e4);
      is_new = new;
      tables_after = ap tables (sym y) ∙ ap tables w2 ∙ ap tables w1;
      rows_after =
          ap (λ d. d.appointments) (sym y)
          ∙ ap (λ d. d.appointments) w2
          ∙ ap
              (λ d.
                map (on_leave_change on_leave host_leave subject leave context.user_id now)
                  d.appointments)
              w1;
    }

pub update_leave_inv :
    (db : Database) (fits : LeaveRecord → Bool) (change : LeaveRecord → LeaveRecord)
    (db' : Database)
    → update_leave db fits change ≡ ok db'
    → db' ≡ record db { leave_records = update_many fits change db.leave_records }
unfolding update_leave
update_leave_inv db fits change db' h =
    let (_, _, k) =
      >>=-eq-ok (guard (count_of fits db.leave_records == 1) leave_state_conflict) _ h in
    sym (ok-injective _ db' k)

-- What a review that returns has passed and done.
pub record IsLeaveReviewed (db : Database) (context : AuthorizationContext)
    (command : ReviewLeaveCommand) (now : ℕ) (db' : Database) : Type 0 where
  pub comment : Option Text
  pub leave : LeaveRecord
  pub found : find (leave_is command.leave_id) db.leave_records ≡ some leave
  pub artist_found : ArtistProfile
  pub is_artist : leave_artist db leave ≡ some artist_found
  pub affected : List Appointment
  pub is_affected :
      affected ≡ affected_by_leave db (artist_leave_subject artist_found) (leave_range leave)
  pub confirmed : length affected ≡ command.confirmed_affected_appointment_count
  pub tables_after : tables db' ≡ (
    db.rules,
    db.unavailable_periods,
    update_many
        (is_pending_leave leave.id command.expected_row_version)
        (reviewed_leave command.decision comment affected now context.user_id)
        db.leave_records,
  )
  pub rows_after :
      db'.appointments
      ≡ map
          (on_leave_change
            (is_absence_active (reviewed_status command.decision))
            artist_leave
            (artist_leave_subject artist_found)
            leave
            context.user_id
            now)
          db.appointments

decide_leave_inv :
    (db : Database) (context : AuthorizationContext) (command : ReviewLeaveCommand) (now : ℕ)
    (comment : Option Text) (leave : LeaveRecord) (found : ArtistProfile)
    (affected : List Appointment) (result : LeaveSummary) (db' : Database)
    → decide_leave db context command now comment leave found affected ≡ ok (result, db')
    → (tables db' ≡ (
      db.rules,
      db.unavailable_periods,
      update_many
          (is_pending_leave leave.id command.expected_row_version)
          (reviewed_leave command.decision comment affected now context.user_id)
          db.leave_records,
    ))
      × (db'.appointments
          ≡ map
              (on_leave_change
                (is_absence_active (reviewed_status command.decision))
                artist_leave
                (artist_leave_subject found)
                leave
                context.user_id
                now)
              db.appointments)
unfolding decide_leave append_audit
decide_leave_inv db context command now comment leave found affected result db' h =
    let subject = artist_leave_subject found in
    let fits = is_pending_leave leave.id command.expected_row_version in
    let change = reviewed_leave command.decision comment affected now context.user_id in
    let (db1, e1, h1) = >>=-eq-ok (update_leave db fits change) _ h in
    let on_leave = is_absence_active (reviewed_status command.decision) in
    let (db2, e2, h2) =
      >>=-eq-ok
        (cancel_on_leave on_leave artist_leave db1 context subject leave (length affected) now) _
        h1 in
    let (_, y) = ok-pair {A = LeaveSummary} {B = Database} (_, _) (result, db') h2 in
    let w1 = update_leave_inv db fits change db1 e1 in
    let w2 =
      cancel_on_leave_inv on_leave artist_leave db1 context subject leave (length affected) now db2
        e2 in
    (
      ap tables (sym y) ∙ ap tables w2 ∙ ap tables w1,
      ap (λ d. d.appointments) (sym y)
          ∙ ap (λ d. d.appointments) w2
          ∙ ap
              (λ d.
                map (on_leave_change on_leave artist_leave subject leave context.user_id now)
                  d.appointments)
              w1,
    )

pub review_leave-IsLeaveReviewed :
    (nfkc : Text → Text) (db : Database) (context : AuthorizationContext)
    (command : ReviewLeaveCommand) (now : ℕ) (result : LeaveSummary) (db' : Database)
    → review_leave nfkc db context command now ≡ ok (result, db')
    → IsLeaveReviewed db context command now db'
unfolding review_leave
review_leave-IsLeaveReviewed nfkc db context command now result db' h =
    let (_, _, h1) = >>=-eq-ok (assert_role context backoffice_roles) _ h in
    let (comment, _, h2) = >>=-eq-ok (optional_reason nfkc command.comment) _ h1 in
    let (_, _, h3) =
      >>=-eq-ok
        (throw_if (not (is_approve command.decision) && is_none comment) leave_reason_invalid) _
        h2 in
    let (leave, e4, h4) =
      >>=-eq-ok (or_throw (find (leave_is command.leave_id) db.leave_records) leave_not_found) _
        h3 in
    let (found, e5, h5) = >>=-eq-ok (or_throw (leave_artist db leave) leave_not_found) _ h4 in
    let (_, _, h6) =
      >>=-eq-ok (guard (in_review_site context found.site.id) authorization_denied) _ h5 in
    let (_, _, h7) =
      >>=-eq-ok (throw_if (leb leave.start_date (to_business_date now)) leave_date_range_invalid) _
        h6 in
    let affected = affected_by_leave db (artist_leave_subject found) (leave_range leave) in
    let (_, e8, h8) =
      >>=-eq-ok
        (guard (length affected == command.confirmed_affected_appointment_count)
          leave_impact_changed)
        _ h7 in
    let (t, r) =
      decide_leave_inv db context command now comment leave found affected result db' h8 in
    record {
      comment = comment;
      leave = leave;
      found = or_throw-eq-ok _ _ e4;
      artist_found = found;
      is_artist = or_throw-eq-ok _ _ e5;
      affected = affected;
      is_affected = refl;
      confirmed = ==→eq _ _ (guard-eq-ok _ _ e8);
      tables_after = t;
      rows_after = r;
    }

-- ===== src/Leave/Cancelling.antt =====
-- What a cancellation of a leave has passed and done (`cancel` of
-- apps/api/src/leave/leave.service.ts).
use makeup_booking_system.Access.{AuthorizationContext, admin_role, assert_role, role_eq}
use makeup_booking_system.Base.{
  >>=-eq-ok, Option, ap, find, guard, is_none, leb, ok, ok-injective, or_throw, or_throw-eq-ok,
  some, sym, throw_if, ◌&&◌, ◌≡◌, ℕ,
}
use makeup_booking_system.Booking.Appointments.{append_audit, tables}
use makeup_booking_system.Database.{Database, LeaveRecord, Text}
use makeup_booking_system.Errors.{
  authorization_denied, leave_date_range_invalid, leave_not_found, leave_reason_invalid,
  leave_state_conflict,
}
use makeup_booking_system.Leave.{CancelLeaveCommand, optional_reason}
use makeup_booking_system.Leave.Cancel.{
  cancel_leave, cancelled_leave, is_open_leave, leave_cancel_roles, leave_owner, may_cancel,
  restorable_of, restore_fixed_appointments,
}
use makeup_booking_system.Leave.Review.{leave_is, update_leave}
use makeup_booking_system.Leave.Steps.{update_leave_inv}
use makeup_booking_system.Shift.Calendar.{to_business_date}
use makeup_booking_system.Tables.{update_many}

pub record IsLeaveCancelling (db : Database) (context : AuthorizationContext)
    (command : CancelLeaveCommand) (now : ℕ) (db' : Database) : Type 0 where
  pub reason : Option Text
  pub leave : LeaveRecord
  pub found : find (leave_is command.leave_id) db.leave_records ≡ some leave
  pub updated : Database
  pub is_updated : updated ≡ record db {
    leave_records =
        update_many
          (is_open_leave leave.id command.expected_row_version)
          (cancelled_leave reason now context.user_id)
          db.leave_records;
  }
  pub restored : Database
  pub restores :
      restore_fixed_appointments updated context leave.id (restorable_of db leave) ≡ ok restored
  pub tables_after : tables db' ≡ tables restored
  pub rows_after : db'.appointments ≡ restored.appointments
  pub weekdays_after : db'.rule_weekdays ≡ restored.rule_weekdays

pub cancel_leave-IsLeaveCancelling :
    (nfkc : Text → Text) (db : Database) (context : AuthorizationContext)
    (command : CancelLeaveCommand) (now : ℕ) (db' : Database)
    → cancel_leave nfkc db context command now ≡ ok db'
    → IsLeaveCancelling db context command now db'
unfolding cancel_leave append_audit
cancel_leave-IsLeaveCancelling nfkc db context command now db' h =
    let (reason, _, h1) = >>=-eq-ok (optional_reason nfkc command.reason) _ h in
    let (_, _, h2) =
      >>=-eq-ok
        (throw_if (role_eq context.role_code admin_role && is_none reason) leave_reason_invalid) _
        h1 in
    let (_, _, h3) = >>=-eq-ok (assert_role context leave_cancel_roles) _ h2 in
    let (leave, e4, h4) =
      >>=-eq-ok (or_throw (find (leave_is command.leave_id) db.leave_records) leave_not_found) _
        h3 in
    let (owner, _, h5) = >>=-eq-ok (or_throw (leave_owner db leave) leave_state_conflict) _ h4 in
    let (_, _, h6) =
      >>=-eq-ok (guard (may_cancel db context leave owner.0) authorization_denied) _ h5 in
    let (_, _, h7) =
      >>=-eq-ok (throw_if (leb leave.start_date (to_business_date now)) leave_date_range_invalid) _
        h6 in
    let fits = is_open_leave leave.id command.expected_row_version in
    let change = cancelled_leave reason now context.user_id in
    let (updated, e8, h8) = >>=-eq-ok (update_leave db fits change) _ h7 in
    let (restored, e9, h9) =
      >>=-eq-ok (restore_fixed_appointments updated context leave.id (restorable_of db leave)) _
        h8 in
    let y = ok-injective _ db' h9 in
    record {
      reason = reason;
      leave = leave;
      found = or_throw-eq-ok _ _ e4;
      updated = updated;
      is_updated = update_leave_inv db fits change updated e8;
      restored = restored;
      restores = e9;
      tables_after = ap tables (sym y);
      rows_after = ap (λ (d : Database). d.appointments) (sym y);
      weekdays_after = ap (λ (d : Database). d.rule_weekdays) (sym y);
    }

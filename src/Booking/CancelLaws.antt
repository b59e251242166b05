-- ===== src/Booking/CancelLaws.antt =====
-- What cancelling and completing appointments promise
-- (apps/api/src/booking/booking-cancel.service.ts, appointment-completion.service.ts).
use makeup_booking_system.Access.{AuthorizationContext, assert_role, booking_roles}
use makeup_booking_system.Base.{
  ==→eq, >>=-eq-ok, Option, ap, guard, guard-eq-ok, none, ok, ok-injective, ok-pair, refl, some,
  sym, ◌+◌, ◌==◌, ◌∙◌, ◌≡◌, ℕ,
}
use makeup_booking_system.Booking.Appointments.{append_audit}
use makeup_booking_system.Booking.Cancel.{
  BookingCancellationResult, CancelBookingCommand, appointment_by_id, assert_cancellable, cancel,
  cancel_row, cancellation_code, cancelled_row, is_target,
}
use makeup_booking_system.Booking.Create.{Platform}
use makeup_booking_system.Booking.Rows.{IsConsistent-update_many, Keeps, count_of, update_many}
use makeup_booking_system.Booking.Schedule.{IsConsistent}
use makeup_booking_system.Booking.Texts.{command_reason}
use makeup_booking_system.Database.{
  Appointment, CancellationReasonCode, CancellationSource, Database, Text, appointment_cancelled,
}
use makeup_booking_system.Errors.{booking_cancellation_reason_invalid, booking_state_conflict}

pub cancelled_row-Keeps :
    (code : CancellationReasonCode) (text : Option Text) (source : Option CancellationSource)
    (now user_id : ℕ) (a : Appointment)
    → Keeps a (cancelled_row code text source now user_id a)
cancelled_row-Keeps code text source now user_id a = record {
  host_kept = refl;
  artist_kept = refl;
  date_kept = refl;
  sequence_kept = refl;
  start_kept = refl;
  end_kept = refl;
  occupation_kept = λ h. cc;
}

pub cancel_row_inv :
    (db : Database) (id version : ℕ) (change : Appointment → Appointment) (db' : Database)
    → cancel_row db id version change ≡ ok db'
    → (db' ≡ record db { appointments = update_many (is_target id version) change db.appointments })
      × (count_of (is_target id version) db.appointments ≡ 1)
unfolding cancel_row
cancel_row_inv db id version change db' h =
    let (_, e, k) =
      >>=-eq-ok
        (guard (count_of (is_target id version) db.appointments == 1) booking_state_conflict) _ h in
    (sym (ok-injective _ db' k), ==→eq _ _ (guard-eq-ok _ _ e))

-- What a cancellation that succeeds has passed and done.
pub record IsCancellation (platform : Platform) (db : Database) (context : AuthorizationContext)
    (command : CancelBookingCommand) (now : ℕ) (result : BookingCancellationResult) (db' : Database)
    : Type 0 where
  pub role : assert_role context booking_roles ≡ ok tt
  pub reason : Option Text
  pub reason_found :
      command_reason platform.nfkc booking_cancellation_reason_invalid context.role_code
        command.reason
      ≡ ok reason
  pub appointment : Appointment
  pub found : appointment_by_id db command.appointment_id ≡ ok appointment
  pub cancellable :
      assert_cancellable db context appointment command.expected_row_version now ≡ ok tt
  pub one_row : count_of (is_target appointment.id command.expected_row_version) db.appointments ≡ 1
  pub after :
      db'
      ≡ append_audit
          (record {
            action = appointment_cancelled;
            actor_user_id = some context.user_id;
            object_id = appointment.id;
            reason = reason;
            site_id = appointment.site_id;
          })
          (record db {
            appointments =
                update_many
                  (is_target appointment.id command.expected_row_version)
                  (cancelled_row
                    (cancellation_code context.role_code)
                    reason
                    none
                    now
                    context.user_id)
                  db.appointments;
          })
  pub is_result : result ≡ record {
    cancelled_at = now;
    id = appointment.id;
    row_version = command.expected_row_version + 1;
  }

pub cancel-IsCancellation :
    (platform : Platform) (db : Database) (context : AuthorizationContext)
    (command : CancelBookingCommand) (now : ℕ) (result : BookingCancellationResult) (db' : Database)
    → cancel platform db context command now ≡ ok (result, db')
    → IsCancellation platform db context command now result db'
unfolding cancel
cancel-IsCancellation platform db context command now result db' h =
    let (_, e1, h1) = >>=-eq-ok (assert_role context booking_roles) _ h in
    let (reason, e2, h2) =
      >>=-eq-ok
        (command_reason platform.nfkc booking_cancellation_reason_invalid context.role_code
          command.reason)
        _ h1 in
    let (a, e3, h3) = >>=-eq-ok (appointment_by_id db command.appointment_id) _ h2 in
    let (_, e4, h4) =
      >>=-eq-ok (assert_cancellable db context a command.expected_row_version now) _ h3 in
    let (d, e5, h5) =
      >>=-eq-ok
        (cancel_row db a.id command.expected_row_version
          (cancelled_row (cancellation_code context.role_code) reason none now context.user_id))
        _ h4 in
    let (x, y) = ok-pair {A = BookingCancellationResult} {B = Database} (_, _) (result, db') h5 in
    let (w, one) = cancel_row_inv db a.id command.expected_row_version _ d e5 in
    record {
      role = e1;
      reason = reason;
      reason_found = e2;
      appointment = a;
      found = e3;
      cancellable = e4;
      one_row = one;
      after = sym y ∙ ap (append_audit _) w;
      is_result = sym x;
    }

-- A cancellation keeps the table of appointments consistent.
pub cancel-IsConsistent :
    (platform : Platform) (db : Database) (context : AuthorizationContext)
    (command : CancelBookingCommand) (now : ℕ) (result : BookingCancellationResult) (db' : Database)
    → IsConsistent db.appointments
    → cancel platform db context command now ≡ ok (result, db')
    → IsConsistent db'.appointments
unfolding append_audit
cancel-IsConsistent platform db context command now result db' c h =
    let m = cancel-IsCancellation platform db context command now result db' h in
    rw (ap (λ d. d.appointments) m.after) (
      IsConsistent-update_many (is_target m.appointment.id command.expected_row_version) _
        (λ a _.
          cancelled_row-Keeps (cancellation_code context.role_code) m.reason none now
            context.user_id a)
        db.appointments c)

-- ===== src/Booking/Cancel.antt =====
-- apps/api/src/booking/booking-cancel.service.ts.
use makeup_booking_system.Access.{
  AuthorizationContext, RoleCode, admin_role, artist_role, assert_role, booking_roles,
  customer_service_role, host_role, is_backoffice, operator_role, role_eq, site_scope,
}
use makeup_booking_system.Availability.{in_force}
use makeup_booking_system.Base.{
  Bool, Option, Result, any, false, find, guard, if◌then◌else◌, is_id, leb, none, ok, or_throw,
  some, throw_if, true, ◌&&◌, ◌+◌, ◌==◌, ◌>>=◌, ◌>>◌, ◌||◌,
}
use makeup_booking_system.Booking.Appointments.{append_audit}
use makeup_booking_system.Booking.Create.{Platform}
use makeup_booking_system.Booking.Rows.{count_of, update_many}
use makeup_booking_system.Booking.Texts.{command_reason}
use makeup_booking_system.Database.{
  Appointment, CancellationReasonCode, CancellationSource, Database, Text, appointment_cancelled,
  backoffice_cancelled, cancelled, is_active, is_booked, user_cancelled,
}
use makeup_booking_system.Errors.{
  authorization_denied, booking_appointment_not_found, booking_cancellation_cutoff,
  booking_cancellation_reason_invalid, booking_state_conflict,
}
use makeup_booking_system.Shift.Calendar.{to_business_date}
use mathlib.Core.Option
use makeup_booking_system.Base.{ℕ}

pub record CancelBookingCommand : Type 0 where
  pub appointment_id : ℕ
  pub expected_row_version : ℕ
  pub reason : Option Text

-- Its status is 'CANCELLED'.
pub record BookingCancellationResult : Type 0 where
  pub cancelled_at : ℕ
  pub id : ℕ
  pub row_version : ℕ

-- `findUnique` by the id.
unfoldable pub appointment_by_id : Database → ℕ → Result Appointment
appointment_by_id db appointment_id =
    or_throw (find (λ a. a.id == appointment_id) db.appointments) booking_appointment_not_found

-- `appointment.host.userId`; a foreign key makes the host present.
unfoldable pub host_user_id : Database → ℕ → Option ℕ
host_user_id db host_id = Option.bind (find (λ h. h.id == host_id) db.hosts) (λ h. h.user_id)

-- An active operator of the site who is the user is the host's operator on the date.
unfoldable pub operates : Database → ℕ → Appointment → Bool
operates db user_id appointment =
    any
      (λ r.
        r.host_id == appointment.host_id
        && is_active r.operator.employment_status
        && r.operator.site_id == appointment.site_id
        && is_id r.operator.user_id user_id
        && in_force r.valid_from r.valid_until appointment.appointment_date)
      db.operator_relations

unfoldable pub appointment_scope : RoleCode → Database → AuthorizationContext → Appointment → Bool
appointment_scope host_role db context appointment =
    is_id (host_user_id db appointment.host_id) context.user_id
appointment_scope operator_role db context appointment = operates db context.user_id appointment
appointment_scope customer_service_role db context appointment =
    site_scope context.role_code context.site_id appointment.site_id
appointment_scope admin_role db context appointment = true
appointment_scope artist_role db context appointment = false

-- `roleCode === 'HOST' || roleCode === 'OPERATOR'`
abbrev pub is_self_service : RoleCode → Bool
is_self_service r = role_eq r host_role || role_eq r operator_role

-- The date of the appointment has come, for a role that may act only before it.
unfoldable pub cut_off : RoleCode → ℕ → ℕ → Bool
cut_off role appointment_date now =
    is_self_service role && leb appointment_date (to_business_date now)

-- The tests on the appointment before it is cancelled, which rescheduling shares.
unfoldable pub assert_cancellable :
    Database → AuthorizationContext → Appointment → ℕ → ℕ → Result (Unit {0})
assert_cancellable db context appointment expected_row_version now = do
  guard (appointment_scope context.role_code db context appointment) authorization_denied
  throw_if (cut_off context.role_code appointment.appointment_date now) booking_cancellation_cutoff
  guard (is_booked appointment.status && appointment.row_version == expected_row_version)
      booking_state_conflict

-- What the cancellation writes.
abbrev pub cancelled_row :
    CancellationReasonCode
    → Option Text
    → Option CancellationSource
    → ℕ
    → ℕ
    → Appointment
    → Appointment
cancelled_row code text source now user_id a = record a {
  cancellation_reason_code = some code;
  cancellation_reason_text = text;
  cancellation_source = source;
  cancelled_at = some now;
  cancelled_by_user_id = some user_id;
  row_version = a.row_version + 1;
  status = cancelled;
}

-- The `where` of the update.
abbrev pub is_target : ℕ → ℕ → Appointment → Bool
is_target id expected_row_version a =
    a.id == id && a.row_version == expected_row_version && is_booked a.status

-- The update that must change one row.
unfoldable pub cancel_row : Database → ℕ → ℕ → (Appointment → Appointment) → Result Database
cancel_row db id expected_row_version change = do
  guard (count_of (is_target id expected_row_version) db.appointments == 1) booking_state_conflict
  ok (record db {
    appointments = update_many (is_target id expected_row_version) change db.appointments;
  })

abbrev pub cancellation_code : RoleCode → CancellationReasonCode
cancellation_code role = if is_backoffice role then backoffice_cancelled else user_cancelled

unfoldable pub cancel :
    Platform
    → Database
    → AuthorizationContext
    → CancelBookingCommand
    → ℕ
    → Result (BookingCancellationResult × Database)
cancel platform db context command now = do
  assert_role context booking_roles
  reason ←
      command_reason platform.nfkc booking_cancellation_reason_invalid context.role_code
        command.reason
  appointment ← appointment_by_id db command.appointment_id
  assert_cancellable db context appointment command.expected_row_version now
  updated ←
      cancel_row db appointment.id command.expected_row_version
        (cancelled_row (cancellation_code context.role_code) reason none now context.user_id)
  ok (
    record {
      cancelled_at = now;
      id = appointment.id;
      row_version = command.expected_row_version + 1;
    },
    append_audit
        (record {
          action = appointment_cancelled;
          actor_user_id = some context.user_id;
          object_id = appointment.id;
          reason = reason;
          site_id = appointment.site_id;
        })
        updated,
  )

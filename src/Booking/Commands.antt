-- ===== src/Booking/Commands.antt =====
-- The command `create` of apps/api/src/booking/booking-create.service.ts.
use makeup_booking_system.Booking.Create.{BookingCreationOptions}
use makeup_booking_system.Access.{AuthorizationContext, assert_role, booking_roles}
use makeup_booking_system.Base.{Option, Result, false, none, ok, some, true, ◌>>=◌, ◌>>◌, ℕ}
use makeup_booking_system.Booking.Idempotency.{complete_idempotency, prepare_idempotency}
use makeup_booking_system.Booking.Texts.{command_reason, normalize_idempotency_key}
use makeup_booking_system.Booking.Times.{validate_booking_date, validate_booking_start}
use makeup_booking_system.Database.{
  Text, Database, Appointment, appointment_create, appointment_created,
}
use makeup_booking_system.Shift.Calendar.{format_date_only}
use makeup_booking_system.Errors.{booking_creation_reason_invalid}
use makeup_booking_system.Booking.Create.{
  Platform, CreateBookingCommand, BookingCreateResult, create_payload, create_fresh,
}

unfoldable pub request_hash : Platform → CreateBookingCommand → ℕ
request_hash platform command = platform.sha256 (
    create_payload command.artist_id command.confirmed_second_booking
      (format_date_only command.date) command.duration_minutes command.host_id command.reason
      command.start_minute)

-- The options of `createFresh` in `create`.
abbrev pub create_options : Option Text → BookingCreationOptions
create_options reason = record {
  audit_action = appointment_created;
  exclude_fixed_rule_id = none;
  reason = reason;
  rescheduled_from_appointment_id = none;
}

-- What follows the idempotency record: the replay, or a fresh appointment.
unfoldable pub create_or_replay :
    AuthorizationContext
    → CreateBookingCommand
    → Text
    → ℕ
    → Option Appointment × Database
    → Result (BookingCreateResult × Database)
create_or_replay context command key id (some replay, db) =
    ok (record { appointment = replay; replayed = true }, db)
create_or_replay context command key id (none, db) = do
  fresh ← create_fresh db context command (create_options command.reason) id
  completed_db ← complete_idempotency fresh.1 context.user_id appointment_create key fresh.0.id
  ok (record { appointment = fresh.0; replayed = false }, completed_db)

unfoldable pub create :
    Platform
    → Database
    → AuthorizationContext
    → CreateBookingCommand
    → ℕ
    → ℕ
    → Result (BookingCreateResult × Database)
create platform db context command now id = do
  assert_role context booking_roles
  validate_booking_date (some command.date) now
  validate_booking_start command.start_minute command.duration_minutes
  key ← normalize_idempotency_key platform.nfkc command.idempotency_key
  reason ←
      command_reason platform.nfkc booking_creation_reason_invalid context.role_code command.reason
  let normalized_command = record command { reason = reason }
  prepared ←
      prepare_idempotency db context.user_id appointment_create key
        (request_hash platform normalized_command) now
  create_or_replay context normalized_command key id prepared

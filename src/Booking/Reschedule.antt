-- ===== src/Booking/Reschedule.antt =====
-- apps/api/src/booking/booking-reschedule.service.ts. Its advisory locks leave no trace in the
-- tables.
use makeup_booking_system.Database.{appointment_source}
use makeup_booking_system.Access.{AuthorizationContext, assert_role, booking_roles}
use makeup_booking_system.Base.{
  Bool, Option, Result, false, guard, none, ok, or_throw, some, true, ◌+◌, ◌>>=◌, ◌>>◌,
}
use makeup_booking_system.Booking.Appointments.{append_audit}
use makeup_booking_system.Booking.Cancel.{
  BookingCancellationResult, appointment_by_id, assert_cancellable, cancel_row, cancelled_row,
}
use makeup_booking_system.Booking.Create.{
  BookingCreationOptions, CreateBookingCommand, Platform, create_fresh, reschedule_payload,
}
use makeup_booking_system.Booking.Idempotency.{complete_idempotency, prepare_idempotency}
use makeup_booking_system.Booking.Texts.{command_reason, normalize_idempotency_key}
use makeup_booking_system.Booking.Times.{validate_booking_date, validate_booking_start}
use makeup_booking_system.Database.{
  Appointment, Database, Text, appointment_created_by_reschedule, appointment_reschedule,
  appointment_reschedule_source_cancelled, is_cancelled, rescheduled,
}
use makeup_booking_system.Errors.{booking_cancellation_reason_invalid, booking_state_conflict}
use makeup_booking_system.Shift.Calendar.{format_date_only}
use makeup_booking_system.Base.{ℕ}

pub record RescheduleBookingCommand : Type 0 where
  pub appointment_id : ℕ
  pub artist_id : ℕ
  pub confirmed_second_booking : Bool
  pub date : ℕ
  pub duration_minutes : ℕ
  pub expected_row_version : ℕ
  pub idempotency_key : Text
  pub reason : Option Text
  pub start_minute : ℕ

-- `replayed` is a field of the source's result too.
pub record BookingRescheduleResult : Type 0 where
  pub appointment : Appointment
  pub original : BookingCancellationResult
  pub replayed : Bool

unfoldable pub reschedule_hash : Platform → RescheduleBookingCommand → Option Text → ℕ
reschedule_hash platform command reason = platform.sha256 (
    reschedule_payload command.appointment_id command.artist_id command.confirmed_second_booking
      (format_date_only command.date) command.duration_minutes command.expected_row_version reason
      command.start_minute)

unfoldable pub cancelled_summary : Appointment → Result BookingCancellationResult
cancelled_summary original = do
  guard (is_cancelled original.status) booking_state_conflict
  cancelled_at ← or_throw original.cancelled_at booking_state_conflict
  ok (record { cancelled_at = cancelled_at; id = original.id; row_version = original.row_version })

-- The command that `createFresh` is given.
abbrev pub replacement_command : RescheduleBookingCommand → ℕ → Text → CreateBookingCommand
replacement_command command host_id key = record {
  artist_id = command.artist_id;
  confirmed_second_booking = command.confirmed_second_booking;
  date = command.date;
  duration_minutes = command.duration_minutes;
  host_id = host_id;
  idempotency_key = key;
  reason = none;
  start_minute = command.start_minute;
}

-- The options that `createFresh` is given.
abbrev pub replacement_options : Appointment → Option Text → BookingCreationOptions
replacement_options original reason = record {
  audit_action = appointment_created_by_reschedule;
  exclude_fixed_rule_id = original.fixed_rule_id;
  reason = reason;
  rescheduled_from_appointment_id = some original.id;
}

-- The original is cancelled, and its replacement is created with the id `id`.
unfoldable pub replace_original :
    AuthorizationContext
    → RescheduleBookingCommand
    → Text
    → Option Text
    → ℕ
    → ℕ
    → Database
    → Appointment
    → Result (Appointment × Database)
replace_original context command key reason now id db original = do
  assert_cancellable db context original command.expected_row_version now
  cancelled_db ←
      cancel_row db original.id command.expected_row_version
        (cancelled_row rescheduled reason (some (appointment_source id)) now context.user_id)
  create_fresh cancelled_db context (replacement_command command original.host_id key)
      (replacement_options original reason) id

-- What follows the idempotency record: the replay, or the replacement.
unfoldable pub reschedule_or_replay :
    AuthorizationContext
    → RescheduleBookingCommand
    → Text
    → Option Text
    → ℕ
    → ℕ
    → Option Appointment × Database
    → Result (BookingRescheduleResult × Database)
reschedule_or_replay context command key reason now id (some replay, db) = do
  original ← appointment_by_id db command.appointment_id
  summary ← cancelled_summary original
  ok (record { appointment = replay; original = summary; replayed = true }, db)
reschedule_or_replay context command key reason now id (none, db) = do
  original ← appointment_by_id db command.appointment_id
  replacement ← replace_original context command key reason now id db original
  let audited =
      append_audit
        (record {
          action = appointment_reschedule_source_cancelled;
          actor_user_id = some context.user_id;
          object_id = original.id;
          reason = reason;
          site_id = original.site_id;
        })
        replacement.1
  completed_db ←
      complete_idempotency audited context.user_id appointment_reschedule key replacement.0.id
  ok (
    record {
      appointment = replacement.0;
      original = record {
        cancelled_at = now;
        id = original.id;
        row_version = command.expected_row_version + 1;
      };
      replayed = false;
    },
    completed_db,
  )

-- `id` is the `randomUUID` of the replacement.
unfoldable pub reschedule :
    Platform
    → Database
    → AuthorizationContext
    → RescheduleBookingCommand
    → ℕ
    → ℕ
    → Result (BookingRescheduleResult × Database)
reschedule platform db context command now id = do
  assert_role context booking_roles
  validate_booking_date (some command.date) now
  validate_booking_start command.start_minute command.duration_minutes
  key ← normalize_idempotency_key platform.nfkc command.idempotency_key
  reason ←
      command_reason platform.nfkc booking_cancellation_reason_invalid context.role_code
        command.reason
  initial ← appointment_by_id db command.appointment_id
  prepared ←
      prepare_idempotency db context.user_id appointment_reschedule key
        (reschedule_hash platform command reason) now
  reschedule_or_replay context command key reason now id prepared

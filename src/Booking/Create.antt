-- ===== src/Booking/Create.antt =====
-- apps/api/src/booking/booking-create.service.ts. A transaction is a function from the tables to
-- the new tables or an error, which leaves the tables as they were; its advisory locks make the
-- transactions on one artist, host or key run one after the other. The id that the database or
-- `randomUUID` gives, the SHA-256 hash and NFKC are parameters.
use makeup_booking_system.Base.{
  List, err, none, throw_if, ◌*◌, ◌+◌, ◌>>=◌, ℕ, Result, Bool, Option, guard, true, ◌&&◌, false,
  some, ◌==◌, ◌||◌, ◌>>◌, ok,
}
use makeup_booking_system.Access.{
  AuthorizationContext, RoleCode, admin_role, artist_role, customer_service_role, host_role,
  operator_role,
}
use makeup_booking_system.Availability.{
  ArtistDay, DayOutcome, day_available, day_unavailable, get_day_with_client,
}
use makeup_booking_system.Booking.Appointments.{
  Insertion, append_audit, exclusion_violation, insert_appointment, inserted, unique_violation,
}
use makeup_booking_system.Booking.Occupation.{
  HostRecord, active_appointments, assert_actor_scope, assert_host_available, daily_sequence_for,
  host, interval_fits, recurring_conflict,
}
use makeup_booking_system.Database.{
  CreatorRole, booked, created_by_admin, created_by_artist, created_by_customer_service,
  created_by_host, created_by_operator, fixed, single, Database, Appointment, Text, AppointmentType,
  AuditAction, HostProfile, OperatorProfile, is_active,
}
use makeup_booking_system.Shift.Calendar.{business_date_minute_to_instant, minute_ms}
use makeup_booking_system.Shift.Intervals.{MinuteInterval}
use Prim.Native.String.{String}
use makeup_booking_system.Errors.{
  booking_site_mismatch, booking_artist_unavailable, booking_slot_conflict, booking_state_conflict,
}
use mathlib.Core.Option

-- What the JSON texts that are hashed hold.
pub data RequestPayload : Type 0 where
  create_payload : ℕ → Bool → ℕ → ℕ → ℕ → Option Text → ℕ → RequestPayload
  reschedule_payload : ℕ → ℕ → Bool → ℕ → ℕ → ℕ → Option Text → ℕ → RequestPayload

pub record Platform : Type 0 where
  pub nfkc : Text → Text
  pub sha256 : RequestPayload → ℕ

pub record CreateBookingCommand : Type 0 where
  pub artist_id : ℕ
  pub confirmed_second_booking : Bool
  pub date : ℕ
  pub duration_minutes : ℕ
  pub host_id : ℕ
  pub idempotency_key : Text
  pub reason : Option Text
  pub start_minute : ℕ

-- `appointmentId` is an argument of `create_fresh`.
pub record BookingCreationOptions : Type 0 where
  pub audit_action : AuditAction
  pub exclude_fixed_rule_id : Option ℕ
  pub reason : Option Text
  pub rescheduled_from_appointment_id : Option ℕ

pub record BookingCreateResult : Type 0 where
  pub appointment : Appointment
  pub replayed : Bool

abbrev pub creator_role : RoleCode → CreatorRole
creator_role host_role = created_by_host
creator_role operator_role = created_by_operator
creator_role artist_role = created_by_artist
creator_role customer_service_role = created_by_customer_service
creator_role admin_role = created_by_admin

-- `nickname ?? realName`
abbrev pub host_name : HostProfile → String
host_name h = Option.get_or h.nickname h.real_name

-- The operator, if there is one, is active and of the host's site.
unfoldable pub operator_valid : Option OperatorProfile → ℕ → Bool
operator_valid none site_id = true
operator_valid (some operator) site_id =
    operator.site_id == site_id && is_active operator.employment_status

abbrev pub is_single : AppointmentType → Bool
is_single single = true
is_single fixed = false

-- `toSummary`, which returns the row it has checked.
unfoldable pub to_summary : Appointment → Result Appointment
to_summary a =
    guard (is_single a.appointment_type && (a.daily_sequence == 1 || a.daily_sequence == 2))
      booking_state_conflict
    >> ok a

-- `if (!artist.available) throw …`
abbrev pub day_intervals_or_throw : DayOutcome → Result (List MinuteInterval)
day_intervals_or_throw (day_available intervals overtime_id shift_template_id source) = ok intervals
day_intervals_or_throw (day_unavailable reason) = err (booking_artist_unavailable reason)

-- The row that `createFresh` creates.
unfoldable pub new_appointment :
    AuthorizationContext
    → CreateBookingCommand
    → BookingCreationOptions
    → HostRecord
    → ArtistDay
    → ℕ
    → ℕ
    → Appointment
new_appointment context command options host artist daily_sequence id =
    let start_at = business_date_minute_to_instant command.date command.start_minute in
    record {
      id = id;
      appointment_date = command.date;
      appointment_type = single;
      artist_id = command.artist_id;
      artist_nickname_snapshot = artist.artist_nickname;
      created_by_role = creator_role context.role_code;
      created_by_user_id = some context.user_id;
      daily_sequence = daily_sequence;
      duration_minutes = command.duration_minutes;
      end_at = start_at + command.duration_minutes * minute_ms;
      fixed_rule_id = none;
      host_code_snapshot = host.profile.host_code;
      host_id = host.profile.id;
      host_name_snapshot = host_name host.profile;
      operator_id_at_booking = Option.map (λ o. o.id) host.operator;
      operator_name_snapshot = Option.map (λ o. o.real_name) host.operator;
      rescheduled_from_appointment_id = options.rescheduled_from_appointment_id;
      site_id = host.profile.site.id;
      site_name_snapshot = host.profile.site.name;
      start_at = start_at;
      status = booked;
      row_version = 1;
      cancellation_reason_code = none;
      cancellation_reason_text = none;
      cancellation_source = none;
      cancelled_at = none;
      cancelled_by_user_id = none;
      completed_at = none;
    }

-- Both callers turn the two violations into `BookingSlotConflictError`.
abbrev pub inserted_or_conflict : Insertion → Result (List Appointment)
inserted_or_conflict (inserted appointments) = ok appointments
inserted_or_conflict unique_violation = err booking_slot_conflict
inserted_or_conflict exclusion_violation = err booking_slot_conflict

-- The part of `createFresh` that reads and decides: the row to create.
unfoldable pub prepare_fresh :
    Database
    → AuthorizationContext
    → CreateBookingCommand
    → BookingCreationOptions
    → ℕ
    → Result Appointment
prepare_fresh db context command options id = do
  host_record ← host db command.host_id command.date
  assert_actor_scope context host_record
  assert_host_available host_record command.date
  artist ← get_day_with_client db command.artist_id command.date
  guard (host_record.profile.site.id == artist.site_id) booking_site_mismatch
  intervals ← day_intervals_or_throw artist.outcome
  guard (interval_fits intervals command.start_minute command.duration_minutes)
      booking_slot_conflict
  let start_at = business_date_minute_to_instant command.date command.start_minute
  let end_at = start_at + command.duration_minutes * minute_ms
  throw_if
      (recurring_conflict db command.date command.artist_id command.host_id
        options.exclude_fixed_rule_id command.start_minute
        (command.start_minute + command.duration_minutes))
      booking_slot_conflict
  daily_sequence ←
      daily_sequence_for (active_appointments db command.date command.artist_id command.host_id)
        command.host_id start_at end_at command.confirmed_second_booking
  guard (operator_valid host_record.operator host_record.profile.site.id) booking_state_conflict
  ok (new_appointment context command options host_record artist daily_sequence id)

unfoldable pub create_fresh :
    Database
    → AuthorizationContext
    → CreateBookingCommand
    → BookingCreationOptions
    → ℕ
    → Result (Appointment × Database)
create_fresh db context command options id = do
  row ← prepare_fresh db context command options id
  appointments ← inserted_or_conflict (insert_appointment row db.appointments)
  summary ← to_summary row
  ok (
    summary,
    append_audit
        (record {
          action = options.audit_action;
          actor_user_id = some context.user_id;
          object_id = summary.id;
          reason = options.reason;
          site_id = summary.site_id;
        })
        (record db { appointments = appointments }),
  )

-- ===== src/Booking/Slots.antt =====
-- apps/api/src/booking/booking-slot.service.ts. The order of the rows that it reads is not used.
use makeup_booking_system.Access.{
  AuthorizationContext, RoleCode, admin_role, artist_role, assert_role, booking_roles,
  customer_service_role, host_role, operator_role, site_scope,
}
use makeup_booking_system.Availability.{
  AvailabilitySource, DayOutcome, day_available, day_unavailable, get_day_with_client,
}
use makeup_booking_system.Base.{
  Bool, List, Option, Result, [], false, filter, find, flat_map, guard, if◌then◌else◌, is_id, leb,
  length, map, none, not, ok, or_throw, some, true, ◌&&◌, ◌*◌, ◌++◌, ◌+◌, ◌==◌, ◌>>=◌, ◌>>◌, ◌||◌,
  ◌∷◌,
}
use makeup_booking_system.Booking.Occupation.{
  HostRecord, fixed_occupations, host, is_host_qualified_on, operator_is, pending_occupations,
}
use makeup_booking_system.Booking.Times.{
  InstantInterval, list_free_start_minutes, validate_booking_date, validate_booking_duration,
}
use makeup_booking_system.Database.{Appointment, Database, is_active, is_booked, is_occupying}
use makeup_booking_system.Errors.{
  DayReason, authorization_denied, booking_appointment_not_found, booking_site_mismatch,
  booking_state_conflict,
}
use makeup_booking_system.Shift.Calendar.{
  business_date_minute_to_instant, format_date_only, minute_ms,
}
use makeup_booking_system.Shift.Intervals.{MinuteInterval, interval}
use mathlib.Core.Option
use makeup_booking_system.Base.{ℕ}

-- `excludeAppointmentId` is the appointment that is to be rescheduled.
pub record BookingSlotInput : Type 0 where
  pub artist_id : ℕ
  pub date : ℕ
  pub duration_minutes : ℕ
  pub exclude_appointment_id : Option ℕ
  pub host_id : ℕ

pub record BookingSlot : Type 0 where
  pub end_at : ℕ
  pub start_at : ℕ
  pub start_minute : ℕ

pub data BookingUnavailableReason : Type 0 where
  day_reason : DayReason → BookingUnavailableReason
  host_daily_limit_reached host_ineligible host_on_leave host_site_inactive :
      BookingUnavailableReason

pub record BookingSlotResult : Type 0 where
  pub artist_id : ℕ
  pub availability_source : Option AvailabilitySource
  pub date : ℕ
  pub duration_minutes : ℕ
  pub existing_appointment_count : ℕ
  pub host_id : ℕ
  pub requires_second_confirmation : Bool
  pub slots : List BookingSlot
  pub unavailable_reason : Option BookingUnavailableReason

-- The service's own `assertActorScope`.
unfoldable pub slot_scope : RoleCode → AuthorizationContext → HostRecord → Bool
slot_scope host_role context host = is_id host.profile.user_id context.user_id
slot_scope operator_role context host = operator_is host.operator context.user_id
slot_scope customer_service_role context host =
    site_scope context.role_code context.site_id host.profile.site.id
slot_scope admin_role context host = true
slot_scope artist_role context host = false

-- `result`
abbrev pub slot_result :
    BookingSlotInput
    → Option AvailabilitySource
    → ℕ
    → List BookingSlot
    → Option BookingUnavailableReason
    → BookingSlotResult
slot_result input source count slots reason = record {
  artist_id = input.artist_id;
  availability_source = source;
  date = format_date_only input.date;
  duration_minutes = input.duration_minutes;
  existing_appointment_count = count;
  host_id = input.host_id;
  requires_second_confirmation = count == 1;
  slots = slots;
  unavailable_reason = reason;
}

abbrev pub source_of : DayOutcome → Option AvailabilitySource
source_of (day_available intervals overtime_id shift_template_id source) = some source
source_of (day_unavailable reason) = none

-- `unavailable`
abbrev pub no_slots : BookingSlotInput → DayOutcome → BookingUnavailableReason → BookingSlotResult
no_slots input outcome reason = slot_result input (source_of outcome) 0 [] (some reason)

-- Why the host cannot be booked on the date.
unfoldable pub host_reason : HostRecord → ℕ → Option BookingUnavailableReason
host_reason host date =
    if not (is_host_qualified_on host.profile date)
    then some host_ineligible
    else if not (is_active host.profile.site.status)
    then some host_site_inactive
    else if host.on_leave
    then some host_on_leave
    else none

-- The appointment that is excluded, which must be a booked one of the host.
unfoldable pub excluded_appointment : Database → Option ℕ → ℕ → Result (Option Appointment)
excluded_appointment db none host_id = ok none
excluded_appointment db (some id) host_id = do
  appointment ← or_throw (find (λ a. a.id == id) db.appointments) booking_appointment_not_found
  guard (appointment.host_id == host_id) booking_appointment_not_found
  guard (is_booked appointment.status) booking_state_conflict
  ok (some appointment)

-- The active appointments of the artist or the host on the date, without the excluded one.
unfoldable pub slot_appointments : Database → BookingSlotInput → List Appointment
slot_appointments db input =
    filter
      (λ a.
        a.appointment_date == input.date
        && not (is_id input.exclude_appointment_id a.id)
        && (a.artist_id == input.artist_id || a.host_id == input.host_id)
        && is_occupying a.status)
      db.appointments

-- The stretch that a pending request occupies, if it has one.
abbrev pub pending_interval : Option ℕ → Option ℕ → List MinuteInterval
pending_interval none duration = []
pending_interval (some start) none = []
pending_interval (some start) (some duration) = interval start (start + duration) ∷ []

-- `recurringOccupations`, in minutes of the day
unfoldable pub recurring_occupations : Database → BookingSlotInput → Option ℕ → List MinuteInterval
recurring_occupations db input exclude_rule_id =
    map (λ w. interval w.start_minute w.end_minute)
      (fixed_occupations db input.date input.artist_id input.host_id exclude_rule_id)
    ++ flat_map (λ r. pending_interval r.target_start_minute r.target_duration_minutes)
        (pending_occupations db input.date input.artist_id input.host_id)

-- The instants of a stretch of the day.
abbrev pub instants : ℕ → MinuteInterval → InstantInterval
instants date i = record {
  end_at = business_date_minute_to_instant date i.end_minute;
  start_at = business_date_minute_to_instant date i.start_minute;
}

abbrev pub appointment_instants : Appointment → InstantInterval
appointment_instants a = record { end_at = a.end_at; start_at = a.start_at }

abbrev pub slot_at : ℕ → ℕ → ℕ → BookingSlot
slot_at date duration_minutes start_minute = record {
  end_at = business_date_minute_to_instant date start_minute + duration_minutes * minute_ms;
  start_at = business_date_minute_to_instant date start_minute;
  start_minute = start_minute;
}

-- All that blocks a slot.
unfoldable pub blocked_intervals : Database → BookingSlotInput → Option ℕ → List InstantInterval
blocked_intervals db input exclude_rule_id =
    map appointment_instants (slot_appointments db input)
    ++ map (instants input.date) (recurring_occupations db input exclude_rule_id)

-- The slots of a day that has room, with the count of the host's appointments.
unfoldable pub free_slots :
    Database
    → BookingSlotInput
    → List MinuteInterval
    → AvailabilitySource
    → Option ℕ
    → ℕ
    → Result BookingSlotResult
free_slots db input intervals source exclude_rule_id count =
    if leb 2 count
    then ok (slot_result input none count [] (some host_daily_limit_reached))
    else (list_free_start_minutes input.date intervals input.duration_minutes
          (blocked_intervals db input exclude_rule_id)
        >>= λ starts. ok (
            slot_result input (some source) count
              (map (slot_at input.date input.duration_minutes) starts) none))

unfoldable pub day_slots : Database → BookingSlotInput → DayOutcome → Result BookingSlotResult
day_slots db input (day_unavailable reason) =
    ok (no_slots input (day_unavailable reason) (day_reason reason))
day_slots db input (day_available intervals overtime_id shift_template_id source) = do
  excluded ← excluded_appointment db input.exclude_appointment_id input.host_id
  free_slots db input intervals source (Option.bind excluded (λ a. a.fixed_rule_id))
      (length (filter (λ a. a.host_id == input.host_id) (slot_appointments db input)))

unfoldable pub host_slots :
    Database
    → BookingSlotInput
    → DayOutcome
    → Option BookingUnavailableReason
    → Result BookingSlotResult
host_slots db input outcome (some reason) = ok (no_slots input outcome reason)
host_slots db input outcome none = day_slots db input outcome

unfoldable pub get_slots :
    Database → AuthorizationContext → BookingSlotInput → ℕ → Result BookingSlotResult
get_slots db context input now = do
  assert_role context booking_roles
  validate_booking_date (some input.date) now
  validate_booking_duration input.duration_minutes
  day ← get_day_with_client db input.artist_id input.date
  host_record ← host db input.host_id input.date
  guard (slot_scope context.role_code context host_record) authorization_denied
  guard (host_record.profile.site.id == day.site_id) booking_site_mismatch
  host_slots db input day.outcome (host_reason host_record input.date)

-- ===== src/Booking/Generation.antt =====
-- apps/api/src/booking/fixed-generation.service.ts. The two reads of the rule, before and after the
-- locks, are one, as the transactions run one after the other. `next_id` is the id that the database
-- gives to a new row.
use makeup_booking_system.Availability.{day_intervals, get_day_with_client, in_force, latest}
use makeup_booking_system.Base.{
  Bool, List, Option, Result, any, filter, find, if◌then◌else◌, is_id, leb, length, ltb, none, not,
  ok, some, ◌&&◌, ◌*◌, ◌+◌, ◌==◌, ◌>>=◌, ◌||◌, ℕ,
}
use makeup_booking_system.Booking.Appointments.{
  Insertion, append_audit, exclusion_violation, insert_appointment, inserted, unique_violation,
}
use makeup_booking_system.Booking.Create.{host_name}
use makeup_booking_system.Booking.Occupation.{
  active_appointments, host_on_leave_on, is_host_qualified_on,
}
use makeup_booking_system.Database.{
  Appointment, Database, FixedAppointmentRule, OperatorProfile, booked, created_by_system, fixed,
  fixed_appointment_generated, is_active,
}
use makeup_booking_system.Shift.Calendar.{
  business_date_minute_to_instant, iso_weekday_for_date, minute_ms,
}
use makeup_booking_system.Shift.Intervals.{MinuteInterval, contains}
use mathlib.Core.Option

pub data FixedGenerationSkipReason : Type 0 where
  already_processed artist_unavailable host_daily_limit : FixedGenerationSkipReason
  host_unavailable slot_conflict : FixedGenerationSkipReason

-- `skipped`
pub record FixedGenerationSkipped : Type 0 where
  pub already_processed_count : ℕ
  pub artist_unavailable_count : ℕ
  pub host_daily_limit_count : ℕ
  pub host_unavailable_count : ℕ
  pub slot_conflict_count : ℕ

pub record FixedGenerationResult : Type 0 where
  pub generated : ℕ
  pub skipped : FixedGenerationSkipped
  pub window_from : ℕ
  pub window_through : ℕ

abbrev pub empty_skipped : FixedGenerationSkipped
empty_skipped = record {
  already_processed_count = 0;
  artist_unavailable_count = 0;
  host_daily_limit_count = 0;
  host_unavailable_count = 0;
  slot_conflict_count = 0;
}

-- `skipped[outcome] += 1`
abbrev pub count_skipped :
    FixedGenerationSkipReason → FixedGenerationSkipped → FixedGenerationSkipped
count_skipped already_processed s = record s {
  already_processed_count = s.already_processed_count + 1;
}
count_skipped artist_unavailable s = record s {
  artist_unavailable_count = s.artist_unavailable_count + 1;
}
count_skipped host_daily_limit s = record s {
  host_daily_limit_count = s.host_daily_limit_count + 1;
}
count_skipped host_unavailable s = record s {
  host_unavailable_count = s.host_unavailable_count + 1;
}
count_skipped slot_conflict s = record s { slot_conflict_count = s.slot_conflict_count + 1 }

-- The rule has the date's weekday.
unfoldable pub has_weekday : Database → ℕ → ℕ → Bool
has_weekday db rule_id date =
    any (λ w. w.rule_id == rule_id && w.iso_weekday == iso_weekday_for_date date) db.rule_weekdays

-- The rule, where it is in force on the date.
unfoldable pub effective_rule : Database → ℕ → ℕ → Option FixedAppointmentRule
effective_rule db rule_id date =
    find
      (λ r. r.id == rule_id && in_force r.valid_from r.valid_until date && has_weekday db r.id date)
      db.rules

unfoldable pub generated_before : Database → ℕ → ℕ → Bool
generated_before db rule_id date =
    any (λ a. a.appointment_date == date && is_id a.fixed_rule_id rule_id) db.appointments

-- The latest active operator of the rule's site in force.
unfoldable pub rule_operator : Database → FixedAppointmentRule → ℕ → Option OperatorProfile
rule_operator db rule date =
    Option.map (λ r. r.operator)
      (latest (λ r. r.valid_from)
        (filter
          (λ r.
            r.host_id == rule.host_id
            && is_active r.operator.employment_status
            && r.operator.site_id == rule.site_id
            && in_force r.valid_from r.valid_until date)
          db.operator_relations))

-- The row that `generateDate` creates.
unfoldable pub fixed_appointment : Database → FixedAppointmentRule → ℕ → ℕ → ℕ → Appointment
fixed_appointment db rule date daily_sequence id =
    let start_at = business_date_minute_to_instant date rule.start_minute in
    let operator = rule_operator db rule date in
    record {
      id = id;
      appointment_date = date;
      appointment_type = fixed;
      artist_id = rule.artist_id;
      artist_nickname_snapshot = rule.artist_nickname;
      created_by_role = created_by_system;
      created_by_user_id = none;
      daily_sequence = daily_sequence;
      duration_minutes = rule.duration_minutes;
      end_at = start_at + rule.duration_minutes * minute_ms;
      fixed_rule_id = some rule.id;
      host_code_snapshot = rule.host.host_code;
      host_id = rule.host_id;
      host_name_snapshot = host_name rule.host;
      operator_id_at_booking = Option.map (λ o. o.id) operator;
      operator_name_snapshot = Option.map (λ o. o.real_name) operator;
      rescheduled_from_appointment_id = none;
      site_id = rule.site_id;
      site_name_snapshot = rule.host.site.name;
      start_at = start_at;
      status = booked;
      row_version = 1;
      cancellation_reason_code = none;
      cancellation_reason_text = none;
      cancellation_source = none;
      cancelled_at = none;
      cancelled_by_user_id = none;
      completed_at = none;
    }

-- Why a rule that has no appointment of the date yet gets none.
unfoldable pub skip_reason :
    Database → FixedAppointmentRule → ℕ → List MinuteInterval → Option FixedGenerationSkipReason
skip_reason db rule date intervals =
    let start_at = business_date_minute_to_instant date rule.start_minute in
    let end_at = start_at + rule.duration_minutes * minute_ms in
    let active = active_appointments db date rule.artist_id rule.host_id in
    if not (contains intervals rule.start_minute (rule.start_minute + rule.duration_minutes))
    then some artist_unavailable
    else if host_on_leave_on db rule.host_id date
        || not (is_host_qualified_on rule.host date)
        || not (is_active rule.host.site.status)
    then some host_unavailable
    else if any (λ a. ltb start_at a.end_at && ltb a.start_at end_at) active
    then some slot_conflict
    else if leb 2 (length (filter (λ a. a.host_id == rule.host_id) active))
    then some host_daily_limit
    else none

unfoldable pub fixed_sequence : Database → FixedAppointmentRule → ℕ → ℕ
fixed_sequence db rule date =
    if any (λ a. a.daily_sequence == 1)
      (filter (λ a. a.host_id == rule.host_id)
        (active_appointments db date rule.artist_id rule.host_id))
    then 2
    else 1

-- The insertion, whose violations skip the date.
unfoldable pub insert_fixed :
    Database → Appointment → Insertion → Option FixedGenerationSkipReason × Database
insert_fixed db row (inserted appointments) = (
  none,
  append_audit
      (record {
        action = fixed_appointment_generated;
        actor_user_id = none;
        object_id = row.id;
        reason = none;
        site_id = row.site_id;
      })
      (record db { appointments = appointments }),
)
insert_fixed db row unique_violation = (some already_processed, db)
insert_fixed db row exclusion_violation = (some slot_conflict, db)

unfoldable pub generate_or_skip :
    Database
    → FixedAppointmentRule
    → ℕ
    → ℕ
    → Option FixedGenerationSkipReason
    → Option FixedGenerationSkipReason × Database
generate_or_skip db rule date id (some reason) = (some reason, db)
generate_or_skip db rule date id none =
    let row = fixed_appointment db rule date (fixed_sequence db rule date) id in
    insert_fixed db row (insert_appointment row db.appointments)

unfoldable pub generate_rule :
    Database → FixedAppointmentRule → ℕ → ℕ → Result (Option FixedGenerationSkipReason × Database)
generate_rule db rule date id =
    if generated_before db rule.id date
    then ok (some already_processed, db)
    else (get_day_with_client db rule.artist_id date >>= λ day.
        ok
          (generate_or_skip db rule date id (skip_reason db rule date (day_intervals day.outcome))))

unfoldable pub generate_found :
    Database
    → Option FixedAppointmentRule
    → ℕ
    → ℕ
    → Result (Option FixedGenerationSkipReason × Database)
generate_found db none date id = ok (some already_processed, db)
generate_found db (some rule) date id = generate_rule db rule date id

unfoldable pub generate_date :
    Database → ℕ → ℕ → ℕ → Result (Option FixedGenerationSkipReason × Database)
generate_date db rule_id date id = generate_found db (effective_rule db rule_id date) date id

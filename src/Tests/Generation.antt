-- ===== src/Tests/Generation.antt =====
-- A run of the generation's definitions.
use makeup_booking_system.Booking.Occupation.{
  active_appointments, host_on_leave_on, is_host_qualified_on, qualified_on,
}
use makeup_booking_system.Database.{
  rule_active, Database, FixedAppointmentRule, FixedAppointmentRuleWeekday,
}
use makeup_booking_system.Availability.{
  approved_overtime_on, artist_on_leave_on, available, current_shift, day_outcome,
  get_day_with_client, latest, overtime_outcome, shift_outcome, unavailable_intervals,
}
use makeup_booking_system.Base.{[], arith, length, none, ok, refl, some, ◌+◌, ◌∷◌, ◌≡◌, ℕ}
use makeup_booking_system.Booking.Appointments.{
  append_audit, insert_appointment, same_key, same_sequence, same_time,
}
use makeup_booking_system.Booking.Generation.{
  already_processed, effective_rule, fixed_appointment, fixed_sequence, generate_date,
  generate_found, generate_or_skip, generate_rule, generated_before, has_weekday, insert_fixed,
  rule_operator, skip_reason,
}
use makeup_booking_system.Booking.GenerationLaws.{IsRule}
use makeup_booking_system.Booking.GenerationRun.{dates_from, last_date, later, window_dates}
use makeup_booking_system.Booking.GenerationRunLaws.{window_dates_fuel}
use makeup_booking_system.Booking.GenerationSafety.{
  generate_date-IsConsistent, generate_date-generate_date,
}
use makeup_booking_system.Booking.Schedule.{IsConsistent}
use makeup_booking_system.Shift.Calendar.{
  add_days, business_date_minute_to_instant, format_date_only, is_date_only, iso_weekday_for_date,
}
use makeup_booking_system.Shift.Definition.{
  assert_break, assert_iso_weekday, assert_minute, assert_workdays, is_empty, split_by_break,
  valid_minute, validate_shift_definition, work_intervals_for_weekday,
}
use makeup_booking_system.Shift.Intervals.{cut, cut_all, subtract_minute_intervals}
use makeup_booking_system.Tests.World.{db_after, empty_db, guest, monday, now}

-- The guest comes every Monday at 10 o'clock.
abbrev pub weekly : FixedAppointmentRule
weekly = record {
  id = 50;
  artist_id = 10;
  artist_nickname = "artist";
  duration_minutes = 60;
  host = guest;
  host_id = 20;
  site_id = 1;
  start_minute = 600;
  status = rule_active;
  valid_from = now;
  valid_until = none;
}

abbrev weekly_monday : FixedAppointmentRuleWeekday
weekly_monday = record {
  rule_id = 50;
  artist_id = 10;
  host_id = 20;
  iso_weekday = 1;
  start_minute = 600;
  end_minute = 660;
  valid_from = now;
  valid_until = none;
}

abbrev pub weekly_db : Database
weekly_db = record empty_db { rules = weekly ∷ []; rule_weekdays = weekly_monday ∷ [] }

abbrev pub generated_db : Database
generated_db = db_after (generate_date weekly_db 50 monday 60)

monday_generated : generate_date weekly_db 50 monday 60 ≡ ok (none, generated_db)
unfolding active_appointments append_audit approved_overtime_on artist_on_leave_on assert_break
    assert_iso_weekday assert_minute assert_workdays available business_date_minute_to_instant
    current_shift cut cut_all day_outcome effective_rule fixed_appointment fixed_sequence
    format_date_only generate_date generate_found generate_or_skip generate_rule generated_before
    get_day_with_client has_weekday host_on_leave_on insert_appointment insert_fixed is_date_only
    is_empty is_host_qualified_on iso_weekday_for_date latest overtime_outcome qualified_on
    rule_operator same_key same_sequence same_time shift_outcome skip_reason split_by_break
    subtract_minute_intervals unavailable_intervals valid_minute validate_shift_definition
    work_intervals_for_weekday
monday_generated = refl

weekly-IsRule : IsRule weekly
weekly-IsRule = record {
  valid_from_midnight = refl;
  start_step = refl;
  listed = refl;
  in_day = omega arith;
}

no_rows-IsConsistent : IsConsistent weekly_db.appointments
no_rows-IsConsistent = record { placed = tt; free = tt }

generate_date-IsConsistent_example : IsConsistent generated_db.appointments
generate_date-IsConsistent_example =
    generate_date-IsConsistent weekly_db 50 monday 60 none generated_db (weekly-IsRule, tt) refl
      (omega arith) no_rows-IsConsistent monday_generated

generate_date-generate_date_example :
    generate_date generated_db 50 monday 61 ≡ ok (some already_processed, generated_db)
generate_date-generate_date_example =
    generate_date-generate_date weekly_db 50 monday 60 61 generated_db monday_generated

abbrev next_row_id : Database → ℕ
next_row_id db = 60 + length db.appointments

window_dates_fuel_example :
    dates_from 9 (later now weekly.valid_from) (last_date weekly.valid_until (add_days now 7))
    ≡ window_dates weekly now (add_days now 7)
window_dates_fuel_example = window_dates_fuel weekly now 9 (omega arith)

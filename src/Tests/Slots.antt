-- ===== src/Tests/Slots.antt =====
-- A run of the slots' definitions.
use makeup_booking_system.Access.{assert_role}
use makeup_booking_system.Availability.{
  approved_overtime_on, artist_on_leave_on, available, current_shift, day_outcome, day_unavailable,
  get_day_with_client, latest, overtime_outcome, shift_outcome, unavailable_intervals,
}
use makeup_booking_system.Availability.Laws.{IsPeriod}
use makeup_booking_system.Base.{Result, arith, err, false, none, ok, refl, true, ◌≡◌}
use makeup_booking_system.Booking.Commands.{create_options}
use makeup_booking_system.Booking.Create.{operator_valid, prepare_fresh}
use makeup_booking_system.Booking.Occupation.{
  HostRecord, fixed_occupations, host, host_on_leave_on, is_host_qualified_on, operator_on,
  pending_occupations, qualified_on, rule_cancelled_on,
}
use makeup_booking_system.Booking.Slots.{
  BookingSlotInput, BookingSlotResult, blocked_intervals, day_reason, day_slots,
  excluded_appointment, free_slots, get_slots, host_reason, host_slots, no_slots,
  recurring_occupations, slot_appointments, slot_scope,
}
use makeup_booking_system.Booking.SlotsBooked.{get_slots-prepare_fresh, slot_command}
use makeup_booking_system.Booking.SlotsLaws.{offers}
use makeup_booking_system.Booking.Times.{
  date_in_window, free_starts, free_starts_from, is_blocked, list_free_start_minutes,
  validate_booking_date, validate_booking_duration,
}
use makeup_booking_system.Database.{Appointment}
use makeup_booking_system.Errors.{artist_inactive}
use makeup_booking_system.Shift.Calendar.{
  add_days, business_date_minute_to_instant, format_date_only, is_date_only, iso_weekday_for_date,
  to_business_date,
}
use makeup_booking_system.Shift.Definition.{
  assert_break, assert_iso_weekday, assert_minute, assert_workdays, is_empty, split_by_break,
  valid_minute, validate_shift_definition, work_intervals_for_weekday,
}
use makeup_booking_system.Shift.Intervals.{cut, cut_all, subtract_minute_intervals}
use makeup_booking_system.Tests.World.{
  empty_db, first_key, guest, guest_context, meeting, monday, now,
}
use mathlib.Core.Option

abbrev monday_slots : BookingSlotInput
monday_slots = record {
  artist_id = 10;
  date = monday;
  duration_minutes = 60;
  exclude_appointment_id = none;
  host_id = 20;
}

abbrev no_slots_found : BookingSlotResult
no_slots_found =
    no_slots monday_slots (day_unavailable artist_inactive) (day_reason artist_inactive)

abbrev slots_run : Result BookingSlotResult
slots_run = get_slots empty_db guest_context monday_slots now

abbrev slots_found : BookingSlotResult
slots_found = elim slots_run [ ok r ↦ r | err e ↦ no_slots_found ]

abbrev guest_record : HostRecord
guest_record = record { profile = guest; on_leave = false; operator = none }

-- A slot is offered at 10 o'clock, and none in the break.
runs :
    (slots_run ≡ ok slots_found)
    × (offers slots_found.slots 600 ≡ true)
    × (offers slots_found.slots 720 ≡ false)
    × (host empty_db 20 monday ≡ ok guest_record)
    × (operator_valid guest_record.operator 1 ≡ true)
unfolding add_days approved_overtime_on artist_on_leave_on assert_break assert_iso_weekday
    assert_minute assert_role assert_workdays available blocked_intervals
    business_date_minute_to_instant current_shift cut cut_all date_in_window day_outcome day_slots
    excluded_appointment fixed_occupations format_date_only free_slots free_starts free_starts_from
    get_day_with_client get_slots host host_on_leave_on host_reason host_slots is_blocked
    is_date_only is_empty is_host_qualified_on iso_weekday_for_date latest list_free_start_minutes
    operator_on operator_valid overtime_outcome pending_occupations qualified_on
    recurring_occupations rule_cancelled_on shift_outcome slot_appointments slot_scope
    split_by_break subtract_minute_intervals to_business_date unavailable_intervals valid_minute
    validate_booking_date validate_booking_duration validate_shift_definition
    work_intervals_for_weekday Option.bind
runs = (refl, refl, refl, refl, refl)

meeting_in_day : IsPeriod meeting
meeting_in_day = record {
  proper = omega arith;
  ends_in_day = omega arith;
  start_on_step = refl;
  end_on_step = refl;
}

get_slots-prepare_fresh_example :
    (row : Appointment) × (prepare_fresh empty_db guest_context
        (slot_command monday_slots 600 first_key none)
        (create_options none)
        40
      ≡ ok row)
get_slots-prepare_fresh_example =
    get_slots-prepare_fresh empty_db guest_context monday_slots now slots_found 600 first_key none
      40 guest_record (meeting_in_day, tt) runs.3 runs.4 refl runs.0 runs.1

-- ===== src/Tests/Restored.antt =====
-- A history of the leaves: the cancellation of an artist's leave books a fixed appointment again, on
-- a date on which the host has gone on leave in the meantime.
use makeup_booking_system.Base.{
  All, find, is_none, or_throw, [], arith, inl, some, subst, sym, ◌∷◌, any, false, none, ok, refl,
  true, ◌≡◌,
}
use makeup_booking_system.Leave.AllRestored.{is_back, cancel_leave-restores, is_owed}
use makeup_booking_system.Database.{
  LeaveRecord, is_absence_active, Appointment, artist_leave, leave_record_source, Database,
}
use makeup_booking_system.Errors.{leave_not_found}
use makeup_booking_system.Leave.Review.{
  leave_is, decide_leave, leave_artist, review_leave, update_leave,
}
use makeup_booking_system.Booking.Cancel.{
  cancelled_row, appointment_by_id, appointment_scope, assert_cancellable, cancel, cancel_row,
  cut_off, host_user_id, operates,
}
use makeup_booking_system.Booking.Schedule.{IsConsistent}
use makeup_booking_system.Leave.Restored.{cancel_leave-IsConsistent}
use makeup_booking_system.Leave.Located.{same_appointment_id}
use makeup_booking_system.Tables.{Apart, insert_by, sort_by}
use makeup_booking_system.Tests.Generation.{weekly, weekly_db, generated_db}
use makeup_booking_system.Absence.{by_date_and_start, cancel_affected, find_affected_appointments}
use makeup_booking_system.Access.{assert_role, assert_self_scope, assert_site_scope, site_scope}
use makeup_booking_system.Availability.{
  approved_overtime_on, artist_on_leave_on, available, current_shift, day_outcome,
  get_day_with_client, latest, overtime_outcome, shift_outcome, unavailable_intervals,
}
use makeup_booking_system.Booking.Appointments.{
  append_audit, insert_appointment, same_key, same_sequence, same_time,
}
use makeup_booking_system.Booking.Commands.{create, create_or_replay, request_hash}
use makeup_booking_system.Booking.Completion.{run}
use makeup_booking_system.Booking.Create.{
  create_fresh, new_appointment, operator_valid, prepare_fresh, to_summary,
}
use makeup_booking_system.Booking.Generation.{
  effective_rule, fixed_appointment, fixed_sequence, generate_date, generate_found,
  generate_or_skip, generate_rule, generated_before, has_weekday, insert_fixed, rule_operator,
  skip_reason,
}
use makeup_booking_system.Booking.GenerationRun.{
  count_date, dates_from, generate, generate_dates, generate_next, generate_rules, rules_in_window,
  window_dates,
}
use makeup_booking_system.Booking.Idempotency.{
  complete_idempotency, has_key, prepare_idempotency, prepare_with, replayed_appointment,
}
use makeup_booking_system.Booking.Occupation.{
  active_appointments, actor_scope, assert_actor_scope, assert_host_available, daily_sequence_for,
  fixed_occupations, host, host_on_leave_on, interval_fits, is_host_qualified_on, operator_on,
  pending_meets, pending_occupations, qualified_on, recurring_conflict, rule_cancelled_on,
}
use makeup_booking_system.Booking.Reschedule.{
  cancelled_summary, replace_original, reschedule, reschedule_hash, reschedule_or_replay,
}
use makeup_booking_system.Booking.Slots.{
  blocked_intervals, day_slots, excluded_appointment, free_slots, get_slots, host_reason,
  host_slots, recurring_occupations, slot_appointments, slot_scope,
}
use makeup_booking_system.Booking.Texts.{
  command_reason, is_alphanumeric, is_key_unit, is_space, matches_key_pattern,
  normalize_idempotency_key, normalized_reason, reason_invalid, trim, trim_end, trim_start,
}
use makeup_booking_system.Booking.Times.{
  date_in_window, free_starts, free_starts_from, is_blocked, list_free_start_minutes,
  validate_booking_date, validate_booking_duration, validate_booking_start,
}
use makeup_booking_system.Leave.{
  CancelLeaveCommand, LeaveSummary, cancel_on_leave, create_leave, insert_leave, leave_where,
  new_leave, optional_reason, preview_leave, resolve_host, resolve_leave_artist, resolve_self,
  same_leave_dates, validate_range,
}
use makeup_booking_system.Leave.Cancel.{
  cancel_leave, fixed_rule, is_restorable, leave_host, leave_owner, may_cancel,
  restorable_fixed_appointments, restorable_of, restore_fixed_appointments, restore_one,
  restored_sequence, rule_applies,
}
use makeup_booking_system.Overtime.{
  active_artist, artist_of, assert_approvable, assert_non_working_day, create_overtime,
  direct_approve, finish_review, new_overtime, normalized_optional_text, normalized_required_text,
  overtime_by_id, review, same_overtime, submit, update_overtime, validate_date,
  validate_definition, withdraw, works_at,
}
use makeup_booking_system.Shift.Calendar.{
  add_days, business_date_minute_to_instant, format_date_only, instant_to_business_date_minute,
  is_date_only, iso_weekday_for_date, to_business_date,
}
use makeup_booking_system.Shift.Definition.{
  assert_break, assert_duration, assert_iso_weekday, assert_minute, assert_workdays,
  can_fit_in_shift, interval_starts, is_empty, list_shift_start_minutes, split_by_break,
  starts_from, valid_minute, validate_shift_definition, work_intervals_for_weekday,
}
use makeup_booking_system.Shift.Intervals.{cut, cut_all, subtract_minute_intervals}
use makeup_booking_system.Tests.Leaves.{
  guest_subject, leave_approval, monday_off, no_leave, that_monday,
}
use makeup_booking_system.Tests.World.{
  admin_context, artist_context, guest, guest_context, monday, nfkc, value_of, now,
}
use makeup_booking_system.Unavailability.{
  appointment_where, assert_artist_scope, assert_fits_schedule, period_artist, period_reason,
  period_reason_invalid, preview_period, required_reason, resolve_artist, validate_period_date,
  affected_appointments,
}
use makeup_booking_system.Unavailability.Commands.{
  artist_of_period, cancel_met, cancel_period, create_period, insert_period, new_period,
  period_by_id, period_time_check, review_period, same_period, same_period_time, update_period,
}
use mathlib.Core.Option

-- The artist's leave on the Monday cancels the fixed appointment.
abbrev artist_asked : LeaveSummary × Database
artist_asked =
    value_of (no_leave, generated_db)
      (create_leave nfkc generated_db artist_context monday_off now now 70)

abbrev artist_off : LeaveSummary × Database
artist_off =
    value_of (no_leave, generated_db)
      (review_leave nfkc artist_asked.1 admin_context leave_approval now)

-- Then the host takes the Monday off, when no appointment is booked.
abbrev guest_off_too : LeaveSummary × Database
guest_off_too =
    value_of (no_leave, generated_db)
      (create_leave nfkc artist_off.1 guest_context
        (record monday_off { confirmed_affected_appointment_count = 0 }) now now 71)

abbrev artist_back : CancelLeaveCommand
artist_back = record { expected_row_version = 2; leave_id = 70; reason = none }

-- The artist cancels the leave.
abbrev restored_db : Database
restored_db =
    value_of generated_db (cancel_leave nfkc guest_off_too.1 artist_context artist_back now)

-- The fixed appointment, as the leave has cancelled it.
abbrev cancelled_monday : Appointment
cancelled_monday =
    cancelled_row artist_leave none (some (leave_record_source 70)) now admin_context.user_id
      (fixed_appointment weekly_db weekly monday 1 60)

-- The artist's leave, after its review.
abbrev approved_leave : LeaveRecord
approved_leave =
    value_of (new_leave artist_context monday_off guest_subject none 0 0)
      (or_throw (find (leave_is 70) guest_off_too.1.leave_records) leave_not_found)

restored_runs :
    (cancel_leave nfkc guest_off_too.1 artist_context artist_back now ≡ ok restored_db)
    × (any (leave_where guest_subject that_monday) guest_off_too.1.appointments ≡ false)
    × (any (leave_where guest_subject that_monday) restored_db.appointments ≡ true)
    × (host_on_leave_on restored_db guest.id monday ≡ true)
    × (guest_off_too.1.appointments ≡ cancelled_monday ∷ [])
    × (find (leave_is 70) guest_off_too.1.leave_records ≡ some approved_leave)
    × (is_none (leave_artist guest_off_too.1 approved_leave) ≡ false)
    × (is_absence_active approved_leave.status ≡ true)
unfolding active_appointments active_artist actor_scope add_days affected_appointments append_audit
    appointment_by_id appointment_scope appointment_where approved_overtime_on artist_of
    artist_of_period artist_on_leave_on assert_actor_scope assert_approvable assert_artist_scope
    assert_break assert_cancellable assert_duration assert_fits_schedule assert_host_available
    assert_iso_weekday assert_minute assert_non_working_day assert_role assert_self_scope
    assert_site_scope assert_workdays available blocked_intervals business_date_minute_to_instant
    by_date_and_start can_fit_in_shift cancel cancel_affected cancel_leave cancel_met
    cancel_on_leave cancel_period cancel_row cancelled_summary command_reason complete_idempotency
    count_date create create_fresh create_leave create_or_replay create_overtime create_period
    current_shift cut cut_all cut_off daily_sequence_for date_in_window dates_from day_outcome
    day_slots decide_leave direct_approve effective_rule excluded_appointment
    find_affected_appointments finish_review fixed_appointment fixed_occupations fixed_rule
    fixed_sequence format_date_only free_slots free_starts free_starts_from generate generate_date
    generate_dates generate_found generate_next generate_or_skip generate_rule generate_rules
    generated_before get_day_with_client get_slots has_key has_weekday host host_on_leave_on
    host_reason host_slots host_user_id insert_appointment insert_by insert_fixed insert_leave
    insert_period instant_to_business_date_minute interval_fits interval_starts is_alphanumeric
    is_blocked is_date_only is_empty is_host_qualified_on is_key_unit is_restorable is_space
    iso_weekday_for_date latest leave_artist leave_host leave_owner leave_where
    list_free_start_minutes list_shift_start_minutes matches_key_pattern may_cancel new_appointment
    new_leave new_overtime new_period normalize_idempotency_key normalized_optional_text
    normalized_reason normalized_required_text operates operator_on operator_valid optional_reason
    overtime_by_id overtime_outcome pending_meets pending_occupations period_artist period_by_id
    period_reason period_reason_invalid period_time_check prepare_fresh prepare_idempotency
    prepare_with preview_leave preview_period qualified_on reason_invalid recurring_conflict
    recurring_occupations replace_original replayed_appointment request_hash required_reason
    reschedule reschedule_hash reschedule_or_replay resolve_artist resolve_host resolve_leave_artist
    resolve_self restorable_fixed_appointments restorable_of restore_fixed_appointments restore_one
    restored_sequence review review_leave review_period rule_applies rule_cancelled_on rule_operator
    rules_in_window run same_key same_leave_dates same_overtime same_period same_period_time
    same_sequence same_time shift_outcome site_scope skip_reason slot_appointments slot_scope
    sort_by split_by_break starts_from submit subtract_minute_intervals to_business_date to_summary
    trim trim_end trim_start unavailable_intervals update_leave update_overtime update_period
    valid_minute validate_booking_date validate_booking_duration validate_booking_start
    validate_date validate_definition validate_period_date validate_range validate_shift_definition
    window_dates withdraw work_intervals_for_weekday works_at Option.bind
restored_runs = (refl, refl, refl, refl, refl, refl, refl, refl)

cancelled_monday-IsConsistent : IsConsistent (cancelled_monday ∷ [])
unfolding fixed_appointment business_date_minute_to_instant
cancelled_monday-IsConsistent = record {
  placed = (
    record {
      midnight = refl;
      after_open = omega arith;
      before_end = omega arith;
      lasts = omega arith;
      sequence = inl refl;
    },
    tt,
  );
  free = (refl, refl, tt);
}

cancel_leave-IsConsistent_example : IsConsistent restored_db.appointments
cancel_leave-IsConsistent_example =
    cancel_leave-IsConsistent nfkc guest_off_too.1 artist_context artist_back now restored_db
      restored_runs.0 (subst (Apart same_appointment_id) (sym restored_runs.4) (refl, tt))
      (subst IsConsistent (sym restored_runs.4) cancelled_monday-IsConsistent)

cancel_leave-restores_example :
    All
      (λ a.
        is_owed guest_off_too.1 approved_leave.id a ≡ true
        → any (is_back a) restored_db.appointments ≡ true)
      guest_off_too.1.appointments
cancel_leave-restores_example =
    cancel_leave-restores nfkc guest_off_too.1 artist_context artist_back now restored_db
      approved_leave restored_runs.0 restored_runs.5 restored_runs.6 restored_runs.7

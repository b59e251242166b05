-- ===== src/Tests/Overtimes.antt =====
-- Runs of the overtimes.
use makeup_booking_system.Base.{
  find, [], err, false, if◌then◌else◌, none, ok, refl, some, ◌&&◌, ◌*◌, ◌+◌, ◌==◌, ◌>>=◌, ◌∷◌, ◌≡◌,
  ℕ,
}
use makeup_booking_system.Absence.{by_date_and_start, cancel_affected, find_affected_appointments}
use makeup_booking_system.Access.{
  artist_role, assert_role, assert_self_scope, assert_site_scope, site_scope,
}
use makeup_booking_system.Availability.{
  approved_overtime, approved_overtime_on, artist_day, artist_on_leave_on, available, current_shift,
  day_available, day_outcome, get_day_with_client, latest, overtime_outcome, shift_outcome,
  unavailable_intervals,
}
use makeup_booking_system.Booking.Appointments.{
  append_audit, insert_appointment, same_key, same_sequence, same_time,
}
use makeup_booking_system.Booking.Cancel.{
  appointment_by_id, appointment_scope, assert_cancellable, cancel, cancel_row, cut_off,
  host_user_id, operates,
}
use makeup_booking_system.Booking.Commands.{create, create_or_replay, request_hash}
use makeup_booking_system.Booking.Completion.{run}
use makeup_booking_system.Booking.Create.{
  create_fresh, new_appointment, operator_valid, prepare_fresh, to_summary,
}
use makeup_booking_system.Booking.Generation.{
  effective_rule, fixed_appointment, fixed_sequence, generate_date, generate_found,
  generate_or_skip, generate_rule, generated_before, has_weekday, insert_fixed, rule_operator,
  skip_reason,
}
use makeup_booking_system.Booking.GenerationRun.{
  count_date, dates_from, generate, generate_dates, generate_next, generate_rules, rules_in_window,
  window_dates,
}
use makeup_booking_system.Booking.Idempotency.{
  complete_idempotency, has_key, prepare_idempotency, prepare_with, replayed_appointment,
}
use makeup_booking_system.Booking.Occupation.{
  active_appointments, actor_scope, assert_actor_scope, assert_host_available, daily_sequence_for,
  fixed_occupations, host, host_on_leave_on, interval_fits, is_host_qualified_on, operator_on,
  pending_meets, pending_occupations, qualified_on, recurring_conflict, rule_cancelled_on,
}
use makeup_booking_system.Booking.Reschedule.{
  cancelled_summary, replace_original, reschedule, reschedule_hash, reschedule_or_replay,
}
use makeup_booking_system.Booking.Slots.{
  blocked_intervals, day_slots, excluded_appointment, free_slots, get_slots, host_reason,
  host_slots, recurring_occupations, slot_appointments, slot_scope,
}
use makeup_booking_system.Booking.Texts.{
  command_reason, is_alphanumeric, is_key_unit, is_space, matches_key_pattern,
  normalize_idempotency_key, normalized_reason, reason_invalid, trim, trim_end, trim_start,
}
use makeup_booking_system.Booking.Times.{
  date_in_window, free_starts, free_starts_from, is_blocked, list_free_start_minutes,
  validate_booking_date, validate_booking_duration, validate_booking_start,
}
use makeup_booking_system.Database.{ArtistOvertime, Database, is_pending, rejected, withdrawn}
use makeup_booking_system.Errors.{overtime_state_conflict}
use makeup_booking_system.Leave.{
  cancel_on_leave, create_leave, insert_leave, leave_where, new_leave, optional_reason,
  preview_leave, resolve_host, resolve_leave_artist, resolve_self, same_leave_dates, validate_range,
}
use makeup_booking_system.Leave.Cancel.{
  cancel_leave, fixed_rule, is_restorable, leave_host, leave_owner, may_cancel,
  restorable_fixed_appointments, restorable_of, restore_fixed_appointments, restore_one,
  restored_sequence, rule_applies,
}
use makeup_booking_system.Leave.Review.{decide_leave, leave_artist, review_leave, update_leave}
use makeup_booking_system.Overtime.{
  OvertimeSummary, SubmitOvertimeCommand, WithdrawOvertimeCommand, active_artist, artist_of,
  assert_approvable, assert_non_working_day, create_overtime, direct_approve, finish_review,
  new_overtime, normalized_optional_text, normalized_required_text, overtime_by_id, review,
  same_overtime, submit, update_overtime, validate_date, validate_definition, withdraw, works_at,
}
use makeup_booking_system.Overtime.Laws.{Moves, stage_of}
use makeup_booking_system.Overtime.Machine.{
  OvertimeReach, OvertimeReach-Apart, OvertimeReach-settled, OvertimeStep-Moves, no_steps,
  withdraws, next_step, submits, approves_directly,
}
use makeup_booking_system.Overtime.Withdrawal.{withdraw-eq}
use makeup_booking_system.Overtime.Worked.{direct_approve-get_day_with_client}
use makeup_booking_system.Shift.Calendar.{
  add_days, business_date_minute_to_instant, day_ms, format_date_only,
  instant_to_business_date_minute, is_date_only, iso_weekday_for_date, to_business_date,
}
use makeup_booking_system.Shift.Definition.{
  assert_break, assert_duration, assert_iso_weekday, assert_minute, assert_workdays,
  can_fit_in_shift, interval_starts, is_empty, list_shift_start_minutes, split_by_break,
  starts_from, valid_minute, validate_shift_definition, work_intervals_for_weekday,
}
use makeup_booking_system.Shift.Intervals.{cut, cut_all, subtract_minute_intervals}
use makeup_booking_system.Tables.{Apart, insert_by, sort_by}
use makeup_booking_system.Tests.World.{
  admin_context, artist, artist_context, empty_db, nfkc, text, value_of, now,
}
use makeup_booking_system.Unavailability.{
  appointment_where, assert_artist_scope, assert_fits_schedule, period_artist, period_reason,
  period_reason_invalid, preview_period, required_reason, resolve_artist, validate_period_date,
  affected_appointments,
}
use makeup_booking_system.Unavailability.Commands.{
  artist_of_period, cancel_met, cancel_period, create_period, insert_period, new_period,
  period_by_id, period_time_check, review_period, same_period, same_period_time, update_period,
}
use mathlib.Core.Option

-- The Sunday before the Monday, from 10 to 18 o'clock.
abbrev sunday : ℕ
sunday = 11967 * day_ms

abbrev sunday_work : SubmitOvertimeCommand
sunday_work = record {
  artist_id = 10;
  break_end_minute = none;
  break_start_minute = none;
  overtime_date = sunday;
  reason = text;
  work_end_minute = 1080;
  work_start_minute = 600;
}

abbrev withdrawal : WithdrawOvertimeCommand
withdrawal = record { expected_row_version = 1; overtime_id = 60 }

abbrev no_overtime : OvertimeSummary
no_overtime = record {
  affected_appointment_count = 0;
  artist_id = 0;
  break_end_minute = none;
  break_start_minute = none;
  id = 0;
  overtime_date = 0;
  reason = [];
  row_version = 0;
  site_id = 0;
  status = rejected;
  submitted_at = 0;
  work_end_minute = 0;
  work_start_minute = 0;
}

abbrev requested : OvertimeSummary × Database
requested =
    value_of (no_overtime, empty_db) (submit nfkc empty_db artist_context sunday_work now 60 now)

abbrev withdrawn_db : Database
withdrawn_db = value_of empty_db (withdraw requested.1 artist_context withdrawal)

abbrev opened : OvertimeSummary × Database
opened =
    value_of (no_overtime, empty_db)
      (direct_approve nfkc withdrawn_db admin_context sunday_work now 61 now)

abbrev request : ArtistOvertime
request = new_overtime artist_context sunday_work 1 text false now 60 now

overtime_runs :
    (submit nfkc empty_db artist_context sunday_work now 60 now ≡ ok requested)
    × (withdraw requested.1 artist_context withdrawal ≡ ok withdrawn_db)
    × (direct_approve nfkc withdrawn_db admin_context sunday_work now 61 now ≡ ok opened)
    × (overtime_by_id requested.1 60 ≡ ok request)
    × (artist_of requested.1 request ≡ some artist)
    × (artist_on_leave_on withdrawn_db 10 sunday ≡ false)
    × (assert_role artist_context (artist_role ∷ []) ≡ ok tt)
    × (stage_of withdrawn_db 60 ≡ some (withdrawn, 2))
    × (find (λ a. a.id == sunday_work.artist_id) withdrawn_db.artists ≡ some artist)
unfolding active_appointments active_artist actor_scope add_days affected_appointments append_audit
    appointment_by_id appointment_scope appointment_where approved_overtime_on artist_of
    artist_of_period artist_on_leave_on assert_actor_scope assert_approvable assert_artist_scope
    assert_break assert_cancellable assert_duration assert_fits_schedule assert_host_available
    assert_iso_weekday assert_minute assert_non_working_day assert_role assert_self_scope
    assert_site_scope assert_workdays available blocked_intervals business_date_minute_to_instant
    by_date_and_start can_fit_in_shift cancel cancel_affected cancel_leave cancel_met
    cancel_on_leave cancel_period cancel_row cancelled_summary command_reason complete_idempotency
    count_date create create_fresh create_leave create_or_replay create_overtime create_period
    current_shift cut cut_all cut_off daily_sequence_for date_in_window dates_from day_outcome
    day_slots decide_leave direct_approve effective_rule excluded_appointment
    find_affected_appointments finish_review fixed_appointment fixed_occupations fixed_rule
    fixed_sequence format_date_only free_slots free_starts free_starts_from generate generate_date
    generate_dates generate_found generate_next generate_or_skip generate_rule generate_rules
    generated_before get_day_with_client get_slots has_key has_weekday host host_on_leave_on
    host_reason host_slots host_user_id insert_appointment insert_by insert_fixed insert_leave
    insert_period instant_to_business_date_minute interval_fits interval_starts is_alphanumeric
    is_blocked is_date_only is_empty is_host_qualified_on is_key_unit is_restorable is_space
    iso_weekday_for_date latest leave_artist leave_host leave_owner leave_where
    list_free_start_minutes list_shift_start_minutes matches_key_pattern may_cancel new_appointment
    new_leave new_overtime new_period normalize_idempotency_key normalized_optional_text
    normalized_reason normalized_required_text operates operator_on operator_valid optional_reason
    overtime_by_id overtime_outcome pending_meets pending_occupations period_artist period_by_id
    period_reason period_reason_invalid period_time_check prepare_fresh prepare_idempotency
    prepare_with preview_leave preview_period qualified_on reason_invalid recurring_conflict
    recurring_occupations replace_original replayed_appointment request_hash required_reason
    reschedule reschedule_hash reschedule_or_replay resolve_artist resolve_host resolve_leave_artist
    resolve_self restorable_fixed_appointments restorable_of restore_fixed_appointments restore_one
    restored_sequence review review_leave review_period rule_applies rule_cancelled_on rule_operator
    rules_in_window run same_key same_leave_dates same_overtime same_period same_period_time
    same_sequence same_time shift_outcome site_scope skip_reason slot_appointments slot_scope
    sort_by split_by_break starts_from submit subtract_minute_intervals to_business_date to_summary
    trim trim_end trim_start unavailable_intervals update_leave update_overtime update_period
    valid_minute validate_booking_date validate_booking_duration validate_booking_start
    validate_date validate_definition validate_period_date validate_range validate_shift_definition
    window_dates withdraw work_intervals_for_weekday works_at Option.bind
overtime_runs = (refl, refl, refl, refl, refl, refl, refl, refl, refl)

history : OvertimeReach nfkc empty_db requested.1
history =
    next_step (submits artist_context sunday_work now 60 now requested.0 overtime_runs.0) no_steps

OvertimeReach-Apart_example : Apart same_overtime requested.1.overtimes
OvertimeReach-Apart_example = OvertimeReach-Apart nfkc history tt

OvertimeStep-Moves_example : Moves (stage_of requested.1 60) (stage_of withdrawn_db 60)
OvertimeStep-Moves_example =
    OvertimeStep-Moves nfkc 60 (withdraws artist_context withdrawal overtime_runs.1)

OvertimeReach-settled_example : stage_of opened.1 60 ≡ some (withdrawn, 2)
OvertimeReach-settled_example =
    OvertimeReach-settled nfkc 60 withdrawn 2
      (next_step (approves_directly admin_context sunday_work now 61 now opened.0 overtime_runs.2)
        no_steps)
      overtime_runs.7 refl

withdraw-eq_example :
    (withdraw requested.1 artist_context withdrawal >>= λ d. ok (stage_of d 60)) ≡ (
      if is_pending request.status && request.row_version == 1
      then ok (some (withdrawn, request.row_version + 1))
      else err overtime_state_conflict)
withdraw-eq_example =
    withdraw-eq requested.1 artist_context withdrawal request artist overtime_runs.6
      (OvertimeReach-Apart nfkc history tt) overtime_runs.3 overtime_runs.4 refl

direct_approve-get_day_with_client_example :
    (shift_id : ℕ) × (get_day_with_client opened.1 10 sunday
      ≡ ok (
          artist_day artist sunday (
            day_available
              (subtract_minute_intervals
                (split_by_break 600 1080 none none)
                (unavailable_intervals withdrawn_db 10 sunday))
              (some 61)
              shift_id
              approved_overtime)))
direct_approve-get_day_with_client_example =
    direct_approve-get_day_with_client nfkc withdrawn_db admin_context sunday_work now 61 now
      opened.0 opened.1 artist overtime_runs.2 overtime_runs.8 refl overtime_runs.5

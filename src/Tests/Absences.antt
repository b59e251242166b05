-- ===== src/Tests/Absences.antt =====
-- Runs of the overtimes, the unavailable periods and the leaves.
use makeup_booking_system.Booking.History.{creates}
use makeup_booking_system.Unavailability.Confirmed.{
  range_taken, preview_period-create_period, review_period-approve,
}
use makeup_booking_system.Absence.Kept.{IsOrderly}
use makeup_booking_system.Base.{
  arith, find, ◌==◌, Bool, [], any, false, none, ok, refl, some, true, ◌≡◌,
}
use makeup_booking_system.Database.{
  ArtistUnavailablePeriod, Appointment, Database, absence_rejected, is_booked,
}
use makeup_booking_system.System.{
  IsSound, SystemReach, SystemReach-IsSound, at_once, books, after, creates_period, reviews_period,
}
use makeup_booking_system.Tables.{count_of, insert_by, sort_by}
use makeup_booking_system.Tests.Bookings.{first_result, runs, first_db}
use makeup_booking_system.Tests.World.{
  admin_context, artist_context, booking, empty_db, first_key, guest_context, nfkc, text, value_of,
  monday, now, platform,
}
use makeup_booking_system.Unavailability.{
  range_of, ArtistUnavailablePeriodPreview, ArtistUnavailablePeriodRange,
  ArtistUnavailablePeriodSummary, CreateArtistUnavailablePeriodCommand,
  ReviewArtistUnavailablePeriodCommand, appointment_where, assert_artist_scope,
  assert_fits_schedule, period_artist, period_reason, period_reason_invalid, preview_period,
  required_reason, resolve_artist, validate_period_date, affected_appointments,
}
use makeup_booking_system.Absence.{by_date_and_start, cancel_affected, find_affected_appointments}
use makeup_booking_system.Access.{assert_role, assert_self_scope, assert_site_scope, site_scope}
use makeup_booking_system.Availability.{
  approved_overtime_on, artist_on_leave_on, available, current_shift, day_outcome,
  get_day_with_client, latest, overtime_outcome, shift_outcome, unavailable_intervals,
}
use makeup_booking_system.Booking.Appointments.{
  append_audit, insert_appointment, same_key, same_sequence, same_time,
}
use makeup_booking_system.Booking.Cancel.{
  appointment_by_id, appointment_scope, assert_cancellable, cancel, cancel_row, cut_off,
  host_user_id, operates,
}
use makeup_booking_system.Booking.Commands.{create, create_or_replay, request_hash}
use makeup_booking_system.Booking.Completion.{run}
use makeup_booking_system.Booking.Create.{
  create_fresh, new_appointment, operator_valid, prepare_fresh, to_summary,
}
use makeup_booking_system.Booking.Generation.{
  effective_rule, fixed_appointment, fixed_sequence, generate_date, generate_found,
  generate_or_skip, generate_rule, generated_before, has_weekday, insert_fixed, rule_operator,
  skip_reason,
}
use makeup_booking_system.Booking.GenerationRun.{
  count_date, dates_from, generate, generate_dates, generate_next, generate_rules, rules_in_window,
  window_dates,
}
use makeup_booking_system.Booking.Idempotency.{
  complete_idempotency, has_key, prepare_idempotency, prepare_with, replayed_appointment,
}
use makeup_booking_system.Booking.Occupation.{
  active_appointments, actor_scope, assert_actor_scope, assert_host_available, daily_sequence_for,
  fixed_occupations, host, host_on_leave_on, interval_fits, is_host_qualified_on, operator_on,
  pending_meets, pending_occupations, qualified_on, recurring_conflict, rule_cancelled_on,
}
use makeup_booking_system.Booking.Reschedule.{
  cancelled_summary, replace_original, reschedule, reschedule_hash, reschedule_or_replay,
}
use makeup_booking_system.Booking.Slots.{
  blocked_intervals, day_slots, excluded_appointment, free_slots, get_slots, host_reason,
  host_slots, recurring_occupations, slot_appointments, slot_scope,
}
use makeup_booking_system.Booking.Texts.{
  command_reason, is_alphanumeric, is_key_unit, is_space, matches_key_pattern,
  normalize_idempotency_key, normalized_reason, reason_invalid, trim, trim_end, trim_start,
}
use makeup_booking_system.Booking.Times.{
  date_in_window, free_starts, free_starts_from, is_blocked, list_free_start_minutes,
  validate_booking_date, validate_booking_duration, validate_booking_start,
}
use makeup_booking_system.Leave.{
  cancel_on_leave, create_leave, insert_leave, leave_where, new_leave, optional_reason,
  preview_leave, resolve_host, resolve_leave_artist, resolve_self, same_leave_dates, validate_range,
}
use makeup_booking_system.Leave.Cancel.{
  cancel_leave, fixed_rule, is_restorable, leave_host, leave_owner, may_cancel,
  restorable_fixed_appointments, restorable_of, restore_fixed_appointments, restore_one,
  restored_sequence, rule_applies,
}
use makeup_booking_system.Leave.Review.{decide_leave, leave_artist, review_leave, update_leave}
use makeup_booking_system.Overtime.{
  active_artist, approve, artist_of, assert_approvable, assert_non_working_day, create_overtime,
  direct_approve, finish_review, new_overtime, normalized_optional_text, normalized_required_text,
  overtime_by_id, review, same_overtime, submit, update_overtime, validate_date,
  validate_definition, withdraw, works_at,
}
use makeup_booking_system.Shift.Calendar.{
  add_days, business_date_minute_to_instant, format_date_only, instant_to_business_date_minute,
  is_date_only, iso_weekday_for_date, to_business_date,
}
use makeup_booking_system.Shift.Definition.{
  assert_break, assert_duration, assert_iso_weekday, assert_minute, assert_workdays,
  can_fit_in_shift, interval_starts, is_empty, list_shift_start_minutes, split_by_break,
  starts_from, valid_minute, validate_shift_definition, work_intervals_for_weekday,
}
use makeup_booking_system.Shift.Intervals.{cut, cut_all, subtract_minute_intervals}
use makeup_booking_system.Unavailability.Commands.{
  artist_of_period, cancel_met, cancel_period, create_period, insert_period, new_period,
  period_by_id, period_time_check, review_period, same_period, same_period_time, update_period,
}

-- Monday from 10 to 12 o'clock.
abbrev morning : ArtistUnavailablePeriodRange
morning = record {
  artist_id = some 10;
  end_minute = 720;
  start_minute = 600;
  unavailable_date = monday;
}

abbrev morning_off : CreateArtistUnavailablePeriodCommand
morning_off = record { range = morning; confirmed_affected_appointment_count = 1; reason = text }

abbrev approval : ReviewArtistUnavailablePeriodCommand
approval = record {
  comment = none;
  confirmed_affected_appointment_count = 1;
  decision = approve;
  expected_row_version = 1;
  period_id = 51;
}

abbrev no_preview : ArtistUnavailablePeriodPreview
no_preview = record {
  affected_appointment_count = 0;
  affected_appointments = [];
  artist_id = 0;
  end_minute = 0;
  site_id = 0;
  start_minute = 0;
  unavailable_date = 0;
}

abbrev no_period : ArtistUnavailablePeriodSummary
no_period = record {
  preview = no_preview;
  id = 0;
  reason = [];
  row_version = 0;
  review_comment = none;
  status = absence_rejected;
}

abbrev submitted : ArtistUnavailablePeriodSummary × Database
submitted =
    value_of (no_period, first_db) (create_period nfkc first_db artist_context morning_off now 51)

abbrev reviewed : ArtistUnavailablePeriodSummary × Database
reviewed =
    value_of (no_period, first_db) (review_period nfkc submitted.1 admin_context approval now)

abbrev morning_preview : ArtistUnavailablePeriodPreview
morning_preview = value_of no_preview (preview_period first_db artist_context morning now)

abbrev is_booked_row : Appointment → Bool
is_booked_row a = is_booked a.status

period_runs :
    (create_period nfkc first_db artist_context morning_off now 51 ≡ ok submitted)
    × (review_period nfkc submitted.1 admin_context approval now ≡ ok reviewed)
    × (preview_period first_db artist_context morning now ≡ ok morning_preview)
    × (required_reason nfkc text ≡ ok text)
    × (morning_off.confirmed_affected_appointment_count
        ≡ morning_preview.affected_appointment_count)
    × (any (λ q. 51 == q.id) first_db.unavailable_periods ≡ false)
    × (any (range_taken morning_preview.artist_id morning) first_db.unavailable_periods ≡ false)
    × (any is_booked_row first_db.appointments ≡ true)
    × (any is_booked_row reviewed.1.appointments ≡ false)
unfolding active_appointments active_artist actor_scope add_days affected_appointments append_audit
    appointment_by_id appointment_scope appointment_where approved_overtime_on artist_of
    artist_of_period artist_on_leave_on assert_actor_scope assert_approvable assert_artist_scope
    assert_break assert_cancellable assert_duration assert_fits_schedule assert_host_available
    assert_iso_weekday assert_minute assert_non_working_day assert_role assert_self_scope
    assert_site_scope assert_workdays available blocked_intervals business_date_minute_to_instant
    by_date_and_start can_fit_in_shift cancel cancel_affected cancel_leave cancel_met
    cancel_on_leave cancel_period cancel_row cancelled_summary command_reason complete_idempotency
    count_date create create_fresh create_leave create_or_replay create_overtime create_period
    current_shift cut cut_all cut_off daily_sequence_for date_in_window dates_from day_outcome
    day_slots decide_leave direct_approve effective_rule excluded_appointment
    find_affected_appointments finish_review fixed_appointment fixed_occupations fixed_rule
    fixed_sequence format_date_only free_slots free_starts free_starts_from generate generate_date
    generate_dates generate_found generate_next generate_or_skip generate_rule generate_rules
    generated_before get_day_with_client get_slots has_key has_weekday host host_on_leave_on
    host_reason host_slots host_user_id insert_appointment insert_by insert_fixed insert_leave
    insert_period instant_to_business_date_minute interval_fits interval_starts is_alphanumeric
    is_blocked is_date_only is_empty is_host_qualified_on is_key_unit is_restorable is_space
    iso_weekday_for_date latest leave_artist leave_host leave_owner leave_where
    list_free_start_minutes list_shift_start_minutes matches_key_pattern may_cancel new_appointment
    new_leave new_overtime new_period normalize_idempotency_key normalized_optional_text
    normalized_reason normalized_required_text operates operator_on operator_valid optional_reason
    overtime_by_id overtime_outcome pending_meets pending_occupations period_artist period_by_id
    period_reason period_reason_invalid period_time_check prepare_fresh prepare_idempotency
    prepare_with preview_leave preview_period qualified_on reason_invalid recurring_conflict
    recurring_occupations replace_original replayed_appointment request_hash required_reason
    reschedule reschedule_hash reschedule_or_replay resolve_artist resolve_host resolve_leave_artist
    resolve_self restorable_fixed_appointments restorable_of restore_fixed_appointments restore_one
    restored_sequence review review_leave review_period rule_applies rule_cancelled_on rule_operator
    rules_in_window run same_key same_leave_dates same_overtime same_period same_period_time
    same_sequence same_time shift_outcome site_scope skip_reason slot_appointments slot_scope
    sort_by split_by_break starts_from submit subtract_minute_intervals to_business_date to_summary
    trim trim_end trim_start unavailable_intervals update_leave update_overtime update_period
    valid_minute validate_booking_date validate_booking_duration validate_booking_start
    validate_date validate_definition validate_period_date validate_range validate_shift_definition
    window_dates withdraw work_intervals_for_weekday works_at
period_runs = (refl, refl, refl, refl, refl, refl, refl, refl, refl)

-- The period of the artist is apart from the one of the table, and nothing is booked in it.
empty_db-IsOrderly : IsOrderly empty_db
unfolding appointment_where same_period same_period_time
empty_db-IsOrderly = record {
  periods = (
    record {
      proper = omega arith;
      ends_in_day = omega arith;
      start_on_step = refl;
      end_on_step = refl;
    },
    tt,
  );
  apart = (refl, tt);
  leaves = record { ids = tt; single = tt };
  periods_clear = tt;
  leaves_clear = tt;
}

empty_db-IsSound : IsSound empty_db
empty_db-IsSound = record {
  ready = record { rules = tt; appointments = record { placed = tt; free = tt } };
  orderly = empty_db-IsOrderly;
}

-- A booking, a period that the artist submits, and its approval.
history : SystemReach platform empty_db reviewed.1
history =
    after (books (creates guest_context (booking 600 first_key false) now 40 first_result runs.0)) (
      after (creates_period artist_context morning_off now 51 submitted.0 period_runs.0)
        (after (reviews_period admin_context approval now reviewed.0 period_runs.1) at_once))

SystemReach-IsSound_example : IsSound reviewed.1
SystemReach-IsSound_example = SystemReach-IsSound platform history empty_db-IsSound

review_period-approve_example :
    (period : ArtistUnavailablePeriod) × (find (λ p. p.id == 51) submitted.1.unavailable_periods
      ≡ some period)
    × (count_of (appointment_where period.artist_id (range_of period)) submitted.1.appointments ≡ 1)
    × (any (appointment_where period.artist_id (range_of period)) reviewed.1.appointments ≡ false)
review_period-approve_example =
    review_period-approve nfkc submitted.1 admin_context approval now reviewed.0 reviewed.1
      period_runs.1 refl

preview_period-create_period_example :
    (result : ArtistUnavailablePeriodSummary) × (db' : Database) × (create_period nfkc first_db
        artist_context morning_off now 51
      ≡ ok (result, db'))
preview_period-create_period_example =
    preview_period-create_period nfkc first_db artist_context morning_off now 51 morning_preview
      text period_runs.2 period_runs.3 period_runs.4 period_runs.5 refl period_runs.6

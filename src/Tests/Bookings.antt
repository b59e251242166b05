-- ===== src/Tests/Bookings.antt =====
-- Runs of the commands on appointments.
use makeup_booking_system.Base.{
  All, [], subst, sym, Result, any, arith, err, false, filter, length, none, ok, refl, some, true,
  ◌+◌, ◌∷◌, ◌≡◌, ◌≢◌, ◌≤◌,
}
use makeup_booking_system.Booking.GenerationLaws.{IsRule}
use makeup_booking_system.System.Finality.{cancel-AnyReach, moves, stands, system_step}
use makeup_booking_system.System.{books}
use makeup_booking_system.Database.{
  appointment_source, is_booked, rescheduled, Appointment, Database,
}
use makeup_booking_system.Booking.RescheduleEffect.{reschedule-appointment_by_id}
use makeup_booking_system.Booking.GenerationRun.{generate}
use makeup_booking_system.Booking.Placed.{IsBookable, validate_booking-IsBookable}
use makeup_booking_system.Booking.Retry.{create-create}
use makeup_booking_system.Access.{assert_role, site_scope}
use makeup_booking_system.Availability.{
  approved_overtime_on, artist_on_leave_on, available, current_shift, day_outcome,
  get_day_with_client, latest, overtime_outcome, shift_outcome, unavailable_intervals,
}
use makeup_booking_system.Booking.Appointments.{
  append_audit, insert_appointment, inserted, same_key, same_sequence, same_time,
}
use makeup_booking_system.Booking.Cancel.{
  BookingCancellationResult, appointment_by_id, appointment_scope, assert_cancellable, cancel,
  cancel_row, cut_off, host_user_id, operates,
}
use makeup_booking_system.Booking.CancelledOnce.{IsCancelledBy}
use makeup_booking_system.Booking.Commands.{create, create_options, create_or_replay, request_hash}
use makeup_booking_system.Booking.Completion.{run}
use makeup_booking_system.Booking.CompletionLaws.{run-run}
use makeup_booking_system.Booking.Create.{
  BookingCreateResult, create_fresh, new_appointment, operator_valid, prepare_fresh, to_summary,
}
use makeup_booking_system.Booking.Fresh.{IsNextSequence, daily_sequence_for-IsNextSequence}
use makeup_booking_system.Booking.History.{
  Reach, Reach-IsConsistent, Reach-daily_limit, completes, done, step, creates, generates,
}
use makeup_booking_system.Booking.Idempotency.{
  complete_idempotency, has_key, prepare_idempotency, prepare_with, replayed_appointment,
}
use makeup_booking_system.Booking.Occupation.{
  active_appointments, actor_scope, assert_actor_scope, assert_host_available, daily_sequence_for,
  fixed_occupations, host, host_on_leave_on, interval_fits, is_host_qualified_on, operator_on,
  pending_meets, pending_occupations, qualified_on, recurring_conflict, rule_cancelled_on,
}
use makeup_booking_system.Booking.Replay.{create-IsConsistent}
use makeup_booking_system.Booking.Reschedule.{
  BookingRescheduleResult, cancelled_summary, replace_original, reschedule, reschedule_hash,
  reschedule_or_replay,
}
use makeup_booking_system.Booking.RescheduleLaws.{reschedule-IsConsistent}
use makeup_booking_system.Booking.Safety.{insert_appointment-prepare_fresh, prepare_fresh-free}
use makeup_booking_system.Booking.Schedule.{IsConsistent, IsPlaced, occupies}
use makeup_booking_system.Booking.Texts.{
  command_reason, is_alphanumeric, is_key_unit, is_space, matches_key_pattern,
  normalize_idempotency_key, normalized_reason, reason_invalid, trim, trim_end, trim_start,
}
use makeup_booking_system.Booking.Times.{
  date_in_window, validate_booking_date, validate_booking_duration, validate_booking_start,
}
use makeup_booking_system.Errors.{booking_daily_limit_reached, booking_second_confirmation_required}
use makeup_booking_system.Shift.Calendar.{
  add_days, business_date_minute_to_instant, day_ms, format_date_only, is_date_only,
  iso_weekday_for_date, to_business_date,
}
use makeup_booking_system.Shift.Definition.{
  assert_break, assert_duration, assert_iso_weekday, assert_minute, assert_workdays, is_empty,
  split_by_break, valid_minute, validate_shift_definition, work_intervals_for_weekday,
}
use makeup_booking_system.Shift.Intervals.{cut, cut_all, subtract_minute_intervals}
use makeup_booking_system.Tests.World.{
  booking, cancellation, create_at, db_after, empty_db, first_key, guest_context, monday, move,
  no_result, nothing, platform, result_of, second_key, third_key, now,
}
use mathlib.Core.Option

-- The booking of Monday at 10 o'clock.
abbrev first_run : Result (BookingCreateResult × Database)
first_run = create_at empty_db 600 first_key false 40

abbrev pub first_db : Database
first_db = db_after first_run

abbrev pub first_result : BookingCreateResult
first_result = result_of no_result first_run

-- A second booking on the same day, at 13 o'clock, is confirmed.
abbrev second_run : Result (BookingCreateResult × Database)
second_run = create_at first_db 780 second_key true 41

abbrev second_db : Database
second_db = db_after second_run

abbrev second_result : BookingCreateResult
second_result = result_of no_result second_run

-- The first appointment is cancelled, or moves.
abbrev cancel_run : Result (BookingCancellationResult × Database)
cancel_run = cancel platform first_db guest_context cancellation now

abbrev no_cancellation : BookingCancellationResult
no_cancellation = record { cancelled_at = 0; id = 0; row_version = 0 }

abbrev cancelled_result : BookingCancellationResult
cancelled_result = result_of no_cancellation cancel_run

abbrev reschedule_run : Result (BookingRescheduleResult × Database)
reschedule_run = reschedule platform first_db guest_context move now 43

abbrev no_reschedule : BookingRescheduleResult
no_reschedule = record { appointment = nothing; original = no_cancellation; replayed = true }

abbrev second_row : Appointment
second_row =
    elim (prepare_fresh first_db guest_context (booking 780 second_key true) (create_options none)
      41) [ ok a ↦ a | err e ↦ nothing ]

-- The runs succeed with these results. Without the confirmation the second booking is refused, and a
-- third booking is refused in any case.
pub runs :
    (create platform empty_db guest_context (booking 600 first_key false) now 40
      ≡ ok (first_result, first_db))
    × (create platform first_db guest_context (booking 780 second_key true) now 41
        ≡ ok (second_result, second_db))
    × (create_at first_db 780 second_key false 41 ≡ err booking_second_confirmation_required)
    × (create_at second_db 960 third_key true 42 ≡ err booking_daily_limit_reached)
    × (cancel platform first_db guest_context cancellation now
        ≡ ok (cancelled_result, db_after cancel_run))
    × (reschedule platform first_db guest_context move now 43
        ≡ ok (result_of no_reschedule reschedule_run, db_after reschedule_run))
    × (prepare_fresh first_db guest_context (booking 780 second_key true) (create_options none) 41
        ≡ ok second_row)
    × (any (same_key second_row) first_db.appointments ≡ false)
    × (validate_booking_date (some monday) (now + 1000) ≡ ok tt)
    × (daily_sequence_for first_db.appointments 20 (monday + 20000000) (monday + 21000000) true
        ≡ ok 2)
    × (first_result.replayed ≡ false)
    × ((result_of no_reschedule reschedule_run).replayed ≡ false)
    × (first_db.rules ≡ [])
unfolding active_appointments actor_scope add_days append_audit appointment_by_id appointment_scope
    approved_overtime_on artist_on_leave_on assert_actor_scope assert_break assert_cancellable
    assert_duration assert_host_available assert_iso_weekday assert_minute assert_role
    assert_workdays available business_date_minute_to_instant cancel cancel_row cancelled_summary
    command_reason complete_idempotency create create_fresh create_or_replay current_shift cut
    cut_all cut_off daily_sequence_for date_in_window day_outcome fixed_occupations format_date_only
    get_day_with_client has_key host host_on_leave_on host_user_id insert_appointment interval_fits
    is_alphanumeric is_date_only is_empty is_host_qualified_on is_key_unit is_space
    iso_weekday_for_date latest matches_key_pattern new_appointment normalize_idempotency_key
    normalized_reason operates operator_on operator_valid overtime_outcome pending_meets
    pending_occupations prepare_fresh prepare_idempotency prepare_with qualified_on reason_invalid
    recurring_conflict replace_original replayed_appointment request_hash reschedule reschedule_hash
    reschedule_or_replay rule_cancelled_on same_key same_sequence same_time shift_outcome site_scope
    split_by_break subtract_minute_intervals to_business_date to_summary trim trim_end trim_start
    unavailable_intervals valid_minute validate_booking_date validate_booking_duration
    validate_booking_start validate_shift_definition work_intervals_for_weekday Option.bind
runs = (refl, refl, refl, refl, refl, refl, refl, refl, refl, refl, refl, refl, refl)

empty_db-IsConsistent : IsConsistent empty_db.appointments
empty_db-IsConsistent = record { placed = tt; free = tt }

-- Two bookings, the completion and a generation.
abbrev last_db : Database
last_db =
    (generate (λ db. 60 + length db.appointments) (run second_db (monday + day_ms)).1
      (monday + day_ms)).1

history : Reach platform empty_db last_db
history = step (creates guest_context (booking 600 first_key false) now 40 first_result runs.0) (
    step (creates guest_context (booking 780 second_key true) now 41 second_result runs.1)
      (step (completes (monday + day_ms)) (step (generates _ (monday + day_ms)) done)))

Reach-IsConsistent_example : IsConsistent last_db.appointments
Reach-IsConsistent_example = Reach-IsConsistent platform history tt empty_db-IsConsistent

Reach-daily_limit_example : length (filter (occupies 20 monday) last_db.appointments) ≤ 2
Reach-daily_limit_example = Reach-daily_limit platform 20 monday history tt empty_db-IsConsistent

create-create_example :
    create platform first_db guest_context (booking 600 first_key false) (now + 1000) 44
    ≡ ok (record { appointment = first_result.appointment; replayed = true }, first_db)
create-create_example =
    create-create platform empty_db guest_context (booking 600 first_key false) now (now + 1000) 40
      44 first_result first_db runs.0 runs.10 runs.8 (omega arith)

first_db-IsConsistent : IsConsistent first_db.appointments
first_db-IsConsistent =
    create-IsConsistent platform empty_db guest_context (booking 600 first_key false) now 40
      first_result first_db empty_db-IsConsistent runs.0

reschedule-IsConsistent_example : IsConsistent (db_after reschedule_run).appointments
reschedule-IsConsistent_example =
    reschedule-IsConsistent platform first_db guest_context move now 43
      (result_of no_reschedule reschedule_run) (db_after reschedule_run) first_db-IsConsistent
      runs.5

bookable : IsBookable monday 780 60
bookable =
    validate_booking-IsBookable monday now 780 60
      (unfold validate_booking_date date_in_window is_date_only to_business_date add_days in refl)
      (unfold validate_booking_start validate_booking_duration in refl)

prepare_fresh-free_example :
    IsPlaced second_row
    × (any (same_sequence second_row) first_db.appointments ≡ false)
    × (any (same_time second_row) first_db.appointments ≡ false)
prepare_fresh-free_example =
    prepare_fresh-free first_db guest_context (booking 780 second_key true) (create_options none) 41
      second_row first_db-IsConsistent.placed bookable runs.6

insert_appointment-prepare_fresh_example :
    insert_appointment second_row first_db.appointments
    ≡ inserted (second_row ∷ first_db.appointments)
insert_appointment-prepare_fresh_example =
    insert_appointment-prepare_fresh first_db guest_context (booking 780 second_key true)
      (create_options none) 41 second_row first_db-IsConsistent.placed bookable runs.7 runs.6

-- The tables after a cancellation and a run of the completion.
abbrev completed_db : Database
completed_db = (run (db_after cancel_run) (monday + day_ms)).1

cancel-AnyReach_example :
    (appointment_by_id completed_db 40 ≡ appointment_by_id (db_after cancel_run) 40)
    × (cancel platform completed_db guest_context cancellation (now + 1)
        ≢ ok (cancelled_result, first_db))
cancel-AnyReach_example =
    cancel-AnyReach platform first_db guest_context guest_context cancellation cancellation now
      (now + 1) cancelled_result cancelled_result (db_after cancel_run) completed_db first_db runs.4
      (subst (All IsRule) (sym runs.12) tt)
      (moves (system_step (books (completes (monday + day_ms)))) stands) refl

run-run_example :
    run (run second_db (monday + day_ms)).1 monday ≡ (0, (run second_db (monday + day_ms)).1)
run-run_example = run-run second_db (monday + day_ms) monday (omega arith)

daily_sequence_for-IsNextSequence_example :
    IsNextSequence first_db.appointments 20 (monday + 20000000) (monday + 21000000) true 2
daily_sequence_for-IsNextSequence_example =
    daily_sequence_for-IsNextSequence first_db.appointments 20 (monday + 20000000)
      (monday + 21000000) true 2 runs.9

reschedule-appointment_by_id_example :
    (a : Appointment) × (appointment_by_id first_db 40 ≡ ok a)
    × (a.row_version ≡ 1)
    × (is_booked a.status ≡ true)
    × (b : Appointment) × (appointment_by_id (db_after reschedule_run) 40 ≡ ok b)
    × IsCancelledBy 200 now rescheduled (some (appointment_source 43)) a b
reschedule-appointment_by_id_example =
    reschedule-appointment_by_id platform first_db guest_context move now 43
      (result_of no_reschedule reschedule_run) (db_after reschedule_run) runs.5 runs.11
      (omega arith)

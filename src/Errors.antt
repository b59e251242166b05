-- ===== src/Errors.antt =====
-- The errors that the services throw, one constructor for each error class
-- (apps/api/src/**/*.errors.ts, shift-time.ts and authorization-policy.service.ts).

-- `ShiftValidationReason`
pub data ShiftValidationReason : Type 0 where
  break_pair_incomplete break_time_order_invalid time_out_of_range : ShiftValidationReason
  time_step_invalid workday_duplicated workday_invalid workdays_empty : ShiftValidationReason
  work_time_order_invalid : ShiftValidationReason

-- `UnavailableArtistDay['reason']`
pub data DayReason : Type 0 where
  artist_inactive artist_on_leave non_working_day shift_not_configured site_inactive : DayReason

-- `database_error`: an error of the database that no service maps.
pub data Error : Type 0 where
  shift_definition_invalid : ShiftValidationReason → Error
  authorization_denied availability_artist_not_found availability_date_invalid : Error
  booking_date_invalid booking_duration_invalid booking_start_invalid : Error
  booking_host_not_found booking_site_mismatch : Error
  booking_idempotency_key_invalid booking_idempotency_conflict : Error
  booking_idempotency_incomplete booking_host_unavailable : Error
  booking_artist_unavailable : DayReason → Error
  booking_second_confirmation_required booking_daily_limit_reached booking_slot_conflict : Error
  booking_state_conflict booking_appointment_not_found booking_cancellation_cutoff : Error
  booking_cancellation_reason_invalid booking_creation_reason_invalid : Error
  overtime_artist_not_found overtime_artist_unavailable overtime_date_invalid : Error
  overtime_not_found overtime_pending_exists overtime_reason_invalid : Error
  overtime_shift_not_configured overtime_state_conflict overtime_working_day : Error
  artist_unavailable_period_date_invalid artist_unavailable_period_impact_changed : Error
  artist_unavailable_period_not_found artist_unavailable_period_reason_invalid : Error
  artist_unavailable_period_schedule_conflict artist_unavailable_period_state_conflict : Error
  artist_unavailable_period_target_invalid : Error
  leave_date_range_invalid leave_subject_unavailable leave_impact_changed leave_not_found : Error
  database_error : Error
  leave_state_conflict leave_fixed_appointment_restore_conflict leave_reason_invalid : Error

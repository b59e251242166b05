-- ===== src/Booking/Fresh.antt =====
-- What `createFresh` of apps/api/src/booking/booking-create.service.ts has tested when it creates
-- an appointment, and what follows for the table.
use makeup_booking_system.Access.{AuthorizationContext}
use makeup_booking_system.Availability.{
  ArtistDay, DayOutcome, day_available, day_intervals, day_unavailable, get_day_with_client,
}
use makeup_booking_system.Base.{
  ==→eq, >>=-eq-ok, Bool, Bool-cases, List, any, arith, false, filter, guard, guard-eq-ok, inl, inr,
  leb, length, ltb, not, ok, sym, throw_if, throw_if-eq-ok, true, ◌&&◌, ◌*◌, ◌+◌, ◌==◌, ◌≡◌, ◌≤◌,
  ◌⊎◌,
}
use makeup_booking_system.Booking.Create.{
  BookingCreationOptions, CreateBookingCommand, day_intervals_or_throw, new_appointment,
  operator_valid, prepare_fresh,
}
use makeup_booking_system.Booking.Occupation.{
  HostRecord, active_appointments, actor_scope, assert_actor_scope, assert_host_available,
  daily_sequence_for, host, interval_fits, recurring_conflict,
}
use makeup_booking_system.Booking.Schedule.{single_sequence}
use makeup_booking_system.Database.{Appointment, Database}
use makeup_booking_system.Errors.{
  booking_daily_limit_reached, booking_second_confirmation_required, booking_site_mismatch,
  booking_slot_conflict, booking_state_conflict,
}
use makeup_booking_system.Shift.Calendar.{business_date_minute_to_instant, minute_ms}
use makeup_booking_system.Shift.Intervals.{MinuteInterval}
use makeup_booking_system.Base.{ℕ}

-- What `prepare_fresh` has found and tested, where it returns `row`.
pub record IsPrepared (db : Database) (context : AuthorizationContext)
    (command : CreateBookingCommand) (options : BookingCreationOptions) (id : ℕ) (row : Appointment)
    : Type 0 where
  pub host_record : HostRecord
  pub host_found : host db command.host_id command.date ≡ ok host_record
  pub scope : actor_scope context.role_code context host_record ≡ true
  pub host_available : assert_host_available host_record command.date ≡ ok tt
  pub day : ArtistDay
  pub day_found : get_day_with_client db command.artist_id command.date ≡ ok day
  pub site : host_record.profile.site.id ≡ day.site_id
  pub fits :
      interval_fits (day_intervals day.outcome) command.start_minute command.duration_minutes ≡ true
  pub no_recurring :
      recurring_conflict db command.date command.artist_id command.host_id
        options.exclude_fixed_rule_id command.start_minute
        (command.start_minute + command.duration_minutes)
      ≡ false
  pub sequence : ℕ
  pub sequence_found :
      daily_sequence_for
        (active_appointments db command.date command.artist_id command.host_id)
        command.host_id
        (business_date_minute_to_instant command.date command.start_minute)
        (business_date_minute_to_instant command.date command.start_minute
          + command.duration_minutes * minute_ms)
        command.confirmed_second_booking
      ≡ ok sequence
  pub operator_is_valid : operator_valid host_record.operator host_record.profile.site.id ≡ true
  pub is_row : row ≡ new_appointment context command options host_record day sequence id

day_intervals_or_throw-eq-ok :
    (o : DayOutcome) {is : List MinuteInterval}
    → day_intervals_or_throw o ≡ ok is
    → day_intervals o ≡ is
day_intervals_or_throw-eq-ok (day_available intervals overtime_id shift_id source) h = ground arith
day_intervals_or_throw-eq-ok (day_unavailable reason) h = cc

-- An appointment is prepared only if every test of createFresh has passed: the host is found, in
-- the caller's scope and available, the artist's day is found at the same site and has room, no
-- fixed rule or pending request meets the stretch, a daily sequence is free, and the operator is
-- valid.
pub prepare_fresh-IsPrepared :
    (db : Database) (context : AuthorizationContext) (command : CreateBookingCommand)
    (options : BookingCreationOptions) (id : ℕ) (row : Appointment)
    → prepare_fresh db context command options id ≡ ok row
    → IsPrepared db context command options id row
unfolding prepare_fresh
prepare_fresh-IsPrepared db context command options id row h =
    let (r, e1, h1) = >>=-eq-ok (host db command.host_id command.date) _ h in
    let (_, e2, h2) = >>=-eq-ok (assert_actor_scope context r) _ h1 in
    let (_, e3, h3) = >>=-eq-ok (assert_host_available r command.date) _ h2 in
    let (day, e4, h4) = >>=-eq-ok (get_day_with_client db command.artist_id command.date) _ h3 in
    let (_, e5, h5) =
      >>=-eq-ok (guard (r.profile.site.id == day.site_id) booking_site_mismatch) _ h4 in
    let (is, e6, h6) = >>=-eq-ok (day_intervals_or_throw day.outcome) _ h5 in
    let (_, e7, h7) =
      >>=-eq-ok
        (guard (interval_fits is command.start_minute command.duration_minutes)
          booking_slot_conflict)
        _ h6 in
    let (_, e8, h8) =
      >>=-eq-ok
        (throw_if
          (recurring_conflict db command.date command.artist_id command.host_id
            options.exclude_fixed_rule_id command.start_minute
            (command.start_minute + command.duration_minutes))
          booking_slot_conflict)
        _ h7 in
    let (k, e9, h9) =
      >>=-eq-ok
        (daily_sequence_for (active_appointments db command.date command.artist_id command.host_id)
          command.host_id (business_date_minute_to_instant command.date command.start_minute)
          (business_date_minute_to_instant command.date command.start_minute
            + command.duration_minutes * minute_ms)
          command.confirmed_second_booking)
        _ h8 in
    let (_, e10, h10) =
      >>=-eq-ok (guard (operator_valid r.operator r.profile.site.id) booking_state_conflict) _ h9 in
    record {
      host_record = r;
      host_found = e1;
      scope = unfold assert_actor_scope in guard-eq-ok _ _ e2;
      host_available = e3;
      day = day;
      day_found = e4;
      site = ==→eq _ _ (guard-eq-ok _ _ e5);
      fits = rw (day_intervals_or_throw-eq-ok day.outcome e6) (guard-eq-ok _ _ e7);
      no_recurring = throw_if-eq-ok _ _ e8;
      sequence = k;
      sequence_found = e9;
      operator_is_valid = guard-eq-ok _ _ e10;
      is_row = cc;
    }

-- What a daily sequence that is found says of the active appointments.
pub record IsNextSequence (rows : List Appointment) (host_id start_at end_at : ℕ) (confirmed : Bool)
    (k : ℕ) : Type 0 where
  pub free : any (λ a. ltb start_at a.end_at && ltb a.start_at end_at) rows ≡ false
  pub unused : any (λ a. a.daily_sequence == k) (filter (λ a. a.host_id == host_id) rows) ≡ false
  pub one_or_two : (k ≡ 1) ⊎ (k ≡ 2)
  pub room : length (filter (λ a. a.host_id == host_id) rows) ≤ 1
  pub confirms : length (filter (λ a. a.host_id == host_id) rows) == 1 && not confirmed ≡ false

-- A daily sequence that is found is 1 or 2 and unused by the host, the active appointments that
-- were read do not overlap with the new one, the host has at most one of them, and a second one is
-- confirmed.
pub daily_sequence_for-IsNextSequence :
    (rows : List Appointment) (host_id start_at end_at : ℕ) (confirmed : Bool) (k : ℕ)
    → daily_sequence_for rows host_id start_at end_at confirmed ≡ ok k
    → IsNextSequence rows host_id start_at end_at confirmed k
unfolding daily_sequence_for
daily_sequence_for-IsNextSequence rows host_id start_at end_at confirmed k h =
    let of_host = filter (λ (a : Appointment). a.host_id == host_id) rows in
    let (_, e1, h1) =
      >>=-eq-ok
        (throw_if (any (λ a. ltb start_at a.end_at && ltb a.start_at end_at) rows)
          booking_slot_conflict)
        _ h in
    let (_, e2, h2) =
      >>=-eq-ok (throw_if (leb 2 (length of_host)) booking_daily_limit_reached) _ h1 in
    let (_, e3, h3) =
      >>=-eq-ok
        (throw_if (length of_host == 1 && not confirmed) booking_second_confirmation_required) _
        h2 in
    let few : leb 2 (length of_host) ≡ false = throw_if-eq-ok _ _ e2 in
    let sure : length of_host == 1 && not confirmed ≡ false = throw_if-eq-ok _ _ e3 in
    elim (Bool-cases (any (λ a. a.daily_sequence == 1) of_host)) [
      | inl first ↦
          let two : 2 ≡ k = ground arith in
          record {
            free = throw_if-eq-ok _ _ e1;
            unused = rw (← two) (single_sequence of_host few first);
            one_or_two = inr (sym two);
            room = ground arith;
            confirms = sure;
          }
      | inr none_first ↦
          let one : 1 ≡ k = ground arith in
          record {
            free = throw_if-eq-ok _ _ e1;
            unused = rw (← one) none_first;
            one_or_two = inl (sym one);
            room = ground arith;
            confirms = sure;
          }
    ]

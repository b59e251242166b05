-- ===== src/Booking/SlotsBooked.antt =====
-- A slot that is offered can be booked: booking-slot.service.ts and booking-create.service.ts of
-- apps/api/src/booking test the same.
use makeup_booking_system.Availability.{day_intervals}
use makeup_booking_system.Booking.SlotsBlocked.{blocked_at-blocked_intervals, filter-eq}
use makeup_booking_system.Base.{
  ok-injective, subst, if◌then◌else◌, ◌%◌, ==→true, All, false, filter, leb, length, not, sym, true,
  ◌*◌, ◌+◌, ◌==◌, Bool, List, Option, any, ap, arith, ltb, none, ok, refl, some, ◌&&◌, ◌||◌, ◌∙◌,
  ◌≡◌, ◌≤◌, ℕ,
}
use makeup_booking_system.Booking.Create.{
  new_appointment, CreateBookingCommand, operator_valid, prepare_fresh,
}
use makeup_booking_system.Shift.Intervals.{contains}
use makeup_booking_system.Availability.Laws.{IsPeriod, get_day_with_client-IsDay}
use makeup_booking_system.Booking.Commands.{create_options}
use makeup_booking_system.Booking.Occupation.{
  active_appointments, assert_actor_scope, daily_sequence_for, host, interval_fits,
  recurring_conflict, HostRecord, actor_scope, assert_host_available,
}
use makeup_booking_system.Booking.Slots.{
  BookingSlotInput, BookingSlotResult, blocked_intervals, get_slots, slot_appointments, host_reason,
  slot_scope,
}
use makeup_booking_system.Booking.SlotsLaws.{get_slots-IsOffered, offers}
use makeup_booking_system.Booking.Times.{validate_booking_date}
use makeup_booking_system.Booking.TimesLaws.{
  includes-list_free_start_minutes, validate_booking_date-eq-ok_iff,
}
use makeup_booking_system.Database.{Database, Text, Appointment}
use makeup_booking_system.Shift.Calendar.{
  add_days, minute_ms, business_date_minute_to_instant, business_offset_ms,
}
use makeup_booking_system.Access.{
  AuthorizationContext, RoleCode, admin_role, artist_role, customer_service_role, host_role,
  operator_role,
}

slot_scope-actor_scope :
    (role : RoleCode) (context : AuthorizationContext) (p : HostRecord)
    → slot_scope role context p ≡ actor_scope role context p
unfolding slot_scope actor_scope
slot_scope-actor_scope host_role context p = refl
slot_scope-actor_scope operator_role context p = refl
slot_scope-actor_scope artist_role context p = refl
slot_scope-actor_scope customer_service_role context p = refl
slot_scope-actor_scope admin_role context p = refl

host_reason-none :
    (p : HostRecord) (date : ℕ) → host_reason p date ≡ none → assert_host_available p date ≡ ok tt
unfolding host_reason assert_host_available
host_reason-none p date h = ground arith

slot_appointments-active :
    (db : Database) (input : BookingSlotInput)
    → input.exclude_appointment_id ≡ none
    → slot_appointments db input ≡ active_appointments db input.date input.artist_id input.host_id
unfolding slot_appointments active_appointments
slot_appointments-active db input e = filter-eq _ _ db.appointments (λ a. rw e (ground arith))

-- Where nothing overlaps, the host has at most one appointment and the second one is confirmed, a
-- daily sequence is found.
daily_sequence_for-ok :
    (rows : List Appointment) (host_id start_at end_at : ℕ)
    → any (λ a. ltb start_at a.end_at && ltb a.start_at end_at) rows ≡ false
    → length (filter (λ a. a.host_id == host_id) rows) ≤ 1
    → (k : ℕ) × (daily_sequence_for rows host_id start_at end_at true ≡ ok k)
unfolding daily_sequence_for
daily_sequence_for-ok rows host_id start_at end_at free room =
    let few : leb 2 (length (filter (λ (a : Appointment). a.host_id == host_id) rows)) ≡ false =
      ground arith in
    let sure : length (filter (λ (a : Appointment). a.host_id == host_id) rows) == 1 && false
        ≡ false =
      ground arith in
    (
      if any (λ (a : Appointment). a.daily_sequence == 1) (filter (λ a. a.host_id == host_id) rows)
          then 2
          else 1,
      rw (free, few, sure) refl,
    )

-- The command that books a slot, with the confirmation of a second booking.
abbrev pub slot_command : BookingSlotInput → ℕ → Text → Option Text → CreateBookingCommand
slot_command input start_minute key reason = record {
  artist_id = input.artist_id;
  confirmed_second_booking = true;
  date = input.date;
  duration_minutes = input.duration_minutes;
  host_id = input.host_id;
  idempotency_key = key;
  reason = reason;
  start_minute = start_minute;
}

date-modern :
    (date now : ℕ) → validate_booking_date (some date) now ≡ ok tt → business_offset_ms ≤ date
date-modern date now h =
    let (_, l, _) = (validate_booking_date-eq-ok_iff date now).0 h in unfold add_days in omega arith

free_parts :
    (a b c d : Bool) → (a && b && not (c || d)) ≡ true → (b ≡ true) × (c ≡ false) × (d ≡ false)
free_parts a b c d h = ground arith

-- A slot that getSlots offers, where no appointment is excluded, can be booked by the same caller
-- with the confirmation of a second booking while the tables stay as they are: createFresh
-- prepares the appointment. The host's operator, if there is one, is active and of the host's
-- site, and each unavailable period is a stretch of a day on quarters of an hour.
pub get_slots-prepare_fresh :
    (db : Database) (context : AuthorizationContext) (input : BookingSlotInput) (now : ℕ)
    (r : BookingSlotResult) (s : ℕ) (key : Text) (reason : Option Text) (id : ℕ) (p : HostRecord)
    → All IsPeriod db.unavailable_periods
    → host db input.host_id input.date ≡ ok p
    → operator_valid p.operator p.profile.site.id ≡ true
    → input.exclude_appointment_id ≡ none
    → get_slots db context input now ≡ ok r
    → offers r.slots s ≡ true
    → (row : Appointment) × (prepare_fresh db context
          (slot_command input s key reason)
          (create_options reason)
          id
        ≡ ok row)
unfolding prepare_fresh assert_actor_scope interval_fits
get_slots-prepare_fresh db context input now r s key reason id p periods found valid e h k =
    let o = get_slots-IsOffered db context input now r s h k in
    let day = get_day_with_client-IsDay db input.artist_id input.date o.day periods o.day_found in
    let blocked = blocked_intervals db input o.exclude_rule_id in
    let start_at = business_date_minute_to_instant input.date s in
    let end_at = start_at + input.duration_minutes * minute_ms in
    let test =
      sym (
        includes-list_free_start_minutes input.date (day_intervals o.day.outcome)
          input.duration_minutes blocked o.starts s day.aligned o.listed)
      ∙ o.offered in
    let parts =
      blocked_at-blocked_intervals db input o.exclude_rule_id s
        (date-modern input.date now o.date) in
    let (fits, free, recurring) =
      free_parts (s % 15 == 0)
        (contains (day_intervals o.day.outcome) s (s + input.duration_minutes))
        (any (λ a. ltb start_at a.end_at && ltb a.start_at end_at) (slot_appointments db input))
        (recurring_conflict db input.date input.artist_id input.host_id o.exclude_rule_id s
          (s + input.duration_minutes))
        (ap
            (λ t.
              (s % 15 == 0)
              && contains (day_intervals o.day.outcome) s (s + input.duration_minutes)
              && not t)
            (sym parts)
          ∙ test) in
    let same = slot_appointments-active db input e in
    let (n, sequence) =
      daily_sequence_for-ok (active_appointments db input.date input.artist_id input.host_id)
        input.host_id start_at end_at (rw same at free) (rw same at o.room) in
    let no_rule = o.excluded e in
    let nothing_recurs : recurring_conflict db input.date input.artist_id input.host_id none s
          (s + input.duration_minutes)
        ≡ false =
      rw no_rule at recurring in
    let operator =
      subst (λ (q : HostRecord). operator_valid q.operator q.profile.site.id ≡ true)
        (ok-injective p o.host_record (sym found ∙ o.host_found)) valid in
    let scope = sym (slot_scope-actor_scope context.role_code context o.host_record) ∙ o.scope in
    (
      new_appointment context (slot_command input s key reason) (create_options reason)
          o.host_record o.day n id,
      rw
          (
            o.host_found,
            scope,
            host_reason-none o.host_record input.date o.host_free,
            o.day_found,
            ==→true _ _ o.site,
            o.available,
            fits,
            nothing_recurs,
            sequence,
            operator,
          )
          refl,
    )

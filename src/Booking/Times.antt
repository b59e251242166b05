-- ===== src/Booking/Times.antt =====
-- apps/api/src/booking/booking-time.ts.
use makeup_booking_system.Base.{
  ℕ, suc, zero, ◌+◌, ◌*◌, ◌%◌, Bool, false, ◌&&◌, ◌||◌, not, Option, none, some, List, [], ◌∷◌, ltb,
  leb, ◌==◌, if◌then◌else◌, any, flat_map, includes, Result, ok, ◌>>◌, guard, throw_if,
}
use makeup_booking_system.Errors.{
  booking_date_invalid, booking_duration_invalid, booking_start_invalid,
}
use makeup_booking_system.Shift.Definition.{max_safe_integer}
use makeup_booking_system.Shift.Intervals.{MinuteInterval}
use makeup_booking_system.Shift.Calendar.{
  to_business_date, add_days, is_date_only, business_date_minute_to_instant, minute_ms,
}

abbrev pub durations : List ℕ
durations = 15 ∷ 30 ∷ 45 ∷ 60 ∷ []

pub record InstantInterval : Type 0 where
  pub end_at : ℕ
  pub start_at : ℕ

-- The first test throws on an invalid date, so the second finds a valid one.
unfoldable pub date_in_window : Option ℕ → ℕ → Bool
date_in_window none now = false
date_in_window (some date) now =
    let today = to_business_date now in
    not (ltb date (add_days today 1) || ltb (add_days today 7) date)

unfoldable pub validate_booking_date : Option ℕ → ℕ → Result (Unit {0})
unfolding date_in_window
validate_booking_date date now = do
  guard (is_date_only date) booking_date_invalid
  guard (date_in_window date now) booking_date_invalid

unfoldable pub validate_booking_duration : ℕ → Result (Unit {0})
validate_booking_duration duration_minutes =
    guard (includes durations duration_minutes) booking_duration_invalid

unfoldable pub validate_booking_start : ℕ → ℕ → Result (Unit {0})
unfolding validate_booking_duration
validate_booking_start start_minute duration_minutes = do
  validate_booking_duration duration_minutes
  throw_if
      (ltb max_safe_integer start_minute
        || not (start_minute % 15 == 0)
        || ltb (24 * 60) (start_minute + duration_minutes))
      booking_start_invalid

-- `startAt < blocked.endAt && blocked.startAt < endAt`, for one of the blocked intervals
unfoldable pub is_blocked : List InstantInterval → ℕ → ℕ → Bool
is_blocked blocked_intervals start_at end_at =
    any (λ b. ltb start_at b.end_at && ltb b.start_at end_at) blocked_intervals

-- The `for` loop over the starts in one work interval, on fuel: the start grows by 15 in each
-- round, so one round more than the interval's end is enough.
unfoldable pub free_starts_from : ℕ → ℕ → List InstantInterval → ℕ → ℕ → ℕ → List ℕ
free_starts_from zero date blocked_intervals duration_minutes end_minute start_minute = []
free_starts_from (suc fuel) date blocked_intervals duration_minutes end_minute start_minute =
    let rest =
      free_starts_from fuel date blocked_intervals duration_minutes end_minute
        (start_minute + 15) in
    let start_at = business_date_minute_to_instant date start_minute in
    let end_at = start_at + duration_minutes * minute_ms in
    if leb (start_minute + duration_minutes) end_minute
    then if is_blocked blocked_intervals start_at end_at then rest else start_minute ∷ rest
    else []

unfoldable pub free_starts : ℕ → List InstantInterval → ℕ → MinuteInterval → List ℕ
free_starts date blocked_intervals duration_minutes i =
    free_starts_from (suc i.end_minute) date blocked_intervals duration_minutes i.end_minute
      i.start_minute

unfoldable pub list_free_start_minutes :
    ℕ → List MinuteInterval → ℕ → List InstantInterval → Result (List ℕ)
list_free_start_minutes date work_intervals duration_minutes blocked_intervals = do
  validate_booking_duration duration_minutes
  ok (flat_map (free_starts date blocked_intervals duration_minutes) work_intervals)

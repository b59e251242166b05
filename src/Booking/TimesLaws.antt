-- ===== src/Booking/TimesLaws.antt =====
-- What the validations and the free starts of apps/api/src/booking/booking-time.ts promise.
use makeup_booking_system.Base.{
  ℕ, zero, suc, ◌+◌, some, List, includes, Bool, All, flat_map, ◌*◌, ◌<◌, ◌≡◌, ◌%◌, leb, ok, ◌↔◌,
  ◌&&◌, ◌==◌, ◌∷◌, true, not, ◌-◌, ◌≤◌, arith, [], >>=-eq-ok, includes-append,
}
use makeup_booking_system.Shift.Intervals.{MinuteInterval, contains}
use makeup_booking_system.Shift.WellFormed.{IsStep, IsAligned}
use makeup_booking_system.Shift.Calendar.{
  minute_ms, to_business_date, add_days, is_date_only, IsMidnight, business_date_minute_to_instant,
}
use makeup_booking_system.Booking.Times.{
  InstantInterval, durations, validate_booking_date, validate_booking_start, is_blocked,
  free_starts_from, free_starts, list_free_start_minutes, validate_booking_duration,
}

-- A date passes the validation exactly if it is the midnight of one of the seven days after the
-- business date of the present time.
pub validate_booking_date-eq-ok_iff :
    (date now : ℕ)
    → (validate_booking_date (some date) now ≡ ok tt) ↔ (
        IsMidnight date
        × (add_days (to_business_date now) 1 ≤ date)
        × (date ≤ add_days (to_business_date now) 7))
unfolding validate_booking_date is_date_only
validate_booking_date-eq-ok_iff date now = (λ h. ground arith, λ h. ground arith)

-- A start passes the validation exactly if the duration is one of the four, the start is on a
-- quarter of an hour, and the appointment ends by the end of the day.
pub validate_booking_start-eq-ok_iff :
    (start duration : ℕ)
    → (validate_booking_start start duration ≡ ok tt)
      ↔ ((includes durations duration ≡ true) × IsStep start × (start + duration ≤ 1440))
unfolding validate_booking_start
validate_booking_start-eq-ok_iff start duration = (λ h. ground arith, λ h. ground arith)

-- The stretch of the day is blocked.
abbrev pub blocked_at : ℕ → List InstantInterval → ℕ → ℕ → Bool
blocked_at date bs s d =
    is_blocked bs (business_date_minute_to_instant date s)
      (business_date_minute_to_instant date s + d * minute_ms)

-- With enough fuel the loop lists the starts on the grid that leave room and are not blocked.
includes-free_starts_from :
    (fuel date : ℕ) (bs : List InstantInterval) (d e start s : ℕ)
    → e < start + fuel
    → includes (free_starts_from fuel date bs d e start) s
      ≡ (leb start s && ((s - start) % 15 == 0) && leb (s + d) e && not (blocked_at date bs s d))
unfolding free_starts_from
includes-free_starts_from zero date bs d e start s h = ground arith
includes-free_starts_from (suc fuel) date bs d e start s h =
    ground (arith, includes-free_starts_from fuel date bs d e (start + 15) s)

includes-free_starts :
    (date : ℕ) (bs : List InstantInterval) (d : ℕ) (i : MinuteInterval) (s : ℕ)
    → IsAligned i
    → includes (free_starts date bs d i) s
      ≡ ((s % 15 == 0) && contains (i ∷ []) s (s + d) && not (blocked_at date bs s d))
unfolding free_starts
includes-free_starts date bs d i s a =
    ground
      (arith, includes-free_starts_from (suc i.end_minute) date bs d i.end_minute i.start_minute s)

includes-flat_map-free_starts :
    (date : ℕ) (bs : List InstantInterval) (d : ℕ) (is : List MinuteInterval) (s : ℕ)
    → All IsAligned is
    → includes (flat_map (free_starts date bs d) is) s
      ≡ ((s % 15 == 0) && contains is s (s + d) && not (blocked_at date bs s d))
includes-flat_map-free_starts date bs d [] s a = ground arith
includes-flat_map-free_starts date bs d (i ∷ is) s a = ground (
  arith,
  includes-append (free_starts date bs d i) (flat_map (free_starts date bs d) is) s,
  includes-free_starts date bs d i s a.0,
  includes-flat_map-free_starts date bs d is s a.1,
)

-- Where the work intervals are stretches on quarters of an hour, the listed free starts are
-- exactly the starts on a quarter of an hour whose stretch fits into a work interval and is not
-- blocked.
pub includes-list_free_start_minutes :
    (date : ℕ) (is : List MinuteInterval) (d : ℕ) (bs : List InstantInterval) (starts : List ℕ)
    (s : ℕ)
    → All IsAligned is
    → list_free_start_minutes date is d bs ≡ ok starts
    → includes starts s ≡ ((s % 15 == 0) && contains is s (s + d) && not (blocked_at date bs s d))
unfolding list_free_start_minutes
includes-list_free_start_minutes date is d bs starts s a h =
    let (_, _, h') = >>=-eq-ok (validate_booking_duration d) _ h in
    let e : flat_map (free_starts date bs d) is ≡ starts = cc in
    rw (← e) (includes-flat_map-free_starts date bs d is s a)

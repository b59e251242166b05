-- ===== src/Tests/Shifts.antt =====
-- Runs of the shifts' and the days' definitions.
use makeup_booking_system.Availability.{
  ArtistDay, approved_overtime_on, artist_day, artist_on_leave_on, available, current_shift,
  day_available, day_outcome, get_day_with_client, latest, overtime_outcome, regular_shift,
  shift_outcome, unavailable_intervals,
}
use makeup_booking_system.Availability.Laws.{IsDay, IsPeriod, get_day_with_client-IsDay}
use makeup_booking_system.Base.{
  All, List, [], arith, includes, leb, ltb, none, not, ok, refl, some, true, ◌%◌, ◌&&◌, ◌+◌, ◌==◌,
  ◌>>=◌, ◌↔◌, ◌∷◌, ◌≡◌, ◌≤◌,
}
use makeup_booking_system.Booking.Times.{
  InstantInterval, durations, free_starts, free_starts_from, is_blocked, list_free_start_minutes,
  validate_booking_date, validate_booking_duration, validate_booking_start,
}
use makeup_booking_system.Booking.TimesLaws.{
  blocked_at, includes-list_free_start_minutes, validate_booking_date-eq-ok_iff,
  validate_booking_start-eq-ok_iff,
}
use makeup_booking_system.Shift.Calendar.{
  IsMidnight, add_days, business_date_minute_to_instant, format_date_only,
  instant_to_business_date_minute, instant_to_business_date_minute-business_date_minute_to_instant,
  is_date_only, iso_weekday_for_date, iso_weekday_for_date-add_days, to_business_date,
  to_business_date-business_date_minute_to_instant,
}
use makeup_booking_system.Shift.Definition.{
  assert_break, assert_iso_weekday, assert_minute, assert_workdays, can_fit_in_shift, is_empty,
  list_shift_start_minutes, split_by_break, valid_minute, validate_shift_definition,
  work_intervals_for_weekday,
}
use makeup_booking_system.Shift.Intervals.{
  MinuteInterval, contains, covers, cut, cut_all, interval, meets, subtract_minute_intervals,
}
use makeup_booking_system.Shift.Starts.{can_fit_in_shift-list_shift_start_minutes}
use makeup_booking_system.Shift.Subtraction.{
  contains-subtract_minute_intervals, covers-subtract_minute_intervals,
}
use makeup_booking_system.Shift.WellFormed.{
  IsAligned, IsStep, IsWellFormed, covers-work_intervals_for_weekday, in_break,
  validate_shift_definition-IsWellFormed, work_intervals_for_weekday-IsAligned,
}
use makeup_booking_system.Tests.World.{artist, empty_db, meeting, monday, office_hours, now}

abbrev morning : MinuteInterval
morning = interval 540 720

abbrev blocked : List MinuteInterval
blocked = interval 600 630 ∷ []

contains-subtract_minute_intervals_example :
    contains (subtract_minute_intervals (morning ∷ []) blocked) 630 690
    ≡ contains (morning ∷ []) 630 690 && not (meets blocked 630 690)
contains-subtract_minute_intervals_example =
    contains-subtract_minute_intervals (morning ∷ []) blocked 630 690 (omega arith)
      (omega arith, tt)

covers-subtract_minute_intervals_example :
    covers (subtract_minute_intervals (morning ∷ []) blocked) 610
    ≡ covers (morning ∷ []) 610 && not (covers blocked 610)
covers-subtract_minute_intervals_example =
    covers-subtract_minute_intervals (morning ∷ []) blocked 610

validate_shift_definition-IsWellFormed_example :
    (validate_shift_definition office_hours ≡ ok tt) ↔ IsWellFormed office_hours
validate_shift_definition-IsWellFormed_example = validate_shift_definition-IsWellFormed office_hours

abbrev office_intervals : List MinuteInterval
office_intervals = interval 540 720 ∷ interval 780 1080 ∷ []

office_found : work_intervals_for_weekday office_hours 1 ≡ ok office_intervals
unfolding assert_break assert_iso_weekday assert_minute assert_workdays is_empty split_by_break
    valid_minute validate_shift_definition work_intervals_for_weekday
office_found = refl

covers-work_intervals_for_weekday_example : covers office_intervals 730 ≡ (
    includes office_hours.workdays 1
    && (leb office_hours.work_start_minute 730
        && ltb 730 office_hours.work_end_minute
        && not (in_break office_hours.break_start_minute office_hours.break_end_minute 730)))
covers-work_intervals_for_weekday_example =
    covers-work_intervals_for_weekday office_hours 1 730 office_intervals office_found

work_intervals_for_weekday-IsAligned_example : All IsAligned office_intervals
work_intervals_for_weekday-IsAligned_example =
    work_intervals_for_weekday-IsAligned office_hours 1 office_intervals office_found

can_fit_in_shift-list_shift_start_minutes_example :
    can_fit_in_shift office_hours 1 690 45
    ≡ (list_shift_start_minutes office_hours 1 45 >>= λ starts. ok (includes starts 690))
can_fit_in_shift-list_shift_start_minutes_example =
    can_fit_in_shift-list_shift_start_minutes office_hours 1 690 45 (omega arith) refl

to_business_date-business_date_minute_to_instant_example :
    to_business_date (business_date_minute_to_instant monday 600) ≡ monday
to_business_date-business_date_minute_to_instant_example =
    to_business_date-business_date_minute_to_instant monday 600 refl (omega arith) (omega arith)

instant_to_business_date_minute-business_date_minute_to_instant_example :
    instant_to_business_date_minute monday (business_date_minute_to_instant monday 600) ≡ 600
instant_to_business_date_minute-business_date_minute_to_instant_example =
    instant_to_business_date_minute-business_date_minute_to_instant monday 600 (omega arith)

iso_weekday_for_date-add_days_example :
    iso_weekday_for_date (add_days monday 7) ≡ iso_weekday_for_date monday
iso_weekday_for_date-add_days_example = iso_weekday_for_date-add_days monday

abbrev monday_of_artist : ArtistDay
monday_of_artist = artist_day artist monday (
    day_available (interval 540 720 ∷ interval 780 900 ∷ interval 960 1080 ∷ []) none 30
      regular_shift)

monday_found : get_day_with_client empty_db 10 monday ≡ ok monday_of_artist
unfolding approved_overtime_on artist_on_leave_on assert_break assert_iso_weekday assert_minute
    assert_workdays available current_shift cut cut_all day_outcome format_date_only
    get_day_with_client is_date_only is_empty iso_weekday_for_date latest overtime_outcome
    shift_outcome split_by_break subtract_minute_intervals unavailable_intervals valid_minute
    validate_shift_definition work_intervals_for_weekday
monday_found = refl

meeting_fits : IsPeriod meeting
meeting_fits = record {
  proper = omega arith;
  ends_in_day = omega arith;
  start_on_step = refl;
  end_on_step = refl;
}

get_day_with_client-IsDay_example : IsDay empty_db 10 monday monday_of_artist
get_day_with_client-IsDay_example =
    get_day_with_client-IsDay empty_db 10 monday monday_of_artist (meeting_fits, tt) monday_found

validate_booking_date-eq-ok_iff_example : (validate_booking_date (some monday) now ≡ ok tt) ↔ (
    IsMidnight monday
    × (add_days (to_business_date now) 1 ≤ monday)
    × (monday ≤ add_days (to_business_date now) 7))
validate_booking_date-eq-ok_iff_example = validate_booking_date-eq-ok_iff monday now

validate_booking_start-eq-ok_iff_example :
    (validate_booking_start 600 60 ≡ ok tt)
    ↔ ((includes durations 60 ≡ true) × IsStep 600 × (600 + 60 ≤ 1440))
validate_booking_start-eq-ok_iff_example = validate_booking_start-eq-ok_iff 600 60

abbrev ten_to_eleven : InstantInterval
ten_to_eleven = record { end_at = monday + 10800000; start_at = monday + 7200000 }

free_found :
    list_free_start_minutes monday (interval 585 675 ∷ []) 15 (ten_to_eleven ∷ [])
    ≡ ok (585 ∷ 660 ∷ [])
unfolding free_starts free_starts_from is_blocked list_free_start_minutes validate_booking_duration
    business_date_minute_to_instant
free_found = refl

includes-list_free_start_minutes_example : includes (585 ∷ 660 ∷ []) 600 ≡ (
    (600 % 15 == 0)
    && contains (interval 585 675 ∷ []) 600 (600 + 15)
    && not (blocked_at monday (ten_to_eleven ∷ []) 600 15))
includes-list_free_start_minutes_example =
    includes-list_free_start_minutes monday (interval 585 675 ∷ []) 15 (ten_to_eleven ∷ [])
      (585 ∷ 660 ∷ []) 600
      (
        record {
          proper = omega arith;
          ends_in_day = omega arith;
          start_on_step = refl;
          end_on_step = refl;
        },
        tt,
      )
      free_found

-- ===== src/Shift/Definition.antt =====
-- The weekly shift of an artist (apps/api/src/shift/shift-time.ts). Minutes and weekdays are
-- naturals, so the source's tests for negative numbers and fractions have no counterpart; its
-- `Number.isSafeInteger` is written out where no smaller bound follows.
use makeup_booking_system.Base.{
  ℕ, suc, zero, ◌+◌, ◌%◌, ◌-◌, Bool, true, false, ◌&&◌, ◌||◌, not, Option, none, some, List, [],
  ◌∷◌, ltb, leb, ◌==◌, if◌then◌else◌, any, flat_map, includes, Result, ok, err, ◌>>=◌, ◌>>◌, guard,
  throw_if,
}
use makeup_booking_system.Errors.{
  Error, shift_definition_invalid, break_pair_incomplete, break_time_order_invalid,
  time_out_of_range, time_step_invalid, workday_duplicated, workday_invalid, workdays_empty,
  work_time_order_invalid, ShiftValidationReason,
}
use makeup_booking_system.Shift.Intervals.{MinuteInterval, interval}

abbrev pub minutes_per_day : ℕ
minutes_per_day = 1440

abbrev pub time_step_minutes : ℕ
time_step_minutes = 15

abbrev pub max_safe_integer : ℕ
max_safe_integer = 9007199254740991

pub record ShiftDefinition : Type 0 where
  pub break_end_minute : Option ℕ
  pub break_start_minute : Option ℕ
  pub work_end_minute : ℕ
  pub work_start_minute : ℕ
  pub workdays : List ℕ

abbrev pub invalid : ShiftValidationReason → Error
invalid reason = shift_definition_invalid reason

unfoldable pub valid_minute : ℕ → Bool → Bool
valid_minute value allow_end_of_day =
    leb value (if allow_end_of_day then minutes_per_day else minutes_per_day - 1)

unfoldable pub assert_minute : ℕ → Bool → Result (Unit {0})
unfolding valid_minute
assert_minute value allow_end_of_day = do
  guard (valid_minute value allow_end_of_day) (invalid time_out_of_range)
  throw_if (not (value % time_step_minutes == 0)) (invalid time_step_invalid)

unfoldable pub assert_iso_weekday : ℕ → Result (Unit {0})
assert_iso_weekday iso_weekday =
    throw_if (ltb iso_weekday 1 || ltb 7 iso_weekday) (invalid workday_invalid)

-- The loop over the workdays, with the set of those that it has met.
unfoldable pub assert_workdays : List ℕ → List ℕ → Result (Unit {0})
unfolding assert_iso_weekday
assert_workdays unique_workdays [] = ok tt
assert_workdays unique_workdays (workday ∷ rest) = do
  assert_iso_weekday workday
  throw_if (includes unique_workdays workday) (invalid workday_duplicated)
  assert_workdays (workday ∷ unique_workdays) rest

-- The break's part of `validateShiftDefinition`.
unfoldable pub assert_break : ℕ → ℕ → Option ℕ → Option ℕ → Result (Unit {0})
unfolding assert_minute
assert_break work_start work_end none none = ok tt
assert_break work_start work_end none (some e) = err (invalid break_pair_incomplete)
assert_break work_start work_end (some s) none = err (invalid break_pair_incomplete)
assert_break work_start work_end (some s) (some e) = do
  assert_minute s false
  assert_minute e false
  throw_if (leb s work_start || leb e s || leb work_end e) (invalid break_time_order_invalid)

unfoldable pub is_empty {ℓ} : {A : Type ℓ} → List A → Bool
is_empty [] = true
is_empty (x ∷ xs) = false

unfoldable pub validate_shift_definition : ShiftDefinition → Result (Unit {0})
unfolding is_empty assert_workdays assert_minute assert_break
validate_shift_definition d = do
  throw_if (is_empty d.workdays) (invalid workdays_empty)
  assert_workdays [] d.workdays
  assert_minute d.work_start_minute false
  assert_minute d.work_end_minute true
  throw_if (leb d.work_end_minute d.work_start_minute) (invalid work_time_order_invalid)
  assert_break d.work_start_minute d.work_end_minute d.break_start_minute d.break_end_minute

-- The intervals before and after the break.
unfoldable pub split_by_break : ℕ → ℕ → Option ℕ → Option ℕ → List MinuteInterval
split_by_break work_start work_end none e = interval work_start work_end ∷ []
split_by_break work_start work_end (some s) none = interval work_start work_end ∷ []
split_by_break work_start work_end (some s) (some e) =
    interval work_start s ∷ interval e work_end ∷ []

unfoldable pub work_intervals_for_weekday : ShiftDefinition → ℕ → Result (List MinuteInterval)
work_intervals_for_weekday d iso_weekday = do
  validate_shift_definition d
  assert_iso_weekday iso_weekday
  ok (
      if includes d.workdays iso_weekday
      then split_by_break d.work_start_minute d.work_end_minute d.break_start_minute
          d.break_end_minute
      else [])

-- The test on a duration that `canFitInShift` and `listShiftStartMinutes` share.
unfoldable pub assert_duration : ℕ → Result (Unit {0})
assert_duration duration_minutes =
    throw_if
      (ltb max_safe_integer duration_minutes
        || leb duration_minutes 0
        || not (duration_minutes % time_step_minutes == 0))
      (invalid time_step_invalid)

unfoldable pub can_fit_in_shift : ShiftDefinition → ℕ → ℕ → ℕ → Result Bool
can_fit_in_shift d iso_weekday start_minute duration_minutes = do
  assert_minute start_minute false
  assert_duration duration_minutes
  let end_minute = start_minute + duration_minutes
  intervals ← work_intervals_for_weekday d iso_weekday
  ok (any (λ i. leb i.start_minute start_minute && leb end_minute i.end_minute) intervals)

-- The `for` loop over the starts in one interval, on fuel: `start` grows by 15 in each round, so
-- one round more than the interval's end is enough.
unfoldable pub starts_from : ℕ → ℕ → ℕ → ℕ → List ℕ
starts_from zero start duration_minutes end_minute = []
starts_from (suc fuel) start duration_minutes end_minute =
    let rest = starts_from fuel (start + time_step_minutes) duration_minutes end_minute in
    if leb (start + duration_minutes) end_minute then start ∷ rest else []

unfoldable pub interval_starts : ℕ → MinuteInterval → List ℕ
unfolding starts_from
interval_starts duration_minutes i =
    starts_from (suc i.end_minute) i.start_minute duration_minutes i.end_minute

unfoldable pub list_shift_start_minutes : ShiftDefinition → ℕ → ℕ → Result (List ℕ)
list_shift_start_minutes d iso_weekday duration_minutes = do
  assert_duration duration_minutes
  intervals ← work_intervals_for_weekday d iso_weekday
  ok (flat_map (interval_starts duration_minutes) intervals)

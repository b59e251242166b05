-- ===== src/Shift/WellFormed.antt =====
-- What validateShiftDefinition and workIntervalsForWeekday of apps/api/src/shift/shift-time.ts
-- promise.
use makeup_booking_system.Base.{
  ℕ, ◌%◌, ◌≤◌, ◌<◌, ◌≡◌, ◌↔◌, refl, Bool, false, ◌&&◌, not, Option, none, some, List, [], ◌∷◌,
  arith, ltb, leb, if◌then◌else◌, includes, All, ok, Bool-cases, inl, inr, >>=-eq-ok,
}
use makeup_booking_system.Shift.Intervals.{MinuteInterval, covers, IsProper}
use makeup_booking_system.Shift.Definition.{
  ShiftDefinition, assert_workdays, assert_break, is_empty, validate_shift_definition,
  split_by_break, work_intervals_for_weekday,
}

abbrev pub IsWeekday : ℕ → Type 0
IsWeekday w = (1 ≤ w) × (w ≤ 7)

abbrev pub Distinct : List ℕ → Type 0
Distinct [] = Unit
Distinct (x ∷ xs) = (includes xs x ≡ false) × Distinct xs

-- Every quarter of an hour begins at such a minute.
abbrev pub IsStep : ℕ → Type 0
IsStep m = m % 15 ≡ 0

-- The break, if there is one, lies inside of the working time.
abbrev pub BreakFits : ℕ → ℕ → Option ℕ → Option ℕ → Type 0
BreakFits work_start work_end none none = Unit
BreakFits work_start work_end none (some e) = ⊥
BreakFits work_start work_end (some s) none = ⊥
BreakFits work_start work_end (some s) (some e) =
    (work_start < s) × (s < e) × (e < work_end) × (e < 1440) × IsStep s × IsStep e

pub record IsWellFormed (d : ShiftDefinition) : Type 0 where
  pub some_day : is_empty d.workdays ≡ false
  pub days : All IsWeekday d.workdays
  pub distinct : Distinct d.workdays
  pub start_step : IsStep d.work_start_minute
  pub end_step : IsStep d.work_end_minute
  pub order : d.work_start_minute < d.work_end_minute
  pub in_day : d.work_end_minute ≤ 1440
  pub break_fits :
      BreakFits d.work_start_minute d.work_end_minute d.break_start_minute d.break_end_minute

-- No number of the first list stands in the second.
abbrev Apart : List ℕ → List ℕ → Type 0
Apart ws seen = All (λ w. includes seen w ≡ false) ws

Apart-tail :
    (ws seen : List ℕ) (w : ℕ) → Apart ws (w ∷ seen) → Apart ws seen × (includes ws w ≡ false)
Apart-tail [] seen w h = (tt, refl)
Apart-tail (v ∷ ws) seen w h = ground (arith, Apart-tail ws seen w h.1)

Apart-cons :
    (ws seen : List ℕ) (w : ℕ) → Apart ws seen → includes ws w ≡ false → Apart ws (w ∷ seen)
Apart-cons [] seen w h n = tt
Apart-cons (v ∷ ws) seen w h n = ground (arith, Apart-cons ws seen w h.1)

assert_workdays_sound :
    (seen ws : List ℕ)
    → assert_workdays seen ws ≡ ok tt
    → All IsWeekday ws × Distinct ws × Apart ws seen
unfolding assert_workdays
assert_workdays_sound seen [] h = (tt, tt, tt)
assert_workdays_sound seen (w ∷ ws) h =
    ground (arith, assert_workdays_sound (w ∷ seen) ws, Apart-tail ws seen w)

assert_workdays_complete :
    (seen ws : List ℕ)
    → All IsWeekday ws
    → Distinct ws
    → Apart ws seen
    → assert_workdays seen ws ≡ ok tt
unfolding assert_workdays
assert_workdays_complete seen [] d n a = refl
assert_workdays_complete seen (w ∷ ws) d n a =
    ground (arith, assert_workdays_complete (w ∷ seen) ws d.1 n.1, Apart-cons ws seen w a.1 n.0)

Apart-nil : (ws : List ℕ) → Apart ws []
Apart-nil [] = tt
Apart-nil (w ∷ ws) = (refl, Apart-nil ws)

assert_break_sound :
    (ws we : ℕ) (s e : Option ℕ) → assert_break ws we s e ≡ ok tt → BreakFits ws we s e
unfolding assert_break
assert_break_sound ws we none none h = tt
assert_break_sound ws we none (some e) h = ground arith
assert_break_sound ws we (some s) none h = ground arith
assert_break_sound ws we (some s) (some e) h = ground arith

assert_break_complete :
    (ws we : ℕ) (s e : Option ℕ) → BreakFits ws we s e → assert_break ws we s e ≡ ok tt
unfolding assert_break
assert_break_complete ws we none none h = refl
assert_break_complete ws we none (some e) h = absurd h
assert_break_complete ws we (some s) none h = absurd h
assert_break_complete ws we (some s) (some e) h = ground arith

validate_sound : (d : ShiftDefinition) → validate_shift_definition d ≡ ok tt → IsWellFormed d
unfolding validate_shift_definition
validate_sound d h = ground (
  arith,
  assert_workdays_sound [] d.workdays,
  assert_break_sound d.work_start_minute d.work_end_minute d.break_start_minute d.break_end_minute,
)

validate_complete : (d : ShiftDefinition) → IsWellFormed d → validate_shift_definition d ≡ ok tt
unfolding validate_shift_definition
validate_complete d h = ground (
  arith,
  assert_workdays_complete [] d.workdays h.days h.distinct (Apart-nil d.workdays),
  assert_break_complete d.work_start_minute d.work_end_minute d.break_start_minute
      d.break_end_minute h.break_fits,
)

-- A shift passes the validation exactly if it has distinct workdays from 1 to 7, at least one, a
-- working time in the day on quarters of an hour, and no break or one inside of it on quarters of
-- an hour.
pub validate_shift_definition-IsWellFormed :
    (d : ShiftDefinition) → (validate_shift_definition d ≡ ok tt) ↔ IsWellFormed d
validate_shift_definition-IsWellFormed d = (validate_sound d, validate_complete d)

-- The minute lies in the break.
abbrev pub in_break : Option ℕ → Option ℕ → ℕ → Bool
in_break (some s) (some e) m = leb s m && ltb m e
in_break (some s) none m = false
in_break none e m = false

covers-split_by_break :
    (ws we : ℕ) (s e : Option ℕ) (m : ℕ)
    → BreakFits ws we s e
    → covers (split_by_break ws we s e) m ≡ leb ws m && ltb m we && not (in_break s e m)
unfolding split_by_break
covers-split_by_break ws we none none m h = ground arith
covers-split_by_break ws we none (some e) m h = absurd h
covers-split_by_break ws we (some s) none m h = absurd h
covers-split_by_break ws we (some s) (some e) m h = ground arith

-- What a call that succeeds has checked, and what it returns.
pub work_intervals_for_weekday_inv :
    (d : ShiftDefinition) (w : ℕ) (is : List MinuteInterval)
    → work_intervals_for_weekday d w ≡ ok is
    → IsWellFormed d
      × (is ≡ (
          if includes d.workdays w
          then split_by_break d.work_start_minute d.work_end_minute d.break_start_minute
              d.break_end_minute
          else []))
unfolding work_intervals_for_weekday
work_intervals_for_weekday_inv d w is h =
    let (_, e, h') = >>=-eq-ok (validate_shift_definition d) _ h in
    (validate_sound d e, ground arith)

-- Where workIntervalsForWeekday succeeds, its intervals cover exactly the minutes of the working
-- time outside of the break, if the weekday is a workday, and no minute otherwise.
pub covers-work_intervals_for_weekday :
    (d : ShiftDefinition) (w m : ℕ) (is : List MinuteInterval)
    → work_intervals_for_weekday d w ≡ ok is
    → covers is m ≡ (
        includes d.workdays w
        && (leb d.work_start_minute m
            && ltb m d.work_end_minute
            && not (in_break d.break_start_minute d.break_end_minute m)))
covers-work_intervals_for_weekday d w m is h =
    let (v, e) = work_intervals_for_weekday_inv d w is h in
    rw e (
      ground (
        arith,
        covers-split_by_break d.work_start_minute d.work_end_minute d.break_start_minute
            d.break_end_minute m v.break_fits,
      ))

-- The interval is a stretch of the day that begins and ends on quarters of an hour.
pub record IsAligned (i : MinuteInterval) : Type 0 where
  pub proper : IsProper i
  pub ends_in_day : i.end_minute ≤ 1440
  pub start_on_step : IsStep i.start_minute
  pub end_on_step : IsStep i.end_minute

split_by_break-IsAligned :
    (ws we : ℕ) (s e : Option ℕ)
    → IsStep ws
    → IsStep we
    → ws < we
    → we ≤ 1440
    → BreakFits ws we s e
    → All IsAligned (split_by_break ws we s e)
unfolding split_by_break
split_by_break-IsAligned ws we none none p q o d h = ground arith
split_by_break-IsAligned ws we none (some e) p q o d h = absurd h
split_by_break-IsAligned ws we (some s) none p q o d h = absurd h
split_by_break-IsAligned ws we (some s) (some e) p q o d h = ground arith

-- Where workIntervalsForWeekday succeeds, its intervals are not empty, lie in the day, and begin
-- and end on quarters of an hour.
pub work_intervals_for_weekday-IsAligned :
    (d : ShiftDefinition) (w : ℕ) (is : List MinuteInterval)
    → work_intervals_for_weekday d w ≡ ok is
    → All IsAligned is
work_intervals_for_weekday-IsAligned d w is h =
    let (v, e) = work_intervals_for_weekday_inv d w is h in
    let aligned =
      split_by_break-IsAligned d.work_start_minute d.work_end_minute d.break_start_minute
        d.break_end_minute v.start_step v.end_step v.order v.in_day v.break_fits in
    elim (Bool-cases (includes d.workdays w)) [
      | inl day ↦ rw (e, day) aligned
      | inr off ↦ rw (e, off) tt
    ]

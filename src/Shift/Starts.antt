-- ===== src/Shift/Starts.antt =====
-- The starts that canFitInShift and listShiftStartMinutes of apps/api/src/shift/shift-time.ts
-- accept.
use makeup_booking_system.Base.{
  ℕ, zero, suc, ◌+◌, ◌-◌, ◌%◌, ◌<◌, ◌≡◌, refl, false, ◌&&◌, List, [], ◌∷◌, arith, leb, ◌==◌,
  includes, includes-append, All, flat_map, ok, ◌>>=◌, Result-cases, inl, inr,
}
use makeup_booking_system.Shift.Intervals.{MinuteInterval, contains}
use makeup_booking_system.Shift.Definition.{
  ShiftDefinition, starts_from, interval_starts, list_shift_start_minutes, can_fit_in_shift,
  work_intervals_for_weekday, assert_minute,
}
use makeup_booking_system.Shift.WellFormed.{IsStep, IsAligned, work_intervals_for_weekday-IsAligned}

-- With enough fuel the loop lists the starts on the grid from `start` that leave room.
includes-starts_from :
    (fuel start d e s : ℕ)
    → e < start + fuel
    → includes (starts_from fuel start d e) s
      ≡ leb start s && ((s - start) % 15 == 0) && leb (s + d) e
unfolding starts_from
includes-starts_from zero start d e s h = ground arith
includes-starts_from (suc fuel) start d e s h =
    ground (arith, includes-starts_from fuel (start + 15) d e s)

includes-interval_starts :
    (d : ℕ) (i : MinuteInterval) (s : ℕ)
    → IsAligned i
    → IsStep s
    → includes (interval_starts d i) s ≡ contains (i ∷ []) s (s + d)
unfolding interval_starts
includes-interval_starts d i s a p =
    ground (arith, includes-starts_from (suc i.end_minute) i.start_minute d i.end_minute s)

includes-flat_map_starts :
    (d : ℕ) (is : List MinuteInterval) (s : ℕ)
    → All IsAligned is
    → IsStep s
    → includes (flat_map (interval_starts d) is) s ≡ contains is s (s + d)
includes-flat_map_starts d [] s a p = refl
includes-flat_map_starts d (i ∷ is) s a p = ground (
  arith,
  includes-append (interval_starts d i) (flat_map (interval_starts d) is) s,
  includes-interval_starts d i s a.0 p,
  includes-flat_map_starts d is s a.1 p,
)

assert_minute_start : (s : ℕ) → s < 1440 → IsStep s → assert_minute s false ≡ ok tt
unfolding assert_minute
assert_minute_start s h p = ground arith

-- For a start of the day on a quarter of an hour, canFitInShift answers whether
-- listShiftStartMinutes lists the start, and throws the same error where the listing throws.
pub can_fit_in_shift-list_shift_start_minutes :
    (d : ShiftDefinition) (w s duration : ℕ)
    → s < 1440
    → IsStep s
    → can_fit_in_shift d w s duration
      ≡ (list_shift_start_minutes d w duration >>= λ starts. ok (includes starts s))
unfolding can_fit_in_shift list_shift_start_minutes
can_fit_in_shift-list_shift_start_minutes d w s duration h p =
    elim (Result-cases (work_intervals_for_weekday d w)) [
      | inl (is, e) ↦ rw e (
          ground (
            arith,
            assert_minute_start s h p,
            includes-flat_map_starts duration is s (work_intervals_for_weekday-IsAligned d w is e)
                p,
          ))
      | inr (x, e) ↦ rw e (ground (arith, assert_minute_start s h p))
    ]

-- ===== src/Shift/Subtraction.antt =====
-- What subtractMinuteIntervals of apps/api/src/shift/shift-time.ts leaves.
use makeup_booking_system.Base.{
  ℕ, ◌<◌, ◌≡◌, refl, ◌&&◌, not, List, [], ◌∷◌, arith, ltb, leb, any-append, All,
}
use makeup_booking_system.Shift.Intervals.{
  MinuteInterval, cut, cut_all, subtract_minute_intervals, covers, contains, meets, IsProper,
}

covers-cut :
    (b i : MinuteInterval) (m : ℕ)
    → covers (cut b i) m ≡ covers (i ∷ []) m && not (covers (b ∷ []) m)
unfolding cut
covers-cut b i m = ground arith

covers-cut_all :
    (b : MinuteInterval) (is : List MinuteInterval) (m : ℕ)
    → covers (cut_all is b) m ≡ covers is m && not (covers (b ∷ []) m)
unfolding cut_all
covers-cut_all b [] m = refl
covers-cut_all b (i ∷ is) m = ground (
  arith,
  any-append (λ j. leb j.start_minute m && ltb m j.end_minute) (cut b i) (cut_all is b),
  covers-cut b i m,
  covers-cut_all b is m,
)

-- A minute is left by subtractMinuteIntervals exactly if it lies in an interval and in no blocked
-- interval.
pub covers-subtract_minute_intervals :
    (is bs : List MinuteInterval) (m : ℕ)
    → covers (subtract_minute_intervals is bs) m ≡ covers is m && not (covers bs m)
unfolding subtract_minute_intervals
covers-subtract_minute_intervals is [] m = ground arith
covers-subtract_minute_intervals is (b ∷ bs) m =
    ground (arith, covers-subtract_minute_intervals (cut_all is b) bs m, covers-cut_all b is m)

contains-cut :
    (b i : MinuteInterval) (s e : ℕ)
    → s < e
    → IsProper b
    → contains (cut b i) s e ≡ contains (i ∷ []) s e && not (meets (b ∷ []) s e)
unfolding cut
contains-cut b i s e h p = ground arith

contains-cut_all :
    (b : MinuteInterval) (is : List MinuteInterval) (s e : ℕ)
    → s < e
    → IsProper b
    → contains (cut_all is b) s e ≡ contains is s e && not (meets (b ∷ []) s e)
unfolding cut_all
contains-cut_all b [] s e h p = refl
contains-cut_all b (i ∷ is) s e h p = ground (
  arith,
  any-append (λ j. leb j.start_minute s && leb e j.end_minute) (cut b i) (cut_all is b),
  contains-cut b i s e h p,
  contains-cut_all b is s e h p,
)

-- Where no blocked interval is empty, a stretch of time that is not empty fits into one of the
-- intervals that are left exactly if it fits into one of the given intervals and meets no blocked
-- interval.
pub contains-subtract_minute_intervals :
    (is bs : List MinuteInterval) (s e : ℕ)
    → s < e
    → All IsProper bs
    → contains (subtract_minute_intervals is bs) s e ≡ contains is s e && not (meets bs s e)
unfolding subtract_minute_intervals
contains-subtract_minute_intervals is [] s e h p = ground arith
contains-subtract_minute_intervals is (b ∷ bs) s e h p = ground (
  arith,
  contains-subtract_minute_intervals (cut_all is b) bs s e h p.1,
  contains-cut_all b is s e h p.0,
)

-- ===== src/Shift/Intervals.antt =====
-- Minute intervals of a day (apps/api/src/shift/shift-time.ts). An interval holds its start and
-- not its end. Minutes are naturals.
use makeup_booking_system.Base.{
  ℕ, ◌<◌, Bool, ◌&&◌, ◌||◌, List, [], ◌∷◌, ◌++◌, foldl, ltb, leb, any, flat_map, if◌then◌else◌,
}

pub record MinuteInterval : Type 0 where
  pub end_minute : ℕ
  pub start_minute : ℕ

abbrev pub interval : ℕ → ℕ → MinuteInterval
interval s e = record { end_minute = e; start_minute = s }

-- What is left of one interval beside one blocked interval.
unfoldable pub cut : MinuteInterval → MinuteInterval → List MinuteInterval
cut blocked i =
    if leb blocked.end_minute i.start_minute || leb i.end_minute blocked.start_minute
    then i ∷ []
    else ((if ltb i.start_minute blocked.start_minute
          then interval i.start_minute blocked.start_minute ∷ []
          else [])
        ++ (if ltb blocked.end_minute i.end_minute
            then interval blocked.end_minute i.end_minute ∷ []
            else []))

-- The body of the `reduce`: one blocked interval is cut out of all that remain.
unfoldable pub cut_all : List MinuteInterval → MinuteInterval → List MinuteInterval
unfolding cut
cut_all remaining blocked = flat_map (cut blocked) remaining

unfoldable pub subtract_minute_intervals :
    List MinuteInterval → List MinuteInterval → List MinuteInterval
unfolding cut_all
subtract_minute_intervals intervals blocked_intervals = foldl cut_all intervals blocked_intervals

-- A minute lies in one of the intervals.
abbrev pub covers : List MinuteInterval → ℕ → Bool
covers intervals m = any (λ i. leb i.start_minute m && ltb m i.end_minute) intervals

-- The minutes from `s` to `e` lie in a single one of the intervals.
abbrev pub contains : List MinuteInterval → ℕ → ℕ → Bool
contains intervals s e = any (λ i. leb i.start_minute s && leb e i.end_minute) intervals

-- The minutes from `s` to `e` meet one of the intervals.
abbrev pub meets : List MinuteInterval → ℕ → ℕ → Bool
meets intervals s e = any (λ i. ltb i.start_minute e && ltb s i.end_minute) intervals

-- The interval is not empty.
abbrev pub IsProper : MinuteInterval → Type 0
IsProper i = i.start_minute < i.end_minute

-- ===== src/Shift/Calendar.antt =====
-- apps/api/src/shift/business-date.ts. A `Date` is the number of milliseconds since 1992-01-01 in
-- UTC, so no time before 1992 is modelled; a value that may be an invalid `Date` is an `Option`. The
-- zone Asia/Shanghai, whose last summer time ended in September 1991, is eight hours ahead of UTC at
-- all of these times. The source takes only differences of times, and the parts of their dates, so
-- it does not matter where the count begins, but for the weekday of its first day.
use makeup_booking_system.Base.{
  ℕ, ◌+◌, ◌-◌, ◌*◌, ◌/◌, ◌%◌, ◌≤◌, ◌<◌, ◌≡◌, Bool, false, Option, none, some, arith, ◌==◌,
  if◌then◌else◌,
}

abbrev pub day_ms : ℕ
day_ms = 86400000

abbrev pub minute_ms : ℕ
minute_ms = 60000

-- `BUSINESS_UTC_OFFSET_MINUTES`
abbrev pub business_utc_offset_minutes : ℕ
business_utc_offset_minutes = 480

abbrev pub business_offset_ms : ℕ
business_offset_ms = 28800000

-- The day's number since 1992-01-01, which stands for the text of the day.
unfoldable pub format_date_only : ℕ → ℕ
format_date_only value = value / day_ms

unfoldable pub to_business_date : ℕ → ℕ
to_business_date now = (now + business_offset_ms) / day_ms * day_ms

-- `getUTCDay() || 7`: 1992-01-01 was a Wednesday.
unfoldable pub iso_weekday_for_date : ℕ → ℕ
iso_weekday_for_date value =
    let utc_day = (value / day_ms + 3) % 7 in if utc_day == 0 then 7 else utc_day

-- Exact from 1992-01-01T08:00 on, where the subtraction does not stop at 0.
unfoldable pub business_date_minute_to_instant : ℕ → ℕ → ℕ
business_date_minute_to_instant date minute =
    date + minute * minute_ms - business_utc_offset_minutes * minute_ms

-- `Math.round` adds a half and rounds down.
unfoldable pub instant_to_business_date_minute : ℕ → ℕ → ℕ
instant_to_business_date_minute date instant =
    (instant + minute_ms / 2 + business_utc_offset_minutes * minute_ms - date) / minute_ms

-- The `setUTCDate` and `addDays` of the services.
unfoldable pub add_days : ℕ → ℕ → ℕ
add_days date days = date + days * day_ms

-- The test of the services' `assertDateOnly`: a valid date at midnight in UTC.
unfoldable pub is_date_only : Option ℕ → Bool
is_date_only none = false
is_date_only (some value) = value % day_ms == 0

abbrev pub IsMidnight : ℕ → Type 0
IsMidnight date = date % day_ms ≡ 0

-- From 08:00 UTC on 1992-01-01 on, a minute of a date is found again from its instant.
pub instant_to_business_date_minute-business_date_minute_to_instant :
    (date minute : ℕ)
    → business_offset_ms ≤ date
    → instant_to_business_date_minute date (business_date_minute_to_instant date minute) ≡ minute
unfolding instant_to_business_date_minute business_date_minute_to_instant
instant_to_business_date_minute-business_date_minute_to_instant date minute h = omega arith

-- From 1992-01-02 on, the instants of the minutes of a business date lie on that business date.
pub to_business_date-business_date_minute_to_instant :
    (date minute : ℕ)
    → IsMidnight date
    → business_offset_ms ≤ date
    → minute < 1440
    → to_business_date (business_date_minute_to_instant date minute) ≡ date
unfolding to_business_date business_date_minute_to_instant
to_business_date-business_date_minute_to_instant date minute h k l = omega arith

-- Later minutes have later instants.
pub instant_lt :
    (date m n : ℕ)
    → business_offset_ms ≤ date
    → m < n
    → business_date_minute_to_instant date m < business_date_minute_to_instant date n
unfolding business_date_minute_to_instant
instant_lt date m n h k = omega arith

pub instant-add :
    (date m d : ℕ)
    → business_offset_ms ≤ date
    → business_date_minute_to_instant date m + d * minute_ms
      ≡ business_date_minute_to_instant date (m + d)
unfolding business_date_minute_to_instant
instant-add date m d h = omega arith

pub iso_weekday_for_date_bounds :
    (date : ℕ) → (1 ≤ iso_weekday_for_date date) × (iso_weekday_for_date date ≤ 7)
unfolding iso_weekday_for_date
iso_weekday_for_date_bounds date = ground arith

-- Weekdays repeat after seven days.
pub iso_weekday_for_date-add_days :
    (date : ℕ) → iso_weekday_for_date (add_days date 7) ≡ iso_weekday_for_date date
unfolding iso_weekday_for_date add_days
iso_weekday_for_date-add_days date = ground arith

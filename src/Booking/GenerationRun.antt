-- ===== src/Booking/GenerationRun.antt =====
-- The run of apps/api/src/booking/fixed-generation.service.ts over all rules and dates. Each date is
-- a transaction of its own, so an error ends the run and keeps what was generated before it.
use makeup_booking_system.Base.{
  Bool, List, Option, Result, [], err, filter, if◌then◌else◌, leb, ltb, none, ok, some, suc, true,
  zero, ◌&&◌, ◌+◌, ◌-◌, ◌>>=◌, ◌∷◌,
}
use makeup_booking_system.Booking.Generation.{
  FixedGenerationResult, FixedGenerationSkipReason, FixedGenerationSkipped, count_skipped,
  empty_skipped, generate_date, has_weekday,
}
use makeup_booking_system.Database.{Database, FixedAppointmentRule}
use makeup_booking_system.Shift.Calendar.{add_days, day_ms, format_date_only, to_business_date}
use makeup_booking_system.Base.{ℕ}

-- What a part of the run has counted, or the error that has ended it, with the tables.
abbrev pub Progress : Type 0
Progress = Result (ℕ × FixedGenerationSkipped) × Database

abbrev pub count_outcome :
    Option FixedGenerationSkipReason → ℕ × FixedGenerationSkipped → ℕ × FixedGenerationSkipped
count_outcome none counts = (counts.0 + 1, counts.1)
count_outcome (some reason) counts = (counts.0, count_skipped reason counts.1)

-- The dates from `date` to `last`, on fuel: the window has eight dates.
unfoldable pub dates_from : ℕ → ℕ → ℕ → List ℕ
dates_from zero date last = []
dates_from (suc fuel) date last =
    let rest = dates_from fuel (add_days date 1) last in if leb date last then date ∷ rest else []

-- The rules that are in force on a date of the window.
unfoldable pub rules_in_window : Database → ℕ → ℕ → List FixedAppointmentRule
rules_in_window db window_from window_through =
    filter
      (λ r.
        leb r.valid_from window_through
        && elim r.valid_until [ none ↦ true | some u ↦ ltb window_from u ])
      db.rules

abbrev pub later : ℕ → ℕ → ℕ
later a b = if ltb a b then b else a

abbrev pub earlier : ℕ → ℕ → ℕ
earlier a b = if ltb b a then b else a

abbrev pub last_date : Option ℕ → ℕ → ℕ
last_date none window_through = window_through
last_date (some valid_until) window_through = earlier window_through (valid_until - day_ms)

unfoldable pub window_dates : FixedAppointmentRule → ℕ → ℕ → List ℕ
window_dates rule window_from window_through =
    dates_from 8 (later window_from rule.valid_from) (last_date rule.valid_until window_through)

module _ (next_id : Database → ℕ) where
  -- The outcome of a date is counted.
  unfoldable pub count_date :
      ℕ × FixedGenerationSkipped
      → Database
      → Result (Option FixedGenerationSkipReason × Database)
      → Progress
  count_date counts db (ok (outcome, db')) = (ok (count_outcome outcome counts), db')
  count_date counts db (err e) = (err e, db)

  -- One date, where the run has not ended; `weekday` tells the rule's weekdays, which were read
  -- before.
  unfoldable pub generate_next : (ℕ → Bool) → ℕ → ℕ → Progress → Progress
  generate_next weekday rule_id date (err e, db) = (err e, db)
  generate_next weekday rule_id date (ok counts, db) =
      if weekday date
      then count_date counts db (generate_date db rule_id date (next_id db))
      else (ok counts, db)

  unfoldable pub generate_dates : (ℕ → Bool) → ℕ → List ℕ → Progress → Progress
  generate_dates weekday rule_id [] progress = progress
  generate_dates weekday rule_id (date ∷ dates) progress =
      generate_dates weekday rule_id dates (generate_next weekday rule_id date progress)

  unfoldable pub generate_rules :
      (ℕ → ℕ → Bool) → ℕ → ℕ → List FixedAppointmentRule → Progress → Progress
  generate_rules weekday window_from window_through [] progress = progress
  generate_rules weekday window_from window_through (rule ∷ rules) progress =
      generate_rules weekday window_from window_through rules (
        generate_dates (weekday rule.id) rule.id (window_dates rule window_from window_through)
          progress)

  unfoldable pub generate : Database → ℕ → Result FixedGenerationResult × Database
  generate db now =
      let today = to_business_date now in
      let window_from = add_days today 1 in
      let window_through = add_days today 8 in
      let (progress, db') =
        generate_rules (has_weekday db) window_from window_through
          (rules_in_window db window_from window_through) (ok (0, empty_skipped), db) in
      (
        (progress >>= λ counts. ok (record {
          generated = counts.0;
          skipped = counts.1;
          window_from = format_date_only window_from;
          window_through = format_date_only window_through;
        })),
        db',
      )

-- ===== src/Booking/GenerationRunLaws.antt =====
-- The run of apps/api/src/booking/fixed-generation.service.ts keeps the table of appointments
-- consistent.
use makeup_booking_system.Booking.Appointments.{tables}
use makeup_booking_system.Tables.Sorted.{All-filter}
use makeup_booking_system.Base.{
  false, if◌then◌else◌, ◌*◌, ◌+◌, ◌<◌, All, Bool, Bool-cases, List, Option, Option-cases, Result,
  [], ap, arith, err, inl, inr, leb, ltb, ltb→lt, none, ok, ok-pair, refl, some, suc, sym, zero,
  ◌∙◌, ◌∷◌, ◌≡◌, ◌≤◌, ℕ,
}
use makeup_booking_system.Shift.Calendar.{
  day_ms, IsMidnight, add_days, business_offset_ms, to_business_date,
}
use makeup_booking_system.Booking.Appointments.{
  Insertion, append_audit, exclusion_violation, inserted, unique_violation,
}
use makeup_booking_system.Booking.Generation.{
  FixedGenerationSkipReason, FixedGenerationSkipped, already_processed, effective_rule,
  empty_skipped, generate_date, generate_found, generate_or_skip, generate_rule, has_weekday,
  insert_fixed,
}
use makeup_booking_system.Booking.GenerationLaws.{IsRule}
use makeup_booking_system.Booking.GenerationRun.{
  Progress, count_date, dates_from, generate, generate_dates, generate_next, generate_rules,
  last_date, later, rules_in_window, window_dates,
}
use makeup_booking_system.Booking.GenerationSafety.{generate_date-IsConsistent, generate_rule_inv}
use makeup_booking_system.Booking.Schedule.{IsConsistent}
use makeup_booking_system.Database.{Appointment, Database, FixedAppointmentRule}

-- What holds of the tables during the run.
pub record IsReadyDb (db : Database) : Type 0 where
  pub rules : All IsRule db.rules
  pub appointments : IsConsistent db.appointments

abbrev pub IsDate : ℕ → Type 0
IsDate date = IsMidnight date × (business_offset_ms ≤ date)

insert_fixed-tables :
    (db : Database) (row : Appointment) (i : Insertion)
    → tables (insert_fixed db row i).1 ≡ tables db
unfolding insert_fixed append_audit
insert_fixed-tables db row (inserted rows) = refl
insert_fixed-tables db row unique_violation = refl
insert_fixed-tables db row exclusion_violation = refl

generate_or_skip-tables :
    (db : Database) (rule : FixedAppointmentRule) (date id : ℕ)
    (reason : Option FixedGenerationSkipReason)
    → tables (generate_or_skip db rule date id reason).1 ≡ tables db
unfolding generate_or_skip
generate_or_skip-tables db rule date id (some reason) = refl
generate_or_skip-tables db rule date id none = insert_fixed-tables db _ _

pub generate_date-tables :
    (db : Database) (rule_id date id : ℕ) (o : Option FixedGenerationSkipReason) (db' : Database)
    → generate_date db rule_id date id ≡ ok (o, db')
    → tables db' ≡ tables db
unfolding generate_date generate_found
generate_date-tables db rule_id date id o db' h =
    elim (Option-cases (effective_rule db rule_id date)) [
      | inl e ↦
          let k : ok (some already_processed, db) ≡ ok (o, db') = rw e at h in
          let (_, same) =
            ok-pair {A = Option FixedGenerationSkipReason} {B = Database}
              (some already_processed, db) (o, db') k in
          ap tables (sym same)
      | inr (rule, e) ↦
          let k : generate_rule db rule date id ≡ ok (o, db') = rw e at h in
          elim (generate_rule_inv db rule date id o db' k) [
            | inl (_, same) ↦ ap tables same
            | inr (day, _, g) ↦
                ap (λ (t : Option FixedGenerationSkipReason × Database). tables t.1) (sym g)
                ∙ generate_or_skip-tables db rule date id _
          ]
    ]

next_day : (date : ℕ) → IsDate date → IsDate (add_days date 1)
unfolding add_days
next_day date d = (omega (arith, d.0), omega (arith, d.1))

dates_from-IsDate : (fuel date last : ℕ) → IsDate date → All IsDate (dates_from fuel date last)
unfolding dates_from
dates_from-IsDate zero date last d = tt
dates_from-IsDate (suc fuel) date last d = elim (Bool-cases (leb date last)) [
  | inl y ↦ rw y (d, dates_from-IsDate fuel (add_days date 1) last (next_day date d))
  | inr n ↦ rw n tt
]

later-IsDate : (a b : ℕ) → IsDate a → IsMidnight b → IsDate (later a b)
later-IsDate a b d m = elim (Bool-cases (ltb a b)) [
  | inl y ↦ rw y (m, omega (arith, d.1, ltb→lt a b y))
  | inr n ↦ rw n d
]

tomorrow-IsDate : (now : ℕ) → IsDate (add_days (to_business_date now) 1)
unfolding add_days to_business_date
tomorrow-IsDate now = (omega arith, omega arith)

-- What a generated date keeps, a run keeps: `P` holds of the tables after each date.
module _ (P : Database → Type 0)
    (kept : (db : Database) (rule_id date id : ℕ) (o : Option FixedGenerationSkipReason)
        (db' : Database)
      → IsDate date
      → P db
      → generate_date db rule_id date id ≡ ok (o, db')
      → P db')
    (next_id : Database → ℕ) where
  count_date_kept :
      (counts : ℕ × FixedGenerationSkipped) (db : Database)
      (r : Result (Option FixedGenerationSkipReason × Database))
      → P db
      → ((o : Option FixedGenerationSkipReason) (db' : Database) → r ≡ ok (o, db') → P db')
      → P (count_date next_id counts db r).1
  unfolding count_date
  count_date_kept counts db (ok (o, db')) h k = k o db' refl
  count_date_kept counts db (err e) h k = h

  generate_next_kept :
      (weekday : ℕ → Bool) (rule_id date : ℕ) (progress : Progress)
      → IsDate date
      → P progress.1
      → P (generate_next next_id weekday rule_id date progress).1
  unfolding generate_next
  generate_next_kept weekday rule_id date (err e, db) d h = h
  generate_next_kept weekday rule_id date (ok counts, db) d h = elim (Bool-cases (weekday date)) [
    | inl day ↦ rw day (
        count_date_kept counts db (generate_date db rule_id date (next_id db)) h
          (λ o db' g. kept db rule_id date (next_id db) o db' d h g))
    | inr off ↦ rw off h
  ]

  generate_dates_kept :
      (weekday : ℕ → Bool) (rule_id : ℕ) (dates : List ℕ) (progress : Progress)
      → All IsDate dates
      → P progress.1
      → P (generate_dates next_id weekday rule_id dates progress).1
  unfolding generate_dates
  generate_dates_kept weekday rule_id [] progress d h = h
  generate_dates_kept weekday rule_id (date ∷ dates) progress d h =
      generate_dates_kept weekday rule_id dates _ d.1
        (generate_next_kept weekday rule_id date progress d.0 h)

  generate_rules_kept :
      (weekday : ℕ → ℕ → Bool) (window_from window_through : ℕ) (rules : List FixedAppointmentRule)
      (progress : Progress)
      → ((r : FixedAppointmentRule)
          → IsRule r
          → All IsDate (window_dates r window_from window_through))
      → All IsRule rules
      → P progress.1
      → P (generate_rules next_id weekday window_from window_through rules progress).1
  unfolding generate_rules
  generate_rules_kept weekday window_from window_through [] progress w r h = h
  generate_rules_kept weekday window_from window_through (rule ∷ rules) progress w r h =
      generate_rules_kept weekday window_from window_through rules _ w r.1 (
        generate_dates_kept (weekday rule.id) rule.id (window_dates rule window_from window_through)
          progress (w rule r.0) h)

  pub generate_kept :
      (db : Database) (now : ℕ) → All IsRule db.rules → P db → P (generate next_id db now).1
  unfolding generate rules_in_window window_dates
  generate_kept db now rules h =
      let window_from = add_days (to_business_date now) 1 in
      let window_through = add_days (to_business_date now) 8 in
      generate_rules_kept (has_weekday db) window_from window_through
        (rules_in_window db window_from window_through) (ok (0, empty_skipped), db)
        (λ r k.
          dates_from-IsDate 8 (later window_from r.valid_from)
            (last_date r.valid_until window_through)
            (later-IsDate window_from r.valid_from (tomorrow-IsDate now) k.valid_from_midnight))
        (All-filter IsRule _ db.rules rules) h

-- A run keeps the rules and the consistency of the appointments.
pub generate-IsReadyDb :
    (next_id : Database → ℕ) (db : Database) (now : ℕ)
    → IsReadyDb db
    → IsReadyDb (generate next_id db now).1
generate-IsReadyDb next_id db now h =
    generate_kept IsReadyDb
      (λ db rule_id date id o db' d r g. record {
        rules = rw (ap (λ t. t.0) (generate_date-tables db rule_id date id o db' g)) r.rules;
        appointments =
            generate_date-IsConsistent db rule_id date id o db' r.rules d.0 d.1 r.appointments g;
      })
      next_id db now h.rules h

dates_from-nil : (g date last : ℕ) → last < date → dates_from g date last ≡ []
unfolding dates_from
dates_from-nil zero date last h = refl
dates_from-nil (suc g) date last h = let over : leb date last ≡ false = ground arith in rw over refl

dates_from_fuel :
    (f g date last : ℕ)
    → last < date + f * day_ms
    → last < date + g * day_ms
    → dates_from f date last ≡ dates_from g date last
unfolding dates_from add_days
dates_from_fuel zero g date last h k = sym (dates_from-nil g date last (omega (arith, h)))
dates_from_fuel (suc f) zero date last h k = dates_from-nil (suc f) date last (omega (arith, k))
dates_from_fuel (suc f) (suc g) date last h k =
    ap (λ (rest : List ℕ). if leb date last then date ∷ rest else [])
      (dates_from_fuel f g (date + 1 * day_ms) last (omega (arith, h)) (omega (arith, k)))

last_date-le :
    (until : Option ℕ) (window_through : ℕ) → last_date until window_through ≤ window_through
last_date-le none window_through = omega arith
last_date-le (some u) window_through = ground arith

later-le : (a b : ℕ) → a ≤ later a b
later-le a b = ground arith

-- The fuel of eight dates is enough for a window of eight dates: more fuel lists the same dates.
pub window_dates_fuel :
    (rule : FixedAppointmentRule) (window_from fuel : ℕ)
    → 8 ≤ fuel
    → dates_from fuel
        (later window_from rule.valid_from)
        (last_date rule.valid_until (add_days window_from 7))
      ≡ window_dates rule window_from (add_days window_from 7)
unfolding window_dates
window_dates_fuel rule window_from fuel h =
    let start = later window_from rule.valid_from in
    let last = last_date rule.valid_until (add_days window_from 7) in
    let l : last ≤ add_days window_from 7 =
      last_date-le rule.valid_until (add_days window_from 7) in
    let w : window_from ≤ start = later-le window_from rule.valid_from in
    let e : add_days window_from 7 ≡ window_from + 7 * day_ms = unfold add_days in refl in
    dates_from_fuel fuel 8 start last (omega arith) (omega arith)

-- ===== src/Booking/GenerationSafety.antt =====
-- The generation of a fixed appointment keeps the table of appointments consistent, and happens once
-- (apps/api/src/booking/fixed-generation.service.ts).
use makeup_booking_system.Booking.Placed.{IsBookable, listed_positive}
use makeup_booking_system.Booking.GenerationLaws.{
  insert_appointment-free, generate_or_skip-IsConsistent, IsRule,
}
use makeup_booking_system.Base.{
  ==_refl, List, ap, none, true, ◌∙◌, >>=-eq-ok, All, All-find, Bool-cases, Option, Option-cases,
  inl, inr, ok, ok-injective, ok-pair, refl, some, subst, sym, ◌≡◌, ◌≤◌, ◌⊎◌, ℕ,
}
use makeup_booking_system.Booking.Appointments.{
  Insertion, append_audit, exclusion_violation, insert_appointment, inserted, unique_violation,
}
use makeup_booking_system.Booking.Generation.{
  fixed_appointment, fixed_sequence, has_weekday, insert_fixed, slot_conflict,
  FixedGenerationSkipReason, already_processed, effective_rule, generate_date, generate_found,
  generate_or_skip, generate_rule, generated_before, skip_reason,
}
use makeup_booking_system.Database.{Appointment, Database, FixedAppointmentRule}
use makeup_booking_system.Availability.{ArtistDay, day_intervals, get_day_with_client}
use makeup_booking_system.Booking.Schedule.{IsConsistent}
use makeup_booking_system.Shift.Calendar.{IsMidnight, business_offset_ms}

pub rule-IsBookable :
    (rule : FixedAppointmentRule) (date : ℕ)
    → IsRule rule
    → IsMidnight date
    → business_offset_ms ≤ date
    → IsBookable date rule.start_minute rule.duration_minutes
rule-IsBookable rule date r m h = record {
  midnight = m;
  modern = h;
  start_step = r.start_step;
  listed = r.listed;
  lasts = listed_positive rule.duration_minutes r.listed;
  in_day = r.in_day;
}

-- What a rule that is found has done.
pub generate_rule_inv :
    (db : Database) (rule : FixedAppointmentRule) (date id : ℕ)
    (o : Option FixedGenerationSkipReason) (db' : Database)
    → generate_rule db rule date id ≡ ok (o, db')
    → ((o ≡ some already_processed) × (db' ≡ db))
      ⊎ ((day : ArtistDay) × (get_day_with_client db rule.artist_id date ≡ ok day)
          × (generate_or_skip db rule date id (skip_reason db rule date (day_intervals day.outcome))
              ≡ (o, db')))
unfolding generate_rule
generate_rule_inv db rule date id o db' h = elim (Bool-cases (generated_before db rule.id date)) [
  | inl before ↦
      let (x, y) =
        ok-pair {A = Option FixedGenerationSkipReason} {B = Database} (some already_processed, db)
          (o, db') (rw before at h) in
      inl (sym x, sym y)
  | inr new ↦
      let (day, e, k) = >>=-eq-ok (get_day_with_client db rule.artist_id date) _ (rw new at h) in
      inr (day, e, ok-injective _ (o, db') k)
]

generate_rule-IsConsistent :
    (db : Database) (rule : FixedAppointmentRule) (date id : ℕ)
    (o : Option FixedGenerationSkipReason) (db' : Database)
    → IsConsistent db.appointments
    → IsBookable date rule.start_minute rule.duration_minutes
    → generate_rule db rule date id ≡ ok (o, db')
    → IsConsistent db'.appointments
generate_rule-IsConsistent db rule date id o db' c b h =
    elim (generate_rule_inv db rule date id o db' h) [
      | inl (_, same) ↦ rw same c
      | inr (day, _, e) ↦
          let kept =
            generate_or_skip-IsConsistent db rule date id (day_intervals day.outcome) _ c b refl in
          subst (λ (t : Option FixedGenerationSkipReason × Database). IsConsistent t.1.appointments)
            e kept
    ]

-- Where the rules keep their CHECK constraint, generating a date keeps the table of appointments
-- consistent, whether it creates an appointment or skips the date. The date is a midnight after
-- 1992-01-01.
pub generate_date-IsConsistent :
    (db : Database) (rule_id date id : ℕ) (o : Option FixedGenerationSkipReason) (db' : Database)
    → All IsRule db.rules
    → IsMidnight date
    → business_offset_ms ≤ date
    → IsConsistent db.appointments
    → generate_date db rule_id date id ≡ ok (o, db')
    → IsConsistent db'.appointments
unfolding generate_date generate_found effective_rule
generate_date-IsConsistent db rule_id date id o db' rules m l c h =
    elim (Option-cases (effective_rule db rule_id date)) [
      | inl e ↦
          let k : ok (some already_processed, db) ≡ ok (o, db') = rw e at h in
          let (_, same) =
            ok-pair {A = Option FixedGenerationSkipReason} {B = Database}
              (some already_processed, db) (o, db') k in
          rw (← same) c
      | inr (rule, e) ↦
          let r = All-find IsRule _ db.rules rule rules e in
          generate_rule-IsConsistent db rule date id o db' c (rule-IsBookable rule date r m l)
            (rw e at h)
    ]

-- A generation that creates an appointment adds its row, and changes no table that it reads but the
-- appointments.
insert_fixed_inv :
    (db : Database) (row : Appointment) (i : Insertion) (db' : Database)
    → insert_fixed db row i ≡ (none, db')
    → (rows : List Appointment) × (i ≡ inserted rows)
      × (db'.appointments ≡ rows)
      × (db'.rules ≡ db.rules)
      × (db'.rule_weekdays ≡ db.rule_weekdays)
unfolding insert_fixed append_audit
insert_fixed_inv db row (inserted rows) db' h =
    let e = ap (λ (t : Option FixedGenerationSkipReason × Database). t.1) h in
    (
      rows,
      refl,
      ap (λ (d : Database). d.appointments) (sym e),
      ap (λ (d : Database). d.rules) (sym e),
      ap (λ (d : Database). d.rule_weekdays) (sym e),
    )
insert_fixed_inv db row unique_violation db' h =
    let e : some already_processed ≡ none =
      ap (λ (t : Option FixedGenerationSkipReason × Database). t.0) h in
    cc
insert_fixed_inv db row exclusion_violation db' h =
    let e : some slot_conflict ≡ none =
      ap (λ (t : Option FixedGenerationSkipReason × Database). t.0) h in
    cc

-- What a rule that is found has left where it has created an appointment.
abbrev IsGenerated : Database → FixedAppointmentRule → ℕ → Database → Type 0
IsGenerated db rule date db' =
    (generated_before db' rule.id date ≡ true)
    × (db'.rules ≡ db.rules)
    × (db'.rule_weekdays ≡ db.rule_weekdays)

generate_or_skip-IsGenerated :
    (db : Database) (rule : FixedAppointmentRule) (date id : ℕ)
    (reason : Option FixedGenerationSkipReason) (db' : Database)
    → generate_or_skip db rule date id reason ≡ (none, db')
    → IsGenerated db rule date db'
unfolding generate_or_skip generated_before fixed_appointment
generate_or_skip-IsGenerated db rule date id (some reason) db' h =
    let e : some reason ≡ none = ap (λ (t : Option FixedGenerationSkipReason × Database). t.0) h in
    cc
generate_or_skip-IsGenerated db rule date id none db' h =
    let row = fixed_appointment db rule date (fixed_sequence db rule date) id in
    let (rows, e, a, x, y) =
      insert_fixed_inv db row (insert_appointment row db.appointments) db' h in
    let here = a ∙ insert_appointment-free row db.appointments rows e in
    (rw (here, ==_refl date, ==_refl rule.id) refl, x, y)

-- A date for which an appointment was generated is not processed again: the next generation
-- reports it as processed and changes nothing.
pub generate_date-generate_date :
    (db : Database) (rule_id date id id' : ℕ) (db' : Database)
    → generate_date db rule_id date id ≡ ok (none, db')
    → generate_date db' rule_id date id' ≡ ok (some already_processed, db')
unfolding generate_date generate_found effective_rule has_weekday generate_rule generated_before
generate_date-generate_date db rule_id date id id' db' h =
    elim (Option-cases (effective_rule db rule_id date)) [
      | inl e ↦
          let k : ok (some already_processed, db) ≡ ok (none, db') = rw e at h in
          let wrong : some already_processed ≡ none =
            ap (λ (t : Option FixedGenerationSkipReason × Database). t.0)
              (ok-injective {A = Option FixedGenerationSkipReason × Database}
                (some already_processed, db) (none, db') k) in
          cc
      | inr (rule, e) ↦
          let k : generate_rule db rule date id ≡ ok (none, db') = rw e at h in
          elim (generate_rule_inv db rule date id none db' k) [
            | inl (wrong, _) ↦ cc
            | inr (day, _, g) ↦
                let (before, x, y) = generate_or_skip-IsGenerated db rule date id _ db' g in
                rw (x, y, e, before) refl
          ]
    ]

-- ===== src/Absence/Generated.antt =====
-- The runs of apps/api/src/booking/fixed-generation.service.ts book nobody who is absent.
use makeup_booking_system.Absence.Kept.{IsOrderly, IsOrderly-insert, IsOrderly-same}
use makeup_booking_system.Availability.{ArtistDay, day_intervals, get_day_with_client}
use makeup_booking_system.Base.{
  All, All-find, List, Option, Option-cases, ap, inl, inr, none, ok, ok-pair, refl, some, subst,
  ◌≡◌, ◌≤◌,
}
use makeup_booking_system.Booking.Appointments.{
  Insertion, append_audit, exclusion_violation, insert_appointment, inserted, unique_violation,
}
use makeup_booking_system.Booking.Generation.{
  FixedGenerationSkipReason, already_processed, effective_rule, fixed_appointment, fixed_sequence,
  generate_date, generate_found, generate_or_skip, insert_fixed, skip_reason,
}
use makeup_booking_system.Booking.GenerationLaws.{
  IsRule, insert_appointment-free, skip_reason-IsFree,
}
use makeup_booking_system.Booking.GenerationRun.{generate}
use makeup_booking_system.Booking.GenerationRunLaws.{generate_date-tables, generate_kept}
use makeup_booking_system.Booking.GenerationSafety.{generate_rule_inv, rule-IsBookable}
use makeup_booking_system.Booking.Placed.{IsBookable}
use makeup_booking_system.Database.{Appointment, Database, FixedAppointmentRule}
use makeup_booking_system.Shift.Calendar.{IsMidnight, business_offset_ms}
use makeup_booking_system.Base.{ℕ}

insert_fixed-IsOrderly :
    (db : Database) (row : Appointment) (i : Insertion)
    → IsOrderly db
    → ((rows : List Appointment)
        → i ≡ inserted rows
        → IsOrderly (record db { appointments = rows }))
    → IsOrderly (insert_fixed db row i).1
unfolding insert_fixed append_audit
insert_fixed-IsOrderly db row (inserted rows) o h =
    IsOrderly-same (record db { appointments = rows }) _ refl refl (h rows refl)
insert_fixed-IsOrderly db row unique_violation o h = o
insert_fixed-IsOrderly db row exclusion_violation o h = o

generate_or_skip-IsOrderly :
    (db : Database) (rule : FixedAppointmentRule) (date id : ℕ) (day : ArtistDay)
    (reason : Option FixedGenerationSkipReason)
    → IsBookable date rule.start_minute rule.duration_minutes
    → get_day_with_client db rule.artist_id date ≡ ok day
    → skip_reason db rule date (day_intervals day.outcome) ≡ reason
    → IsOrderly db
    → IsOrderly (generate_or_skip db rule date id reason).1
unfolding generate_or_skip fixed_appointment
generate_or_skip-IsOrderly db rule date id day (some reason) b g h o = o
generate_or_skip-IsOrderly db rule date id day none b g h o =
    let f = skip_reason-IsFree db rule date (day_intervals day.outcome) h in
    let row = fixed_appointment db rule date (fixed_sequence db rule date) id in
    insert_fixed-IsOrderly db row (insert_appointment row db.appointments) o (λ rows e.
      IsOrderly-insert db (record db { appointments = rows }) row rule.artist_id rule.host_id date
        rule.start_minute rule.duration_minutes refl
        (insert_appointment-free row db.appointments rows e)
        (record {
          day = day;
          day_found = g;
          fits = f.fits;
          host_here = f.host_here;
          modern = b.modern;
          lasts = b.lasts;
        })
        (record {
          at_artist = refl;
          at_host = refl;
          at_date = refl;
          at_start = refl;
          at_end = refl;
        })
        o)

-- A date that is generated keeps the tables orderly.
generate_date-IsOrderly :
    (db : Database) (rule_id date id : ℕ) (o : Option FixedGenerationSkipReason) (db' : Database)
    → All IsRule db.rules
    → IsMidnight date
    → business_offset_ms ≤ date
    → generate_date db rule_id date id ≡ ok (o, db')
    → IsOrderly db
    → IsOrderly db'
unfolding generate_date generate_found effective_rule
generate_date-IsOrderly db rule_id date id o db' rules m l h c =
    elim (Option-cases (effective_rule db rule_id date)) [
      | inl e ↦
          let k : ok (some already_processed, db) ≡ ok (o, db') = rw e at h in
          let (_, same) =
            ok-pair {A = Option FixedGenerationSkipReason} {B = Database}
              (some already_processed, db) (o, db') k in
          rw (← same) c
      | inr (rule, e) ↦
          let r = All-find IsRule _ db.rules rule rules e in
          elim (generate_rule_inv db rule date id o db' (rw e at h)) [
            | inl (_, same) ↦ rw same c
            | inr (day, g, k) ↦
                subst (λ (t : Option FixedGenerationSkipReason × Database). IsOrderly t.1) k
                  (generate_or_skip-IsOrderly db rule date id day _
                    (rule-IsBookable rule date r m l) g refl c)
          ]
    ]

-- So does a run.
pub generate-IsOrderly :
    (next_id : Database → ℕ) (db : Database) (now : ℕ)
    → All IsRule db.rules
    → IsOrderly db
    → IsOrderly (generate next_id db now).1
generate-IsOrderly next_id db now rules o =
    let (_, kept) =
      generate_kept (λ db. All IsRule db.rules × IsOrderly db)
        (λ db rule_id date id o db' d r g. (
          rw (ap (λ t. t.0) (generate_date-tables db rule_id date id o db' g)) r.0,
          generate_date-IsOrderly db rule_id date id o db' r.0 d.0 d.1 g r.1,
        ))
        next_id db now rules (rules, o) in
    kept

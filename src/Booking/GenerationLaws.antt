-- ===== src/Booking/GenerationLaws.antt =====
-- What generating a fixed appointment promises (apps/api/src/booking/fixed-generation.service.ts).
use makeup_booking_system.Booking.Occupation.{host_on_leave_on}
use makeup_booking_system.Booking.Placed.{IsBookable, stretch_placed}
use makeup_booking_system.Shift.Calendar.{IsMidnight, business_date_minute_to_instant, minute_ms}
use makeup_booking_system.Base.{
  Bool, Option, some, subst, sym, ◌||◌, ◌∷◌, All, Bool-cases, List, any, arith, false, filter,
  if◌then◌else◌, includes, inl, inr, leb, length, ltb, none, refl, true, ◌&&◌, ◌*◌, ◌+◌, ◌==◌, ◌≡◌,
  ◌≤◌, ◌⊎◌, ℕ,
}
use makeup_booking_system.Booking.Appointments.{
  Insertion, append_audit, exclusion_violation, insert_appointment, inserted, same_key,
  unique_violation, same_sequence, same_time,
}
use makeup_booking_system.Booking.Generation.{
  FixedGenerationSkipReason, generate_or_skip, insert_fixed, fixed_appointment, fixed_sequence,
  skip_reason,
}
use makeup_booking_system.Booking.Schedule.{
  IsConsistent, IsPlaced, any-same_sequence, any-same_time, single_sequence,
}
use makeup_booking_system.Booking.Occupation.{active_appointments}
use makeup_booking_system.Booking.Times.{durations}
use makeup_booking_system.Database.{Appointment, Database, FixedAppointmentRule}
use makeup_booking_system.Shift.Intervals.{MinuteInterval, contains}
use makeup_booking_system.Shift.WellFormed.{IsStep}

-- The CHECK constraint fixed_rules_time_check; `valid_from` is a date.
pub record IsRule (rule : FixedAppointmentRule) : Type 0 where
  pub valid_from_midnight : IsMidnight rule.valid_from
  pub start_step : IsStep rule.start_minute
  pub listed : includes durations rule.duration_minutes ≡ true
  pub in_day : rule.start_minute + rule.duration_minutes ≤ 1440

-- What the tests leave where they give no reason to skip the date.
pub record IsFree (db : Database) (rule : FixedAppointmentRule) (date : ℕ)
    (intervals : List MinuteInterval) : Type 0 where
  pub fits : contains intervals rule.start_minute (rule.start_minute + rule.duration_minutes) ≡ true
  pub host_here : host_on_leave_on db rule.host_id date ≡ false
  pub clear :
      any
        (λ a.
          ltb (business_date_minute_to_instant date rule.start_minute) a.end_at
          && ltb a.start_at (
              business_date_minute_to_instant date rule.start_minute
              + rule.duration_minutes * minute_ms))
        (active_appointments db date rule.artist_id rule.host_id)
      ≡ false
  pub room :
      leb 2 (
        length (
          filter
            (λ a. a.host_id == rule.host_id)
            (active_appointments db date rule.artist_id rule.host_id)))
      ≡ false

pub skip_reason-IsFree :
    (db : Database) (rule : FixedAppointmentRule) (date : ℕ) (intervals : List MinuteInterval)
    → skip_reason db rule date intervals ≡ none
    → IsFree db rule date intervals
unfolding skip_reason
skip_reason-IsFree db rule date intervals h = record {
  fits = ground arith;
  host_here = ground arith;
  clear = ground arith;
  room = ground arith;
}

fixed_sequence_one_or_two :
    (db : Database) (rule : FixedAppointmentRule) (date : ℕ)
    → (fixed_sequence db rule date ≡ 1) ⊎ (fixed_sequence db rule date ≡ 2)
unfolding fixed_sequence
fixed_sequence_one_or_two db rule date =
    elim (Bool-cases (
      any (λ a. a.daily_sequence == 1)
        (filter (λ a. a.host_id == rule.host_id)
          (active_appointments db date rule.artist_id rule.host_id)))) [
            | inl e ↦ inr (rw e refl)
            | inr e ↦ inl (rw e refl)
          ]

fixed_sequence_unused :
    (db : Database) (rule : FixedAppointmentRule) (date : ℕ) (intervals : List MinuteInterval)
    → IsFree db rule date intervals
    → any
        (λ a. a.daily_sequence == fixed_sequence db rule date)
        (filter
          (λ a. a.host_id == rule.host_id)
          (active_appointments db date rule.artist_id rule.host_id))
      ≡ false
unfolding fixed_sequence
fixed_sequence_unused db rule date intervals f =
    let of_host =
      filter (λ (a : Appointment). a.host_id == rule.host_id)
        (active_appointments db date rule.artist_id rule.host_id) in
    elim (Bool-cases (any (λ a. a.daily_sequence == 1) of_host)) [
      | inl e ↦ rw e (single_sequence of_host f.room e)
      | inr e ↦
          subst (λ (b : Bool). any (λ a. a.daily_sequence == (if b then 2 else 1)) of_host ≡ false)
            (sym e) e
    ]

fixed_appointment-IsPlaced :
    (db : Database) (rule : FixedAppointmentRule) (date k id : ℕ)
    → IsBookable date rule.start_minute rule.duration_minutes
    → (k ≡ 1) ⊎ (k ≡ 2)
    → IsPlaced (fixed_appointment db rule date k id)
unfolding fixed_appointment
fixed_appointment-IsPlaced db rule date k id b s =
    let (x, y, z) = stretch_placed date rule.start_minute rule.duration_minutes b in
    record { midnight = b.midnight; after_open = x; before_end = y; lasts = z; sequence = s }

-- A generated appointment clashes with none.
fixed_appointment-free :
    (db : Database) (rule : FixedAppointmentRule) (date id : ℕ) (intervals : List MinuteInterval)
    → All IsPlaced db.appointments
    → IsBookable date rule.start_minute rule.duration_minutes
    → skip_reason db rule date intervals ≡ none
    → let row = fixed_appointment db rule date (fixed_sequence db rule date) id in
      IsPlaced row
      × (any (same_sequence row) db.appointments ≡ false)
      × (any (same_time row) db.appointments ≡ false)
unfolding fixed_appointment active_appointments
fixed_appointment-free db rule date id intervals placed b h =
    let f = skip_reason-IsFree db rule date intervals h in
    let row = fixed_appointment db rule date (fixed_sequence db rule date) id in
    let here =
      fixed_appointment-IsPlaced db rule date (fixed_sequence db rule date) id b
        (fixed_sequence_one_or_two db rule date) in
    (
      here,
      any-same_sequence row rule.artist_id db.appointments
          (fixed_sequence_unused db rule date intervals f),
      any-same_time row db.appointments here placed f.clear,
    )

pub insert_appointment-free :
    (row : Appointment) (rows result : List Appointment)
    → insert_appointment row rows ≡ inserted result
    → result ≡ row ∷ rows
unfolding insert_appointment
insert_appointment-free row rows result h =
    elim (Bool-cases (any (λ b. same_key row b || same_sequence row b) rows)) [
      | inl taken ↦ let k : unique_violation ≡ inserted result = rw taken at h in cc
      | inr new ↦ elim (Bool-cases (any (same_time row) rows)) [
        | inl clash ↦ let k : exclusion_violation ≡ inserted result = rw (new, clash) at h in cc
        | inr free ↦ let k : inserted (row ∷ rows) ≡ inserted result = rw (new, free) at h in cc
      ]
    ]

insert_fixed-IsConsistent :
    (db : Database) (row : Appointment) (i : Insertion)
    → IsConsistent db.appointments
    → ((rows : List Appointment) → i ≡ inserted rows → IsConsistent rows)
    → IsConsistent (insert_fixed db row i).1.appointments
unfolding insert_fixed append_audit
insert_fixed-IsConsistent db row (inserted rows) c h = h rows refl
insert_fixed-IsConsistent db row unique_violation c h = c
insert_fixed-IsConsistent db row exclusion_violation c h = c

pub generate_or_skip-IsConsistent :
    (db : Database) (rule : FixedAppointmentRule) (date id : ℕ) (intervals : List MinuteInterval)
    (reason : Option FixedGenerationSkipReason)
    → IsConsistent db.appointments
    → IsBookable date rule.start_minute rule.duration_minutes
    → skip_reason db rule date intervals ≡ reason
    → IsConsistent (generate_or_skip db rule date id reason).1.appointments
unfolding generate_or_skip
generate_or_skip-IsConsistent db rule date id intervals (some reason) c b h = c
generate_or_skip-IsConsistent db rule date id intervals none c b h =
    let row = fixed_appointment db rule date (fixed_sequence db rule date) id in
    let (x, y, z) = fixed_appointment-free db rule date id intervals c.placed b h in
    insert_fixed-IsConsistent db row (insert_appointment row db.appointments) c (λ rows e.
      rw (insert_appointment-free row db.appointments rows e)
        (record { placed = (x, c.placed); free = (y, z, c.free) }))

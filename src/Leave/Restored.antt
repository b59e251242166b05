-- ===== src/Leave/Restored.antt =====
-- The cancellation of a leave keeps the table of appointments consistent: the fixed appointments
-- that it books again meet no other one (apps/api/src/leave/leave.service.ts).
use makeup_booking_system.Leave.Located.{
  All-Located, IsAtPlace, Located, Located-restored, same_appointment_id,
}
use makeup_booking_system.Tables.{All-imply, Apart, count_of, update_many}
use makeup_booking_system.Tables.OneRow.{Apart-update_one}
use makeup_booking_system.Tables.Sorted.{All-filter, All-sort_by}
use makeup_booking_system.Leave.Cancelling.{cancel_leave-IsLeaveCancelling}
use makeup_booking_system.Absence.{by_date_and_start, find_affected_appointments}
use makeup_booking_system.Access.{AuthorizationContext}
use makeup_booking_system.Base.{
  if◌then◌else◌, is_none, not, sym, ==→eq, >>=-eq-ok, guard, guard-eq-ok, ok, ok-injective, subst,
  throw_if, throw_if-eq-ok, filter, leb, length, ltb, ◌&&◌, ◌==◌, ◌||◌, All, Bool, Bool-cases, List,
  [], any, ap, arith, false, inl, inr, refl, true, ◌∷◌, ◌≡◌, ◌≤◌, ◌⊎◌, ℕ,
}
use makeup_booking_system.Database.{
  LeaveRecord, Text, is_absence_active, Database, is_occupying, Appointment,
}
use makeup_booking_system.Errors.{leave_fixed_appointment_restore_conflict, leave_state_conflict}
use makeup_booking_system.Leave.{CancelLeaveCommand}
use makeup_booking_system.Leave.Cancel.{
  cancel_leave, fixed_rule, is_restorable, restorable_fixed_appointments, restorable_of,
  restore_fixed_appointments, rule_applies, is_cancelled_by, restore_one, overlaps_active,
  restored_sequence, restored_row,
}
use makeup_booking_system.Leave.Review.{leave_artist}
use makeup_booking_system.Booking.Appointments.{append_audit, same_sequence, same_time}
use makeup_booking_system.Booking.Schedule.{
  IsConsistent, any-same_sequence, any-same_time, single_sequence, ClashFree, IsPlaced,
}
use makeup_booking_system.Booking.Occupation.{active_appointments}

ClashFree-Apart :
    (rows : List Appointment) → ClashFree rows → Apart same_sequence rows × Apart same_time rows
ClashFree-Apart [] h = (tt, tt)
ClashFree-Apart (a ∷ rows) h = let (s, t) = ClashFree-Apart rows h.2 in ((h.0, s), (h.1, t))

Apart-ClashFree :
    (rows : List Appointment) → Apart same_sequence rows → Apart same_time rows → ClashFree rows
Apart-ClashFree [] s t = tt
Apart-ClashFree (a ∷ rows) s t = (s.0, t.0, Apart-ClashFree rows s.1 t.1)

same_sequence-restored :
    (k : ℕ) (t c : Appointment)
    → IsAtPlace t c
    → (b : Appointment) → same_sequence (restored_row k t) b ≡ false
    → (same_sequence (restored_row k c) b ≡ false) × (same_sequence b (restored_row k c) ≡ false)
unfolding same_sequence
same_sequence-restored k t c s b h = rw (s.host_same, s.date_same) (ground arith, ground arith)

same_time-restored :
    (k : ℕ) (t c : Appointment)
    → IsAtPlace t c
    → (b : Appointment) → same_time (restored_row k t) b ≡ false
    → (same_time (restored_row k c) b ≡ false) × (same_time b (restored_row k c) ≡ false)
unfolding same_time
same_time-restored k t c s b h =
    rw (s.host_same, s.artist_same, s.start_same, s.end_same) (ground arith, ground arith)

IsPlaced-restored :
    (k : ℕ) (t : Appointment) → IsPlaced t → (k ≡ 1) ⊎ (k ≡ 2) → IsPlaced (restored_row k t)
IsPlaced-restored k t p s = record {
  midnight = p.midnight;
  after_open = p.after_open;
  before_end = p.before_end;
  lasts = p.lasts;
  sequence = s;
}

module _ (p : Appointment → Bool) (k : ℕ) where
  All-IsPlaced-restored :
      (rows : List Appointment)
      → (k ≡ 1) ⊎ (k ≡ 2)
      → All IsPlaced rows
      → All IsPlaced (update_many p (restored_row k) rows)
  All-IsPlaced-restored [] s h = tt
  All-IsPlaced-restored (a ∷ rows) s h = elim (Bool-cases (p a)) [
    | inl y ↦ rw y (IsPlaced-restored k a h.0 s, All-IsPlaced-restored rows s h.1)
    | inr n ↦ rw n (h.0, All-IsPlaced-restored rows s h.1)
  ]

-- The rows that are read are of the artist or the host, so the source's test of this says nothing.
overlaps_active-reads :
    (t : Appointment) (rows : List Appointment)
    → overlaps_active t (
        filter
          (λ a.
            a.appointment_date == t.appointment_date
            && (a.artist_id == t.artist_id || a.host_id == t.host_id)
            && is_occupying a.status)
          rows)
      ≡ false
    → any
        (λ a. ltb t.start_at a.end_at && ltb a.start_at t.end_at)
        (filter
          (λ a.
            a.appointment_date == t.appointment_date
            && (a.artist_id == t.artist_id || a.host_id == t.host_id)
            && is_occupying a.status)
          rows)
      ≡ false
overlaps_active-reads t [] h = refl
overlaps_active-reads t (a ∷ rows) h = ground (arith, overlaps_active-reads t rows)

-- The sequence that a restored appointment gets is free.
restored_sequence-free :
    (db : Database) (t : Appointment)
    → leb 2 (
        length (
          filter
            (λ a. a.host_id == t.host_id)
            (active_appointments db t.appointment_date t.artist_id t.host_id)))
      ≡ false
    → ((restored_sequence db t ≡ 1) ⊎ (restored_sequence db t ≡ 2))
      × (any
            (λ a. a.daily_sequence == restored_sequence db t)
            (filter
              (λ a. a.host_id == t.host_id)
              (active_appointments db t.appointment_date t.artist_id t.host_id))
          ≡ false)
unfolding restored_sequence
restored_sequence-free db t h =
    let rows =
      filter (λ a. a.host_id == t.host_id)
        (active_appointments db t.appointment_date t.artist_id t.host_id) in
    elim (Bool-cases (any (λ a. a.daily_sequence == 1) rows)) [
      | inl y ↦ rw y (inr refl, single_sequence rows h y)
      | inr n ↦ rw n (inl refl, n)
    ]

-- What restoring an appointment leaves: a consistent table, where each row is at its place.
record IsRestored (db db' : Database) : Type 0 where
  pub consistent : IsConsistent db'.appointments
  pub located : (t : Appointment) → Located db.appointments t → Located db'.appointments t

restore_one-IsRestored :
    (db : Database) (context : AuthorizationContext) (leave_id : ℕ) (t : Appointment)
    (db' : Database)
    → restore_one db context leave_id t ≡ ok db'
    → IsPlaced t
    → Located db.appointments t
    → IsConsistent db.appointments
    → IsRestored db db'
unfolding restore_one append_audit active_appointments
restore_one-IsRestored db context leave_id t db' h placed at_place c =
    let occupied = active_appointments db t.appointment_date t.artist_id t.host_id in
    let fits = is_cancelled_by leave_id t in
    let (_, e1, h1) =
      >>=-eq-ok (throw_if (overlaps_active t occupied) leave_fixed_appointment_restore_conflict) _
        h in
    let (_, e2, h2) =
      >>=-eq-ok
        (throw_if (leb 2 (length (filter (λ a. a.host_id == t.host_id) occupied)))
          leave_fixed_appointment_restore_conflict)
        _ h1 in
    let (_, e3, h3) =
      >>=-eq-ok (guard (count_of fits db.appointments == 1) leave_state_conflict) _ h2 in
    let k = restored_sequence db t in
    let rows = ap (λ (d : Database). d.appointments) (ok-injective _ db' h3) in
    let (s, unused) = restored_sequence-free db t (throw_if-eq-ok _ _ e2) in
    let x = restored_row k t in
    let x_placed = IsPlaced-restored k t placed s in
    let apart = ClashFree-Apart db.appointments c.free in
    let one : count_of fits db.appointments ≤ 1 = omega (arith, ==→eq _ _ (guard-eq-ok _ _ e3)) in
    let no_sequence = any-same_sequence x t.artist_id db.appointments unused in
    let no_time =
      any-same_time x db.appointments x_placed c.placed
        (overlaps_active-reads t db.appointments (throw_if-eq-ok _ _ e1)) in
    let hit = fits_at_place leave_id t db.appointments at_place in
    record {
      consistent = subst IsConsistent rows (record {
        placed = All-IsPlaced-restored fits k db.appointments s c.placed;
        free =
            Apart-ClashFree _
              (Apart-update_one same_sequence fits (restored_row k) x db.appointments
                (All-imply (λ c g y. same_sequence-restored k t c (g y)) db.appointments hit) one
                no_sequence apart.0)
              (Apart-update_one same_time fits (restored_row k) x db.appointments
                (All-imply (λ c g y. same_time-restored k t c (g y)) db.appointments hit) one
                no_time apart.1);
      });
      located = λ u g. subst (λ r. Located r u) rows (Located-restored fits k u db.appointments g);
    }
  where
    fits_at_place :
        (leave_id : ℕ) (t : Appointment) (rows : List Appointment)
        → Located rows t
        → All (λ c. is_cancelled_by leave_id t c ≡ true → IsAtPlace t c) rows
    fits_at_place leave_id t rows h = All-imply (λ c g y. g (==→eq _ _ (ground arith))) rows h

restore_fixed_appointments-IsConsistent :
    (context : AuthorizationContext) (leave_id : ℕ) (todo : List Appointment) (db db' : Database)
    → restore_fixed_appointments db context leave_id todo ≡ ok db'
    → All IsPlaced todo
    → All (Located db.appointments) todo
    → IsConsistent db.appointments
    → IsConsistent db'.appointments
unfolding restore_fixed_appointments
restore_fixed_appointments-IsConsistent context leave_id [] db db' h p l c =
    subst (λ (d : Database). IsConsistent d.appointments) (ok-injective db db' h) c
restore_fixed_appointments-IsConsistent context leave_id (t ∷ todo) db db' h p l c =
    let (restored, e, h1) =
      >>=-eq-ok
        (if rule_applies db t.appointment_date (fixed_rule db t)
          then restore_one db context leave_id t
          else ok db)
        _ h in
    let m = step (rule_applies db t.appointment_date (fixed_rule db t)) restored e in
    restore_fixed_appointments-IsConsistent context leave_id todo restored db' h1 p.1
      (All-imply m.located todo l.1) m.consistent
  where
    step :
        (applies : Bool) (restored : Database)
        → (if applies then restore_one db context leave_id t else ok db) ≡ ok restored
        → IsRestored db restored
    step true restored e = restore_one-IsRestored db context leave_id t restored e p.0 l.0 c
    step false restored e =
        subst (IsRestored db) (ok-injective db restored e)
          (record { consistent = c; located = λ u g. g })

All-restorable_of :
    (P : Appointment → Type 0) (db : Database) (leave : LeaveRecord)
    → All P db.appointments
    → All P (restorable_of db leave)
unfolding restorable_of restorable_fixed_appointments find_affected_appointments
All-restorable_of P db leave h =
    elim (Bool-cases (not (is_none (leave_artist db leave)) && is_absence_active leave.status)) [
      | inl y ↦ rw y (
          All-sort_by P by_date_and_start _
            (All-filter P (is_restorable leave.id) db.appointments h))
      | inr n ↦ rw n tt
    ]

-- Where no two appointments share an id, a cancellation of a leave that returns keeps the table of
-- appointments consistent, with the fixed appointments that it books again.
pub cancel_leave-IsConsistent :
    (nfkc : Text → Text) (db : Database) (context : AuthorizationContext)
    (command : CancelLeaveCommand) (now : ℕ) (db' : Database)
    → cancel_leave nfkc db context command now ≡ ok db'
    → Apart same_appointment_id db.appointments
    → IsConsistent db.appointments
    → IsConsistent db'.appointments
cancel_leave-IsConsistent nfkc db context command now db' h apart c =
    let m = cancel_leave-IsLeaveCancelling nfkc db context command now db' h in
    let same = ap (λ (d : Database). d.appointments) m.is_updated in
    let all_placed = All-restorable_of IsPlaced db m.leave c.placed in
    let all_located =
      All-restorable_of (Located db.appointments) db m.leave (All-Located db.appointments apart) in
    subst IsConsistent (sym m.rows_after) (
      restore_fixed_appointments-IsConsistent context m.leave.id (restorable_of db m.leave)
        m.updated m.restored m.restores all_placed
        (subst (λ r. All (Located r) (restorable_of db m.leave)) (sym same) all_located)
        (subst IsConsistent (sym same) c))

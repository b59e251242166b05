-- ===== src/Leave/AllRestored.antt =====
-- The cancellation of an artist's leave books every fixed appointment again whose rule applies
-- (`restoreFixedAppointments` of apps/api/src/leave/leave.service.ts).
use makeup_booking_system.Base.{
  not, ◌+◌, >>=-eq-ok, Option, ap, find, guard, if◌then◌else◌, is_none, leb, length, ok,
  ok-injective, some, throw_if, ◌==◌, any, filter, All, Bool, Bool-cases, List, [], arith, false,
  inl, inr, refl, subst, sym, true, ◌&&◌, ◌∙◌, ◌∷◌, ◌≡◌, ◌⊎◌, ℕ, ==_refl,
}
use makeup_booking_system.Database.{
  is_artist_leave, is_leave_source, AppointmentStatus, booked, cancelled, completed, is_booked,
  is_cancelled, LeaveRecord, Text, is_absence_active, Appointment, Database,
}
use makeup_booking_system.Tables.Sorted.{All-Memᴰ, Memᴰ-All, All-sorted}
use makeup_booking_system.Tables.{count_of, sort_by, update_many}
use makeup_booking_system.Absence.{by_date_and_start, find_affected_appointments}
use makeup_booking_system.Access.{AuthorizationContext}
use makeup_booking_system.Booking.Appointments.{append_audit}
use makeup_booking_system.Booking.Occupation.{active_appointments}
use makeup_booking_system.Errors.{leave_fixed_appointment_restore_conflict, leave_state_conflict}
use makeup_booking_system.Leave.{CancelLeaveCommand}
use makeup_booking_system.Leave.Cancel.{
  cancel_leave, overlaps_active, restorable_fixed_appointments, restorable_of,
  restore_fixed_appointments, restore_one, restored_sequence, fixed_rule, is_cancelled_by,
  is_restorable, restored_row, rule_applies,
}
use makeup_booking_system.Leave.Cancelling.{cancel_leave-IsLeaveCancelling}
use makeup_booking_system.Leave.Review.{leave_artist, leave_is}
use makeup_booking_system.Booking.Generation.{has_weekday}
use mathlib.Core.List.{Memᴰ}

-- The leave has cancelled the fixed appointment, and its rule applies.
abbrev pub is_owed : Database → ℕ → Appointment → Bool
is_owed db leave_id a =
    (is_artist_leave a.cancellation_reason_code
      && is_leave_source leave_id a.cancellation_source
      && not (is_none a.fixed_rule_id)
      && is_cancelled a.status)
    && rule_applies db a.appointment_date (fixed_rule db a)

-- The second row is the first one, booked at its place in the next version, and no longer cancelled.
abbrev pub is_back : Appointment → Appointment → Bool
is_back a b =
    b.id == a.id
    && is_booked b.status
    && b.row_version == a.row_version + 1
    && is_none b.cancellation_reason_code
    && is_none b.cancellation_source
    && is_none b.cancelled_at
    && b.host_id == a.host_id
    && b.artist_id == a.artist_id
    && b.appointment_date == a.appointment_date
    && b.start_at == a.start_at
    && b.end_at == a.end_at

is_back-restored_row : (k : ℕ) (a : Appointment) → is_back a (restored_row k a) ≡ true
is_back-restored_row k a =
    rw
      (
        ==_refl a.id,
        ==_refl (a.row_version + 1),
        ==_refl a.host_id,
        ==_refl a.artist_id,
        ==_refl a.appointment_date,
        ==_refl a.start_at,
        ==_refl a.end_at,
      )
      refl

booked_not_cancelled : (s : AppointmentStatus) → is_booked s ≡ true → is_cancelled s ≡ false
booked_not_cancelled booked h = refl
booked_not_cancelled cancelled h = cc
booked_not_cancelled completed h = cc

-- An appointment that is owed is the row that the update looks for.
is_cancelled_by-owed :
    (db : Database) (leave_id : ℕ) (a : Appointment)
    → is_owed db leave_id a ≡ true
    → is_cancelled_by leave_id a a ≡ true
unfolding is_restorable
is_cancelled_by-owed db leave_id a h = ground (arith, ==_refl a.id, ==_refl a.row_version)

module _ (leave_id k : ℕ) (t : Appointment) where
  -- The update leaves a row alone that is booked again.
  is_back-kept :
      (a : Appointment) (rows : List Appointment)
      → any (is_back a) rows ≡ true
      → any (is_back a) (update_many (is_cancelled_by leave_id t) (restored_row k) rows) ≡ true
  is_back-kept a [] h = cc
  is_back-kept a (b ∷ rows) h = elim (Bool-cases (is_cancelled_by leave_id t b)) [
    | inl y ↦
        let here : is_back a b ≡ false = ground (arith, booked_not_cancelled b.status) in
        let rest = is_back-kept a rows (rw here at h) in rw y (ground (arith, rest))
    | inr n ↦ rw n (ground (arith, is_back-kept a rows))
  ]

  -- A row that the update looks for is booked again.
  is_back-update_many :
      (a : Appointment) (rows : List Appointment)
      → Memᴰ a rows
      → is_cancelled_by leave_id t a ≡ true
      → any (is_back a) (update_many (is_cancelled_by leave_id t) (restored_row k) rows) ≡ true
  is_back-update_many a [] m y = elim m [ ]
  is_back-update_many a (b ∷ rows) (Memᴰ.head e) y =
      let fits = subst (λ c. is_cancelled_by leave_id t c ≡ true) e y in
      let back = subst (λ c. is_back a (restored_row k c) ≡ true) e (is_back-restored_row k a) in
      rw (fits, back) refl
  is_back-update_many a (b ∷ rows) (Memᴰ.tail m) y =
      let rest = is_back-update_many a rows m y in ground (arith, rest)

  -- Another row stays.
  Memᴰ-update_many :
      (a : Appointment) (rows : List Appointment)
      → Memᴰ a rows
      → is_cancelled_by leave_id t a ≡ false
      → Memᴰ a (update_many (is_cancelled_by leave_id t) (restored_row k) rows)
  Memᴰ-update_many a [] m n = elim m [ ]
  Memᴰ-update_many a (b ∷ rows) (Memᴰ.head e) n =
      let other = subst (λ c. is_cancelled_by leave_id t c ≡ false) e n in rw other (Memᴰ.head e)
  Memᴰ-update_many a (b ∷ rows) (Memᴰ.tail m) n = Memᴰ.tail (Memᴰ-update_many a rows m n)

-- The row is still to be restored, or is booked again.
abbrev IsUnderway : Appointment → List Appointment → List Appointment → Type 0
IsUnderway a todo rows = (Memᴰ a rows × Memᴰ a todo) ⊎ (any (is_back a) rows ≡ true)

module _ (db : Database) (leave_id : ℕ) (t : Appointment) (todo : List Appointment)
    (a : Appointment) (owed : is_owed db leave_id a ≡ true) where
  IsUnderway-skipped :
      (rows : List Appointment)
      → rule_applies db t.appointment_date (fixed_rule db t) ≡ false
      → IsUnderway a (t ∷ todo) rows
      → IsUnderway a todo rows
  IsUnderway-skipped rows n (inl (r, Memᴰ.head e)) =
      let same = subst (λ x. is_owed db leave_id x ≡ true) e owed in
      let wrong : true ≡ false = ground (arith, same, n) in cc
  IsUnderway-skipped rows n (inl (r, Memᴰ.tail m)) = inl (r, m)
  IsUnderway-skipped rows n (inr back) = inr back

  IsUnderway-restored :
      (k : ℕ) (rows : List Appointment)
      → IsUnderway a (t ∷ todo) rows
      → IsUnderway a todo (update_many (is_cancelled_by leave_id t) (restored_row k) rows)
  IsUnderway-restored k rows (inl (r, Memᴰ.head e)) =
      let fits =
        subst (λ x. is_cancelled_by leave_id x a ≡ true) e
          (is_cancelled_by-owed db leave_id a owed) in
      inr (is_back-update_many leave_id k t a rows r fits)
  IsUnderway-restored k rows (inl (r, Memᴰ.tail m)) =
      elim (Bool-cases (is_cancelled_by leave_id t a)) [
        | inl y ↦ inr (is_back-update_many leave_id k t a rows r y)
        | inr n ↦ inl (Memᴰ-update_many leave_id k t a rows r n, m)
      ]
  IsUnderway-restored k rows (inr back) = inr (is_back-kept leave_id k t a rows back)

-- `rule_applies` reads the rules alone.
is_owed-SameRules :
    (db db' : Database) (leave_id : ℕ) (a : Appointment)
    → db'.rules ≡ db.rules
    → db'.rule_weekdays ≡ db.rule_weekdays
    → is_owed db' leave_id a ≡ is_owed db leave_id a
unfolding rule_applies fixed_rule has_weekday
is_owed-SameRules db db' leave_id a r w = rw (r, w) refl

pub restore_one_inv :
    (db : Database) (context : AuthorizationContext) (leave_id : ℕ) (t : Appointment)
    (db' : Database)
    → restore_one db context leave_id t ≡ ok db'
    → (db'.appointments
        ≡ update_many
            (is_cancelled_by leave_id t)
            (restored_row (restored_sequence db t))
            db.appointments)
      × (db'.rules ≡ db.rules)
      × (db'.rule_weekdays ≡ db.rule_weekdays)
unfolding restore_one append_audit
restore_one_inv db context leave_id t db' h =
    let occupied = active_appointments db t.appointment_date t.artist_id t.host_id in
    let (_, _, h1) =
      >>=-eq-ok (throw_if (overlaps_active t occupied) leave_fixed_appointment_restore_conflict) _
        h in
    let (_, _, h2) =
      >>=-eq-ok
        (throw_if (leb 2 (length (filter (λ a. a.host_id == t.host_id) occupied)))
          leave_fixed_appointment_restore_conflict)
        _ h1 in
    let (_, _, h3) =
      >>=-eq-ok
        (guard (count_of (is_cancelled_by leave_id t) db.appointments == 1) leave_state_conflict) _
        h2 in
    let y = sym (ok-injective _ db' h3) in
    (
      ap (λ (d : Database). d.appointments) y,
      ap (λ (d : Database). d.rules) y,
      ap (λ (d : Database). d.rule_weekdays) y,
    )

-- After the loop an appointment that is owed is booked again, where it is listed at the start.
restore_fixed_appointments-is_back :
    (context : AuthorizationContext) (leave_id : ℕ) (a : Appointment) (todo : List Appointment)
    (db db' : Database)
    → restore_fixed_appointments db context leave_id todo ≡ ok db'
    → is_owed db leave_id a ≡ true
    → IsUnderway a todo db.appointments
    → any (is_back a) db'.appointments ≡ true
unfolding restore_fixed_appointments
restore_fixed_appointments-is_back context leave_id a [] db db' h owed (inl (r, m)) = elim m [ ]
restore_fixed_appointments-is_back context leave_id a [] db db' h owed (inr back) =
    subst (λ (d : Database). any (is_back a) d.appointments ≡ true) (ok-injective db db' h) back
restore_fixed_appointments-is_back context leave_id a (t ∷ todo) db db' h owed u =
    let applies = rule_applies db t.appointment_date (fixed_rule db t) in
    let (restored, e, h1) =
      >>=-eq-ok (if applies then restore_one db context leave_id t else ok db) _ h in
    let (owed', u') = step applies refl restored e in
    restore_fixed_appointments-is_back context leave_id a todo restored db' h1 owed' u'
  where
    step :
        (applies : Bool)
        → rule_applies db t.appointment_date (fixed_rule db t) ≡ applies
        → (restored : Database)
        → (if applies then restore_one db context leave_id t else ok db) ≡ ok restored
        → (is_owed restored leave_id a ≡ true) × IsUnderway a todo restored.appointments
    step true n restored e =
        let (rows, rules, weekdays) = restore_one_inv db context leave_id t restored e in
        (
          is_owed-SameRules db restored leave_id a rules weekdays ∙ owed,
          subst (IsUnderway a todo) (sym rows) (
              IsUnderway-restored db leave_id t todo a owed (restored_sequence db t) db.appointments
                u),
        )
    step false n restored e =
        subst (λ (d : Database). (is_owed d leave_id a ≡ true) × IsUnderway a todo d.appointments)
          (ok-injective db restored e)
          (owed, IsUnderway-skipped db leave_id t todo a owed db.appointments n u)

-- After a cancellation of an artist's active leave that returns, every fixed appointment that the
-- leave has cancelled and whose rule applies is booked at its place, in its next version and with
-- no reason, source or time of a cancellation.
pub cancel_leave-restores :
    (nfkc : Text → Text) (db : Database) (context : AuthorizationContext)
    (command : CancelLeaveCommand) (now : ℕ) (db' : Database) (leave : LeaveRecord)
    → cancel_leave nfkc db context command now ≡ ok db'
    → find (leave_is command.leave_id) db.leave_records ≡ some leave
    → is_none (leave_artist db leave) ≡ false
    → is_absence_active leave.status ≡ true
    → All
        (λ a. is_owed db leave.id a ≡ true → any (is_back a) db'.appointments ≡ true)
        db.appointments
unfolding restorable_of restorable_fixed_appointments find_affected_appointments is_restorable
cancel_leave-restores nfkc db context command now db' leave h f present s =
    let m = cancel_leave-IsLeaveCancelling nfkc db context command now db' h in
    let same : m.leave ≡ leave = some_injective m.leave leave (sym m.found ∙ f) in
    let listed : sort_by by_date_and_start (filter (is_restorable leave.id) db.appointments)
        ≡ restorable_of db leave =
      rw (present, s) refl in
    let restores =
      subst
        (λ (l : LeaveRecord).
          restore_fixed_appointments m.updated context l.id (restorable_of db l) ≡ ok m.restored)
        same m.restores in
    let rows = ap (λ (d : Database). d.appointments) m.is_updated in
    All-Memᴰ (λ a. is_owed db leave.id a ≡ true → any (is_back a) db'.appointments ≡ true)
      db.appointments
      λ a here owed.
        let in_list =
          Memᴰ-All
            (λ c.
              is_restorable leave.id c ≡ true
              → Memᴰ c
                  (sort_by by_date_and_start (filter (is_restorable leave.id) db.appointments)))
            db.appointments here
            (All-sorted by_date_and_start (is_restorable leave.id) db.appointments)
            (first_true _ _ owed) in
        let owed' =
          is_owed-SameRules db m.updated leave.id a (ap (λ (d : Database). d.rules) m.is_updated)
            (ap (λ (d : Database). d.rule_weekdays) m.is_updated)
          ∙ owed in
        subst (λ r. any (is_back a) r ≡ true) (sym m.rows_after)
          (restore_fixed_appointments-is_back context leave.id a (restorable_of db leave) m.updated
            m.restored restores owed'
            (inl (subst (Memᴰ a) (sym rows) here, subst (Memᴰ a) listed in_list)))
  where
    some_injective : (l k : LeaveRecord) → Path (Option LeaveRecord) (some l) (some k) → l ≡ k
    some_injective l k e = cc

    first_true : (b c : Bool) → b && c ≡ true → b ≡ true
    first_true b c h = ground arith

-- ===== src/Booking/Finality.antt =====
-- The transactions of apps/api/src/booking leave the rows of cancelled appointments alone.
use makeup_booking_system.Database.{
  FixedAppointmentRule, appointment_create, Appointment, Database, cancelled, is_booked,
}
use makeup_booking_system.Base.{
  All, Option, Option-cases, arith, none, ◌⊎◌, ==→eq, >>=-eq-ok, Bool, Bool-cases, List, any, ap,
  false, find, find_holds, find_later, if◌then◌else◌, inl, inr, map, ok, ok-injective, ok-pair,
  refl, some, subst, sym, true, ◌==◌, ◌||◌, ◌∙◌, ◌∷◌, ◌≡◌, ℕ,
}
use makeup_booking_system.Booking.Cancel.{is_target}
use makeup_booking_system.Booking.CancelLaws.{cancel-IsCancellation}
use makeup_booking_system.Booking.Commands.{create}
use makeup_booking_system.Booking.Completion.{completed_row, is_over, run}
use makeup_booking_system.Booking.Create.{
  BookingCreateResult, Platform, BookingCreationOptions, CreateBookingCommand, create_fresh,
  inserted_or_conflict, prepare_fresh, to_summary,
}
use makeup_booking_system.Booking.Generation.{
  FixedGenerationSkipReason, already_processed, effective_rule, generate_date, generate_found,
  generate_or_skip, generate_rule, insert_fixed,
}
use makeup_booking_system.Booking.GenerationLaws.{IsRule}
use makeup_booking_system.Booking.GenerationRunLaws.{generate_kept}
use makeup_booking_system.Booking.GenerationSafety.{generate_rule_inv}
use makeup_booking_system.Booking.History.{
  Step, completes, creates, cancels, reschedules, generates,
}
use makeup_booking_system.Booking.Replay.{
  IsCreated, complete_idempotency_inv, create-IsCreated, create_or_replay-IsFresh,
  create_or_replay_replay, prepare_idempotency-IsReady,
}
use makeup_booking_system.Booking.Reschedule.{
  BookingRescheduleResult, RescheduleBookingCommand, reschedule,
}
use makeup_booking_system.Booking.RescheduleLaws.{
  IsRescheduled, reschedule-IsRescheduled, reschedule_or_replay-IsReplaced,
  reschedule_or_replay_replay,
}
use makeup_booking_system.Access.{AuthorizationContext}
use makeup_booking_system.Booking.Appointments.{
  Insertion, append_audit, exclusion_violation, insert_appointment, inserted, same_key,
  same_sequence, same_time, unique_violation,
}
use makeup_booking_system.Tables.{any-find, find-map, update_many}
use mathlib.Core.Option

-- The row is found by its id.
abbrev pub IsFound : ℕ → Appointment → List Appointment → Type 0
IsFound id x rows = find (λ b. b.id == id) rows ≡ some x

-- The new row has a key of its own.
IsFound-cons :
    (id : ℕ) (x row : Appointment) (rows : List Appointment)
    → any (λ b. same_key row b || same_sequence row b) rows ≡ false
    → IsFound id x rows
    → IsFound id x (row ∷ rows)
unfolding same_key
IsFound-cons id x row rows new found = elim (Bool-cases (row.id == id)) [
  | inl y ↦
      let same : x.id ≡ id = ==→eq _ _ (find_holds (λ b. b.id == id) rows x found) in
      let clash : same_key row x || same_sequence row x ≡ true = rw (same, y) refl in
      let wrong : true ≡ false =
        sym (
          any-find (λ b. same_key row b || same_sequence row b) (λ b. b.id == id) rows x found
            clash)
        ∙ new in
      cc
  | inr n ↦ find_later (λ b. b.id == id) row rows n ∙ found
]

-- An update that keeps ids, and the row.
pub IsFound-map :
    (id : ℕ) (x : Appointment) (g : Appointment → Appointment) (rows : List Appointment)
    → ((a : Appointment) → (g a).id ≡ a.id)
    → g x ≡ x
    → IsFound id x rows
    → IsFound id x (map g rows)
IsFound-map id x g rows kept same found =
    find-map (λ b. b.id == id) g (λ b. ap (λ n. n == id) (kept b)) rows
    ∙ ap (Option.map g) found
    ∙ ap some same

-- An update that does not look for the row.
pub IsFound-update_many :
    (id : ℕ) (x : Appointment) (p : Appointment → Bool) (f : Appointment → Appointment)
    (rows : List Appointment)
    → ((a : Appointment) → (f a).id ≡ a.id)
    → p x ≡ false
    → IsFound id x rows
    → IsFound id x (update_many p f rows)
IsFound-update_many id x p f rows kept other =
    IsFound-map id x (λ a. if p a then f a else a) rows
      (λ a. elim (Bool-cases (p a)) [ inl y ↦ rw y (kept a) | inr n ↦ rw n refl ]) (rw other refl)

insertion-IsFound :
    (id : ℕ) (x : Appointment) (row : Appointment) (rows rows' : List Appointment)
    → insert_appointment row rows ≡ inserted rows'
    → IsFound id x rows
    → IsFound id x rows'
unfolding insert_appointment
insertion-IsFound id x row rows rows' h c =
    elim (Bool-cases (any (λ b. same_key row b || same_sequence row b) rows)) [
      | inl y ↦ let k : unique_violation ≡ inserted rows' = rw y at h in cc
      | inr n ↦ elim (Bool-cases (any (same_time row) rows)) [
        | inl y ↦ let k : exclusion_violation ≡ inserted rows' = rw (n, y) at h in cc
        | inr m ↦
            let k : inserted (row ∷ rows) ≡ inserted rows' = rw (n, m) at h in
            let same : row ∷ rows ≡ rows' = cc in
            subst (IsFound id x) same (IsFound-cons id x row rows n c)
      ]
    ]

inserted_or_conflict_inv :
    (i : Insertion) (rows : List Appointment) → inserted_or_conflict i ≡ ok rows → i ≡ inserted rows
inserted_or_conflict_inv (inserted rows') rows h = ap inserted (ok-injective rows' rows h)
inserted_or_conflict_inv unique_violation rows h = cc
inserted_or_conflict_inv exclusion_violation rows h = cc

create_fresh-IsFound :
    (n : ℕ) (x : Appointment) (db : Database) (context : AuthorizationContext)
    (command : CreateBookingCommand) (options : BookingCreationOptions) (id : ℕ) (row : Appointment)
    (db' : Database)
    → create_fresh db context command options id ≡ ok (row, db')
    → IsFound n x db.appointments
    → IsFound n x db'.appointments
unfolding create_fresh append_audit
create_fresh-IsFound n x db context command options id row db' h c =
    let (r, _, h1) = >>=-eq-ok (prepare_fresh db context command options id) _ h in
    let (rows, e, h2) =
      >>=-eq-ok (inserted_or_conflict (insert_appointment r db.appointments)) _ h1 in
    let (a, _, h3) = >>=-eq-ok (to_summary r) _ h2 in
    let (_, y) = ok-pair {A = Appointment} {B = Database} (_, _) (row, db') h3 in
    subst (λ (d : Database). IsFound n x d.appointments) y
      (insertion-IsFound n x r db.appointments rows (inserted_or_conflict_inv _ rows e) c)

create-IsFound :
    (n : ℕ) (x : Appointment) (platform : Platform) (db : Database) (context : AuthorizationContext)
    (command : CreateBookingCommand) (now id : ℕ) (result : BookingCreateResult) (db' : Database)
    → create platform db context command now id ≡ ok (result, db')
    → IsFound n x db.appointments
    → IsFound n x db'.appointments
create-IsFound n x platform db context command now id result db' h c =
    let m = create-IsCreated platform db context command now id result db' h in
    finish m (Option-cases m.replay)
  where
    finish :
        (m : IsCreated platform db context command now id result db')
        → (m.replay ≡ none) ⊎ ((a : Appointment) × (m.replay ≡ some a))
        → IsFound n x db'.appointments
    finish m (inr (a, e)) =
        let ready =
          prepare_idempotency-IsReady _ _ _ _ _ db (some a) m.prepared_db (rw e at m.prepared) in
        let (_, same) =
          create_or_replay_replay context _ m.key id a m.prepared_db result db'
            (rw e at m.finished) in
        rw (same ∙ ready) c
    finish m (inl e) =
        let ready =
          prepare_idempotency-IsReady _ _ _ _ _ db none m.prepared_db (rw e at m.prepared) in
        let f =
          create_or_replay-IsFresh context _ m.key id m.prepared_db result db'
            (rw e at m.finished) in
        let last =
          complete_idempotency_inv f.fresh_db context.user_id appointment_create m.key f.row.id db'
            f.completed in
        let before : IsFound n x m.prepared_db.appointments =
          subst (λ (d : Database). IsFound n x d.appointments) (sym ready.1) c in
        subst (λ (d : Database). IsFound n x d.appointments) (sym last)
          (create_fresh-IsFound n x m.prepared_db context _ _ id f.row f.fresh_db f.created before)

-- A cancellation does not look for a cancelled appointment.
is_target-cancelled :
    (id version : ℕ) (x : Appointment) → x.status ≡ cancelled → is_target id version x ≡ false
is_target-cancelled id version x closed =
    let unbooked = ap is_booked closed in ground (arith, unbooked)

reschedule-IsFound :
    (n : ℕ) (x : Appointment) (platform : Platform) (db : Database) (context : AuthorizationContext)
    (command : RescheduleBookingCommand) (now id : ℕ) (result : BookingRescheduleResult)
    (db' : Database)
    → reschedule platform db context command now id ≡ ok (result, db')
    → x.status ≡ cancelled
    → IsFound n x db.appointments
    → IsFound n x db'.appointments
reschedule-IsFound n x platform db context command now id result db' h closed c =
    let m = reschedule-IsRescheduled platform db context command now id result db' h in
    finish m (Option-cases m.replay)
  where
    finish :
        (m : IsRescheduled platform db context command now id result db')
        → (m.replay ≡ none) ⊎ ((a : Appointment) × (m.replay ≡ some a))
        → IsFound n x db'.appointments
    finish m (inr (a, e)) =
        let ready =
          prepare_idempotency-IsReady _ _ _ _ _ db (some a) m.prepared_db (rw e at m.prepared) in
        let (_, same) =
          reschedule_or_replay_replay context command m.key m.reason now id a m.prepared_db result
            db' (rw e at m.finished) in
        rw (same ∙ ready) c
    finish m (inl e) =
        let ready =
          prepare_idempotency-IsReady _ _ _ _ _ db none m.prepared_db (rw e at m.prepared) in
        let r =
          reschedule_or_replay-IsReplaced context command m.key m.reason now id m.prepared_db result
            db' (rw e at m.finished) in
        let before : IsFound n x m.prepared_db.appointments =
          subst (λ (d : Database). IsFound n x d.appointments) (sym ready.1) c in
        let between : IsFound n x r.cancelled_db.appointments =
          subst (λ (d : Database). IsFound n x d.appointments) (sym r.is_cancelled_db)
            (IsFound-update_many n x (is_target r.original.id command.expected_row_version) _
              m.prepared_db.appointments (λ a. refl)
              (is_target-cancelled r.original.id command.expected_row_version x closed) before) in
        subst (IsFound n x) (sym r.rows_kept) (
          create_fresh-IsFound n x r.cancelled_db context _ _ id r.row r.fresh_db r.created between)

insert_fixed-IsFound :
    (n : ℕ) (x : Appointment) (db : Database) (row : Appointment) (i : Insertion)
    → insert_appointment row db.appointments ≡ i
    → IsFound n x db.appointments
    → IsFound n x (insert_fixed db row i).1.appointments
unfolding insert_fixed append_audit
insert_fixed-IsFound n x db row (inserted rows) e c =
    insertion-IsFound n x row db.appointments rows e c
insert_fixed-IsFound n x db row unique_violation e c = c
insert_fixed-IsFound n x db row exclusion_violation e c = c

generate_or_skip-IsFound :
    (n : ℕ) (x : Appointment) (db : Database) (rule : FixedAppointmentRule) (date id : ℕ)
    (reason : Option FixedGenerationSkipReason)
    → IsFound n x db.appointments
    → IsFound n x (generate_or_skip db rule date id reason).1.appointments
unfolding generate_or_skip
generate_or_skip-IsFound n x db rule date id (some reason) c = c
generate_or_skip-IsFound n x db rule date id none c = insert_fixed-IsFound n x db _ _ refl c

generate_date-IsFound :
    (n : ℕ) (x : Appointment) (db : Database) (rule_id date id : ℕ)
    (o : Option FixedGenerationSkipReason) (db' : Database)
    → generate_date db rule_id date id ≡ ok (o, db')
    → IsFound n x db.appointments
    → IsFound n x db'.appointments
unfolding generate_date generate_found
generate_date-IsFound n x db rule_id date id o db' h c =
    elim (Option-cases (effective_rule db rule_id date)) [
      | inl e ↦
          let k : ok (some already_processed, db) ≡ ok (o, db') = rw e at h in
          let (_, same) =
            ok-pair {A = Option FixedGenerationSkipReason} {B = Database}
              (some already_processed, db) (o, db') k in
          rw (← same) c
      | inr (rule, e) ↦
          let k : generate_rule db rule date id ≡ ok (o, db') = rw e at h in
          elim (generate_rule_inv db rule date id o db' k) [
            | inl (_, same) ↦ rw same c
            | inr (day, _, g) ↦
                subst
                  (λ (t : Option FixedGenerationSkipReason × Database).
                    IsFound n x t.1.appointments)
                  g (generate_or_skip-IsFound n x db rule date id _ c)
          ]
    ]

pub Step-IsFound :
    (n : ℕ) (x : Appointment) (platform : Platform) {db db' : Database}
    → Step platform db db'
    → x.status ≡ cancelled
    → All IsRule db.rules
    → IsFound n x db.appointments
    → IsFound n x db'.appointments
unfolding append_audit run
Step-IsFound n x platform {db} {db'} (creates context command now id result h) closed rules c =
    create-IsFound n x platform db context command now id result db' h c
Step-IsFound n x platform {db} {db'} (cancels context command now result h) closed rules c =
    let m = cancel-IsCancellation platform db context command now result db' h in
    subst (λ (d : Database). IsFound n x d.appointments) (sym m.after)
      (IsFound-update_many n x (is_target m.appointment.id command.expected_row_version) _
        db.appointments (λ a. refl)
        (is_target-cancelled m.appointment.id command.expected_row_version x closed) c)
Step-IsFound n x platform {db} {db'} (reschedules context command now id result h) closed rules c =
    reschedule-IsFound n x platform db context command now id result db' h closed c
Step-IsFound n x platform {db} (completes now) closed rules c =
    IsFound-update_many n x (is_over now) (completed_row now) db.appointments (λ a. refl)
      (let unbooked = ap is_booked closed in ground (arith, unbooked)) c
Step-IsFound n x platform {db} (generates next_id now) closed rules c =
    generate_kept (λ db. IsFound n x db.appointments)
      (λ db rule_id date id o db' d k g. generate_date-IsFound n x db rule_id date id o db' g k)
      next_id db now rules c

-- ===== src/System/Finality.antt =====
-- A cancelled appointment stays as it is in every history of the transactions of
-- apps/api/src/booking, overtime, unavailability and leave, the cancellations of leaves that book
-- appointments again included.
use makeup_booking_system.Base.{
  >>=-eq-ok, [], ok-injective, or_throw, or_throw-eq-ok, ◌∙◌, ◌∷◌, ◌≢◌, All, Bool, List, ap, arith,
  false, if◌then◌else◌, inl, inr, map, not, ok, refl, subst, sym, true, ◌≡◌, ℕ,
}
use makeup_booking_system.Booking.Cancel.{
  BookingCancellationResult, CancelBookingCommand, appointment_by_id, cancel,
}
use makeup_booking_system.Booking.CancelLaws.{cancel-IsCancellation}
use makeup_booking_system.Booking.CancelledOnce.{
  assert_cancellable-IsCancellable, cancel-appointment_by_id,
}
use makeup_booking_system.Database.{
  is_leave_source, Appointment, ArtistUnavailablePeriod, CancellationReasonCode, Database,
  LeaveRecord, artist_leave, cancelled, host_leave, is_absence_active, is_booked,
}
use makeup_booking_system.Errors.{booking_appointment_not_found}
use makeup_booking_system.Leave.AllRestored.{restore_one_inv}
use makeup_booking_system.Leave.Cancel.{
  fixed_rule, is_cancelled_by, restorable_of, restore_fixed_appointments, restore_one, rule_applies,
  cancel_leave,
}
use makeup_booking_system.Leave.Cancelling.{cancel_leave-IsLeaveCancelling}
use makeup_booking_system.Access.{AuthorizationContext}
use makeup_booking_system.Booking.Completion.{run}
use makeup_booking_system.Booking.Create.{Platform}
use makeup_booking_system.Booking.Finality.{IsFound, IsFound-map, IsFound-update_many, Step-IsFound}
use makeup_booking_system.Booking.GenerationLaws.{IsRule}
use makeup_booking_system.Booking.GenerationRunLaws.{generate_date-tables, generate_kept}
use makeup_booking_system.Booking.History.{
  Step, completes, creates, cancels, reschedules, generates,
}
use makeup_booking_system.Booking.TablesKept.{cancel-tables, create-tables, reschedule-tables}
use makeup_booking_system.Leave.{
  CancelLeaveCommand, LeaveDateRange, LeaveSubject, is_artist_subject, leave_where,
}
use makeup_booking_system.Leave.Created.{cancel_leave-IsLeaveCancelled}
use makeup_booking_system.Leave.Review.{artist_leave_subject, leave_range}
use makeup_booking_system.Leave.Steps.{
  create_leave-IsLeaveCreated, on_leave_change, review_leave-IsLeaveReviewed,
}
use makeup_booking_system.Overtime.Machine.{OvertimeStep-cases}
use makeup_booking_system.System.{
  SystemStep, books, works, creates_period, reviews_period, cancels_period, creates_leave,
  reviews_leave, cancels_leave,
}
use makeup_booking_system.Unavailability.{ArtistUnavailablePeriodRange, appointment_where, range_of}
use makeup_booking_system.Unavailability.Commands.{reviewed_status}
use makeup_booking_system.Unavailability.Steps.{
  cancel_period-IsPeriodCancelled, cancel_row_if, create_period-IsPeriodCreated,
  review_period-IsPeriodReviewed,
}

pub data AnyStep (platform : Platform) : Database → Database → Type 0 where
  system_step : {db db' : Database} → SystemStep platform db db' → AnyStep platform db db'
  cancels_any_leave :
      {db db' : Database} (context : AuthorizationContext) (command : CancelLeaveCommand) (now : ℕ)
      → cancel_leave platform.nfkc db context command now ≡ ok db'
      → AnyStep platform db db'

pub data AnyReach (platform : Platform) : Database → Database → Type 0 where
  stands : {db : Database} → AnyReach platform db db
  moves :
      {db db' db'' : Database}
      → AnyStep platform db db'
      → AnyReach platform db' db''
      → AnyReach platform db db''

Step-rules :
    (platform : Platform) {db db' : Database}
    → Step platform db db'
    → All IsRule db.rules
    → All IsRule db'.rules
unfolding run
Step-rules platform {db} {db'} (creates context command now id result h) r =
    rw (ap (λ t. t.0) (create-tables platform db context command now id result db' h)) r
Step-rules platform {db} {db'} (cancels context command now result h) r =
    rw (ap (λ t. t.0) (cancel-tables platform db context command now result db' h)) r
Step-rules platform {db} {db'} (reschedules context command now id result h) r =
    rw (ap (λ t. t.0) (reschedule-tables platform db context command now id result db' h)) r
Step-rules platform {db} (completes now) r = r
Step-rules platform {db} (generates next_id now) r =
    generate_kept (λ db. All IsRule db.rules)
      (λ db rule_id date id o db' d k g.
        rw (ap (λ t. t.0) (generate_date-tables db rule_id date id o db' g)) k)
      next_id db now r r

SystemStep-rules :
    (platform : Platform) {db db' : Database}
    → SystemStep platform db db'
    → All IsRule db.rules
    → All IsRule db'.rules
SystemStep-rules platform (books s) r = Step-rules platform s r
SystemStep-rules platform {db} {db'} (works s) r = elim (OvertimeStep-cases platform.nfkc s) [
  | inl m ↦ rw (ap (λ t. t.0) m.tables_kept) r
  | inr m ↦ rw (ap (λ t. t.0) m.tables_kept) r
]
SystemStep-rules platform {db} {db'} (creates_period context command now id result e) r =
    let m = create_period-IsPeriodCreated platform.nfkc db context command now id result db' e in
    rw (ap (λ t. t.0) m.tables_after) r
SystemStep-rules platform {db} {db'} (reviews_period context command now result e) r =
    let m = review_period-IsPeriodReviewed platform.nfkc db context command now result db' e in
    rw (ap (λ t. t.0) m.tables_after) r
SystemStep-rules platform {db} {db'} (cancels_period context command now e) r =
    let m = cancel_period-IsPeriodCancelled platform.nfkc db context command now db' e in
    rw (ap (λ t. t.0) m.tables_after) r
SystemStep-rules platform {db} {db'} (creates_leave context command now clock id result e) r =
    let m =
      create_leave-IsLeaveCreated platform.nfkc db context command now clock id result db' e in
    rw (ap (λ t. t.0) m.tables_after) r
SystemStep-rules platform {db} {db'} (reviews_leave context command now result e) r =
    let m = review_leave-IsLeaveReviewed platform.nfkc db context command now result db' e in
    rw (ap (λ t. t.0) m.tables_after) r
SystemStep-rules platform {db} {db'} (cancels_leave context command now leave f none_left e) r =
    let m =
      cancel_leave-IsLeaveCancelled platform.nfkc db context command now leave db' f none_left e in
    rw (ap (λ t. t.0) m.tables_after) r

-- The absences cancel booked appointments alone.
appointment_where-cancelled :
    (artist_id : ℕ) (range : ArtistUnavailablePeriodRange) (x : Appointment)
    → x.status ≡ cancelled
    → appointment_where artist_id range x ≡ false
unfolding appointment_where
appointment_where-cancelled artist_id range x closed =
    let unbooked = ap is_booked closed in ground (arith, unbooked)

leave_where-cancelled :
    (subject : LeaveSubject) (range : LeaveDateRange) (x : Appointment)
    → x.status ≡ cancelled
    → leave_where subject range x ≡ false
unfolding leave_where
leave_where-cancelled subject range x closed =
    let unbooked = ap is_booked closed in ground (arith, unbooked)

module _ (n : ℕ) (x : Appointment) (closed : x.status ≡ cancelled) where
  IsFound-met :
      (active_now : Bool) (period : ArtistUnavailablePeriod) (user_id now : ℕ)
      (rows : List Appointment)
      → IsFound n x rows
      → IsFound n x (map (λ a. if active_now then cancel_row_if period user_id now a else a) rows)
  IsFound-met true period user_id now rows f =
      IsFound-update_many n x (appointment_where period.artist_id (range_of period)) _ rows
        (λ a. refl) (appointment_where-cancelled period.artist_id (range_of period) x closed) f
  IsFound-met false period user_id now rows f = IsFound-map n x (λ a. a) rows (λ a. refl) refl f

  IsFound-on_leave :
      (on_leave : Bool) (code : CancellationReasonCode) (subject : LeaveSubject)
      (leave : LeaveRecord) (user_id now : ℕ) (rows : List Appointment)
      → IsFound n x rows
      → IsFound n x (map (on_leave_change on_leave code subject leave user_id now) rows)
  IsFound-on_leave true code subject leave user_id now rows f =
      IsFound-update_many n x (leave_where subject (leave_range leave)) _ rows (λ a. refl)
        (leave_where-cancelled subject (leave_range leave) x closed) f
  IsFound-on_leave false code subject leave user_id now rows f =
      IsFound-map n x (λ a. a) rows (λ a. refl) refl f

  SystemStep-IsFound :
      (platform : Platform) {db db' : Database}
      → SystemStep platform db db'
      → All IsRule db.rules
      → IsFound n x db.appointments
      → IsFound n x db'.appointments
  SystemStep-IsFound platform (books s) r f = Step-IsFound n x platform s closed r f
  SystemStep-IsFound platform {db} {db'} (works s) r f = elim (OvertimeStep-cases platform.nfkc s) [
    | inl m ↦ rw m.rows_kept f
    | inr m ↦ rw m.rows_kept f
  ]
  SystemStep-IsFound platform {db} {db'} (creates_period context command now id result e) r f =
      let m = create_period-IsPeriodCreated platform.nfkc db context command now id result db' e in
      subst (IsFound n x) (sym m.rows_after) (
        IsFound-met (is_absence_active m.period.status) m.period context.user_id now db.appointments
          f)
  SystemStep-IsFound platform {db} {db'} (reviews_period context command now result e) r f =
      let m = review_period-IsPeriodReviewed platform.nfkc db context command now result db' e in
      subst (IsFound n x) (sym m.rows_after) (
        IsFound-met (is_absence_active (reviewed_status command.decision)) m.period context.user_id
          now db.appointments f)
  SystemStep-IsFound platform {db} {db'} (cancels_period context command now e) r f =
      let m = cancel_period-IsPeriodCancelled platform.nfkc db context command now db' e in
      rw m.rows_after f
  SystemStep-IsFound platform {db} {db'} (creates_leave context command now clock id result e) r f =
      let m =
        create_leave-IsLeaveCreated platform.nfkc db context command now clock id result db' e in
      subst (IsFound n x) (sym m.rows_after) (
        IsFound-on_leave (not (is_artist_subject m.subject.subject_type)) host_leave m.subject
          m.leave context.user_id now db.appointments f)
  SystemStep-IsFound platform {db} {db'} (reviews_leave context command now result e) r f =
      let m = review_leave-IsLeaveReviewed platform.nfkc db context command now result db' e in
      subst (IsFound n x) (sym m.rows_after) (
        IsFound-on_leave (is_absence_active (reviewed_status command.decision)) artist_leave
          (artist_leave_subject m.artist_found) m.leave context.user_id now db.appointments f)
  SystemStep-IsFound platform {db} {db'} (cancels_leave context command now leave g none_left e) r
        f =
      let m =
        cancel_leave-IsLeaveCancelled platform.nfkc db context command now leave db' g none_left
          e in
      rw m.rows_after f

restore_fixed_appointments-rules :
    (context : AuthorizationContext) (leave_id : ℕ) (todo : List Appointment) (db db' : Database)
    → restore_fixed_appointments db context leave_id todo ≡ ok db'
    → db'.rules ≡ db.rules
unfolding restore_fixed_appointments
restore_fixed_appointments-rules context leave_id [] db db' h =
    ap (λ (d : Database). d.rules) (sym (ok-injective db db' h))
restore_fixed_appointments-rules context leave_id (t ∷ todo) db db' h =
    let applies = rule_applies db t.appointment_date (fixed_rule db t) in
    let (restored, e, h1) =
      >>=-eq-ok (if applies then restore_one db context leave_id t else ok db) _ h in
    restore_fixed_appointments-rules context leave_id todo restored db' h1 ∙ step applies restored e
  where
    step :
        (applies : Bool) (restored : Database)
        → (if applies then restore_one db context leave_id t else ok db) ≡ ok restored
        → restored.rules ≡ db.rules
    step true restored e =
        let (_, rules, _) = restore_one_inv db context leave_id t restored e in rules
    step false restored e = ap (λ (d : Database). d.rules) (sym (ok-injective db restored e))

-- A restoration leaves the rows alone that no leave has cancelled.
module _ (n : ℕ) (x : Appointment)
    (unsourced : (leave_id : ℕ) → is_leave_source leave_id x.cancellation_source ≡ false) where
  restore_fixed_appointments-IsFound :
      (context : AuthorizationContext) (leave_id : ℕ) (todo : List Appointment) (db db' : Database)
      → restore_fixed_appointments db context leave_id todo ≡ ok db'
      → IsFound n x db.appointments
      → IsFound n x db'.appointments
  unfolding restore_fixed_appointments
  restore_fixed_appointments-IsFound context leave_id [] db db' h f =
      subst (λ (d : Database). IsFound n x d.appointments) (ok-injective db db' h) f
  restore_fixed_appointments-IsFound context leave_id (t ∷ todo) db db' h f =
      let applies = rule_applies db t.appointment_date (fixed_rule db t) in
      let (restored, e, h1) =
        >>=-eq-ok (if applies then restore_one db context leave_id t else ok db) _ h in
      restore_fixed_appointments-IsFound context leave_id todo restored db' h1
        (step applies restored e)
    where
      step :
          (applies : Bool) (restored : Database)
          → (if applies then restore_one db context leave_id t else ok db) ≡ ok restored
          → IsFound n x restored.appointments
      step true restored e =
          let (rows, _, _) = restore_one_inv db context leave_id t restored e in
          let other : is_cancelled_by leave_id t x ≡ false = rw (unsourced leave_id) refl in
          subst (IsFound n x) (sym rows) (
            IsFound-update_many n x (is_cancelled_by leave_id t) _ db.appointments (λ a. refl) other
              f)
      step false restored e =
          subst (λ (d : Database). IsFound n x d.appointments) (ok-injective db restored e) f

AnyStep-rules :
    (platform : Platform) {db db' : Database}
    → AnyStep platform db db'
    → All IsRule db.rules
    → All IsRule db'.rules
AnyStep-rules platform (system_step s) r = SystemStep-rules platform s r
AnyStep-rules platform {db} {db'} (cancels_any_leave context command now e) r =
    let m = cancel_leave-IsLeaveCancelling platform.nfkc db context command now db' e in
    let same =
      ap (λ t. t.0) m.tables_after
      ∙ restore_fixed_appointments-rules context m.leave.id (restorable_of db m.leave) m.updated
          m.restored m.restores
      ∙ ap (λ (d : Database). d.rules) m.is_updated in
    subst (All IsRule) (sym same) r

AnyReach-IsFound :
    (n : ℕ) (x : Appointment) (platform : Platform) {db db' : Database}
    → AnyReach platform db db'
    → x.status ≡ cancelled
    → ((leave_id : ℕ) → is_leave_source leave_id x.cancellation_source ≡ false)
    → All IsRule db.rules
    → IsFound n x db.appointments
    → IsFound n x db'.appointments
AnyReach-IsFound n x platform stands closed unsourced r f = f
AnyReach-IsFound n x platform (moves (system_step s) rest) closed unsourced r f =
    AnyReach-IsFound n x platform rest closed unsourced (SystemStep-rules platform s r)
      (SystemStep-IsFound n x closed platform s r f)
AnyReach-IsFound n x platform {db}
      (moves {db' = db'} (cancels_any_leave context command now e) rest) closed unsourced r f =
    let m = cancel_leave-IsLeaveCancelling platform.nfkc db context command now db' e in
    let before : IsFound n x m.updated.appointments =
      subst (λ (d : Database). IsFound n x d.appointments) (sym m.is_updated) f in
    AnyReach-IsFound n x platform rest closed unsourced
      (AnyStep-rules platform (cancels_any_leave context command now e) r)
      (subst (IsFound n x) (sym m.rows_after) (
        restore_fixed_appointments-IsFound n x unsourced context m.leave.id
          (restorable_of db m.leave) m.updated m.restored m.restores before))

-- After a command has cancelled an appointment, its row stays as it is, and no command of any
-- caller at any time cancels it again, whatever bookings, cancellations, reschedules, completion
-- runs, generation runs, overtime transactions, unavailable periods and leaves commit in between,
-- the cancellations of leaves included that book appointments again. At the start the fixed rules
-- keep their CHECK constraint and begin on dates.
pub cancel-AnyReach :
    (platform : Platform) (db : Database) (context context' : AuthorizationContext)
    (command command' : CancelBookingCommand) (now now' : ℕ)
    (result result' : BookingCancellationResult) (db' db'' db''' : Database)
    → cancel platform db context command now ≡ ok (result, db')
    → All IsRule db.rules
    → AnyReach platform db' db''
    → command'.appointment_id ≡ command.appointment_id
    → (appointment_by_id db'' command.appointment_id ≡ appointment_by_id db' command.appointment_id)
      × (cancel platform db'' context' command' now' ≢ ok (result', db'''))
unfolding appointment_by_id
cancel-AnyReach platform db context context' command command' now now' result result' db' db'' db'''
      h rules reach e =
    let (a, _, _, b, found, by) =
      cancel-appointment_by_id platform db context command now result db' h in
    let rules' = Step-rules platform (cancels context command now result h) rules in
    let last =
      AnyReach-IsFound command.appointment_id b platform reach by.now_cancelled
        (λ leave_id. ap (is_leave_source leave_id) by.for_source) rules'
        (or_throw-eq-ok _ _ found) in
    let found_last : appointment_by_id db'' command.appointment_id ≡ ok b =
      ap (λ o. or_throw o booking_appointment_not_found) last in
    (
      found_last ∙ sym found,
      λ k.
          let m = cancel-IsCancellation platform db'' context' command' now' result' db''' k in
          let again =
            assert_cancellable-IsCancellable db'' context' m.appointment
              command'.expected_row_version now' m.cancellable in
          let same =
            ok-injective b m.appointment
              (sym found_last ∙ ap (appointment_by_id db'') (sym e) ∙ m.found) in
          let wrong : false ≡ true =
            ap is_booked (sym by.now_cancelled)
            ∙ ap (λ (c : Appointment). is_booked c.status) same
            ∙ again.is_booked_still in
          cc,
    )

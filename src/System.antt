-- ===== src/System.antt =====
-- Histories of the whole model: the transactions of apps/api/src/booking, overtime, unavailability
-- and leave, one after the other. A cancellation of a leave is a step where it books no fixed
-- appointment again.
pub mod Finality
use makeup_booking_system.Absence.Generated.{generate-IsOrderly}
use makeup_booking_system.Absence.Kept.{
  IsOrderly, IsOrderly-same, cancel-IsOrderly, create-IsOrderly, reschedule-IsOrderly,
  run-IsOrderly,
}
use makeup_booking_system.Access.{AuthorizationContext}
use makeup_booking_system.Base.{
  All, Bool, Option, [], ap, false, find, if◌then◌else◌, inl, inr, map, not, ok, refl, some, true,
  ◌∙◌, ◌≡◌, ℕ,
}
use makeup_booking_system.Booking.Appointments.{tables}
use makeup_booking_system.Booking.Cancel.{cancelled_row}
use makeup_booking_system.Booking.CancelLaws.{cancelled_row-Keeps}
use makeup_booking_system.Booking.Create.{Platform}
use makeup_booking_system.Booking.GenerationLaws.{IsRule}
use makeup_booking_system.Booking.GenerationRunLaws.{IsReadyDb}
use makeup_booking_system.Booking.History.{
  Step, Step-IsReadyDb, completes, creates, cancels, reschedules, generates,
}
use makeup_booking_system.Booking.Rows.{IsConsistent-map, Keeps, Keeps-refl}
use makeup_booking_system.Database.{
  Appointment, ArtistUnavailablePeriod, CancellationReasonCode, CancellationSource, Database,
  LeaveRecord, Text, artist_leave, host_leave, is_absence_active, leave_record_source,
  unavailable_period_source,
}
use makeup_booking_system.Leave.{
  CancelLeaveCommand, CreateLeaveCommand, LeaveSubject, LeaveSummary, ReviewLeaveCommand,
  create_leave, is_artist_subject, leave_where,
}
use makeup_booking_system.Leave.Cancel.{cancel_leave, restorable_of}
use makeup_booking_system.Leave.Created.{
  cancel_leave-IsLeaveCancelled, cancel_leave-IsOrderly, create_leave-IsOrderly,
}
use makeup_booking_system.Leave.Orderly.{review_leave-IsOrderly}
use makeup_booking_system.Leave.Review.{artist_leave_subject, leave_is, leave_range, review_leave}
use makeup_booking_system.Leave.Steps.{
  create_leave-IsLeaveCreated, on_leave_change, review_leave-IsLeaveReviewed,
}
use makeup_booking_system.Overtime.Machine.{OvertimeStep, OvertimeStep-cases}
use makeup_booking_system.Unavailability.{
  ArtistUnavailablePeriodSummary, CancelArtistUnavailablePeriodCommand,
  CreateArtistUnavailablePeriodCommand, ReviewArtistUnavailablePeriodCommand, appointment_where,
  range_of,
}
use makeup_booking_system.Unavailability.Commands.{
  cancel_period, create_period, review_period, reviewed_status,
}
use makeup_booking_system.Unavailability.Orderly.{
  cancel_period-IsOrderly, create_period-IsOrderly, review_period-IsOrderly,
}
use makeup_booking_system.Unavailability.Steps.{
  cancel_period-IsPeriodCancelled, cancel_row_if, create_period-IsPeriodCreated, map_id,
  review_period-IsPeriodReviewed,
}

pub data SystemStep (platform : Platform) : Database → Database → Type 0 where
  books : {db db' : Database} → Step platform db db' → SystemStep platform db db'
  works : {db db' : Database} → OvertimeStep platform.nfkc db db' → SystemStep platform db db'
  creates_period :
      {db db' : Database} (context : AuthorizationContext)
      (command : CreateArtistUnavailablePeriodCommand) (now id : ℕ)
      (result : ArtistUnavailablePeriodSummary)
      → create_period platform.nfkc db context command now id ≡ ok (result, db')
      → SystemStep platform db db'
  reviews_period :
      {db db' : Database} (context : AuthorizationContext)
      (command : ReviewArtistUnavailablePeriodCommand) (now : ℕ)
      (result : ArtistUnavailablePeriodSummary)
      → review_period platform.nfkc db context command now ≡ ok (result, db')
      → SystemStep platform db db'
  cancels_period :
      {db db' : Database} (context : AuthorizationContext)
      (command : CancelArtistUnavailablePeriodCommand) (now : ℕ)
      → cancel_period platform.nfkc db context command now ≡ ok db'
      → SystemStep platform db db'
  creates_leave :
      {db db' : Database} (context : AuthorizationContext) (command : CreateLeaveCommand)
      (now clock id : ℕ) (result : LeaveSummary)
      → create_leave platform.nfkc db context command now clock id ≡ ok (result, db')
      → SystemStep platform db db'
  reviews_leave :
      {db db' : Database} (context : AuthorizationContext) (command : ReviewLeaveCommand) (now : ℕ)
      (result : LeaveSummary)
      → review_leave platform.nfkc db context command now ≡ ok (result, db')
      → SystemStep platform db db'
  cancels_leave :
      {db db' : Database} (context : AuthorizationContext) (command : CancelLeaveCommand) (now : ℕ)
      (leave : LeaveRecord)
      → find (leave_is command.leave_id) db.leave_records ≡ some leave
      → restorable_of db leave ≡ []
      → cancel_leave platform.nfkc db context command now ≡ ok db'
      → SystemStep platform db db'

pub data SystemReach (platform : Platform) : Database → Database → Type 0 where
  at_once : {db : Database} → SystemReach platform db db
  after :
      {db db' db'' : Database}
      → SystemStep platform db db'
      → SystemReach platform db' db''
      → SystemReach platform db db''

-- What holds of the tables between two transactions: the fixed rules keep their CHECK constraint,
-- the appointments are consistent, and nobody who is absent is booked.
pub record IsSound (db : Database) : Type 0 where
  pub ready : IsReadyDb db
  pub orderly : IsOrderly db

Step-IsOrderly :
    (platform : Platform) {db db' : Database}
    → Step platform db db'
    → All IsRule db.rules
    → IsOrderly db
    → IsOrderly db'
Step-IsOrderly platform {db} {db'} (creates context command now id result h) r o =
    create-IsOrderly platform db context command now id result db' h o
Step-IsOrderly platform {db} {db'} (cancels context command now result h) r o =
    cancel-IsOrderly platform db context command now result db' h o
Step-IsOrderly platform {db} {db'} (reschedules context command now id result h) r o =
    reschedule-IsOrderly platform db context command now id result db' h o
Step-IsOrderly platform {db} (completes now) r o = run-IsOrderly db now o
Step-IsOrderly platform {db} (generates next_id now) r o = generate-IsOrderly next_id db now r o

-- A transaction that keeps each appointment at its place, and books none.
Sound-map :
    (db db' : Database) (g : Appointment → Appointment)
    → db'.rules ≡ db.rules
    → db'.appointments ≡ map g db.appointments
    → ((a : Appointment) → Keeps a (g a))
    → IsOrderly db'
    → IsReadyDb db
    → IsSound db'
Sound-map db db' g t r k o h = record {
  ready = record {
    rules = rw t h.rules;
    appointments = rw r (IsConsistent-map g k db.appointments h.appointments);
  };
  orderly = o;
}

Overtime-IsSound :
    (db db' : Database)
    → tables db' ≡ tables db
    → db'.appointments ≡ db.appointments
    → IsSound db
    → IsSound db'
Overtime-IsSound db db' t r s = record {
  ready = record {
    rules = rw (ap (λ t. t.0) t) s.ready.rules;
    appointments = rw r s.ready.appointments;
  };
  orderly = IsOrderly-same db db' t r s.orderly;
}

Keeps-cancelled :
    (b : Bool) (code : CancellationReasonCode) (text : Option Text)
    (source : Option CancellationSource) (now user_id : ℕ) (a : Appointment)
    → Keeps a (if b then cancelled_row code text source now user_id a else a)
Keeps-cancelled true code text source now user_id a =
    cancelled_row-Keeps code text source now user_id a
Keeps-cancelled false code text source now user_id a = Keeps-refl a

Keeps-met :
    (active_now : Bool) (period : ArtistUnavailablePeriod) (user_id now : ℕ) (a : Appointment)
    → Keeps a (if active_now then cancel_row_if period user_id now a else a)
Keeps-met true period user_id now a =
    Keeps-cancelled (appointment_where period.artist_id (range_of period) a) artist_leave
      (some period.reason) (some (unavailable_period_source period.id)) now user_id a
Keeps-met false period user_id now a = Keeps-refl a

Keeps-on_leave :
    (on_leave : Bool) (code : CancellationReasonCode) (subject : LeaveSubject) (leave : LeaveRecord)
    (user_id now : ℕ) (a : Appointment)
    → Keeps a (on_leave_change on_leave code subject leave user_id now a)
Keeps-on_leave true code subject leave user_id now a =
    Keeps-cancelled (leave_where subject (leave_range leave) a) code leave.reason
      (some (leave_record_source leave.id)) now user_id a
Keeps-on_leave false code subject leave user_id now a = Keeps-refl a

SystemStep-IsSound :
    (platform : Platform) {db db' : Database}
    → SystemStep platform db db'
    → IsSound db
    → IsSound db'
SystemStep-IsSound platform (books s) h = record {
  ready = Step-IsReadyDb platform s h.ready;
  orderly = Step-IsOrderly platform s h.ready.rules h.orderly;
}
SystemStep-IsSound platform {db} {db'} (works s) h = elim (OvertimeStep-cases platform.nfkc s) [
  | inl m ↦ Overtime-IsSound db db' m.tables_kept m.rows_kept h
  | inr m ↦ Overtime-IsSound db db' m.tables_kept m.rows_kept h
]
SystemStep-IsSound platform {db} {db'} (creates_period context command now id result e) h =
    let m = create_period-IsPeriodCreated platform.nfkc db context command now id result db' e in
    Sound-map db db' _ (ap (λ t. t.0) m.tables_after) m.rows_after
      (Keeps-met (is_absence_active m.period.status) m.period context.user_id now)
      (create_period-IsOrderly platform.nfkc db context command now id result db' e h.orderly)
      h.ready
SystemStep-IsSound platform {db} {db'} (reviews_period context command now result e) h =
    let m = review_period-IsPeriodReviewed platform.nfkc db context command now result db' e in
    Sound-map db db' _ (ap (λ t. t.0) m.tables_after) m.rows_after
      (Keeps-met (is_absence_active (reviewed_status command.decision)) m.period context.user_id
        now)
      (review_period-IsOrderly platform.nfkc db context command now result db' e h.orderly) h.ready
SystemStep-IsSound platform {db} {db'} (cancels_period context command now e) h =
    let m = cancel_period-IsPeriodCancelled platform.nfkc db context command now db' e in
    Sound-map db db' _ (ap (λ t. t.0) m.tables_after)
      (m.rows_after ∙ map_id (λ a. a) (λ a. refl) db.appointments) Keeps-refl
      (cancel_period-IsOrderly platform.nfkc db context command now db' e h.orderly) h.ready
SystemStep-IsSound platform {db} {db'} (creates_leave context command now clock id result e) h =
    let m =
      create_leave-IsLeaveCreated platform.nfkc db context command now clock id result db' e in
    Sound-map db db' _ (ap (λ t. t.0) m.tables_after) m.rows_after
      (Keeps-on_leave (not (is_artist_subject m.subject.subject_type)) host_leave m.subject m.leave
        context.user_id now)
      (create_leave-IsOrderly platform.nfkc db context command now clock id result db' e h.orderly)
      h.ready
SystemStep-IsSound platform {db} {db'} (reviews_leave context command now result e) h =
    let m = review_leave-IsLeaveReviewed platform.nfkc db context command now result db' e in
    Sound-map db db' _ (ap (λ t. t.0) m.tables_after) m.rows_after
      (Keeps-on_leave (is_absence_active (reviewed_status command.decision)) artist_leave
        (artist_leave_subject m.artist_found) m.leave context.user_id now)
      (review_leave-IsOrderly platform.nfkc db context command now result db' e h.orderly) h.ready
SystemStep-IsSound platform {db} {db'} (cancels_leave context command now leave f r e) h =
    let m = cancel_leave-IsLeaveCancelled platform.nfkc db context command now leave db' f r e in
    Sound-map db db' _ (ap (λ t. t.0) m.tables_after)
      (m.rows_after ∙ map_id (λ a. a) (λ a. refl) db.appointments) Keeps-refl
      (cancel_leave-IsOrderly platform.nfkc db context command now leave db' f r e h.orderly)
      h.ready

-- Whatever bookings, cancellations, reschedules, completion runs, generation runs, overtime
-- transactions, unavailable periods (created, reviewed, cancelled) and leaves (created, reviewed,
-- and cancelled where they have no fixed appointment to restore) commit, in whatever order, the
-- tables stay sound: the fixed rules keep their CHECK constraint, the appointments are consistent,
-- the unavailable periods are stretches of a day and an artist's open ones are apart, leaves have
-- distinct ids and one subject, and no booked appointment lies in an active unavailable period of
-- its artist or on a date on which its artist or its host is on leave.
pub SystemReach-IsSound :
    (platform : Platform) {db db' : Database}
    → SystemReach platform db db'
    → IsSound db
    → IsSound db'
SystemReach-IsSound platform at_once h = h
SystemReach-IsSound platform (after s rest) h =
    SystemReach-IsSound platform rest (SystemStep-IsSound platform s h)

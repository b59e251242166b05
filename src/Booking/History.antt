-- ===== src/Booking/History.antt =====
-- Histories of the transactions on appointments: the commands of apps/api/src/booking (create,
-- cancel, reschedule), the run of the completion and the generation of fixed appointments, one
-- after the other, as the database commits them. A transaction that throws commits nothing, so it is
-- no step; a run of the generation commits date by date, and is a step also where it throws.
use makeup_booking_system.Base.{ap}
use makeup_booking_system.Base.{All}
use makeup_booking_system.Booking.GenerationLaws.{IsRule}
use makeup_booking_system.Booking.GenerationRun.{generate}
use makeup_booking_system.Booking.GenerationRunLaws.{IsReadyDb, generate-IsReadyDb}
use makeup_booking_system.Booking.TablesKept.{cancel-tables, create-tables, reschedule-tables}
use makeup_booking_system.Access.{AuthorizationContext}
use makeup_booking_system.Base.{filter, length, ok, ◌≡◌, ◌≤◌}
use makeup_booking_system.Booking.Cancel.{BookingCancellationResult, CancelBookingCommand, cancel}
use makeup_booking_system.Booking.CancelLaws.{cancel-IsConsistent}
use makeup_booking_system.Booking.Commands.{create}
use makeup_booking_system.Booking.Completion.{run}
use makeup_booking_system.Booking.CompletionLaws.{run-IsConsistent}
use makeup_booking_system.Booking.Create.{BookingCreateResult, CreateBookingCommand, Platform}
use makeup_booking_system.Booking.Replay.{create-IsConsistent}
use makeup_booking_system.Booking.Reschedule.{
  BookingRescheduleResult, RescheduleBookingCommand, reschedule,
}
use makeup_booking_system.Booking.RescheduleLaws.{reschedule-IsConsistent}
use makeup_booking_system.Booking.Schedule.{IsConsistent, IsConsistent-daily_limit, occupies}
use makeup_booking_system.Database.{Database}
use makeup_booking_system.Base.{ℕ}

pub data Step (platform : Platform) : Database → Database → Type 0 where
  creates :
      {db db' : Database} (context : AuthorizationContext) (command : CreateBookingCommand)
      (now id : ℕ) (result : BookingCreateResult)
      → create platform db context command now id ≡ ok (result, db')
      → Step platform db db'
  cancels :
      {db db' : Database} (context : AuthorizationContext) (command : CancelBookingCommand)
      (now : ℕ) (result : BookingCancellationResult)
      → cancel platform db context command now ≡ ok (result, db')
      → Step platform db db'
  reschedules :
      {db db' : Database} (context : AuthorizationContext) (command : RescheduleBookingCommand)
      (now id : ℕ) (result : BookingRescheduleResult)
      → reschedule platform db context command now id ≡ ok (result, db')
      → Step platform db db'
  completes : {db : Database} (now : ℕ) → Step platform db (run db now).1
  generates :
      {db : Database} (next_id : Database → ℕ) (now : ℕ)
      → Step platform db (generate next_id db now).1

pub data Reach (platform : Platform) : Database → Database → Type 0 where
  done : {db : Database} → Reach platform db db
  step :
      {db db' db'' : Database}
      → Step platform db db'
      → Reach platform db' db''
      → Reach platform db db''

run-IsReadyDb : (db : Database) (now : ℕ) → IsReadyDb db → IsReadyDb (run db now).1
unfolding run
run-IsReadyDb db now h = record {
  rules = h.rules;
  appointments = run-IsConsistent db now h.appointments;
}

pub Step-IsReadyDb :
    (platform : Platform) {db db' : Database} → Step platform db db' → IsReadyDb db → IsReadyDb db'
Step-IsReadyDb platform {db} {db'} (creates context command now id result h) r = record {
  rules =
      rw (ap (λ t. t.0) (create-tables platform db context command now id result db' h)) r.rules;
  appointments = create-IsConsistent platform db context command now id result db' r.appointments h;
}
Step-IsReadyDb platform {db} {db'} (cancels context command now result h) r = record {
  rules = rw (ap (λ t. t.0) (cancel-tables platform db context command now result db' h)) r.rules;
  appointments = cancel-IsConsistent platform db context command now result db' r.appointments h;
}
Step-IsReadyDb platform {db} {db'} (reschedules context command now id result h) r = record {
  rules =
      rw (ap (λ t. t.0) (reschedule-tables platform db context command now id result db' h))
        r.rules;
  appointments =
      reschedule-IsConsistent platform db context command now id result db' r.appointments h;
}
Step-IsReadyDb platform {db} (completes now) r = run-IsReadyDb db now r
Step-IsReadyDb platform {db} (generates next_id now) r = generate-IsReadyDb next_id db now r

Reach-IsReadyDb :
    (platform : Platform) {db db' : Database} → Reach platform db db' → IsReadyDb db → IsReadyDb db'
Reach-IsReadyDb platform done r = r
Reach-IsReadyDb platform (step s rest) r =
    Reach-IsReadyDb platform rest (Step-IsReadyDb platform s r)

-- Whatever bookings, cancellations, reschedules, completion runs and generation runs commit, in
-- whatever order, a consistent table of appointments stays consistent: each appointment lies in
-- its business date with daily sequence 1 or 2, no two active ones of a host or an artist overlap,
-- and no two of a host share a sequence on a date. At the start the fixed rules keep their CHECK
-- constraint and begin on dates.
pub Reach-IsConsistent :
    (platform : Platform) {db db' : Database}
    → Reach platform db db'
    → All IsRule db.rules
    → IsConsistent db.appointments
    → IsConsistent db'.appointments
Reach-IsConsistent platform r rules c =
    let ready = Reach-IsReadyDb platform r (record { rules = rules; appointments = c }) in
    ready.appointments

-- After any transactions that start in a consistent table, with fixed rules that keep their CHECK
-- constraint and begin on dates, a host has at most two active appointments on a date.
pub Reach-daily_limit :
    (platform : Platform) {db db' : Database} (host_id date : ℕ)
    → Reach platform db db'
    → All IsRule db.rules
    → IsConsistent db.appointments
    → length (filter (occupies host_id date) db'.appointments) ≤ 2
Reach-daily_limit platform {db} {db'} host_id date r rules c =
    IsConsistent-daily_limit host_id date db'.appointments (Reach-IsConsistent platform r rules c)

-- ===== src/Booking/TablesKept.antt =====
-- The commands on appointments leave the fixed rules, the unavailable periods and the leaves as they
-- are (apps/api/src/booking).
use makeup_booking_system.Booking.Appointments.{tables, append_audit}
use makeup_booking_system.Database.{Appointment, Database, appointment_create}
use makeup_booking_system.Access.{AuthorizationContext}
use makeup_booking_system.Base.{Option-cases, ap, inl, inr, none, ok, some, ◌∙◌, ◌≡◌, ◌⊎◌, ℕ}
use makeup_booking_system.Booking.Cancel.{BookingCancellationResult, CancelBookingCommand, cancel}
use makeup_booking_system.Booking.CancelLaws.{cancel-IsCancellation}
use makeup_booking_system.Booking.Commands.{create}
use makeup_booking_system.Booking.Create.{
  BookingCreateResult, BookingCreationOptions, CreateBookingCommand, Platform, create_fresh,
}
use makeup_booking_system.Booking.Replay.{
  IsCreated, complete_idempotency_inv, create-IsCreated, create_or_replay-IsFresh,
  create_or_replay_replay, prepare_idempotency-IsReady,
}
use makeup_booking_system.Booking.Reschedule.{
  BookingRescheduleResult, RescheduleBookingCommand, reschedule,
}
use makeup_booking_system.Booking.RescheduleLaws.{
  IsRescheduled, reschedule-IsRescheduled, reschedule_or_replay-IsReplaced,
  reschedule_or_replay_replay,
}
use makeup_booking_system.Booking.Safety.{create_fresh_inv}

create_fresh-tables :
    (db : Database) (context : AuthorizationContext) (command : CreateBookingCommand)
    (options : BookingCreationOptions) (id : ℕ) (row : Appointment) (db' : Database)
    → create_fresh db context command options id ≡ ok (row, db')
    → tables db' ≡ tables db
unfolding append_audit
create_fresh-tables db context command options id row db' h =
    let (_, e, _) = create_fresh_inv db context command options id row db' h in ap tables e

pub create-tables :
    (platform : Platform) (db : Database) (context : AuthorizationContext)
    (command : CreateBookingCommand) (now id : ℕ) (result : BookingCreateResult) (db' : Database)
    → create platform db context command now id ≡ ok (result, db')
    → tables db' ≡ tables db
create-tables platform db context command now id result db' h =
    let m = create-IsCreated platform db context command now id result db' h in
    finish m (Option-cases m.replay)
  where
    finish :
        (m : IsCreated platform db context command now id result db')
        → (m.replay ≡ none) ⊎ ((a : Appointment) × (m.replay ≡ some a))
        → tables db' ≡ tables db
    finish m (inr (a, e)) =
        let ready =
          prepare_idempotency-IsReady _ _ _ _ _ db (some a) m.prepared_db (rw e at m.prepared) in
        let (_, same) =
          create_or_replay_replay context _ m.key id a m.prepared_db result db'
            (rw e at m.finished) in
        ap tables (same ∙ ready)
    finish m (inl e) =
        let ready =
          prepare_idempotency-IsReady _ _ _ _ _ db none m.prepared_db (rw e at m.prepared) in
        let f =
          create_or_replay-IsFresh context _ m.key id m.prepared_db result db'
            (rw e at m.finished) in
        ap tables (
          complete_idempotency_inv f.fresh_db context.user_id appointment_create m.key f.row.id db'
            f.completed)
        ∙ create_fresh-tables m.prepared_db context _ _ id f.row f.fresh_db f.created
        ∙ ap tables ready.1

pub cancel-tables :
    (platform : Platform) (db : Database) (context : AuthorizationContext)
    (command : CancelBookingCommand) (now : ℕ) (result : BookingCancellationResult) (db' : Database)
    → cancel platform db context command now ≡ ok (result, db')
    → tables db' ≡ tables db
unfolding append_audit
cancel-tables platform db context command now result db' h =
    let m = cancel-IsCancellation platform db context command now result db' h in ap tables m.after

pub reschedule-tables :
    (platform : Platform) (db : Database) (context : AuthorizationContext)
    (command : RescheduleBookingCommand) (now id : ℕ) (result : BookingRescheduleResult)
    (db' : Database)
    → reschedule platform db context command now id ≡ ok (result, db')
    → tables db' ≡ tables db
reschedule-tables platform db context command now id result db' h =
    let m = reschedule-IsRescheduled platform db context command now id result db' h in
    finish m (Option-cases m.replay)
  where
    finish :
        (m : IsRescheduled platform db context command now id result db')
        → (m.replay ≡ none) ⊎ ((a : Appointment) × (m.replay ≡ some a))
        → tables db' ≡ tables db
    finish m (inr (a, e)) =
        let ready =
          prepare_idempotency-IsReady _ _ _ _ _ db (some a) m.prepared_db (rw e at m.prepared) in
        let (_, same) =
          reschedule_or_replay_replay context command m.key m.reason now id a m.prepared_db result
            db' (rw e at m.finished) in
        ap tables (same ∙ ready)
    finish m (inl e) =
        let ready =
          prepare_idempotency-IsReady _ _ _ _ _ db none m.prepared_db (rw e at m.prepared) in
        let r =
          reschedule_or_replay-IsReplaced context command m.key m.reason now id m.prepared_db result
            db' (rw e at m.finished) in
        r.tables_kept
        ∙ create_fresh-tables r.cancelled_db context _ _ id r.row r.fresh_db r.created
        ∙ ap tables r.is_cancelled_db
        ∙ ap tables ready.1

-- ===== src/Booking/RescheduleEffect.antt =====
-- The effects of a reschedule on the original appointment
-- (apps/api/src/booking/booking-reschedule.service.ts).
use makeup_booking_system.Booking.CancelledOnce.{
  IsCancelledBy, cancelled_row-IsCancelledBy, IsCancellable, appointment_by_id-update_many,
  assert_cancellable-IsCancellable,
}
use makeup_booking_system.Database.{
  appointment_source, Appointment, Database, Text, is_booked, rescheduled,
}
use makeup_booking_system.Access.{AuthorizationContext}
use makeup_booking_system.Base.{
  Option, Option-cases, ap, arith, false, find, find_later, inl, inr, none, ok, or_throw, refl,
  some, sym, true, ◌==◌, ◌∙◌, ◌∷◌, ◌≡◌, ◌≢◌, ◌⊎◌, ℕ,
}
use makeup_booking_system.Booking.Appointments.{append_audit}
use makeup_booking_system.Booking.Cancel.{appointment_by_id, cancelled_row}
use makeup_booking_system.Booking.Create.{
  BookingCreationOptions, CreateBookingCommand, Platform, create_fresh, new_appointment,
}
use makeup_booking_system.Booking.Fresh.{prepare_fresh-IsPrepared}
use makeup_booking_system.Booking.Replay.{prepare_idempotency-IsReady}
use makeup_booking_system.Booking.Reschedule.{
  BookingRescheduleResult, RescheduleBookingCommand, reschedule,
}
use makeup_booking_system.Booking.RescheduleLaws.{
  IsReplaced, IsRescheduled, reschedule-IsRescheduled, reschedule_or_replay-IsReplaced,
  reschedule_or_replay_replay,
}
use makeup_booking_system.Booking.Safety.{create_fresh_inv}
use makeup_booking_system.Errors.{booking_appointment_not_found}

create_fresh-id :
    (db : Database) (context : AuthorizationContext) (command : CreateBookingCommand)
    (options : BookingCreationOptions) (id : ℕ) (row : Appointment) (db' : Database)
    → create_fresh db context command options id ≡ ok (row, db')
    → (row.id ≡ id) × (db'.appointments ≡ row ∷ db.appointments)
unfolding append_audit new_appointment
create_fresh-id db context command options id row db' h =
    let (p, e, _) = create_fresh_inv db context command options id row db' h in
    let m = prepare_fresh-IsPrepared db context command options id row p in
    (ap (λ (a : Appointment). a.id) m.is_row, ap (λ (d : Database). d.appointments) e)

appointment_by_id-cons :
    (db db' : Database) (id : ℕ) (row : Appointment)
    → db'.appointments ≡ row ∷ db.appointments
    → (row.id == id) ≡ false
    → appointment_by_id db' id ≡ appointment_by_id db id
unfolding appointment_by_id
appointment_by_id-cons db db' id row e h =
    ap (λ (o : Option Appointment). or_throw o booking_appointment_not_found)
      (ap (find (λ a. a.id == id)) e ∙ find_later (λ a. a.id == id) row db.appointments h)

IsReplaced-original :
    (context : AuthorizationContext) (command : RescheduleBookingCommand) (key : Text)
    (reason : Option Text) (now id : ℕ) (db : Database) (result : BookingRescheduleResult)
    (db' : Database)
    → id ≢ command.appointment_id
    → (r : IsReplaced context command key reason now id db result db')
    → IsCancellable db context r.original command.expected_row_version now
      × (appointment_by_id db' command.appointment_id
          ≡ ok (
              cancelled_row rescheduled reason
                (some (appointment_source id))
                now
                context.user_id
                r.original))
IsReplaced-original context command key reason now id db result db' new r =
    let c =
      assert_cancellable-IsCancellable db context r.original command.expected_row_version now
        r.cancellable in
    let (i, rows) = create_fresh-id r.cancelled_db context _ _ id r.row r.fresh_db r.created in
    let other : (r.row.id == command.appointment_id) ≡ false = rw i (ground (arith, new)) in
    let cancelled =
      appointment_by_id-update_many db r.cancelled_db context command.appointment_id
        command.expected_row_version now r.original _ (λ b. refl) r.found c
        (ap (λ (d : Database). d.appointments) r.is_cancelled_db) in
    (
      c,
      appointment_by_id-cons r.cancelled_db db' command.appointment_id r.row (r.rows_kept ∙ rows)
            other
          ∙ cancelled,
    )

-- A reschedule that succeeds and is no replay found the appointment booked and in the command's
-- version; afterwards the appointment is found at the same place, cancelled by the caller at that
-- time, as rescheduled, with the replacement's id as the source and the next version. The
-- replacement's id is not the appointment's.
pub reschedule-appointment_by_id :
    (platform : Platform) (db : Database) (context : AuthorizationContext)
    (command : RescheduleBookingCommand) (now id : ℕ) (result : BookingRescheduleResult)
    (db' : Database)
    → reschedule platform db context command now id ≡ ok (result, db')
    → result.replayed ≡ false
    → id ≢ command.appointment_id
    → (a : Appointment) × (appointment_by_id db command.appointment_id ≡ ok a)
      × (a.row_version ≡ command.expected_row_version)
      × (is_booked a.status ≡ true)
      × (b : Appointment) × (appointment_by_id db' command.appointment_id ≡ ok b)
      × IsCancelledBy context.user_id now rescheduled (some (appointment_source id)) a b
unfolding appointment_by_id
reschedule-appointment_by_id platform db context command now id result db' h fresh new =
    let m = reschedule-IsRescheduled platform db context command now id result db' h in
    finish m (Option-cases m.replay)
  where
    finish :
        (m : IsRescheduled platform db context command now id result db')
        → (m.replay ≡ none) ⊎ ((a : Appointment) × (m.replay ≡ some a))
        → (a : Appointment) × (appointment_by_id db command.appointment_id ≡ ok a)
          × (a.row_version ≡ command.expected_row_version)
          × (is_booked a.status ≡ true)
          × (b : Appointment) × (appointment_by_id db' command.appointment_id ≡ ok b)
          × IsCancelledBy context.user_id now rescheduled (some (appointment_source id)) a b
    finish m (inr (a, e)) =
        let (replayed, _) =
          reschedule_or_replay_replay context command m.key m.reason now id a m.prepared_db result
            db' (rw e at m.finished) in
        let wrong : true ≡ false = sym replayed ∙ fresh in cc
    finish m (inl e) =
        let r =
          reschedule_or_replay-IsReplaced context command m.key m.reason now id m.prepared_db result
            db' (rw e at m.finished) in
        let (c, found) =
          IsReplaced-original context command m.key m.reason now id m.prepared_db result db' new
            r in
        let ready =
          prepare_idempotency-IsReady _ _ _ _ _ db none m.prepared_db (rw e at m.prepared) in
        let before =
          ap (λ (d : Database). appointment_by_id d command.appointment_id) (sym ready.1)
          ∙ r.found in
        (
          r.original,
          before,
          c.same_version,
          c.is_booked_still,
          _,
          found,
          cancelled_row-IsCancelledBy rescheduled m.reason (some (appointment_source id)) now
              context.user_id r.original,
        )

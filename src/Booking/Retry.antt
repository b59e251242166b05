-- ===== src/Booking/Retry.antt =====
-- Repeated requests: the idempotency of `create`
-- (apps/api/src/booking/booking-create.service.ts).
use makeup_booking_system.Booking.GenerationRun.{later}
use makeup_booking_system.Database.{
  Appointment, Database, IdempotencyRecord, IdempotencyScope, Text, appointment_create,
}
use makeup_booking_system.Access.{AuthorizationContext}
use makeup_booking_system.Base.{
  ==_refl, ==→true, List, Option-cases, ap, arith, false, find, if◌then◌else◌, inl, inr, leb, map,
  none, ok, refl, some, sym, true, ◌+◌, ◌<◌, ◌∙◌, ◌∷◌, ◌≡◌, ◌⊎◌, ℕ,
}
use makeup_booking_system.Booking.Appointments.{append_audit}
use makeup_booking_system.Booking.Commands.{create, create_options, create_or_replay, request_hash}
use makeup_booking_system.Booking.Create.{
  BookingCreateResult, CreateBookingCommand, Platform, to_summary,
}
use makeup_booking_system.Booking.Idempotency.{
  completed_record, has_key, is_open, new_record, prepare_idempotency, prepare_with,
  replayed_appointment,
}
use makeup_booking_system.Booking.Replay.{
  IsCreated, IsFresh, IsReady, complete_idempotency_inv, create-IsCreated, create_or_replay-IsFresh,
  create_or_replay_replay, prepare_idempotency-IsReady, scope_eq_refl, text_eq_refl,
}
use makeup_booking_system.Booking.Safety.{create_fresh_inv}
use makeup_booking_system.Booking.Times.{validate_booking_date}
use makeup_booking_system.Shift.Calendar.{day_ms}

-- The record that completes the new one is found under its key.
find-completed :
    (user_id : ℕ) (scope : IdempotencyScope) (key : Text) (hash now id : ℕ)
    (rest : List IdempotencyRecord)
    → find (has_key user_id scope key) (
        map
          (λ r. if is_open user_id scope key r then completed_record id r else r)
          (new_record user_id scope key hash now ∷ rest))
      ≡ some (completed_record id (new_record user_id scope key hash now))
unfolding has_key
find-completed user_id scope key hash now id rest =
    ground (arith, text_eq_refl key, scope_eq_refl scope)

replayed_appointment-completed :
    (db : Database) (r : IdempotencyRecord) (hash : ℕ) (row : Appointment) (rest : List Appointment)
    → r.request_hash ≡ hash
    → r.resource_is_appointment ≡ true
    → r.resource_id ≡ some row.id
    → db.appointments ≡ row ∷ rest
    → to_summary row ≡ ok row
    → replayed_appointment db r hash ≡ ok row
unfolding replayed_appointment
replayed_appointment-completed db r hash row rest e f g k s =
    rw (f, g, k, ==→true r.request_hash hash e, ==_refl row.id) s

-- The tables after a command that is no replay: its record is completed, and its row comes first.
record IsDone (user_id : ℕ) (scope : IdempotencyScope) (key : Text) (hash now : ℕ)
    (row : Appointment) (db : Database) : Type 0 where
  records : List IdempotencyRecord
  rows : List Appointment
  is_records :
      db.idempotency_records
      ≡ map
          (λ r. if is_open user_id scope key r then completed_record row.id r else r)
          (new_record user_id scope key hash now ∷ records)
  is_rows : db.appointments ≡ row ∷ rows
  summary : to_summary row ≡ ok row

prepare_idempotency-IsDone :
    (user_id : ℕ) (scope : IdempotencyScope) (key : Text) (hash now later : ℕ) (row : Appointment)
    (db : Database)
    → IsDone user_id scope key hash now row db
    → later < now + day_ms
    → prepare_idempotency db user_id scope key hash later ≡ ok (some row, db)
unfolding prepare_idempotency prepare_with
prepare_idempotency-IsDone user_id scope key hash now later row db d l =
    let r = completed_record row.id (new_record user_id scope key hash now) in
    let found : find (has_key user_id scope key) db.idempotency_records ≡ some r =
      ap (find (has_key user_id scope key)) d.is_records
      ∙ find-completed user_id scope key hash now row.id d.records in
    let late : leb (now + day_ms) later ≡ false = ground arith in
    rw (
      found,
      late,
      replayed_appointment-completed db r hash row d.rows refl refl refl d.is_rows d.summary,
    )

IsFresh-IsDone :
    (context : AuthorizationContext) (command : CreateBookingCommand) (key : Text) (id hash now : ℕ)
    (db prepared_db : Database) (result : BookingCreateResult) (db' : Database)
    → IsReady context.user_id appointment_create key hash now db none prepared_db
    → (f : IsFresh context command key id prepared_db result db')
    → IsDone context.user_id appointment_create key hash now f.row db'
unfolding append_audit
IsFresh-IsDone context command key id hash now db prepared_db result db' ready f =
    let (_, e, s) =
      create_fresh_inv prepared_db context command (create_options command.reason) id f.row
        f.fresh_db f.created in
    let c =
      complete_idempotency_inv f.fresh_db context.user_id appointment_create key f.row.id db'
        f.completed in
    let complete = λ (r : IdempotencyRecord).
      if is_open context.user_id appointment_create key r then completed_record f.row.id r else r in
    record {
      records = ready.0;
      rows = prepared_db.appointments;
      is_records =
          ap (λ d. d.idempotency_records) c
          ∙ ap (λ (d : Database). map complete d.idempotency_records) (e)
          ∙ ap (λ (d : Database). map complete d.idempotency_records) ready.1;
      is_rows = ap (λ d. d.appointments) c ∙ ap (λ d. d.appointments) e;
      summary = s;
    }

-- Repeating a command that has created an appointment, on the tables that the first call left:
-- within 24 hours, where its date still passes the validation, the same command of the same caller
-- returns the same appointment, marked as replayed, and changes nothing.
pub create-create :
    (platform : Platform) (db : Database) (context : AuthorizationContext)
    (command : CreateBookingCommand) (now later id id' : ℕ) (result : BookingCreateResult)
    (db' : Database)
    → create platform db context command now id ≡ ok (result, db')
    → result.replayed ≡ false
    → validate_booking_date (some command.date) later ≡ ok tt
    → later < now + day_ms
    → create platform db' context command later id'
      ≡ ok (record { appointment = result.appointment; replayed = true }, db')
create-create platform db context command now later id id' result db' h new date soon =
    let m = create-IsCreated platform db context command now id result db' h in
    finish m (Option-cases m.replay)
  where
    finish :
        (m : IsCreated platform db context command now id result db')
        → (m.replay ≡ none) ⊎ ((a : Appointment) × (m.replay ≡ some a))
        → create platform db' context command later id'
          ≡ ok (record { appointment = result.appointment; replayed = true }, db')
    finish m (inr (a, e)) =
        let (same, _) =
          create_or_replay_replay context _ m.key id a m.prepared_db result db'
            (rw e at m.finished) in
        let wrong : true ≡ false = ap (λ r. r.replayed) (sym same) ∙ new in cc
    finish m (inl e) =
        let ready =
          prepare_idempotency-IsReady _ _ _ _ _ db none m.prepared_db (rw e at m.prepared) in
        let f =
          create_or_replay-IsFresh context _ m.key id m.prepared_db result db'
            (rw e at m.finished) in
        let done =
          IsFresh-IsDone context (record command { reason = m.reason }) m.key id _ now db
            m.prepared_db result db' ready f in
        let again =
          prepare_idempotency-IsDone context.user_id appointment_create m.key
            (request_hash platform (record command { reason = m.reason })) now later f.row db' done
            soon in
        unfold create create_or_replay in
        rw (m.role, date, m.start, m.key_found, m.reason_found, again, f.is_result)

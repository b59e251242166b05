-- ===== src/Booking/Replay.antt =====
-- What the command `create` does with its idempotency record, and what it keeps
-- (apps/api/src/booking/booking-create.service.ts).
use makeup_booking_system.Booking.Placed.{validate_booking-IsBookable}
use makeup_booking_system.Booking.Safety.{create_fresh-IsConsistent}
use makeup_booking_system.Base.{
  Option-cases, ap, false, filter, guard, if◌then◌else◌, length, map, ok-injective, ◌==◌, ◌∙◌, ◌⊎◌,
  >>=-eq-ok, Bool-cases, List, Option, [], arith, inl, inr, leb, none, ok, ok-pair, refl, some, sym,
  true, ◌∷◌, ◌≡◌, ℕ,
}
use makeup_booking_system.Booking.Create.{
  create_fresh, BookingCreateResult, CreateBookingCommand, Platform,
}
use makeup_booking_system.Booking.Commands.{create_options, create, create_or_replay, request_hash}
use makeup_booking_system.Booking.Idempotency.{
  complete_idempotency, completed_record, is_open, has_key, new_record, prepare_idempotency,
  prepare_with, replayed_appointment, scope_eq, text_eq,
}
use makeup_booking_system.Booking.Schedule.{IsConsistent}
use makeup_booking_system.Errors.{booking_state_conflict, booking_creation_reason_invalid}
use makeup_booking_system.Access.{AuthorizationContext, assert_role, booking_roles}
use makeup_booking_system.Booking.Texts.{command_reason, normalize_idempotency_key}
use makeup_booking_system.Booking.Times.{validate_booking_date, validate_booking_start}
use makeup_booking_system.Database.{
  Appointment, Database, IdempotencyRecord, IdempotencyScope, Text, appointment_create,
  appointment_reschedule,
}

pub text_eq_refl : (t : Text) → text_eq t t ≡ true
text_eq_refl [] = refl
text_eq_refl (c ∷ cs) = ground (arith, text_eq_refl cs)

pub scope_eq_refl : (s : IdempotencyScope) → scope_eq s s ≡ true
scope_eq_refl appointment_create = refl
scope_eq_refl appointment_reschedule = refl

-- The new record has its key.
has_key-new_record :
    (user_id : ℕ) (scope : IdempotencyScope) (key : Text) (hash now : ℕ)
    → has_key user_id scope key (new_record user_id scope key hash now) ≡ true
unfolding has_key
has_key-new_record user_id scope key hash now =
    ground (arith, text_eq_refl key, scope_eq_refl scope)

module _ (user_id : ℕ) (scope : IdempotencyScope) (key : Text) (hash now : ℕ) where
  -- A request that is no replay leaves its record at the head of the table, and changes nothing
  -- else; a replay changes nothing.
  abbrev pub IsReady : Database → Option Appointment → Database → Type 0
  IsReady db (some a) db' = db' ≡ db
  IsReady db none db' =
      (rest : List IdempotencyRecord) × (db'
        ≡ record db { idempotency_records = new_record user_id scope key hash now ∷ rest })

  prepare_with-IsReady :
      (db : Database) (existing : Option IdempotencyRecord) (o : Option Appointment)
      (db' : Database)
      → prepare_with db user_id scope key hash now existing ≡ ok (o, db')
      → IsReady db o db'
  unfolding prepare_with
  prepare_with-IsReady db none o db' h =
      let (x, y) = ok-pair {A = Option Appointment} {B = Database} (none, _) (o, db') h in
      rw (← x) (db.idempotency_records, sym y)
  prepare_with-IsReady db (some r) o db' h = elim (Bool-cases (leb r.expires_at now)) [
    | inl expired ↦
        let (x, y) =
          ok-pair {A = Option Appointment} {B = Database} (none, _) (o, db') (rw expired at h) in
        rw (← x) (_, sym y)
    | inr valid ↦
        let (a, _, k) = >>=-eq-ok (replayed_appointment db r hash) _ (rw valid at h) in
        let (x, y) = ok-pair {A = Option Appointment} {B = Database} (some a, db) (o, db') k in
        rw (← x) (sym y)
  ]

  pub prepare_idempotency-IsReady :
      (db : Database) (o : Option Appointment) (db' : Database)
      → prepare_idempotency db user_id scope key hash now ≡ ok (o, db')
      → IsReady db o db'
  unfolding prepare_idempotency
  prepare_idempotency-IsReady db o db' h = prepare_with-IsReady db _ o db' h

-- What a `create` that succeeds has passed.
pub record IsCreated (platform : Platform) (db : Database) (context : AuthorizationContext)
    (command : CreateBookingCommand) (now id : ℕ) (result : BookingCreateResult) (db' : Database)
    : Type 0 where
  pub role : assert_role context booking_roles ≡ ok tt
  pub date : validate_booking_date (some command.date) now ≡ ok tt
  pub start : validate_booking_start command.start_minute command.duration_minutes ≡ ok tt
  pub key : Text
  pub key_found : normalize_idempotency_key platform.nfkc command.idempotency_key ≡ ok key
  pub reason : Option Text
  pub reason_found :
      command_reason platform.nfkc booking_creation_reason_invalid context.role_code command.reason
      ≡ ok reason
  pub replay : Option Appointment
  pub prepared_db : Database
  pub prepared :
      prepare_idempotency db context.user_id appointment_create key
        (request_hash platform (record command { reason = reason }))
        now
      ≡ ok (replay, prepared_db)
  pub finished :
      create_or_replay context (record command { reason = reason }) key id (replay, prepared_db)
      ≡ ok (result, db')

pub create-IsCreated :
    (platform : Platform) (db : Database) (context : AuthorizationContext)
    (command : CreateBookingCommand) (now id : ℕ) (result : BookingCreateResult) (db' : Database)
    → create platform db context command now id ≡ ok (result, db')
    → IsCreated platform db context command now id result db'
unfolding create
create-IsCreated platform db context command now id result db' h =
    let (_, e1, h1) = >>=-eq-ok (assert_role context booking_roles) _ h in
    let (_, e2, h2) = >>=-eq-ok (validate_booking_date (some command.date) now) _ h1 in
    let (_, e3, h3) =
      >>=-eq-ok (validate_booking_start command.start_minute command.duration_minutes) _ h2 in
    let (key, e4, h4) =
      >>=-eq-ok (normalize_idempotency_key platform.nfkc command.idempotency_key) _ h3 in
    let (reason, e5, h5) =
      >>=-eq-ok
        (command_reason platform.nfkc booking_creation_reason_invalid context.role_code
          command.reason)
        _ h4 in
    let (p, e6, h6) =
      >>=-eq-ok
        (prepare_idempotency db context.user_id appointment_create key
          (request_hash platform (record command { reason = reason })) now)
        _ h5 in
    record {
      role = e1;
      date = e2;
      start = e3;
      key = key;
      key_found = e4;
      reason = reason;
      reason_found = e5;
      replay = p.0;
      prepared_db = p.1;
      prepared = e6;
      finished = h6;
    }

-- What a command that is no replay has done.
pub record IsFresh (context : AuthorizationContext) (command : CreateBookingCommand) (key : Text)
    (id : ℕ) (db : Database) (result : BookingCreateResult) (db' : Database) : Type 0 where
  pub row : Appointment
  pub fresh_db : Database
  pub created :
      create_fresh db context command (create_options command.reason) id ≡ ok (row, fresh_db)
  pub completed :
      complete_idempotency fresh_db context.user_id appointment_create key row.id ≡ ok db'
  pub is_result : result ≡ record { appointment = row; replayed = false }

pub create_or_replay-IsFresh :
    (context : AuthorizationContext) (command : CreateBookingCommand) (key : Text) (id : ℕ)
    (db : Database) (result : BookingCreateResult) (db' : Database)
    → create_or_replay context command key id (none, db) ≡ ok (result, db')
    → IsFresh context command key id db result db'
unfolding create_or_replay
create_or_replay-IsFresh context command key id db result db' h =
    let (f, e1, h1) =
      >>=-eq-ok (create_fresh db context command (create_options command.reason) id) _ h in
    let (d, e2, h2) =
      >>=-eq-ok (complete_idempotency f.1 context.user_id appointment_create key f.0.id) _ h1 in
    let (x, y) =
      ok-pair {A = BookingCreateResult} {B = Database}
        (record { appointment = f.0; replayed = false }, d) (result, db') h2 in
    record { row = f.0; fresh_db = f.1; created = e1; completed = e2 ∙ ap ok y; is_result = sym x }

pub create_or_replay_replay :
    (context : AuthorizationContext) (command : CreateBookingCommand) (key : Text) (id : ℕ)
    (a : Appointment) (db : Database) (result : BookingCreateResult) (db' : Database)
    → create_or_replay context command key id (some a, db) ≡ ok (result, db')
    → (result ≡ record { appointment = a; replayed = true }) × (db' ≡ db)
unfolding create_or_replay
create_or_replay_replay context command key id a db result db' h =
    let (x, y) =
      ok-pair {A = BookingCreateResult} {B = Database}
        (record { appointment = a; replayed = true }, db) (result, db') h in
    (sym x, sym y)

pub complete_idempotency_inv :
    (db : Database) (user_id : ℕ) (scope : IdempotencyScope) (key : Text) (id : ℕ) (db' : Database)
    → complete_idempotency db user_id scope key id ≡ ok db'
    → db' ≡ record db {
      idempotency_records =
          map
            (λ r. if is_open user_id scope key r then completed_record id r else r)
            db.idempotency_records;
    }
unfolding complete_idempotency
complete_idempotency_inv db user_id scope key id db' h =
    let (_, _, k) =
      >>=-eq-ok
        (guard (length (filter (is_open user_id scope key) db.idempotency_records) == 1)
          booking_state_conflict)
        _ h in
    sym (ok-injective _ db' k)

-- A `create` that succeeds keeps the table of appointments consistent, whatever the command, the
-- caller and the time are, and whether it is a replay or not.
pub create-IsConsistent :
    (platform : Platform) (db : Database) (context : AuthorizationContext)
    (command : CreateBookingCommand) (now id : ℕ) (result : BookingCreateResult) (db' : Database)
    → IsConsistent db.appointments
    → create platform db context command now id ≡ ok (result, db')
    → IsConsistent db'.appointments
create-IsConsistent platform db context command now id result db' c h =
    let m = create-IsCreated platform db context command now id result db' h in
    finish m (Option-cases m.replay)
  where
    finish :
        (m : IsCreated platform db context command now id result db')
        → (m.replay ≡ none) ⊎ ((a : Appointment) × (m.replay ≡ some a))
        → IsConsistent db'.appointments
    finish m (inr (a, e)) =
        let ready =
          prepare_idempotency-IsReady _ _ _ _ _ db (some a) m.prepared_db (rw e at m.prepared) in
        let (_, same) =
          create_or_replay_replay context _ m.key id a m.prepared_db result db'
            (rw e at m.finished) in
        rw (same ∙ ready) c
    finish m (inl e) =
        let ready =
          prepare_idempotency-IsReady _ _ _ _ _ db none m.prepared_db (rw e at m.prepared) in
        let f =
          create_or_replay-IsFresh context _ m.key id m.prepared_db result db'
            (rw e at m.finished) in
        let kept : m.prepared_db.appointments ≡ db.appointments =
          ap (λ d. d.appointments) ready.1 in
        let last : db'.appointments ≡ f.fresh_db.appointments =
          ap (λ d. d.appointments)
            (complete_idempotency_inv f.fresh_db context.user_id appointment_create m.key f.row.id
              db' f.completed) in
        rw last (
          create_fresh-IsConsistent m.prepared_db context _ _ id f.row f.fresh_db (rw kept c)
            (validate_booking-IsBookable command.date now command.start_minute
              command.duration_minutes m.date m.start)
            f.created)

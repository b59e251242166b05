-- ===== src/Booking/RescheduleLaws.antt =====
-- What rescheduling promises (apps/api/src/booking/booking-reschedule.service.ts).
use makeup_booking_system.Booking.Appointments.{tables}
use makeup_booking_system.Database.{appointment_source}
use makeup_booking_system.Booking.Placed.{IsBookable, validate_booking-IsBookable}
use makeup_booking_system.Access.{AuthorizationContext, assert_role, booking_roles}
use makeup_booking_system.Base.{
  >>=-eq-ok, Option, Option-cases, ap, inl, inr, none, ok, ok-pair, some, sym, true, ◌∙◌, ◌≡◌, ◌⊎◌,
  ℕ,
}
use makeup_booking_system.Booking.Appointments.{append_audit}
use makeup_booking_system.Booking.Cancel.{
  appointment_by_id, assert_cancellable, cancel_row, cancelled_row, is_target,
}
use makeup_booking_system.Booking.CancelLaws.{cancel_row_inv, cancelled_row-Keeps}
use makeup_booking_system.Booking.Create.{Platform, create_fresh}
use makeup_booking_system.Booking.Idempotency.{complete_idempotency, prepare_idempotency}
use makeup_booking_system.Booking.Replay.{complete_idempotency_inv, prepare_idempotency-IsReady}
use makeup_booking_system.Booking.Reschedule.{
  BookingRescheduleResult, RescheduleBookingCommand, cancelled_summary, replace_original,
  replacement_command, replacement_options, reschedule, reschedule_hash, reschedule_or_replay,
}
use makeup_booking_system.Booking.Rows.{IsConsistent-update_many, count_of, update_many}
use makeup_booking_system.Booking.Safety.{create_fresh-IsConsistent}
use makeup_booking_system.Booking.Schedule.{IsConsistent}
use makeup_booking_system.Booking.Texts.{command_reason, normalize_idempotency_key}
use makeup_booking_system.Booking.Times.{validate_booking_date, validate_booking_start}
use makeup_booking_system.Database.{
  Appointment, Database, Text, appointment_reschedule, rescheduled,
}
use makeup_booking_system.Errors.{booking_cancellation_reason_invalid}

-- What a reschedule that succeeds has passed.
pub record IsRescheduled (platform : Platform) (db : Database) (context : AuthorizationContext)
    (command : RescheduleBookingCommand) (now id : ℕ) (result : BookingRescheduleResult)
    (db' : Database) : Type 0 where
  pub date : validate_booking_date (some command.date) now ≡ ok tt
  pub start : validate_booking_start command.start_minute command.duration_minutes ≡ ok tt
  pub key : Text
  pub reason : Option Text
  pub replay : Option Appointment
  pub prepared_db : Database
  pub prepared :
      prepare_idempotency db context.user_id appointment_reschedule key
        (reschedule_hash platform command reason)
        now
      ≡ ok (replay, prepared_db)
  pub finished :
      reschedule_or_replay context command key reason now id (replay, prepared_db)
      ≡ ok (result, db')

pub reschedule-IsRescheduled :
    (platform : Platform) (db : Database) (context : AuthorizationContext)
    (command : RescheduleBookingCommand) (now id : ℕ) (result : BookingRescheduleResult)
    (db' : Database)
    → reschedule platform db context command now id ≡ ok (result, db')
    → IsRescheduled platform db context command now id result db'
unfolding reschedule
reschedule-IsRescheduled platform db context command now id result db' h =
    let (_, _, h1) = >>=-eq-ok (assert_role context booking_roles) _ h in
    let (_, e2, h2) = >>=-eq-ok (validate_booking_date (some command.date) now) _ h1 in
    let (_, e3, h3) =
      >>=-eq-ok (validate_booking_start command.start_minute command.duration_minutes) _ h2 in
    let (key, _, h4) =
      >>=-eq-ok (normalize_idempotency_key platform.nfkc command.idempotency_key) _ h3 in
    let (reason, _, h5) =
      >>=-eq-ok
        (command_reason platform.nfkc booking_cancellation_reason_invalid context.role_code
          command.reason)
        _ h4 in
    let (_, _, h6) = >>=-eq-ok (appointment_by_id db command.appointment_id) _ h5 in
    let (p, e7, h7) =
      >>=-eq-ok
        (prepare_idempotency db context.user_id appointment_reschedule key
          (reschedule_hash platform command reason) now)
        _ h6 in
    record {
      date = e2;
      start = e3;
      key = key;
      reason = reason;
      replay = p.0;
      prepared_db = p.1;
      prepared = e7;
      finished = h7;
    }

-- What a reschedule that is no replay has done: the original is cancelled, and the replacement is
-- created in the table without it.
pub record IsReplaced (context : AuthorizationContext) (command : RescheduleBookingCommand)
    (key : Text) (reason : Option Text) (now id : ℕ) (db : Database)
    (result : BookingRescheduleResult) (db' : Database) : Type 0 where
  pub original : Appointment
  pub found : appointment_by_id db command.appointment_id ≡ ok original
  pub cancellable : assert_cancellable db context original command.expected_row_version now ≡ ok tt
  pub cancelled_db : Database
  pub is_cancelled_db : cancelled_db ≡ record db {
    appointments =
        update_many
          (is_target original.id command.expected_row_version)
          (cancelled_row rescheduled reason (some (appointment_source id)) now context.user_id)
          db.appointments;
  }
  pub one_row : count_of (is_target original.id command.expected_row_version) db.appointments ≡ 1
  pub row : Appointment
  pub fresh_db : Database
  pub created :
      create_fresh cancelled_db context
        (replacement_command command original.host_id key)
        (replacement_options original reason)
        id
      ≡ ok (row, fresh_db)
  pub rows_kept : db'.appointments ≡ fresh_db.appointments
  pub tables_kept : tables db' ≡ tables fresh_db
  pub is_result : result.appointment ≡ row

replace_original_inv :
    (context : AuthorizationContext) (command : RescheduleBookingCommand) (key : Text)
    (reason : Option Text) (now id : ℕ) (db : Database) (original row : Appointment)
    (fresh_db : Database)
    → replace_original context command key reason now id db original ≡ ok (row, fresh_db)
    → (assert_cancellable db context original command.expected_row_version now ≡ ok tt)
      × (cancelled_db : Database) × (cancel_row db original.id command.expected_row_version
            (cancelled_row rescheduled reason (some (appointment_source id)) now context.user_id)
          ≡ ok cancelled_db)
      × (create_fresh cancelled_db context
            (replacement_command command original.host_id key)
            (replacement_options original reason)
            id
          ≡ ok (row, fresh_db))
unfolding replace_original
replace_original_inv context command key reason now id db original row fresh_db h =
    let (_, e1, h1) =
      >>=-eq-ok (assert_cancellable db context original command.expected_row_version now) _ h in
    let (d, e2, h2) =
      >>=-eq-ok
        (cancel_row db original.id command.expected_row_version
          (cancelled_row rescheduled reason (some (appointment_source id)) now context.user_id))
        _ h1 in
    (e1, d, e2, h2)

pub reschedule_or_replay-IsReplaced :
    (context : AuthorizationContext) (command : RescheduleBookingCommand) (key : Text)
    (reason : Option Text) (now id : ℕ) (db : Database) (result : BookingRescheduleResult)
    (db' : Database)
    → reschedule_or_replay context command key reason now id (none, db) ≡ ok (result, db')
    → IsReplaced context command key reason now id db result db'
unfolding reschedule_or_replay append_audit
reschedule_or_replay-IsReplaced context command key reason now id db result db' h =
    let (a, e1, h1) = >>=-eq-ok (appointment_by_id db command.appointment_id) _ h in
    let (f, e2, h2) = >>=-eq-ok (replace_original context command key reason now id db a) _ h1 in
    let (c, d, e3, e4) = replace_original_inv context command key reason now id db a f.0 f.1 e2 in
    let (w, one) = cancel_row_inv db a.id command.expected_row_version _ d e3 in
    let (last, e5, h5) =
      >>=-eq-ok (complete_idempotency _ context.user_id appointment_reschedule key f.0.id) _ h2 in
    let (x, y) = ok-pair {A = BookingRescheduleResult} {B = Database} (_, last) (result, db') h5 in
    record {
      original = a;
      found = e1;
      cancellable = c;
      cancelled_db = d;
      is_cancelled_db = w;
      one_row = one;
      row = f.0;
      fresh_db = f.1;
      created = e4;
      rows_kept =
          ap (λ d. d.appointments) (sym y)
          ∙ ap (λ d. d.appointments)
              (complete_idempotency_inv _ context.user_id appointment_reschedule key f.0.id last
                e5);
      tables_kept =
          ap tables (sym y)
          ∙ ap tables (
              complete_idempotency_inv _ context.user_id appointment_reschedule key f.0.id last e5);
      is_result = ap (λ r. r.appointment) (sym x);
    }

pub reschedule_or_replay_replay :
    (context : AuthorizationContext) (command : RescheduleBookingCommand) (key : Text)
    (reason : Option Text) (now id : ℕ) (a : Appointment) (db : Database)
    (result : BookingRescheduleResult) (db' : Database)
    → reschedule_or_replay context command key reason now id (some a, db) ≡ ok (result, db')
    → (result.replayed ≡ true) × (db' ≡ db)
unfolding reschedule_or_replay
reschedule_or_replay_replay context command key reason now id a db result db' h =
    let (o, _, h1) = >>=-eq-ok (appointment_by_id db command.appointment_id) _ h in
    let (s, _, h2) = >>=-eq-ok (cancelled_summary o) _ h1 in
    let (x, y) = ok-pair {A = BookingRescheduleResult} {B = Database} (_, db) (result, db') h2 in
    (ap (λ r. r.replayed) (sym x), sym y)

IsReplaced-IsConsistent :
    (context : AuthorizationContext) (command : RescheduleBookingCommand) (key : Text)
    (reason : Option Text) (now id : ℕ) (db : Database) (result : BookingRescheduleResult)
    (db' : Database)
    → IsConsistent db.appointments
    → IsBookable command.date command.start_minute command.duration_minutes
    → IsReplaced context command key reason now id db result db'
    → IsConsistent db'.appointments
IsReplaced-IsConsistent context command key reason now id db result db' c b r =
    let rows =
      IsConsistent-update_many (is_target r.original.id command.expected_row_version) _
        (λ a _.
          cancelled_row-Keeps rescheduled reason (some (appointment_source id)) now context.user_id
            a)
        db.appointments c in
    rw r.rows_kept (
      create_fresh-IsConsistent r.cancelled_db context
        (replacement_command command r.original.host_id key) _ id r.row r.fresh_db
        (rw (ap (λ d. d.appointments) r.is_cancelled_db) rows) b r.created)

-- A reschedule that succeeds keeps the table of appointments consistent, whatever the command, the
-- caller and the time are, and whether it is a replay or not.
pub reschedule-IsConsistent :
    (platform : Platform) (db : Database) (context : AuthorizationContext)
    (command : RescheduleBookingCommand) (now id : ℕ) (result : BookingRescheduleResult)
    (db' : Database)
    → IsConsistent db.appointments
    → reschedule platform db context command now id ≡ ok (result, db')
    → IsConsistent db'.appointments
reschedule-IsConsistent platform db context command now id result db' c h =
    let m = reschedule-IsRescheduled platform db context command now id result db' h in
    finish m (Option-cases m.replay)
  where
    finish :
        (m : IsRescheduled platform db context command now id result db')
        → (m.replay ≡ none) ⊎ ((a : Appointment) × (m.replay ≡ some a))
        → IsConsistent db'.appointments
    finish m (inr (a, e)) =
        let ready =
          prepare_idempotency-IsReady _ _ _ _ _ db (some a) m.prepared_db (rw e at m.prepared) in
        let (_, same) =
          reschedule_or_replay_replay context command m.key m.reason now id a m.prepared_db result
            db' (rw e at m.finished) in
        rw (same ∙ ready) c
    finish m (inl e) =
        let ready =
          prepare_idempotency-IsReady _ _ _ _ _ db none m.prepared_db (rw e at m.prepared) in
        let r =
          reschedule_or_replay-IsReplaced context command m.key m.reason now id m.prepared_db result
            db' (rw e at m.finished) in
        let kept : m.prepared_db.appointments ≡ db.appointments =
          ap (λ d. d.appointments) ready.1 in
        IsReplaced-IsConsistent context command m.key m.reason now id m.prepared_db result db'
          (rw kept c)
          (validate_booking-IsBookable command.date now command.start_minute
            command.duration_minutes m.date m.start)
          r

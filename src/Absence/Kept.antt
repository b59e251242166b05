-- ===== src/Absence/Kept.antt =====
-- The transactions of apps/api/src/booking book nobody who is absent.
use makeup_booking_system.Database.{
  LeaveRecord, Appointment, CancellationReasonCode, CancellationSource, Database, Text,
  appointment_create, appointment_source, rescheduled,
}
use makeup_booking_system.Base.{
  List, is_none, not, ◌&&◌, >>=-eq-ok, All, Option, Option-cases, ap, arith, false, find, inl, inr,
  map, none, ok, ok-injective, or_throw, refl, some, sym, throw_if-eq-ok, ◌==◌, ◌∙◌, ◌∷◌, ◌≡◌, ◌⊎◌,
  ℕ,
}
use makeup_booking_system.Leave.{same_leave_id}
use makeup_booking_system.Tables.{Apart}
use makeup_booking_system.Unavailability.Commands.{same_period}
use makeup_booking_system.Absence.Bookable.{IsAt, IsRoomy, IsRoomy-clear}
use makeup_booking_system.Absence.Undisturbed.{
  Clear, Clear-rows, KeepsBooked, KeepsBooked-if, leave_hits, leave_hits-KeepsBooked, period_hits,
  period_hits-KeepsBooked,
}
use makeup_booking_system.Access.{AuthorizationContext}
use makeup_booking_system.Availability.Laws.{IsPeriod}
use makeup_booking_system.Booking.Appointments.{append_audit, tables}
use makeup_booking_system.Booking.Cancel.{
  BookingCancellationResult, CancelBookingCommand, cancel, cancellation_code, cancelled_row,
  is_target,
}
use makeup_booking_system.Booking.CancelLaws.{cancel-IsCancellation}
use makeup_booking_system.Booking.Commands.{create}
use makeup_booking_system.Booking.Completion.{completed_row, is_over, run}
use makeup_booking_system.Booking.Create.{
  BookingCreateResult, BookingCreationOptions, CreateBookingCommand, Platform, create_fresh,
  new_appointment,
}
use makeup_booking_system.Booking.Fresh.{prepare_fresh-IsPrepared}
use makeup_booking_system.Booking.Occupation.{
  HostRecord, assert_host_available, host, host_on_leave_on, interval_fits,
}
use makeup_booking_system.Booking.Placed.{IsBookable, host_lem, validate_booking-IsBookable}
use makeup_booking_system.Booking.Replay.{
  IsCreated, complete_idempotency_inv, create-IsCreated, create_or_replay-IsFresh,
  create_or_replay_replay, prepare_idempotency-IsReady,
}
use makeup_booking_system.Booking.Reschedule.{
  BookingRescheduleResult, RescheduleBookingCommand, reschedule,
}
use makeup_booking_system.Booking.RescheduleLaws.{
  IsRescheduled, reschedule-IsRescheduled, reschedule_or_replay-IsReplaced,
  reschedule_or_replay_replay,
}
use makeup_booking_system.Booking.Safety.{create_fresh_inv}
use makeup_booking_system.Errors.{booking_host_not_found}

-- leave_records_subject_check, and the primary key of the leaves
pub record IsLeaveTable (leaves : List LeaveRecord) : Type 0 where
  pub ids : Apart same_leave_id leaves
  pub single : All (λ l. not (is_none l.artist_id) && not (is_none l.host_id) ≡ false) leaves

-- What holds of the absences between two transactions: the periods keep their CHECK constraint and
-- are apart, the leaves have an id and a subject of their own, and no booked appointment lies in an active absence.
pub record IsOrderly (db : Database) : Type 0 where
  pub periods : All IsPeriod db.unavailable_periods
  pub apart : Apart same_period db.unavailable_periods
  pub leaves : IsLeaveTable db.leave_records
  pub periods_clear : Clear period_hits db.unavailable_periods db.appointments
  pub leaves_clear : Clear leave_hits db.leave_records db.appointments

pub IsOrderly-same :
    (db db' : Database)
    → tables db' ≡ tables db
    → db'.appointments ≡ db.appointments
    → IsOrderly db
    → IsOrderly db'
IsOrderly-same db db' t a o =
    let ps : db'.unavailable_periods ≡ db.unavailable_periods = ap (λ t. t.1) t in
    let ls : db'.leave_records ≡ db.leave_records = ap (λ t. t.2) t in
    record {
      periods = rw ps o.periods;
      apart = rw ps o.apart;
      leaves = rw ls o.leaves;
      periods_clear = rw (ps, a) o.periods_clear;
      leaves_clear = rw (ls, a) o.leaves_clear;
    }

pub IsOrderly-map :
    (db db' : Database) (g : Appointment → Appointment)
    → tables db' ≡ tables db
    → db'.appointments ≡ map g db.appointments
    → ((a : Appointment) → KeepsBooked a (g a))
    → IsOrderly db
    → IsOrderly db'
IsOrderly-map db db' g t a k o =
    let ps : db'.unavailable_periods ≡ db.unavailable_periods = ap (λ t. t.1) t in
    let ls : db'.leave_records ≡ db.leave_records = ap (λ t. t.2) t in
    record {
      periods = rw ps o.periods;
      apart = rw ps o.apart;
      leaves = rw ls o.leaves;
      periods_clear =
          rw (ps, a)
            (Clear-rows period_hits period_hits-KeepsBooked g db.unavailable_periods db.appointments
              k o.periods_clear);
      leaves_clear =
          rw (ls, a)
            (Clear-rows leave_hits leave_hits-KeepsBooked g db.leave_records db.appointments k
              o.leaves_clear);
    }

-- A new appointment that has room keeps the tables orderly.
pub IsOrderly-insert :
    (db db' : Database) (row : Appointment) (artist_id host_id date s d : ℕ)
    → tables db' ≡ tables db
    → db'.appointments ≡ row ∷ db.appointments
    → IsRoomy db artist_id host_id date s d
    → IsAt row artist_id host_id date s d
    → IsOrderly db
    → IsOrderly db'
IsOrderly-insert db db' row artist_id host_id date s d t a r i o =
    let ps : db'.unavailable_periods ≡ db.unavailable_periods = ap (λ t. t.1) t in
    let ls : db'.leave_records ≡ db.leave_records = ap (λ t. t.2) t in
    let (x, y) = IsRoomy-clear db row artist_id host_id date s d o.periods r i in
    record {
      periods = rw ps o.periods;
      apart = rw ps o.apart;
      leaves = rw ls o.leaves;
      periods_clear = rw (ps, a) (x, o.periods_clear);
      leaves_clear = rw (ls, a) (y, o.leaves_clear);
    }

pub host-on_leave :
    (db : Database) (id date : ℕ) (r : HostRecord)
    → host db id date ≡ ok r
    → r.on_leave ≡ host_on_leave_on db id date
unfolding host
host-on_leave db id date r h =
    let (p, _, h1) =
      >>=-eq-ok (or_throw (find (λ h. h.id == id) db.hosts) booking_host_not_found) _ h in
    ap (λ (r : HostRecord). r.on_leave) (sym (ok-injective _ r h1))

pub available-on_leave :
    (r : HostRecord) (date : ℕ) → assert_host_available r date ≡ ok tt → r.on_leave ≡ false
unfolding assert_host_available
available-on_leave r date h = let k = throw_if-eq-ok _ _ h in ground arith

-- A fresh appointment has room.
pub create_fresh-IsOrderly :
    (db : Database) (context : AuthorizationContext) (command : CreateBookingCommand)
    (options : BookingCreationOptions) (id : ℕ) (row : Appointment) (db' : Database)
    → IsBookable command.date command.start_minute command.duration_minutes
    → create_fresh db context command options id ≡ ok (row, db')
    → IsOrderly db
    → IsOrderly db'
unfolding append_audit new_appointment interval_fits
create_fresh-IsOrderly db context command options id row db' b h o =
    let (p, e, _) = create_fresh_inv db context command options id row db' h in
    let m = prepare_fresh-IsPrepared db context command options id row p in
    let same = host_lem db command.host_id command.date m.host_record m.host_found in
    let here =
      sym (host-on_leave db command.host_id command.date m.host_record m.host_found)
      ∙ available-on_leave m.host_record command.date m.host_available in
    IsOrderly-insert db db' row command.artist_id command.host_id command.date command.start_minute
      command.duration_minutes (ap tables e) (ap (λ d. d.appointments) e)
      (record {
        day = m.day;
        day_found = m.day_found;
        fits = m.fits;
        host_here = here;
        modern = b.modern;
        lasts = b.lasts;
      })
      (rw m.is_row (record {
        at_artist = refl;
        at_host = same;
        at_date = refl;
        at_start = refl;
        at_end = refl;
      }))
      o

pub create-IsOrderly :
    (platform : Platform) (db : Database) (context : AuthorizationContext)
    (command : CreateBookingCommand) (now id : ℕ) (result : BookingCreateResult) (db' : Database)
    → create platform db context command now id ≡ ok (result, db')
    → IsOrderly db
    → IsOrderly db'
create-IsOrderly platform db context command now id result db' h o =
    let m = create-IsCreated platform db context command now id result db' h in
    finish m (Option-cases m.replay)
  where
    finish :
        (m : IsCreated platform db context command now id result db')
        → (m.replay ≡ none) ⊎ ((a : Appointment) × (m.replay ≡ some a))
        → IsOrderly db'
    finish m (inr (a, e)) =
        let ready =
          prepare_idempotency-IsReady _ _ _ _ _ db (some a) m.prepared_db (rw e at m.prepared) in
        let (_, same) =
          create_or_replay_replay context _ m.key id a m.prepared_db result db'
            (rw e at m.finished) in
        rw (same ∙ ready) o
    finish m (inl e) =
        let ready =
          prepare_idempotency-IsReady _ _ _ _ _ db none m.prepared_db (rw e at m.prepared) in
        let f =
          create_or_replay-IsFresh context _ m.key id m.prepared_db result db'
            (rw e at m.finished) in
        let last =
          complete_idempotency_inv f.fresh_db context.user_id appointment_create m.key f.row.id db'
            f.completed in
        IsOrderly-same f.fresh_db db' (ap tables last) (ap (λ d. d.appointments) last) (
          create_fresh-IsOrderly m.prepared_db context _ _ id f.row f.fresh_db
            (validate_booking-IsBookable command.date now command.start_minute
              command.duration_minutes m.date m.start)
            f.created
            (IsOrderly-same db m.prepared_db (ap tables ready.1) (ap (λ d. d.appointments) ready.1)
              o))

pub cancelled_row-KeepsBooked :
    (code : CancellationReasonCode) (text : Option Text) (source : Option CancellationSource)
    (now user_id : ℕ) (a : Appointment)
    → KeepsBooked a (cancelled_row code text source now user_id a)
cancelled_row-KeepsBooked code text source now user_id a = record {
  host_kept = refl;
  artist_kept = refl;
  date_kept = refl;
  start_kept = refl;
  end_kept = refl;
  booked_kept = λ h. cc;
}

pub cancel-IsOrderly :
    (platform : Platform) (db : Database) (context : AuthorizationContext)
    (command : CancelBookingCommand) (now : ℕ) (result : BookingCancellationResult) (db' : Database)
    → cancel platform db context command now ≡ ok (result, db')
    → IsOrderly db
    → IsOrderly db'
unfolding append_audit
cancel-IsOrderly platform db context command now result db' h o =
    let m = cancel-IsCancellation platform db context command now result db' h in
    IsOrderly-map db db' _ (ap tables m.after) (ap (λ d. d.appointments) m.after)
      (λ a. KeepsBooked-if (is_target m.appointment.id command.expected_row_version a) a _ (
        cancelled_row-KeepsBooked (cancellation_code context.role_code) m.reason none now
          context.user_id a))
      o

pub reschedule-IsOrderly :
    (platform : Platform) (db : Database) (context : AuthorizationContext)
    (command : RescheduleBookingCommand) (now id : ℕ) (result : BookingRescheduleResult)
    (db' : Database)
    → reschedule platform db context command now id ≡ ok (result, db')
    → IsOrderly db
    → IsOrderly db'
reschedule-IsOrderly platform db context command now id result db' h o =
    let m = reschedule-IsRescheduled platform db context command now id result db' h in
    finish m (Option-cases m.replay)
  where
    finish :
        (m : IsRescheduled platform db context command now id result db')
        → (m.replay ≡ none) ⊎ ((a : Appointment) × (m.replay ≡ some a))
        → IsOrderly db'
    finish m (inr (a, e)) =
        let ready =
          prepare_idempotency-IsReady _ _ _ _ _ db (some a) m.prepared_db (rw e at m.prepared) in
        let (_, same) =
          reschedule_or_replay_replay context command m.key m.reason now id a m.prepared_db result
            db' (rw e at m.finished) in
        rw (same ∙ ready) o
    finish m (inl e) =
        let ready =
          prepare_idempotency-IsReady _ _ _ _ _ db none m.prepared_db (rw e at m.prepared) in
        let r =
          reschedule_or_replay-IsReplaced context command m.key m.reason now id m.prepared_db result
            db' (rw e at m.finished) in
        IsOrderly-same r.fresh_db db' r.tables_kept r.rows_kept (
          create_fresh-IsOrderly r.cancelled_db context _ _ id r.row r.fresh_db
            (validate_booking-IsBookable command.date now command.start_minute
              command.duration_minutes m.date m.start)
            r.created
            (IsOrderly-map m.prepared_db r.cancelled_db _ (ap tables r.is_cancelled_db)
              (ap (λ d. d.appointments) r.is_cancelled_db)
              (λ a. KeepsBooked-if (is_target r.original.id command.expected_row_version a) a _ (
                cancelled_row-KeepsBooked rescheduled m.reason (some (appointment_source id)) now
                  context.user_id a))
              (IsOrderly-same db m.prepared_db (ap tables ready.1)
                (ap (λ d. d.appointments) ready.1) o)))

pub run-IsOrderly : (db : Database) (now : ℕ) → IsOrderly db → IsOrderly (run db now).1
unfolding run
run-IsOrderly db now o =
    IsOrderly-map db _ _ refl refl
      (λ a. KeepsBooked-if (is_over now a) a (completed_row now a) (record {
        host_kept = refl;
        artist_kept = refl;
        date_kept = refl;
        start_kept = refl;
        end_kept = refl;
        booked_kept = λ h. cc;
      }))
      o

-- ===== src/Booking/CancelledOnce.antt =====
-- The effects of a cancellation on the appointment itself
-- (apps/api/src/booking/booking-cancel.service.ts, booking-reschedule.service.ts).
use makeup_booking_system.Access.{AuthorizationContext}
use makeup_booking_system.Base.{
  ==_refl, ==→true, >>=-eq-ok, Option, ap, arith, false, find, guard, guard-eq-ok, none, ok,
  or_throw-eq-ok, refl, throw_if, throw_if-eq-ok, true, ◌&&◌, ◌==◌, ◌≡◌, ℕ, some, ◌+◌,
}
use makeup_booking_system.Booking.Appointments.{append_audit}
use makeup_booking_system.Booking.Cancel.{
  BookingCancellationResult, CancelBookingCommand, appointment_by_id, appointment_scope,
  assert_cancellable, cancel, cancellation_code, cancelled_row, cut_off, is_target,
}
use makeup_booking_system.Booking.CancelLaws.{cancel-IsCancellation, cancelled_row-Keeps}
use makeup_booking_system.Booking.Create.{Platform}
use makeup_booking_system.Booking.Rows.{find-update_many, update_many, Keeps}
use makeup_booking_system.Database.{
  Appointment, Database, Text, is_booked, cancelled, CancellationReasonCode, CancellationSource,
}
use makeup_booking_system.Errors.{authorization_denied, booking_cancellation_cutoff}

-- What the tests before a cancellation leave.
pub record IsCancellable (db : Database) (context : AuthorizationContext) (a : Appointment)
    (version now : ℕ) : Type 0 where
  pub in_scope : appointment_scope context.role_code db context a ≡ true
  pub in_time : cut_off context.role_code a.appointment_date now ≡ false
  pub is_booked_still : is_booked a.status ≡ true
  pub same_version : a.row_version ≡ version

pub assert_cancellable-IsCancellable :
    (db : Database) (context : AuthorizationContext) (a : Appointment) (version now : ℕ)
    → assert_cancellable db context a version now ≡ ok tt
    → IsCancellable db context a version now
unfolding assert_cancellable
assert_cancellable-IsCancellable db context a version now h =
    let (_, e1, h1) =
      >>=-eq-ok (guard (appointment_scope context.role_code db context a) authorization_denied) _
        h in
    let (_, e2, h2) =
      >>=-eq-ok
        (throw_if (cut_off context.role_code a.appointment_date now) booking_cancellation_cutoff) _
        h1 in
    let both = guard-eq-ok (is_booked a.status && a.row_version == version) _ h2 in
    record {
      in_scope = guard-eq-ok _ _ e1;
      in_time = throw_if-eq-ok _ _ e2;
      is_booked_still = ground arith;
      same_version = ground arith;
    }

-- The appointment that a command names is the row that it changes.
pub appointment_by_id-update_many :
    (db db' : Database) (context : AuthorizationContext) (id version now : ℕ) (a : Appointment)
    (f : Appointment → Appointment)
    → ((b : Appointment) → (f b).id ≡ b.id)
    → appointment_by_id db id ≡ ok a
    → IsCancellable db context a version now
    → db'.appointments ≡ update_many (is_target a.id version) f db.appointments
    → appointment_by_id db' id ≡ ok (f a)
unfolding appointment_by_id
appointment_by_id-update_many db db' context id version now a f kept h c e =
    let found = or_throw-eq-ok (find (λ b. b.id == id) db.appointments) _ h in
    let fit : is_target a.id version a ≡ true =
      rw (==_refl a.id, c.is_booked_still, ==→true a.row_version version c.same_version) refl in
    rw (e, find-update_many id (is_target a.id version) f db.appointments a kept found fit) refl

-- `b` is `a`, cancelled by the user at that time, in the next version.
pub record IsCancelledBy (user_id now : ℕ) (code : CancellationReasonCode)
    (source : Option CancellationSource) (a b : Appointment) : Type 0 where
  pub now_cancelled : b.status ≡ cancelled
  pub by_user : b.cancelled_by_user_id ≡ some user_id
  pub at_time : b.cancelled_at ≡ some now
  pub for_code : b.cancellation_reason_code ≡ some code
  pub for_source : b.cancellation_source ≡ source
  pub next_version : b.row_version ≡ a.row_version + 1
  pub place_kept : Keeps a b

pub cancelled_row-IsCancelledBy :
    (code : CancellationReasonCode) (text : Option Text) (source : Option CancellationSource)
    (now user_id : ℕ) (a : Appointment)
    → IsCancelledBy user_id now code source a (cancelled_row code text source now user_id a)
cancelled_row-IsCancelledBy code text source now user_id a = record {
  now_cancelled = refl;
  by_user = refl;
  at_time = refl;
  for_code = refl;
  for_source = refl;
  next_version = refl;
  place_kept = cancelled_row-Keeps code text source now user_id a;
}

pub cancel-appointment_by_id :
    (platform : Platform) (db : Database) (context : AuthorizationContext)
    (command : CancelBookingCommand) (now : ℕ) (result : BookingCancellationResult) (db' : Database)
    → cancel platform db context command now ≡ ok (result, db')
    → (a : Appointment) × (appointment_by_id db command.appointment_id ≡ ok a)
      × IsCancellable db context a command.expected_row_version now
      × (b : Appointment) × (appointment_by_id db' command.appointment_id ≡ ok b)
      × IsCancelledBy context.user_id now (cancellation_code context.role_code) none a b
unfolding append_audit
cancel-appointment_by_id platform db context command now result db' h =
    let m = cancel-IsCancellation platform db context command now result db' h in
    let c =
      assert_cancellable-IsCancellable db context m.appointment command.expected_row_version now
        m.cancellable in
    (
      m.appointment,
      m.found,
      c,
      _,
      appointment_by_id-update_many db db' context command.appointment_id
          command.expected_row_version now m.appointment _ (λ b. refl) m.found c
          (ap (λ d. d.appointments) m.after),
      cancelled_row-IsCancelledBy (cancellation_code context.role_code) m.reason none now
          context.user_id m.appointment,
    )

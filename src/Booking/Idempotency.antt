-- ===== src/Booking/Idempotency.antt =====
-- The idempotency records of apps/api/src/booking/booking-create.service.ts.
use makeup_booking_system.Base.{is_none}
use makeup_booking_system.Base.{[], guard, length, map, or_throw, ◌>>◌}
use makeup_booking_system.Shift.Calendar.{day_ms}
use makeup_booking_system.Base.{
  ℕ, ◌+◌, Result, Bool, Option, true, ◌==◌, ok, ◌&&◌, false, some, find, ◌∷◌, if◌then◌else◌, leb,
  none, filter, not, ◌>>=◌,
}
use makeup_booking_system.Errors.{
  booking_state_conflict, booking_idempotency_conflict, booking_idempotency_incomplete,
}
use makeup_booking_system.Database.{
  Database, Appointment, IdempotencyRecord, IdempotencyScope, appointment_create,
  appointment_reschedule, Text,
}
use makeup_booking_system.Booking.Create.{to_summary}

abbrev pub text_eq : Text → Text → Bool
text_eq [] [] = true
text_eq [] (d ∷ ds) = false
text_eq (c ∷ cs) [] = false
text_eq (c ∷ cs) (d ∷ ds) = c == d && text_eq cs ds

abbrev pub scope_eq : IdempotencyScope → IdempotencyScope → Bool
scope_eq appointment_create appointment_create = true
scope_eq appointment_create appointment_reschedule = false
scope_eq appointment_reschedule appointment_create = false
scope_eq appointment_reschedule appointment_reschedule = true

-- `userId_scope_idempotencyKey`
unfoldable pub has_key : ℕ → IdempotencyScope → Text → IdempotencyRecord → Bool
has_key user_id scope key r =
    r.user_id == user_id && scope_eq r.scope scope && text_eq r.idempotency_key key

-- The record that a new request leaves, which expires after 24 hours.
abbrev pub new_record : ℕ → IdempotencyScope → Text → ℕ → ℕ → IdempotencyRecord
new_record user_id scope key request_hash now = record {
  user_id = user_id;
  scope = scope;
  idempotency_key = key;
  expires_at = now + day_ms;
  request_hash = request_hash;
  resource_is_appointment = false;
  resource_id = none;
}

-- The appointment of a request that was made before and has completed.
unfoldable pub replayed_appointment : Database → IdempotencyRecord → ℕ → Result Appointment
replayed_appointment db existing request_hash = do
  guard (existing.request_hash == request_hash) booking_idempotency_conflict
  guard existing.resource_is_appointment booking_idempotency_incomplete
  resource_id ← or_throw existing.resource_id booking_idempotency_incomplete
  appointment ←
      or_throw (find (λ a. a.id == resource_id) db.appointments) booking_idempotency_incomplete
  to_summary appointment

-- `prepareIdempotency`, with the record that `findUnique` has found.
unfoldable pub prepare_with :
    Database
    → ℕ
    → IdempotencyScope
    → Text
    → ℕ
    → ℕ
    → Option IdempotencyRecord
    → Result (Option Appointment × Database)
prepare_with db user_id scope key request_hash now none = ok (
  none,
  record db {
    idempotency_records = new_record user_id scope key request_hash now ∷ db.idempotency_records;
  },
)
prepare_with db user_id scope key request_hash now (some existing) =
    if leb existing.expires_at now
    then ok (
      none,
      record db {
        idempotency_records =
            new_record user_id scope key request_hash now
            ∷ filter (λ r. not (has_key user_id scope key r)) db.idempotency_records;
      },
    )
    else (replayed_appointment db existing request_hash >>= λ a. ok (some a, db))

unfoldable pub prepare_idempotency :
    Database → ℕ → IdempotencyScope → Text → ℕ → ℕ → Result (Option Appointment × Database)
prepare_idempotency db user_id scope key request_hash now =
    prepare_with db user_id scope key request_hash now
      (find (has_key user_id scope key) db.idempotency_records)

-- The records that `completeIdempotency` updates.
abbrev pub is_open : ℕ → IdempotencyScope → Text → IdempotencyRecord → Bool
is_open user_id scope key r = has_key user_id scope key r && is_none r.resource_id

abbrev pub completed_record : ℕ → IdempotencyRecord → IdempotencyRecord
completed_record appointment_id r = record r {
  resource_is_appointment = true;
  resource_id = some appointment_id;
}

unfoldable pub complete_idempotency : Database → ℕ → IdempotencyScope → Text → ℕ → Result Database
complete_idempotency db user_id scope key appointment_id = do
  guard (length (filter (is_open user_id scope key) db.idempotency_records) == 1)
      booking_state_conflict
  ok (record db {
    idempotency_records =
        map (λ r. if is_open user_id scope key r then completed_record appointment_id r else r)
          db.idempotency_records;
  })

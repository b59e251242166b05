-- ===== src/Booking/Safety.antt =====
-- Double bookings do not happen: the tests of `createFresh` imply the constraints of the table of
-- appointments (apps/api/src/booking/booking-create.service.ts).
use makeup_booking_system.Booking.Placed.{IsBookable, host_lem, new_appointment-IsPlaced}
use makeup_booking_system.Base.{
  ap, ap₂, ok-pair, ◌∙◌, Bool-cases, List, [], err, guard, inl, inr, refl, ◌&&◌, ◌||◌, ◌∷◌, Bool,
  subst, sym, >>=-eq-ok, All, any, arith, false, ok, some, ◌*◌, ◌+◌, ◌==◌, ◌≡◌, ℕ,
}
use makeup_booking_system.Booking.Schedule.{
  IsConsistent, any-same_sequence, any-same_time, IsPlaced,
}
use makeup_booking_system.Booking.Appointments.{
  append_audit, insert_appointment, inserted, same_key, same_sequence, same_time,
}
use makeup_booking_system.Booking.Create.{
  create_fresh, inserted_or_conflict, is_single, to_summary, BookingCreationOptions,
  CreateBookingCommand, new_appointment, prepare_fresh,
}
use makeup_booking_system.Database.{AuditEntry, Appointment, Database}
use makeup_booking_system.Errors.{booking_slot_conflict, booking_state_conflict}
use makeup_booking_system.Booking.Fresh.{
  IsNextSequence, daily_sequence_for-IsNextSequence, prepare_fresh-IsPrepared,
}
use makeup_booking_system.Booking.Occupation.{active_appointments}
use makeup_booking_system.Access.{AuthorizationContext}
use makeup_booking_system.Shift.Calendar.{business_date_minute_to_instant, minute_ms}

-- A row whose sequence and time were tested against the active appointments of its artist and
-- host clashes with none.
row_free :
    (db : Database) (row : Appointment) (confirmed : Bool)
    → IsPlaced row
    → All IsPlaced db.appointments
    → IsNextSequence
        (active_appointments db row.appointment_date row.artist_id row.host_id)
        row.host_id
        row.start_at
        row.end_at
        confirmed
        row.daily_sequence
    → (any (same_sequence row) db.appointments ≡ false)
      × (any (same_time row) db.appointments ≡ false)
unfolding active_appointments
row_free db row confirmed here placed s = (
  any-same_sequence row row.artist_id db.appointments s.unused,
  any-same_time row db.appointments here placed s.free,
)

-- Where the table's rows lie in their dates, a bookable command that passes the tests of
-- createFresh gets a row that lies in its business date and clashes with no active appointment in
-- its daily sequence or its time.
pub prepare_fresh-free :
    (db : Database) (context : AuthorizationContext) (command : CreateBookingCommand)
    (options : BookingCreationOptions) (id : ℕ) (row : Appointment)
    → All IsPlaced db.appointments
    → IsBookable command.date command.start_minute command.duration_minutes
    → prepare_fresh db context command options id ≡ ok row
    → IsPlaced row
      × (any (same_sequence row) db.appointments ≡ false)
      × (any (same_time row) db.appointments ≡ false)
unfolding new_appointment
prepare_fresh-free db context command options id row placed b h =
    let p = prepare_fresh-IsPrepared db context command options id row h in
    let s = daily_sequence_for-IsNextSequence _ _ _ _ _ _ p.sequence_found in
    let same = host_lem db command.host_id command.date p.host_record p.host_found in
    let new = new_appointment context command options p.host_record p.day p.sequence id in
    let here =
      new_appointment-IsPlaced context command options p.host_record p.day p.sequence id b
        s.one_or_two in
    let next =
      subst
        (λ h.
          IsNextSequence (active_appointments db command.date command.artist_id h) h
            (business_date_minute_to_instant command.date command.start_minute)
            (business_date_minute_to_instant command.date command.start_minute
              + command.duration_minutes * minute_ms)
            command.confirmed_second_booking p.sequence)
        (sym same) s in
    let (x, y) = row_free db new command.confirmed_second_booking here placed next in
    rw p.is_row (here, x, y)

any-or :
    (p q : Appointment → Bool) (rest : List Appointment)
    → any p rest ≡ false
    → any q rest ≡ false
    → any (λ b. p b || q b) rest ≡ false
any-or p q [] h k = refl
any-or p q (a ∷ rest) h k = ground (arith, any-or p q rest)

-- Where the table's rows lie in their dates and no row has the new one's id or replaces the same
-- appointment, the database accepts the row of a bookable command that passes the tests of
-- createFresh: the constraints against double bookings are never met.
pub insert_appointment-prepare_fresh :
    (db : Database) (context : AuthorizationContext) (command : CreateBookingCommand)
    (options : BookingCreationOptions) (id : ℕ) (row : Appointment)
    → All IsPlaced db.appointments
    → IsBookable command.date command.start_minute command.duration_minutes
    → any (same_key row) db.appointments ≡ false
    → prepare_fresh db context command options id ≡ ok row
    → insert_appointment row db.appointments ≡ inserted (row ∷ db.appointments)
unfolding insert_appointment
insert_appointment-prepare_fresh db context command options id row placed b new h =
    let (_, s, t) = prepare_fresh-free db context command options id row placed b h in
    rw (any-or (same_key row) (same_sequence row) db.appointments new s, t)

-- What an insertion that succeeds returns.
insert_appointment_inv :
    (row : Appointment) (rows result : List Appointment)
    → inserted_or_conflict (insert_appointment row rows) ≡ ok result
    → row ∷ rows ≡ result
unfolding insert_appointment
insert_appointment_inv row rows result h =
    elim (Bool-cases (any (λ b. same_key row b || same_sequence row b) rows)) [
      | inl taken ↦ let k : err booking_slot_conflict ≡ ok result = rw taken at h in cc
      | inr new ↦ elim (Bool-cases (any (same_time row) rows)) [
        | inl clash ↦ let k : err booking_slot_conflict ≡ ok result = rw (new, clash) at h in cc
        | inr free ↦ let k : ok (row ∷ rows) ≡ ok result = rw (new, free) at h in cc
      ]
    ]

to_summary_inv : (r a : Appointment) → to_summary r ≡ ok a → r ≡ a
unfolding to_summary
to_summary_inv r a h =
    let (_, _, k) =
      >>=-eq-ok
        (guard (is_single r.appointment_type && (r.daily_sequence == 1 || r.daily_sequence == 2))
          booking_state_conflict)
        (λ _. ok r) h in
    cc

-- The audit entry of an appointment that is created.
abbrev pub created_entry : AuthorizationContext → BookingCreationOptions → Appointment → AuditEntry
created_entry context options row = record {
  action = options.audit_action;
  actor_user_id = some context.user_id;
  object_id = row.id;
  reason = options.reason;
  site_id = row.site_id;
}

-- A fresh appointment is the row that was prepared; it is added to the appointments, one audit
-- entry is added, and no other table changes. The row passes the test of `toSummary`.
pub create_fresh_inv :
    (db : Database) (context : AuthorizationContext) (command : CreateBookingCommand)
    (options : BookingCreationOptions) (id : ℕ) (row : Appointment) (db' : Database)
    → create_fresh db context command options id ≡ ok (row, db')
    → (prepare_fresh db context command options id ≡ ok row)
      × (db'
          ≡ append_audit
              (created_entry context options row)
              (record db { appointments = row ∷ db.appointments }))
      × (to_summary row ≡ ok row)
unfolding create_fresh
create_fresh_inv db context command options id row db' h =
    let (r, e1, h1) = >>=-eq-ok (prepare_fresh db context command options id) _ h in
    let (rows, e2, h2) =
      >>=-eq-ok (inserted_or_conflict (insert_appointment r db.appointments)) _ h1 in
    let (a, e3, h3) = >>=-eq-ok (to_summary r) _ h2 in
    let same : r ≡ a = to_summary_inv r a e3 in
    let same_rows = insert_appointment_inv r db.appointments rows e2 in
    let (x, y) =
      ok-pair {A = Appointment} {B = Database}
        (a, append_audit (created_entry context options a) (record db { appointments = rows }))
        (row, db') h3 in
    let moved : a ≡ row = x in
    let kept : r ≡ row = same ∙ moved in
    (
      e1 ∙ ap ok kept,
      sym y
          ∙ ap₂
              (λ (b : Appointment) (t : List Appointment).
                append_audit (created_entry context options b) (record db { appointments = t }))
              moved (sym same_rows ∙ ap (λ b. b ∷ db.appointments) kept),
      ap to_summary (sym kept) ∙ e3 ∙ ap ok moved,
    )

-- A booking keeps the table of appointments consistent.
pub create_fresh-IsConsistent :
    (db : Database) (context : AuthorizationContext) (command : CreateBookingCommand)
    (options : BookingCreationOptions) (id : ℕ) (row : Appointment) (db' : Database)
    → IsConsistent db.appointments
    → IsBookable command.date command.start_minute command.duration_minutes
    → create_fresh db context command options id ≡ ok (row, db')
    → IsConsistent db'.appointments
unfolding append_audit
create_fresh-IsConsistent db context command options id row db' c b h =
    let (p, e, _) = create_fresh_inv db context command options id row db' h in
    let (x, y, z) = prepare_fresh-free db context command options id row c.placed b p in
    let rows : db'.appointments ≡ row ∷ db.appointments = ap (λ d. d.appointments) e in
    rw rows (record { placed = (x, c.placed); free = (y, z, c.free) })

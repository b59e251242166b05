-- ===== src/Leave/Confirmed.antt =====
-- What a leave does to the bookings (apps/api/src/leave/leave.service.ts and
-- booking/booking-create.service.ts).
use makeup_booking_system.Absence.Kept.{available-on_leave, host-on_leave}
use makeup_booking_system.Booking.Fresh.{prepare_fresh-IsPrepared}
use makeup_booking_system.Booking.Safety.{create_fresh_inv}
use makeup_booking_system.Leave.Steps.{
  create_leave-IsLeaveCreated, on_leave_change, review_leave-IsLeaveReviewed,
}
use makeup_booking_system.Absence.{length-find_affected_appointments}
use makeup_booking_system.Access.{AuthorizationContext, host_role}
use makeup_booking_system.Base.{
  ==_refl, >>=-eq-ok, Bool, List, Option, [], any, ap, false, find, guard, is_id, leb, length, map,
  ok, ok-injective, or_throw, refl, some, sym, true, ◌∙◌, ◌∷◌, ◌≡◌, ◌≢◌, ℕ,
}
use makeup_booking_system.Booking.Create.{
  BookingCreationOptions, CreateBookingCommand, create_fresh,
}
use makeup_booking_system.Booking.Occupation.{host_on_leave_on, is_host_qualified_on}
use makeup_booking_system.Database.{
  Appointment, ArtistProfile, CancellationReasonCode, Database, LeaveRecord, Text, artist_leave,
  is_absence_active,
}
use makeup_booking_system.Errors.{leave_subject_unavailable}
use makeup_booking_system.Leave.{
  CreateLeaveCommand, LeaveSubject, LeaveSummary, ReviewLeaveCommand, create_leave,
  is_artist_subject, leave_where, new_leave, resolve_host, resolve_self,
}
use makeup_booking_system.Leave.Orderly.{leave_where-on_leave_change}
use makeup_booking_system.Leave.Review.{
  artist_leave_subject, leave_artist, leave_is, leave_range, review_leave,
}
use makeup_booking_system.Overtime.{approve}
use makeup_booking_system.Tables.{count_of}
use makeup_booking_system.Unavailability.Commands.{reviewed_status}

any-on_leave_change :
    (code : CancellationReasonCode) (subject : LeaveSubject) (leave : LeaveRecord) (user_id now : ℕ)
    (rows : List Appointment)
    → any
        (leave_where subject (leave_range leave))
        (map (on_leave_change true code subject leave user_id now) rows)
      ≡ false
any-on_leave_change code subject leave user_id now [] = refl
any-on_leave_change code subject leave user_id now (a ∷ rows) =
    rw (leave_where-on_leave_change code subject leave user_id now a)
      (any-on_leave_change code subject leave user_id now rows)

any-on_leave_if :
    (b : Bool) (code : CancellationReasonCode) (subject : LeaveSubject) (leave : LeaveRecord)
    (user_id now : ℕ) (rows : List Appointment)
    → b ≡ true
    → any
        (leave_where subject (leave_range leave))
        (map (on_leave_change b code subject leave user_id now) rows)
      ≡ false
any-on_leave_if true code subject leave user_id now rows h =
    any-on_leave_change code subject leave user_id now rows
any-on_leave_if false code subject leave user_id now rows h = cc

-- An approval of an artist's leave that returns was confirmed with the number of the artist's
-- booked appointments on its dates, and afterwards none of the artist's appointments on its dates
-- is booked.
pub review_leave-approve :
    (nfkc : Text → Text) (db : Database) (context : AuthorizationContext)
    (command : ReviewLeaveCommand) (now : ℕ) (result : LeaveSummary) (db' : Database)
    → review_leave nfkc db context command now ≡ ok (result, db')
    → command.decision ≡ approve
    → (leave : LeaveRecord) × (found : ArtistProfile) × (find
          (leave_is command.leave_id)
          db.leave_records
        ≡ some leave)
      × (leave_artist db leave ≡ some found)
      × (count_of (leave_where (artist_leave_subject found) (leave_range leave)) db.appointments
          ≡ command.confirmed_affected_appointment_count)
      × (any (leave_where (artist_leave_subject found) (leave_range leave)) db'.appointments
          ≡ false)
review_leave-approve nfkc db context command now result db' h e =
    let m = review_leave-IsLeaveReviewed nfkc db context command now result db' h in
    (
      m.leave,
      m.artist_found,
      m.found,
      m.is_artist,
      sym (length-find_affected_appointments db _) ∙ ap length (sym m.is_affected) ∙ m.confirmed,
      rw m.rows_after (
          any-on_leave_if (is_absence_active (reviewed_status command.decision)) artist_leave
            (artist_leave_subject m.artist_found) m.leave context.user_id now db.appointments
            (ap (λ d. is_absence_active (reviewed_status d)) e)),
    )

-- A new leave of a host is found on its dates.
host_on_leave_on-new_leave :
    (db : Database) (context : AuthorizationContext) (command : CreateLeaveCommand)
    (subject : LeaveSubject) (reason : Option Text) (count id date : ℕ) (ls : List LeaveRecord)
    → db.leave_records ≡ new_leave context command subject reason count id ∷ ls
    → is_artist_subject subject.subject_type ≡ false
    → leb command.range.start_date date ≡ true
    → leb date command.range.end_date ≡ true
    → host_on_leave_on db subject.id date ≡ true
unfolding host_on_leave_on new_leave
host_on_leave_on-new_leave db context command subject reason count id date ls e s from to =
    rw (e, s, from, to, ==_refl subject.id) refl

resolve_self-host :
    (db : Database) (context : AuthorizationContext) (clock : ℕ) (subject : LeaveSubject)
    → context.role_code ≡ host_role
    → resolve_self db context clock ≡ ok subject
    → resolve_host db context clock ≡ ok subject
unfolding resolve_self resolve_host
resolve_self-host db context clock subject r h = rw r at h

resolve_host_inv :
    (db : Database) (context : AuthorizationContext) (clock : ℕ) (subject : LeaveSubject)
    → resolve_host db context clock ≡ ok subject
    → is_artist_subject subject.subject_type ≡ false
unfolding resolve_host
resolve_host_inv db context clock subject h =
    let (found, _, h1) =
      >>=-eq-ok
        (or_throw (find (λ h. is_id h.user_id context.user_id) db.hosts) leave_subject_unavailable)
        _ h in
    let (_, _, h2) =
      >>=-eq-ok (guard (is_host_qualified_on found clock) leave_subject_unavailable) _ h1 in
    ap (λ (s : LeaveSubject). is_artist_subject s.subject_type) (sym (ok-injective _ subject h2))

-- After a host has created a leave, no appointment of that host on a date of the leave is created
-- in the tables that the creation left, whoever asks.
pub create_leave-create_fresh :
    (nfkc : Text → Text) (db : Database) (context : AuthorizationContext)
    (command : CreateLeaveCommand) (now clock id : ℕ) (result : LeaveSummary) (db' : Database)
    (subject : LeaveSubject) (booker : AuthorizationContext) (booking : CreateBookingCommand)
    (options : BookingCreationOptions) (booking_id : ℕ) (row : Appointment) (db'' : Database)
    → create_leave nfkc db context command now clock id ≡ ok (result, db')
    → context.role_code ≡ host_role
    → resolve_self db context clock ≡ ok subject
    → booking.host_id ≡ subject.id
    → leb command.range.start_date booking.date ≡ true
    → leb booking.date command.range.end_date ≡ true
    → create_fresh db' booker booking options booking_id ≢ ok (row, db'')
create_leave-create_fresh nfkc db context command now clock id result db' subject booker booking
      options booking_id row db'' h role self same from to created =
    let m = create_leave-IsLeaveCreated nfkc db context command now clock id result db' h in
    let same_subject : m.subject ≡ subject =
      ok-injective m.subject subject (sym m.resolved ∙ self) in
    let is_host =
      resolve_host_inv db context clock m.subject
        (resolve_self-host db context clock m.subject role m.resolved) in
    let leaves =
      ap (λ t. t.2) m.tables_after ∙ ap (λ (l : LeaveRecord). l ∷ db.leave_records) m.is_leave in
    let away =
      host_on_leave_on-new_leave db' context command m.subject m.reason _ id booking.date
        db.leave_records leaves is_host from to in
    let (p, _, _) = create_fresh_inv db' booker booking options booking_id row db'' created in
    let r = prepare_fresh-IsPrepared db' booker booking options booking_id row p in
    let here =
      sym (host-on_leave db' booking.host_id booking.date r.host_record r.host_found)
      ∙ available-on_leave r.host_record booking.date r.host_available in
    let wrong : true ≡ false =
      sym away
      ∙ ap (λ (n : ℕ). host_on_leave_on db' n booking.date)
          (ap (λ (s : LeaveSubject). s.id) same_subject ∙ sym same)
      ∙ here in
    cc

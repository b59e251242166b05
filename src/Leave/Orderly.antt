-- ===== src/Leave/Orderly.antt =====
-- The commands of apps/api/src/leave/leave.service.ts keep the absences orderly: no booked
-- appointment lies in an active absence. A cancellation that books fixed appointments again is not
-- among them.
use makeup_booking_system.Base.{
  ==→eq, All, All-find, Bool, Bool-cases, List, Option, Option-cases, [], ap, arith, false, find,
  find_holds, if◌then◌else◌, inl, inr, is_none, map, none, not, ok, refl, some, subst, sym, true,
  ◌&&◌, ◌==◌, ◌∙◌, ◌∷◌, ◌≡◌, ℕ,
}
use makeup_booking_system.Database.{
  Appointment, ArtistProfile, CancellationReasonCode, Database, LeaveRecord, Text, artist_leave,
  is_absence_active, leave_record_source,
}
use makeup_booking_system.Absence.Kept.{IsLeaveTable, IsOrderly, cancelled_row-KeepsBooked}
use makeup_booking_system.Absence.Undisturbed.{
  Clear-map, Clear-rows, KeepsBooked, KeepsBooked-if, leave_hits, leave_hits-KeepsBooked,
  period_hits, period_hits-KeepsBooked,
}
use makeup_booking_system.Access.{AuthorizationContext}
use makeup_booking_system.Booking.Appointments.{tables}
use makeup_booking_system.Leave.{
  LeaveSubject, LeaveSummary, ReviewLeaveCommand, leave_where, same_leave_id,
}
use makeup_booking_system.Leave.Review.{
  artist_leave_subject, is_pending_leave, leave_artist, leave_is, leave_range, review_leave,
  reviewed_leave,
}
use makeup_booking_system.Leave.Steps.{on_leave_change, review_leave-IsLeaveReviewed}
use makeup_booking_system.Overtime.{Decision, approve, reject}
use makeup_booking_system.Tables.{All-Apart, All-imply, Apart-map}
use makeup_booking_system.Unavailability.Commands.{reviewed_status}
use mathlib.Core.Option

-- What a leave is about stays.
pub record KeepsLeave (l m : LeaveRecord) : Type 0 where
  pub id_kept : m.id ≡ l.id
  pub artist_kept : m.artist_id ≡ l.artist_id
  pub host_kept : m.host_id ≡ l.host_id

pub KeepsLeave-if :
    (b : Bool) (l m : LeaveRecord) → KeepsLeave l m → KeepsLeave l (if b then m else l)
KeepsLeave-if true l m k = k
KeepsLeave-if false l m k = record { id_kept = refl; artist_kept = refl; host_kept = refl }

same_leave_id-KeepsLeave :
    (l l' m m' : LeaveRecord)
    → KeepsLeave l l'
    → KeepsLeave m m'
    → same_leave_id l m ≡ false
    → same_leave_id l' m' ≡ false
same_leave_id-KeepsLeave l l' m m' j k h = rw (j.id_kept, k.id_kept) h

module _ (f : LeaveRecord → LeaveRecord) (keeps : (l : LeaveRecord) → KeepsLeave l (f l)) where
  single-map :
      (ls : List LeaveRecord)
      → All (λ l. not (is_none l.artist_id) && not (is_none l.host_id) ≡ false) ls
      → All (λ l. not (is_none l.artist_id) && not (is_none l.host_id) ≡ false) (map f ls)
  single-map [] h = tt
  single-map (l ∷ ls) h = (rw ((keeps l).artist_kept, (keeps l).host_kept) h.0, single-map ls h.1)

  IsLeaveTable-map : (ls : List LeaveRecord) → IsLeaveTable ls → IsLeaveTable (map f ls)
  IsLeaveTable-map ls t = record {
    ids =
        Apart-map same_leave_id f
          (λ l m. same_leave_id-KeepsLeave l (f l) m (f m) (keeps l) (keeps m)) ls t.ids;
    single = single-map ls t.single;
  }

  -- An update of the leaves and the appointments, where no changed leave hits a changed row.
  pub IsOrderly-leaves :
      (db db' : Database) (g : Appointment → Appointment)
      → tables db' ≡ (db.rules, db.unavailable_periods, map f db.leave_records)
      → db'.appointments ≡ map g db.appointments
      → ((a : Appointment) → KeepsBooked a (g a))
      → ((a : Appointment)
          → All (λ l. leave_hits (f l) (g a) ≡ true → leave_hits l a ≡ true) db.leave_records)
      → IsOrderly db
      → IsOrderly db'
  IsOrderly-leaves db db' g t r k c o =
      let ps : db'.unavailable_periods ≡ db.unavailable_periods = ap (λ t. t.1) t in
      let ls : db'.leave_records ≡ map f db.leave_records = ap (λ t. t.2) t in
      record {
        periods = rw ps o.periods;
        apart = rw ps o.apart;
        leaves = rw ls (IsLeaveTable-map db.leave_records o.leaves);
        periods_clear =
            rw (ps, r)
              (Clear-rows period_hits period_hits-KeepsBooked g db.unavailable_periods
                db.appointments k o.periods_clear);
        leaves_clear =
            rw (ls, r) (Clear-map leave_hits f g db.leave_records db.appointments c o.leaves_clear);
      }

pub on_leave_change-KeepsBooked :
    (on_leave : Bool) (code : CancellationReasonCode) (subject : LeaveSubject) (leave : LeaveRecord)
    (user_id now : ℕ) (a : Appointment)
    → KeepsBooked a (on_leave_change on_leave code subject leave user_id now a)
on_leave_change-KeepsBooked on_leave code subject leave user_id now a =
    KeepsBooked-if on_leave a _ (
      KeepsBooked-if (leave_where subject (leave_range leave) a) a _ (
        cancelled_row-KeepsBooked code leave.reason (some (leave_record_source leave.id)) now
          user_id a))

-- The cancellation leaves no booked appointment of the subject on the dates.
pub leave_where-on_leave_change :
    (code : CancellationReasonCode) (subject : LeaveSubject) (leave : LeaveRecord) (user_id now : ℕ)
    (a : Appointment)
    → leave_where subject
        (leave_range leave)
        (on_leave_change true code subject leave user_id now a)
      ≡ false
unfolding leave_where
leave_where-on_leave_change code subject leave user_id now a =
    elim (Bool-cases (leave_where subject (leave_range leave) a)) [
      | inl y ↦ rw y (ground arith)
      | inr n ↦ rw n n
    ]

-- The review of a leave.
abbrev reviewed_if :
    ℕ → ℕ → Decision → Option Text → List Appointment → ℕ → ℕ → LeaveRecord → LeaveRecord
reviewed_if id row_version decision comment affected now user_id l =
    if is_pending_leave id row_version l
    then reviewed_leave decision comment affected now user_id l
    else l

-- A leave of an artist alone hits the artist's appointments.
leave_hits-artist :
    (l : LeaveRecord) (found : ArtistProfile) (a : Appointment)
    → l.artist_id ≡ some found.id
    → not (is_none l.artist_id) && not (is_none l.host_id) ≡ false
    → leave_where (artist_leave_subject found) (leave_range l) a ≡ false
    → leave_hits l a ≡ false
unfolding leave_where
leave_hits-artist l found a e s h = elim (Option-cases l.host_id) [
  | inl n ↦ rw (e, n) (ground arith)
  | inr (k, y) ↦ let wrong : true ≡ false = rw (e, y) at s in cc
]

leave_artist_inv :
    (db : Database) (l : LeaveRecord) (found : ArtistProfile)
    → leave_artist db l ≡ some found
    → l.artist_id ≡ some found.id
unfolding leave_artist Option.bind
leave_artist_inv db l found h = elim (Option-cases l.artist_id) [
  | inl n ↦ let wrong : Path (Option ArtistProfile) none (some found) = rw n at h in cc
  | inr (k, y) ↦
      let f : find (λ a. a.id == k) db.artists ≡ some found = rw y at h in
      y ∙ ap some (sym (==→eq _ _ (find_holds (λ a. a.id == k) db.artists found f)))
]

hits-reviewed :
    (decision : Decision) (comment : Option Text) (affected : List Appointment) (now user_id : ℕ)
    (found : ArtistProfile) (l : LeaveRecord) (a : Appointment)
    → l.artist_id ≡ some found.id
    → not (is_none l.artist_id) && not (is_none l.host_id) ≡ false
    → leave_hits (reviewed_leave decision comment affected now user_id l) (
        on_leave_change
          (is_absence_active (reviewed_status decision))
          artist_leave
          (artist_leave_subject found)
          l
          user_id
          now
          a)
      ≡ false
hits-reviewed approve comment affected now user_id found l a e s =
    leave_hits-artist (reviewed_leave approve comment affected now user_id l) found _ e s
      (leave_where-on_leave_change artist_leave (artist_leave_subject found) l user_id now a)
hits-reviewed reject comment affected now user_id found l a e s = refl

hits-reviewed_if :
    (id row_version : ℕ) (decision : Decision) (comment : Option Text) (affected : List Appointment)
    (now user_id : ℕ) (found : ArtistProfile) (leave l : LeaveRecord) (a : Appointment)
    → leave.artist_id ≡ some found.id
    → not (is_none leave.artist_id) && not (is_none leave.host_id) ≡ false
    → ((l.id == id) ≡ true → l ≡ leave)
    → leave_hits (reviewed_if id row_version decision comment affected now user_id l) (
        on_leave_change
          (is_absence_active (reviewed_status decision))
          artist_leave
          (artist_leave_subject found)
          leave
          user_id
          now
          a)
      ≡ true
    → leave_hits l a ≡ true
hits-reviewed_if id row_version decision comment affected now user_id found leave l a e s only =
    let g =
      on_leave_change (is_absence_active (reviewed_status decision)) artist_leave
        (artist_leave_subject found) leave user_id now in
    elim (Bool-cases (is_pending_leave id row_version l)) [
      | inl y ↦
          let here : l ≡ leave = only (ground arith) in
          rw y (λ h.
            let wrong : false ≡ true =
              sym (hits-reviewed decision comment affected now user_id found leave a e s)
              ∙ subst
                  (λ (m : LeaveRecord).
                    leave_hits (reviewed_leave decision comment affected now user_id m) (g a)
                    ≡ true)
                  here h in
            cc)
      | inr n ↦ rw n (
          leave_hits-KeepsBooked l a _ (
            on_leave_change-KeepsBooked (is_absence_active (reviewed_status decision)) artist_leave
              (artist_leave_subject found) leave user_id now a))
    ]

pub review_leave-IsOrderly :
    (nfkc : Text → Text) (db : Database) (context : AuthorizationContext)
    (command : ReviewLeaveCommand) (now : ℕ) (result : LeaveSummary) (db' : Database)
    → review_leave nfkc db context command now ≡ ok (result, db')
    → IsOrderly db
    → IsOrderly db'
review_leave-IsOrderly nfkc db context command now result db' h o =
    let m = review_leave-IsLeaveReviewed nfkc db context command now result db' h in
    let is_id : m.leave.id ≡ command.leave_id =
      ==→eq _ _ (find_holds (leave_is command.leave_id) db.leave_records m.leave m.found) in
    let only =
      All-Apart same_leave_id (leave_is command.leave_id) (λ a b p q. ground arith) db.leave_records
        m.leave o.leaves.ids m.found in
    let s =
      All-find _ (leave_is command.leave_id) db.leave_records m.leave o.leaves.single m.found in
    IsOrderly-leaves
      (reviewed_if m.leave.id command.expected_row_version command.decision m.comment m.affected now
        context.user_id)
      (λ l.
        KeepsLeave-if (is_pending_leave m.leave.id command.expected_row_version l) l _
          (record { id_kept = refl; artist_kept = refl; host_kept = refl }))
      db db' _ m.tables_after m.rows_after
      (on_leave_change-KeepsBooked (is_absence_active (reviewed_status command.decision))
        artist_leave (artist_leave_subject m.artist_found) m.leave context.user_id now)
      (λ a.
        All-imply
          (λ l i.
            hits-reviewed_if m.leave.id command.expected_row_version command.decision m.comment
              m.affected now context.user_id m.artist_found m.leave l a
              (leave_artist_inv db m.leave m.artist_found m.is_artist) s (rw is_id i))
          db.leave_records only)
      o

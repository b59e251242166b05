-- ===== src/Leave/Created.antt =====
-- The creation of a leave, and a cancellation that books nothing again, keep the absences orderly
-- (apps/api/src/leave/leave.service.ts).
use makeup_booking_system.Database.{Appointment, Database, LeaveRecord, Text, host_leave}
use makeup_booking_system.Leave.Cancelling.{cancel_leave-IsLeaveCancelling}
use makeup_booking_system.Base.{
  All, Bool-cases, List, Option, [], any, ap, arith, false, find, if◌then◌else◌, inl, inr, is_none,
  length, map, none, not, ok, ok-injective, refl, some, subst, sym, true, ◌&&◌, ◌||◌, ◌∙◌, ◌∷◌, ◌≡◌,
  ℕ,
}
use makeup_booking_system.Absence.Kept.{IsOrderly}
use makeup_booking_system.Absence.Undisturbed.{
  Clear-add, Clear-rows, KeepsBooked-refl, leave_hits, leave_hits-KeepsBooked, period_hits,
  period_hits-KeepsBooked,
}
use makeup_booking_system.Access.{AuthorizationContext}
use makeup_booking_system.Booking.Appointments.{tables}
use makeup_booking_system.Leave.{
  CancelLeaveCommand, CreateLeaveCommand, LeaveSubject, LeaveSummary, affected_by_leave,
  create_leave, is_artist_subject, leave_where, new_leave, same_leave_dates, same_leave_id,
}
use makeup_booking_system.Leave.Cancel.{
  cancel_leave, cancelled_leave, is_open_leave, restorable_of, restore_fixed_appointments,
}
use makeup_booking_system.Leave.Orderly.{
  IsOrderly-leaves, KeepsLeave-if, leave_where-on_leave_change, on_leave_change-KeepsBooked,
}
use makeup_booking_system.Leave.Review.{leave_is, leave_range}
use makeup_booking_system.Leave.Steps.{create_leave-IsLeaveCreated, on_leave_change}
use makeup_booking_system.Tables.{update_many}
use makeup_booking_system.Unavailability.Steps.{map_id}

leave_hits-host :
    (l : LeaveRecord) (subject : LeaveSubject) (a : Appointment)
    → l.artist_id ≡ none
    → l.host_id ≡ some subject.id
    → is_artist_subject subject.subject_type ≡ false
    → leave_where subject (leave_range l) a ≡ false
    → leave_hits l a ≡ false
unfolding leave_where
leave_hits-host l subject a e k s h = let h' = rw s at h in rw (e, k) (ground arith)

-- A leave that is created hits no appointment afterwards.
hits-new_leave :
    (context : AuthorizationContext) (command : CreateLeaveCommand) (subject : LeaveSubject)
    (reason : Option Text) (count id now user_id : ℕ) (a : Appointment)
    → let leave = new_leave context command subject reason count id in
      leave_hits leave (
        on_leave_change
          (not (is_artist_subject subject.subject_type))
          host_leave
          subject
          leave
          user_id
          now
          a)
      ≡ false
unfolding new_leave
hits-new_leave context command subject reason count id now user_id a =
    let leave = new_leave context command subject reason count id in
    elim (Bool-cases (is_artist_subject subject.subject_type)) [
      | inl y ↦ rw y refl
      | inr n ↦ rw (ap not n) (
          leave_hits-host leave subject _ (rw n refl) (rw n refl) n
            (leave_where-on_leave_change host_leave subject leave user_id now a))
    ]

All-hits :
    (l : LeaveRecord) (g : Appointment → Appointment)
    → ((a : Appointment) → leave_hits l (g a) ≡ false)
    → (rows : List Appointment) → All (λ a. leave_hits l a ≡ false) (map g rows)
All-hits l g h [] = tt
All-hits l g h (a ∷ rows) = (h a, All-hits l g h rows)

new_id :
    (l : LeaveRecord) (ls : List LeaveRecord)
    → any (λ m. same_leave_id l m || same_leave_dates l m) ls ≡ false
    → any (same_leave_id l) ls ≡ false
new_id l [] h = refl
new_id l (m ∷ ls) h = ground (arith, new_id l ls)

new_leave-single :
    (context : AuthorizationContext) (command : CreateLeaveCommand) (subject : LeaveSubject)
    (reason : Option Text) (count id : ℕ)
    → let leave = new_leave context command subject reason count id in
      not (is_none leave.artist_id) && not (is_none leave.host_id) ≡ false
unfolding new_leave
new_leave-single context command subject reason count id =
    elim (Bool-cases (is_artist_subject subject.subject_type)) [
      | inl y ↦ rw y refl
      | inr n ↦ rw n refl
    ]

pub create_leave-IsOrderly :
    (nfkc : Text → Text) (db : Database) (context : AuthorizationContext)
    (command : CreateLeaveCommand) (now clock id : ℕ) (result : LeaveSummary) (db' : Database)
    → create_leave nfkc db context command now clock id ≡ ok (result, db')
    → IsOrderly db
    → IsOrderly db'
create_leave-IsOrderly nfkc db context command now clock id result db' h o =
    let m = create_leave-IsLeaveCreated nfkc db context command now clock id result db' h in
    let count = length (affected_by_leave db m.subject command.range) in
    let on_leave = not (is_artist_subject m.subject.subject_type) in
    let g = on_leave_change on_leave host_leave m.subject m.leave context.user_id now in
    let keeps =
      on_leave_change-KeepsBooked on_leave host_leave m.subject m.leave context.user_id now in
    let ps : db'.unavailable_periods ≡ db.unavailable_periods = ap (λ t. t.1) m.tables_after in
    let ls : db'.leave_records ≡ m.leave ∷ db.leave_records = ap (λ t. t.2) m.tables_after in
    let hits =
      subst
        (λ (l : LeaveRecord).
          (a : Appointment)
          → leave_hits l (on_leave_change on_leave host_leave m.subject l context.user_id now a)
            ≡ false)
        (sym m.is_leave)
        (hits-new_leave context command m.subject m.reason count id now context.user_id) in
    let one =
      subst (λ (l : LeaveRecord). not (is_none l.artist_id) && not (is_none l.host_id) ≡ false)
        (sym m.is_leave) (new_leave-single context command m.subject m.reason count id) in
    record {
      periods = rw ps o.periods;
      apart = rw ps o.apart;
      leaves = rw ls (record {
        ids = (new_id m.leave db.leave_records m.is_new, o.leaves.ids);
        single = (one, o.leaves.single);
      });
      periods_clear =
          rw (ps, m.rows_after)
            (Clear-rows period_hits period_hits-KeepsBooked g db.unavailable_periods db.appointments
              keeps o.periods_clear);
      leaves_clear =
          rw (ls, m.rows_after)
            (Clear-add leave_hits m.leave db.leave_records (map g db.appointments)
              (All-hits m.leave g hits db.appointments)
              (Clear-rows leave_hits leave_hits-KeepsBooked g db.leave_records db.appointments keeps
                o.leaves_clear));
    }

abbrev cancelled_if : ℕ → ℕ → Option Text → ℕ → ℕ → LeaveRecord → LeaveRecord
cancelled_if id row_version reason now user_id l =
    if is_open_leave id row_version l then cancelled_leave reason now user_id l else l

hits-cancelled_if :
    (id row_version : ℕ) (reason : Option Text) (now user_id : ℕ) (l : LeaveRecord)
    (a : Appointment)
    → leave_hits (cancelled_if id row_version reason now user_id l) a ≡ true
    → leave_hits l a ≡ true
hits-cancelled_if id row_version reason now user_id l a =
    elim (Bool-cases (is_open_leave id row_version l)) [
      | inl y ↦ rw y (λ h. cc)
      | inr n ↦ rw n (λ h. h)
    ]

All-true :
    {P : LeaveRecord → Type 0} → ((l : LeaveRecord) → P l) → (ls : List LeaveRecord) → All P ls
All-true h [] = tt
All-true h (l ∷ ls) = (h l, All-true h ls)

-- What a cancellation that books nothing again has done.
pub record IsLeaveCancelled (db : Database) (context : AuthorizationContext)
    (command : CancelLeaveCommand) (now : ℕ) (db' : Database) : Type 0 where
  pub reason : Option Text
  pub leave : LeaveRecord
  pub tables_after : tables db' ≡ (
    db.rules,
    db.unavailable_periods,
    update_many
        (is_open_leave leave.id command.expected_row_version)
        (cancelled_leave reason now context.user_id)
        db.leave_records,
  )
  pub rows_after : db'.appointments ≡ db.appointments

same_leave : (l m : LeaveRecord) → Path (Option LeaveRecord) (some l) (some m) → l ≡ m
same_leave l m h = cc

restore_none :
    (db : Database) (context : AuthorizationContext) (leave_id : ℕ) (rows : List Appointment)
    (db' : Database)
    → rows ≡ []
    → restore_fixed_appointments db context leave_id rows ≡ ok db'
    → db' ≡ db
unfolding restore_fixed_appointments
restore_none db context leave_id [] db' e h = sym (ok-injective db db' h)
restore_none db context leave_id (a ∷ rows) db' e h = cc

pub cancel_leave-IsLeaveCancelled :
    (nfkc : Text → Text) (db : Database) (context : AuthorizationContext)
    (command : CancelLeaveCommand) (now : ℕ) (leave : LeaveRecord) (db' : Database)
    → find (leave_is command.leave_id) db.leave_records ≡ some leave
    → restorable_of db leave ≡ []
    → cancel_leave nfkc db context command now ≡ ok db'
    → IsLeaveCancelled db context command now db'
cancel_leave-IsLeaveCancelled nfkc db context command now leave db' f r h =
    let m = cancel_leave-IsLeaveCancelling nfkc db context command now db' h in
    let same : leave ≡ m.leave = same_leave leave m.leave (sym f ∙ m.found) in
    let w =
      restore_none m.updated context m.leave.id (restorable_of db m.leave) m.restored
        (subst (λ (l : LeaveRecord). restorable_of db l ≡ []) same r) m.restores in
    record {
      reason = m.reason;
      leave = m.leave;
      tables_after = m.tables_after ∙ ap tables (w ∙ m.is_updated);
      rows_after = m.rows_after ∙ ap (λ d. d.appointments) (w ∙ m.is_updated);
    }

pub cancel_leave-IsOrderly :
    (nfkc : Text → Text) (db : Database) (context : AuthorizationContext)
    (command : CancelLeaveCommand) (now : ℕ) (leave : LeaveRecord) (db' : Database)
    → find (leave_is command.leave_id) db.leave_records ≡ some leave
    → restorable_of db leave ≡ []
    → cancel_leave nfkc db context command now ≡ ok db'
    → IsOrderly db
    → IsOrderly db'
cancel_leave-IsOrderly nfkc db context command now leave db' f r h o =
    let m = cancel_leave-IsLeaveCancelled nfkc db context command now leave db' f r h in
    IsOrderly-leaves
      (cancelled_if m.leave.id command.expected_row_version m.reason now context.user_id)
      (λ l.
        KeepsLeave-if (is_open_leave m.leave.id command.expected_row_version l) l _
          (record { id_kept = refl; artist_kept = refl; host_kept = refl }))
      db db' (λ a. a) m.tables_after (m.rows_after ∙ map_id (λ a. a) (λ a. refl) db.appointments)
      KeepsBooked-refl
      (λ a.
        All-true
          (λ l.
            hits-cancelled_if m.leave.id command.expected_row_version m.reason now context.user_id l
              a)
          db.leave_records)
      o

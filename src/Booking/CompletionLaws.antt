-- ===== src/Booking/CompletionLaws.antt =====
-- What completing appointments promises (apps/api/src/booking/appointment-completion.service.ts).
use makeup_booking_system.Base.{
  Bool-cases, List, ap₂, arith, false, if◌then◌else◌, inl, inr, refl, true, ◌≡◌, ◌≤◌,
}
use makeup_booking_system.Booking.Completion.{completed_row, is_over, run}
use makeup_booking_system.Booking.Rows.{IsConsistent-update_many, Keeps, update_many-map}
use makeup_booking_system.Booking.Schedule.{IsConsistent}
use makeup_booking_system.Database.{
  Appointment, AppointmentStatus, Database, booked, cancelled, completed, is_booked, is_occupying,
}
use makeup_booking_system.Base.{ℕ}

booked-occupying : (s : AppointmentStatus) → is_booked s ≡ true → is_occupying s ≡ true
booked-occupying booked h = refl
booked-occupying cancelled h = cc
booked-occupying completed h = cc

completed_row-Keeps :
    (now : ℕ) (a : Appointment) → is_over now a ≡ true → Keeps a (completed_row now a)
completed_row-Keeps now a h = record {
  host_kept = refl;
  artist_kept = refl;
  date_kept = refl;
  sequence_kept = refl;
  start_kept = refl;
  end_kept = refl;
  occupation_kept = λ _. booked-occupying a.status (ground arith);
}

-- A run of the completion keeps the table of appointments consistent.
pub run-IsConsistent :
    (db : Database) (now : ℕ)
    → IsConsistent db.appointments
    → IsConsistent (run db now).1.appointments
unfolding run
run-IsConsistent db now c =
    IsConsistent-update_many (is_over now) (completed_row now) (completed_row-Keeps now)
      db.appointments c

-- After a run no row is over at its time or at an earlier one.
over_completed :
    (now earlier : ℕ) (a : Appointment)
    → earlier ≤ now
    → is_over earlier (if is_over now a then completed_row now a else a) ≡ false
over_completed now earlier a l = elim (Bool-cases (is_over now a)) [
  | inl y ↦ rw y (ground arith)
  | inr n ↦ rw n (ground arith)
]

-- A run of the completion leaves no booked appointment that is over: another run at the same time
-- or an earlier one counts no appointment and changes nothing.
pub run-run :
    (db : Database) (now earlier : ℕ)
    → earlier ≤ now
    → run (run db now).1 earlier ≡ (0, (run db now).1)
unfolding run
run-run db now earlier l =
    let (x, y) =
      update_many-map (is_over earlier) (completed_row earlier)
        (λ a. if is_over now a then completed_row now a else a)
        (λ a. over_completed now earlier a l) db.appointments in
    ap₂ (λ (n : ℕ) (rows : List Appointment). (n, record db { appointments = rows })) x y

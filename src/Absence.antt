-- ===== src/Absence.antt =====
-- The appointments that an absence affects (apps/api/src/absence/affected-appointment.ts), and
-- their cancellation, which apps/api/src/leave and apps/api/src/unavailability share.
pub mod Undisturbed
pub mod Bookable
pub mod Kept
pub mod Generated
use makeup_booking_system.Base.{
  Bool, List, Result, filter, guard, leb, length, ltb, map, ok, ◌&&◌, ◌==◌, ◌>>◌, ◌||◌, ◌≡◌, ℕ,
}
use makeup_booking_system.Database.{AffectedAppointmentSummary, Appointment, Database}
use makeup_booking_system.Errors.{Error}
use makeup_booking_system.Shift.Calendar.{format_date_only}
use makeup_booking_system.Tables.{count_of, length-sort_by, sort_by, update_many}

-- `orderBy` of `findAffectedAppointments`: by date, then by start.
unfoldable pub by_date_and_start : Appointment → Appointment → Bool
by_date_and_start a b =
    ltb a.appointment_date b.appointment_date
    || (a.appointment_date == b.appointment_date && leb a.start_at b.start_at)

unfoldable pub find_affected_appointments : Database → (Appointment → Bool) → List Appointment
find_affected_appointments db fits = sort_by by_date_and_start (filter fits db.appointments)

abbrev pub to_affected_appointment : Appointment → AffectedAppointmentSummary
to_affected_appointment a = record {
  appointment_date = format_date_only a.appointment_date;
  appointment_type = a.appointment_type;
  end_at = a.end_at;
  host_code = a.host_code_snapshot;
  host_id = a.host_id;
  host_name = a.host_name_snapshot;
  id = a.id;
  start_at = a.start_at;
}

abbrev pub affected_appointment_snapshot : List Appointment → List AffectedAppointmentSummary
affected_appointment_snapshot appointments = map to_affected_appointment appointments

-- The `updateMany` that cancels the affected appointments, whose count must be the one confirmed.
unfoldable pub cancel_affected :
    Error → Database → (Appointment → Bool) → ℕ → (Appointment → Appointment) → Result Database
cancel_affected error db fits expected change = do
  guard (count_of fits db.appointments == expected) error
  ok (record db { appointments = update_many fits change db.appointments })

-- The database orders the affected appointments, and leaves none out.
pub length-find_affected_appointments :
    (db : Database) (fits : Appointment → Bool)
    → length (find_affected_appointments db fits) ≡ count_of fits db.appointments
unfolding find_affected_appointments
length-find_affected_appointments db fits =
    length-sort_by by_date_and_start (filter fits db.appointments)

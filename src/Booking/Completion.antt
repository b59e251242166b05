-- ===== src/Booking/Completion.antt =====
-- apps/api/src/booking/appointment-completion.service.ts.
use makeup_booking_system.Base.{Bool, leb, some, ◌&&◌, ◌+◌}
use makeup_booking_system.Booking.Rows.{count_of, update_many}
use makeup_booking_system.Database.{Appointment, Database, completed, is_booked}
use makeup_booking_system.Base.{ℕ}

-- The `where` of the update.
abbrev pub is_over : ℕ → Appointment → Bool
is_over now a = leb a.end_at now && is_booked a.status

abbrev pub completed_row : ℕ → Appointment → Appointment
completed_row now a = record a {
  completed_at = some now;
  row_version = a.row_version + 1;
  status = completed;
}

-- The count of the appointments that are completed, and the new table.
unfoldable pub run : Database → ℕ → ℕ × Database
run db now = (
  count_of (is_over now) db.appointments,
  record db { appointments = update_many (is_over now) (completed_row now) db.appointments },
)

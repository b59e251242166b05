-- ===== src/Booking/Appointments.antt =====
-- The table of appointments: the constraints that an insertion meets
-- (prisma/migrations/20260722171500_create_appointments/migration.sql and
-- 20260722194500_protect_fixed_generation/migration.sql) and the audit log
-- (apps/api/src/audit/audit-command.service.ts).
use makeup_booking_system.Database.{ArtistUnavailablePeriod, FixedAppointmentRule, LeaveRecord}
use makeup_booking_system.Base.{none}
use makeup_booking_system.Base.{
  ℕ, ◌∷◌, List, Bool, Option, ◌==◌, ◌&&◌, false, if◌then◌else◌, ltb, some, ◌||◌, any, is_id,
}
use makeup_booking_system.Database.{Database, Appointment, AuditEntry, is_occupying}

-- Two optional ids that are both present and equal.
abbrev pub same_id : Option ℕ → Option ℕ → Bool
same_id none b = false
same_id (some a) b = is_id b a

-- appointments_active_host_daily_sequence_uq
unfoldable pub same_sequence : Appointment → Appointment → Bool
same_sequence a b =
    is_occupying a.status
    && is_occupying b.status
    && a.host_id == b.host_id
    && a.appointment_date == b.appointment_date
    && a.daily_sequence == b.daily_sequence

-- `time_range` is the half-open range from `start_at` to `end_at`.
abbrev pub overlapping : Appointment → Appointment → Bool
overlapping a b = ltb a.start_at b.end_at && ltb b.start_at a.end_at

-- appointments_artist_time_excl and appointments_host_time_excl
unfoldable pub same_time : Appointment → Appointment → Bool
same_time a b =
    is_occupying a.status
    && is_occupying b.status
    && (a.artist_id == b.artist_id || a.host_id == b.host_id)
    && overlapping a b

-- appointments_pkey, appointments_rescheduled_from_uq and appointments_fixed_rule_date_uq
unfoldable pub same_key : Appointment → Appointment → Bool
same_key a b =
    a.id == b.id
    || same_id a.rescheduled_from_appointment_id b.rescheduled_from_appointment_id
    || (same_id a.fixed_rule_id b.fixed_rule_id && a.appointment_date == b.appointment_date)

-- What an insertion ends with: the new table, a unique violation (`P2002`) or an exclusion
-- violation (`P2004`).
pub data Insertion : Type 0 where
  inserted : List Appointment → Insertion
  unique_violation exclusion_violation : Insertion

unfoldable pub insert_appointment : Appointment → List Appointment → Insertion
insert_appointment a appointments =
    if any (λ b. same_key a b || same_sequence a b) appointments
    then unique_violation
    else if any (same_time a) appointments
    then exclusion_violation
    else inserted (a ∷ appointments)

-- The write to the table, after which the audit entry is appended.
unfoldable pub append_audit : AuditEntry → Database → Database
append_audit entry db = record db { audit_logs = entry ∷ db.audit_logs }

-- The tables that a transaction on appointments only reads, and its audit entries leave.
abbrev pub tables :
    Database → List FixedAppointmentRule × List ArtistUnavailablePeriod × List LeaveRecord
tables db = (db.rules, db.unavailable_periods, db.leave_records)

-- ===== src/Leave/Cancel.antt =====
-- `cancel` of apps/api/src/leave/leave.service.ts, which books the fixed appointments of an
-- artist's leave again. Its locks are not modelled.
use makeup_booking_system.Base.{
  is_none, Bool, List, Option, Result, [], any, false, filter, find, guard, if◌then◌else◌, is_id,
  leb, length, ltb, none, not, ok, or_throw, some, throw_if, ◌&&◌, ◌+◌, ◌==◌, ◌>>=◌, ◌>>◌, ◌||◌,
  ◌∷◌, ℕ,
}
use makeup_booking_system.Absence.{find_affected_appointments}
use makeup_booking_system.Access.{
  AuthorizationContext, RoleCode, admin_role, artist_role, assert_role, host_role, role_eq,
}
use makeup_booking_system.Availability.{in_force}
use makeup_booking_system.Booking.Appointments.{append_audit}
use makeup_booking_system.Booking.Generation.{has_weekday}
use makeup_booking_system.Booking.Occupation.{active_appointments}
use makeup_booking_system.Database.{
  Appointment, Database, FixedAppointmentRule, HostProfile, LeaveRecord, Text, absence_cancelled,
  booked, fixed_appointment_restored_after_leave_cancel, is_absence_active, is_absence_open,
  is_artist_leave, is_cancelled, is_leave_source, is_rule_active, leave_cancelled,
}
use makeup_booking_system.Errors.{
  authorization_denied, leave_date_range_invalid, leave_fixed_appointment_restore_conflict,
  leave_not_found, leave_reason_invalid, leave_state_conflict,
}
use makeup_booking_system.Leave.{CancelLeaveCommand, leave_audit, optional_reason}
use makeup_booking_system.Leave.Review.{leave_artist, leave_is, update_leave}
use makeup_booking_system.Shift.Calendar.{to_business_date}
use makeup_booking_system.Tables.{count_of, update_many}
use mathlib.Core.Option

-- `restorableFixedAppointments`
unfoldable pub is_restorable : ℕ → Appointment → Bool
is_restorable leave_id a =
    is_artist_leave a.cancellation_reason_code
    && is_leave_source leave_id a.cancellation_source
    && not (is_none a.fixed_rule_id)
    && is_cancelled a.status

unfoldable pub restorable_fixed_appointments : Database → ℕ → List Appointment
restorable_fixed_appointments db leave_id = find_affected_appointments db (is_restorable leave_id)

-- `appointment.fixedRule`
unfoldable pub fixed_rule : Database → Appointment → Option FixedAppointmentRule
fixed_rule db a = Option.bind a.fixed_rule_id (λ id. find (λ r. r.id == id) db.rules)

-- A missing rule does not apply.
unfoldable pub rule_applies : Database → ℕ → Option FixedAppointmentRule → Bool
rule_applies db date none = false
rule_applies db date (some rule) =
    is_rule_active rule.status
    && in_force rule.valid_from rule.valid_until date
    && has_weekday db rule.id date

abbrev pub overlaps_active : Appointment → List Appointment → Bool
overlaps_active a appointments =
    any
      (λ item.
        ltb a.start_at item.end_at
        && ltb item.start_at a.end_at
        && (item.artist_id == a.artist_id || item.host_id == a.host_id))
      appointments

abbrev pub restored_row : ℕ → Appointment → Appointment
restored_row daily_sequence a = record a {
  cancellation_reason_code = none;
  cancellation_reason_text = none;
  cancellation_source = none;
  cancelled_at = none;
  cancelled_by_user_id = none;
  daily_sequence = daily_sequence;
  row_version = a.row_version + 1;
  status = booked;
}

abbrev pub is_cancelled_by : ℕ → Appointment → Appointment → Bool
is_cancelled_by leave_id appointment a =
    is_leave_source leave_id a.cancellation_source
    && a.id == appointment.id
    && a.row_version == appointment.row_version
    && is_cancelled a.status

-- The daily sequence that the restored appointment gets.
unfoldable pub restored_sequence : Database → Appointment → ℕ
restored_sequence db appointment =
    if any (λ a. a.daily_sequence == 1)
      (filter (λ a. a.host_id == appointment.host_id)
        (active_appointments db appointment.appointment_date appointment.artist_id
          appointment.host_id))
    then 2
    else 1

-- The body of the loop of `restoreFixedAppointments`, for a rule that applies.
unfoldable pub restore_one : Database → AuthorizationContext → ℕ → Appointment → Result Database
restore_one db context leave_id appointment = do
  let occupied =
      active_appointments db appointment.appointment_date appointment.artist_id appointment.host_id
  throw_if (overlaps_active appointment occupied) leave_fixed_appointment_restore_conflict
  throw_if (leb 2 (length (filter (λ a. a.host_id == appointment.host_id) occupied)))
      leave_fixed_appointment_restore_conflict
  guard (count_of (is_cancelled_by leave_id appointment) db.appointments == 1) leave_state_conflict
  ok (
      append_audit
        (leave_audit fixed_appointment_restored_after_leave_cancel context appointment.id none
          appointment.site_id)
        (record db {
          appointments =
              update_many (is_cancelled_by leave_id appointment)
                (restored_row (restored_sequence db appointment)) db.appointments;
        }))

-- `restoreFixedAppointments`, but for its count, which only the audit entry's snapshot holds.
unfoldable pub restore_fixed_appointments :
    Database → AuthorizationContext → ℕ → List Appointment → Result Database
restore_fixed_appointments db context leave_id [] = ok db
restore_fixed_appointments db context leave_id (appointment ∷ appointments) =
    (if rule_applies db appointment.appointment_date (fixed_rule db appointment)
      then restore_one db context leave_id appointment
      else ok db)
    >>= λ restored. restore_fixed_appointments restored context leave_id appointments

-- `leave.host`; a foreign key makes the host present.
unfoldable pub leave_host : Database → LeaveRecord → Option HostProfile
leave_host db leave = Option.bind leave.host_id (λ id. find (λ h. h.id == id) db.hosts)

-- The user and the site of `leave.host ?? leave.artist`.
unfoldable pub leave_owner : Database → LeaveRecord → Option (Option ℕ × ℕ)
leave_owner db leave = elim (leave_host db leave) [
  | some h ↦ some (h.user_id, h.site.id)
  | none ↦ Option.map (λ a. (a.user_id, a.site.id)) (leave_artist db leave)
]

-- `context.roleCode === 'ADMIN'`, or the role matches the subject, who is the user.
unfoldable pub may_cancel : Database → AuthorizationContext → LeaveRecord → Option ℕ → Bool
may_cancel db context leave owner_user_id =
    role_eq context.role_code admin_role
    || (((role_eq context.role_code host_role && not (is_none (leave_host db leave)))
          || (role_eq context.role_code artist_role && not (is_none (leave_artist db leave))))
        && is_id owner_user_id context.user_id)

abbrev pub leave_cancel_roles : List RoleCode
leave_cancel_roles = host_role ∷ artist_role ∷ admin_role ∷ []

abbrev pub is_open_leave : ℕ → ℕ → LeaveRecord → Bool
is_open_leave id row_version l =
    l.id == id && l.row_version == row_version && is_absence_open l.status

abbrev pub cancelled_leave : Option Text → ℕ → ℕ → LeaveRecord → LeaveRecord
cancelled_leave reason now user_id l = record l {
  cancellation_reason = reason;
  cancelled_at = some now;
  cancelled_by_user_id = some user_id;
  row_version = l.row_version + 1;
  status = absence_cancelled;
}

-- The appointments to restore, read before the leave is updated.
unfoldable pub restorable_of : Database → LeaveRecord → List Appointment
restorable_of db leave =
    if not (is_none (leave_artist db leave)) && is_absence_active leave.status
    then restorable_fixed_appointments db leave.id
    else []

unfoldable pub cancel_leave :
    (Text → Text) → Database → AuthorizationContext → CancelLeaveCommand → ℕ → Result Database
cancel_leave nfkc db context command now = do
  reason ← optional_reason nfkc command.reason
  throw_if (role_eq context.role_code admin_role && is_none reason) leave_reason_invalid
  assert_role context leave_cancel_roles
  leave ← or_throw (find (leave_is command.leave_id) db.leave_records) leave_not_found
  owner ← or_throw (leave_owner db leave) leave_state_conflict
  guard (may_cancel db context leave owner.0) authorization_denied
  throw_if (leb leave.start_date (to_business_date now)) leave_date_range_invalid
  updated ←
      update_leave db (is_open_leave leave.id command.expected_row_version)
        (cancelled_leave reason now context.user_id)
  restored ← restore_fixed_appointments updated context leave.id (restorable_of db leave)
  ok (append_audit (leave_audit leave_cancelled context leave.id reason owner.1) restored)

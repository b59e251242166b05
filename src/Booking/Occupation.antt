-- ===== src/Booking/Occupation.antt =====
-- The rows that `createFresh` reads (apps/api/src/booking/booking-create.service.ts), and its tests
-- on them. The order of the active appointments is not used.
use makeup_booking_system.Base.{
  find, guard, if◌then◌else◌, length, none, ok, or_throw, ◌>>=◌, ◌>>◌, ℕ, List, Option, Result,
  Bool, any, true, false, throw_if, filter, is_id, some, not, leb, ◌==◌, ltb, ◌&&◌, ◌||◌, ◌+◌,
  includes,
}
use makeup_booking_system.Access.{
  AuthorizationContext, RoleCode, admin_role, artist_role, customer_service_role, host_role,
  operator_role, site_scope,
}
use makeup_booking_system.Availability.{in_force, latest}
use makeup_booking_system.Database.{
  qualification_active, qualification_cancelled, Database, HostProfile, Appointment,
  QualificationStatus, FixedAppointmentRequest, OperatorProfile, FixedAppointmentRuleWeekday,
  is_pending, is_occupying, is_cancelled, is_active, is_absence_active,
}
use makeup_booking_system.Shift.Calendar.{format_date_only, iso_weekday_for_date, to_business_date}
use makeup_booking_system.Shift.Intervals.{MinuteInterval}
use makeup_booking_system.Errors.{
  booking_host_not_found, booking_host_unavailable, booking_slot_conflict,
  booking_daily_limit_reached, booking_second_confirmation_required, authorization_denied,
}
use mathlib.Core.Option

-- `HostQualificationRecord` and `isHostQualifiedOn` of apps/api/src/master-data/host-qualification.ts.
-- The texts that it compares order as the days' numbers do.
unfoldable pub qualified_on : QualificationStatus → Option ℕ → ℕ → Bool
qualified_on qualification_active valid_until date = true
qualified_on qualification_cancelled none date = false
qualified_on qualification_cancelled (some valid_until) date =
    ltb (format_date_only valid_until) (format_date_only (to_business_date date))

unfoldable pub is_host_qualified_on : HostProfile → ℕ → Bool
is_host_qualified_on host date =
    qualified_on host.qualification_status host.qualification_valid_until date

-- `HostRecord`: the host with the rows that are read with it.
pub record HostRecord : Type 0 where
  pub profile : HostProfile
  pub on_leave : Bool
  pub operator : Option OperatorProfile

unfoldable pub host_on_leave_on : Database → ℕ → ℕ → Bool
host_on_leave_on db host_id date =
    any
      (λ l.
        is_id l.host_id host_id
        && leb date l.end_date
        && leb l.start_date date
        && is_absence_active l.status)
      db.leave_records

-- The operator of the host's latest relation in force.
unfoldable pub operator_on : Database → ℕ → ℕ → Option OperatorProfile
operator_on db host_id date =
    Option.map (λ r. r.operator)
      (latest (λ r. r.valid_from)
        (filter (λ r. r.host_id == host_id && in_force r.valid_from r.valid_until date)
          db.operator_relations))

unfoldable pub host : Database → ℕ → ℕ → Result HostRecord
host db host_id date = do
  profile ← or_throw (find (λ h. h.id == host_id) db.hosts) booking_host_not_found
  ok (record {
    profile = profile;
    on_leave = host_on_leave_on db host_id date;
    operator = operator_on db host_id date;
  })

-- `operator?.userId === userId`
abbrev pub operator_is : Option OperatorProfile → ℕ → Bool
operator_is none user_id = false
operator_is (some operator) user_id = is_id operator.user_id user_id

unfoldable pub actor_scope : RoleCode → AuthorizationContext → HostRecord → Bool
actor_scope host_role context host = is_id host.profile.user_id context.user_id
actor_scope operator_role context host = operator_is host.operator context.user_id
actor_scope customer_service_role context host =
    site_scope context.role_code context.site_id host.profile.site.id
actor_scope admin_role context host = true
actor_scope artist_role context host = false

unfoldable pub assert_actor_scope : AuthorizationContext → HostRecord → Result (Unit {0})
assert_actor_scope context host =
    guard (actor_scope context.role_code context host) authorization_denied

unfoldable pub assert_host_available : HostRecord → ℕ → Result (Unit {0})
assert_host_available host date =
    throw_if
      (not (is_host_qualified_on host.profile date)
        || not (is_active host.profile.site.status)
        || host.on_leave)
      booking_host_unavailable

-- The active appointments of the artist or the host on the date.
unfoldable pub active_appointments : Database → ℕ → ℕ → ℕ → List Appointment
active_appointments db date artist_id host_id =
    filter
      (λ a.
        a.appointment_date == date
        && (a.artist_id == artist_id || a.host_id == host_id)
        && is_occupying a.status)
      db.appointments

-- The rule has an appointment of the date that is cancelled.
unfoldable pub rule_cancelled_on : Database → ℕ → ℕ → Bool
rule_cancelled_on db rule_id date =
    any (λ a. is_id a.fixed_rule_id rule_id && a.appointment_date == date && is_cancelled a.status)
      db.appointments

-- The weekdays of fixed rules that occupy the artist or the host on the date.
unfoldable pub fixed_occupations :
    Database → ℕ → ℕ → ℕ → Option ℕ → List FixedAppointmentRuleWeekday
fixed_occupations db date artist_id host_id exclude_rule_id =
    filter
      (λ w.
        not (is_id exclude_rule_id w.rule_id)
        && w.iso_weekday == iso_weekday_for_date date
        && (w.artist_id == artist_id || w.host_id == host_id)
        && not (rule_cancelled_on db w.rule_id date)
        && in_force w.valid_from w.valid_until date)
      db.rule_weekdays

-- The pending requests that occupy the artist or the host on the weekday.
unfoldable pub pending_occupations : Database → ℕ → ℕ → ℕ → List FixedAppointmentRequest
pending_occupations db date artist_id host_id =
    filter
      (λ r.
        leb r.effective_from date
        && (is_id r.target_artist_id artist_id || r.host_id == host_id)
        && is_pending r.status
        && includes r.target_weekdays (iso_weekday_for_date date))
      db.fixed_requests

-- `command.startMinute < pendingStart + pendingDuration && pendingStart < endMinute`
unfoldable pub pending_meets : Option ℕ → Option ℕ → ℕ → ℕ → Bool
pending_meets none duration start_minute end_minute = false
pending_meets (some pending_start) none start_minute end_minute = false
pending_meets (some pending_start) (some pending_duration) start_minute end_minute =
    ltb start_minute (pending_start + pending_duration) && ltb pending_start end_minute

-- A fixed rule or a pending request occupies the stretch from `start_minute` to `end_minute`.
unfoldable pub recurring_conflict : Database → ℕ → ℕ → ℕ → Option ℕ → ℕ → ℕ → Bool
recurring_conflict db date artist_id host_id exclude_rule_id start_minute end_minute =
    any (λ w. ltb start_minute w.end_minute && ltb w.start_minute end_minute)
      (fixed_occupations db date artist_id host_id exclude_rule_id)
    || any
        (λ r. pending_meets r.target_start_minute r.target_duration_minutes start_minute end_minute)
        (pending_occupations db date artist_id host_id)

-- The tests on the active appointments, which end in the daily sequence of the new one.
unfoldable pub daily_sequence_for : List Appointment → ℕ → ℕ → ℕ → Bool → Result ℕ
daily_sequence_for rows host_id start_at end_at confirmed_second_booking = do
  throw_if (any (λ a. ltb start_at a.end_at && ltb a.start_at end_at) rows) booking_slot_conflict
  let host_appointments = filter (λ a. a.host_id == host_id) rows
  throw_if (leb 2 (length host_appointments)) booking_daily_limit_reached
  throw_if (length host_appointments == 1 && not confirmed_second_booking)
      booking_second_confirmation_required
  ok (if any (λ a. a.daily_sequence == 1) host_appointments then 2 else 1)

-- `intervalFits`
unfoldable pub interval_fits : List MinuteInterval → ℕ → ℕ → Bool
interval_fits intervals start_minute duration_minutes =
    let end_minute = start_minute + duration_minutes in
    any (λ i. leb i.start_minute start_minute && leb end_minute i.end_minute) intervals

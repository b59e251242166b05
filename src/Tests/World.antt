-- ===== src/Tests/World.antt =====
-- A small studio: one site with an artist and a host, and the commands of one day.
use makeup_booking_system.Access.{admin_role, artist_role}
use makeup_booking_system.Access.{AuthorizationContext, host_role}
use makeup_booking_system.Base.{Bool, Result, [], err, none, ok, some, true, ◌*◌, ◌+◌, ◌∷◌}
use makeup_booking_system.Booking.Cancel.{CancelBookingCommand}
use makeup_booking_system.Booking.Commands.{create}
use makeup_booking_system.Booking.Create.{
  BookingCreateResult, CreateBookingCommand, Platform, RequestPayload, create_payload,
  reschedule_payload,
}
use makeup_booking_system.Booking.Reschedule.{RescheduleBookingCommand}
use makeup_booking_system.Database.{
  Appointment, ArtistProfile, ArtistShiftTemplate, ArtistUnavailablePeriod, Database, HostProfile,
  Site, Text, absence_active, active, cancelled, created_by_system, fixed, qualification_active,
}
use makeup_booking_system.Shift.Calendar.{day_ms}
use makeup_booking_system.Shift.Definition.{ShiftDefinition}
use makeup_booking_system.Base.{ℕ}

-- The 4th of October 2024, and the Monday that follows in three days.
abbrev pub now : ℕ
now = 11965 * day_ms

abbrev pub monday : ℕ
monday = 11968 * day_ms

abbrev pub studio : Site
studio = record { id = 1; name = "studio"; status = active }

abbrev pub artist : ArtistProfile
artist = record {
  id = 10;
  nickname = "artist";
  employment_status = active;
  site = studio;
  user_id = some 100;
}

abbrev pub guest : HostProfile
guest = record {
  id = 20;
  host_code = "H20";
  nickname = none;
  real_name = "guest";
  qualification_status = qualification_active;
  qualification_valid_until = none;
  site = studio;
  user_id = some 200;
}

-- Weekdays from 9 to 18 o'clock, with a break from 12 to 13.
abbrev pub office_hours : ShiftDefinition
office_hours = record {
  break_end_minute = some 780;
  break_start_minute = some 720;
  work_end_minute = 1080;
  work_start_minute = 540;
  workdays = 1 ∷ 2 ∷ 3 ∷ 4 ∷ 5 ∷ [];
}

abbrev pub template : ArtistShiftTemplate
template = record {
  id = 30;
  artist_id = 10;
  definition = office_hours;
  valid_from = 0;
  valid_until = none;
  version_no = 1;
}

abbrev pub meeting : ArtistUnavailablePeriod
meeting = record {
  id = 50;
  artist_id = 10;
  site_id = 1;
  unavailable_date = monday;
  start_minute = 900;
  end_minute = 960;
  reason = 109 ∷ [];
  status = absence_active;
  affected_appointment_count = 0;
  row_version = 1;
  created_by_user_id = 300;
  reviewed_at = none;
  reviewed_by_user_id = none;
  review_comment = none;
  review_impact_snapshot = [];
  cancelled_at = none;
  cancelled_by_user_id = none;
  cancellation_reason = none;
}

abbrev pub empty_db : Database
empty_db = record {
  artists = artist ∷ [];
  hosts = guest ∷ [];
  operator_relations = [];
  shift_templates = template ∷ [];
  leave_records = [];
  unavailable_periods = meeting ∷ [];
  overtimes = [];
  appointments = [];
  rules = [];
  rule_weekdays = [];
  fixed_requests = [];
  idempotency_records = [];
  audit_logs = [];
}

-- NFKC leaves these texts as they are, and the hash tells the commands of the tests apart.
abbrev hash : RequestPayload → ℕ
hash (create_payload artist_id confirmed date duration host_id reason start) = start
hash (reschedule_payload id artist_id confirmed date duration version reason start) = 2000 + start

abbrev pub platform : Platform
platform = record { nfkc = λ t. t; sha256 = hash }

abbrev pub guest_context : AuthorizationContext
guest_context = record {
  role_assignment_id = 1;
  role_code = host_role;
  site_id = none;
  user_id = 200;
}

abbrev pub booking : ℕ → Text → Bool → CreateBookingCommand
booking start_minute key confirmed = record {
  artist_id = 10;
  confirmed_second_booking = confirmed;
  date = monday;
  duration_minutes = 60;
  host_id = 20;
  idempotency_key = key;
  reason = none;
  start_minute = start_minute;
}

abbrev pub first_key : Text
first_key = 97 ∷ 97 ∷ 97 ∷ 97 ∷ 97 ∷ 97 ∷ 97 ∷ 97 ∷ []

abbrev pub second_key : Text
second_key = 98 ∷ 97 ∷ 97 ∷ 97 ∷ 97 ∷ 97 ∷ 97 ∷ 97 ∷ []

abbrev pub third_key : Text
third_key = 99 ∷ 97 ∷ 97 ∷ 97 ∷ 97 ∷ 97 ∷ 97 ∷ 97 ∷ []

-- A cancellation of the appointment 40, in its first version.
abbrev pub cancellation : CancelBookingCommand
cancellation = record { appointment_id = 40; expected_row_version = 1; reason = none }

-- The appointment 40 moves to 14 o'clock.
abbrev pub move : RescheduleBookingCommand
move = record {
  appointment_id = 40;
  artist_id = 10;
  confirmed_second_booking = true;
  date = monday;
  duration_minutes = 60;
  expected_row_version = 1;
  idempotency_key = third_key;
  reason = none;
  start_minute = 840;
}

module _ {A : Type 0} where
  -- The tables that a transaction leaves, `empty_db` after an error.
  abbrev pub db_after : Result (A × Database) → Database
  db_after (ok p) = p.1
  db_after (err e) = empty_db

  -- The result of a transaction, with one for an error.
  abbrev pub result_of : A → Result (A × Database) → A
  result_of other (ok p) = p.0
  result_of other (err e) = other

abbrev pub create_at : Database → ℕ → Text → Bool → ℕ → Result (BookingCreateResult × Database)
create_at db start key confirmed id =
    create platform db guest_context (booking start key confirmed) now id

-- An appointment that no run of the tests returns.
abbrev pub nothing : Appointment
nothing = record {
  id = 0;
  appointment_date = 0;
  appointment_type = fixed;
  artist_id = 0;
  artist_nickname_snapshot = "";
  created_by_role = created_by_system;
  created_by_user_id = none;
  daily_sequence = 0;
  duration_minutes = 0;
  end_at = 0;
  fixed_rule_id = none;
  host_code_snapshot = "";
  host_id = 0;
  host_name_snapshot = "";
  operator_id_at_booking = none;
  operator_name_snapshot = none;
  rescheduled_from_appointment_id = none;
  site_id = 0;
  site_name_snapshot = "";
  start_at = 0;
  status = cancelled;
  row_version = 0;
  cancellation_reason_code = none;
  cancellation_reason_text = none;
  cancellation_source = none;
  cancelled_at = none;
  cancelled_by_user_id = none;
  completed_at = none;
}

abbrev pub no_result : BookingCreateResult
no_result = record { appointment = nothing; replayed = true }

abbrev pub nfkc : Text → Text
nfkc t = t

abbrev pub admin_context : AuthorizationContext
admin_context = record {
  role_assignment_id = 3;
  role_code = admin_role;
  site_id = none;
  user_id = 300;
}

abbrev pub artist_context : AuthorizationContext
artist_context = record {
  role_assignment_id = 2;
  role_code = artist_role;
  site_id = none;
  user_id = 100;
}

abbrev pub text : Text
text = 114 ∷ []

module _ {A : Type 0} where
  -- What a run returns, with a value for an error.
  abbrev pub value_of : A → Result A → A
  value_of other (ok a) = a
  value_of other (err e) = other

-- ===== src/Unavailability/Steps.antt =====
-- What the commands of apps/api/src/unavailability/artist-unavailability.service.ts have tested
-- and written, where they return.
use makeup_booking_system.Database.{
  AbsenceStatus, Appointment, ArtistProfile, ArtistUnavailablePeriod, Database, Text, artist_leave,
  is_absence_active, unavailable_period_source,
}
use makeup_booking_system.Access.{
  artist_role, assert_role, assert_site_scope, backoffice_roles, role_eq, AuthorizationContext,
}
use makeup_booking_system.Base.{
  Option, find, leb, ltb, not, or_throw-eq-ok, ==→eq, >>=-eq-ok, Bool, List, [], any, ap, ap₂,
  false, guard, guard-eq-ok, if◌then◌else◌, length, map, ok, ok-injective, ok-pair, refl, some, sym,
  throw_if, throw_if-eq-ok, true, ◌==◌, ◌∙◌, ◌∷◌, ◌≡◌, ℕ,
}
use makeup_booking_system.Errors.{
  artist_unavailable_period_date_invalid, Error, artist_unavailable_period_impact_changed,
  artist_unavailable_period_state_conflict, database_error,
}
use makeup_booking_system.Overtime.{is_approve}
use makeup_booking_system.Shift.Calendar.{to_business_date}
use makeup_booking_system.Unavailability.{
  CancelArtistUnavailablePeriodCommand, ReviewArtistUnavailablePeriodCommand, absence_roles,
  assert_artist_scope, earliest_date, period_reason, ArtistUnavailablePeriodSummary,
  CreateArtistUnavailablePeriodCommand, appointment_where, assert_fits_schedule, range_of,
  required_reason, resolve_artist, validate_period_date, affected_appointments,
}
use makeup_booking_system.Unavailability.Commands.{
  artist_of_period, cancel_period, cancelled_period, is_open_period, is_pending_period,
  period_by_id, review_period, reviewed_period, reviewed_status, update_period, cancel_met,
  create_period, insert_period, new_period, period_time_check, same_period_time,
}
use makeup_booking_system.Absence.{cancel_affected}
use makeup_booking_system.Booking.Appointments.{append_audit, tables}
use makeup_booking_system.Booking.Cancel.{cancelled_row}
use makeup_booking_system.Tables.{count_of, update_many}

pub insert_period_inv :
    (p : ArtistUnavailablePeriod) (db db' : Database)
    → insert_period p db ≡ ok db'
    → (any (λ q. p.id == q.id) db.unavailable_periods ≡ false)
      × (period_time_check p ≡ true)
      × (any (same_period_time p) db.unavailable_periods ≡ false)
      × (db' ≡ record db { unavailable_periods = p ∷ db.unavailable_periods })
unfolding insert_period
insert_period_inv p db db' h =
    let (_, e1, h1) =
      >>=-eq-ok (throw_if (any (λ q. p.id == q.id) db.unavailable_periods) database_error) _ h in
    let (_, e2, h2) =
      >>=-eq-ok (guard (period_time_check p) artist_unavailable_period_state_conflict) _ h1 in
    let (_, e3, h3) =
      >>=-eq-ok
        (throw_if (any (same_period_time p) db.unavailable_periods)
          artist_unavailable_period_state_conflict)
        _ h2 in
    (throw_if-eq-ok _ _ e1, guard-eq-ok _ _ e2, throw_if-eq-ok _ _ e3, sym (ok-injective _ db' h3))

-- The appointments after the cancellation.
abbrev pub cancel_row_if : ArtistUnavailablePeriod → ℕ → ℕ → Appointment → Appointment
cancel_row_if period user_id now a =
    if appointment_where period.artist_id (range_of period) a
    then cancelled_row artist_leave (some period.reason)
        (some (unavailable_period_source period.id)) now user_id a
    else a

pub cancel_affected_inv :
    (error : Error) (db : Database) (fits : Appointment → Bool) (expected : ℕ)
    (change : Appointment → Appointment) (db' : Database)
    → cancel_affected error db fits expected change ≡ ok db'
    → (count_of fits db.appointments ≡ expected)
      × (db' ≡ record db { appointments = update_many fits change db.appointments })
unfolding cancel_affected
cancel_affected_inv error db fits expected change db' h =
    let (_, e, k) = >>=-eq-ok (guard (count_of fits db.appointments == expected) error) _ h in
    (==→eq _ _ (guard-eq-ok _ _ e), sym (ok-injective _ db' k))

-- The change that `cancel_met` makes.
abbrev pub met_change : AbsenceStatus → ArtistUnavailablePeriod → ℕ → ℕ → Appointment → Appointment
met_change status period user_id now a =
    if is_absence_active status then cancel_row_if period user_id now a else a

pub map_id :
    (f : Appointment → Appointment)
    → ((a : Appointment) → f a ≡ a)
    → (rows : List Appointment) → rows ≡ map f rows
map_id f h [] = refl
map_id f h (a ∷ rows) =
    ap₂ (λ (b : Appointment) (r : List Appointment). b ∷ r) (sym (h a)) (map_id f h rows)

cancel_met_if :
    (active : Bool) (db : Database) (context : AuthorizationContext)
    (period : ArtistUnavailablePeriod) (count now : ℕ) (db' : Database)
    → (if active
        then cancel_affected artist_unavailable_period_impact_changed db
            (appointment_where period.artist_id (range_of period))
            count
            (cancelled_row artist_leave
              (some period.reason)
              (some (unavailable_period_source period.id))
              now
              context.user_id)
        else ok db)
      ≡ ok db'
    → db' ≡ record db {
      appointments =
          map
            (λ a. if active then cancel_row_if period context.user_id now a else a)
            db.appointments;
    }
cancel_met_if true db context period count now db' h =
    let (_, e) = cancel_affected_inv _ db _ count _ db' h in e
cancel_met_if false db context period count now db' h =
    sym (ok-injective db db' h)
    ∙ ap (λ (rows : List Appointment). record db { appointments = rows })
        (map_id (λ a. a) (λ a. refl) db.appointments)

pub cancel_met_inv :
    (db : Database) (context : AuthorizationContext) (period : ArtistUnavailablePeriod)
    (status : AbsenceStatus) (count now : ℕ) (db' : Database)
    → cancel_met db context period status count now ≡ ok db'
    → db' ≡ record db {
      appointments = map (met_change status period context.user_id now) db.appointments;
    }
unfolding cancel_met
cancel_met_inv db context period status count now db' h =
    cancel_met_if (is_absence_active status) db context period count now db' h

-- What a period that is created has passed and done.
pub record IsPeriodCreated (nfkc : Text → Text) (db : Database) (context : AuthorizationContext)
    (command : CreateArtistUnavailablePeriodCommand) (now id : ℕ)
    (result : ArtistUnavailablePeriodSummary) (db' : Database) : Type 0 where
  pub reason : Text
  pub found : ArtistProfile
  pub period : ArtistUnavailablePeriod
  pub is_period :
      period
      ≡ new_period context command found reason
          (length (affected_appointments db found.id command.range))
          id
  pub confirmed :
      length (affected_appointments db found.id command.range)
      ≡ command.confirmed_affected_appointment_count
  pub new_id : any (λ q. period.id == q.id) db.unavailable_periods ≡ false
  pub timed : period_time_check period ≡ true
  pub apart : any (same_period_time period) db.unavailable_periods ≡ false
  pub tables_after : tables db' ≡ (db.rules, period ∷ db.unavailable_periods, db.leave_records)
  pub rows_after :
      db'.appointments ≡ map (met_change period.status period context.user_id now) db.appointments

pub create_period-IsPeriodCreated :
    (nfkc : Text → Text) (db : Database) (context : AuthorizationContext)
    (command : CreateArtistUnavailablePeriodCommand) (now id : ℕ)
    (result : ArtistUnavailablePeriodSummary) (db' : Database)
    → create_period nfkc db context command now id ≡ ok (result, db')
    → IsPeriodCreated nfkc db context command now id result db'
unfolding create_period append_audit
create_period-IsPeriodCreated nfkc db context command now id result db' h =
    let (_, _, h1) =
      >>=-eq-ok (validate_period_date command.range.unavailable_date context.role_code now) _ h in
    let (reason, _, h2) = >>=-eq-ok (required_reason nfkc command.reason) _ h1 in
    let (found, _, h3) = >>=-eq-ok (resolve_artist db context command.range.artist_id) _ h2 in
    let (_, _, h4) = >>=-eq-ok (assert_fits_schedule db found.id command.range) _ h3 in
    let count = length (affected_appointments db found.id command.range) in
    let (_, e5, h5) =
      >>=-eq-ok
        (guard (count == command.confirmed_affected_appointment_count)
          artist_unavailable_period_impact_changed)
        _ h4 in
    let period = new_period context command found reason count id in
    let (db1, e6, h6) = >>=-eq-ok (insert_period period db) _ h5 in
    let (db2, e7, h7) = >>=-eq-ok (cancel_met db1 context period period.status count now) _ h6 in
    let (_, y) =
      ok-pair {A = ArtistUnavailablePeriodSummary} {B = Database} (_, _) (result, db') h7 in
    let (new, timed, apart, w1) = insert_period_inv period db db1 e6 in
    let w2 = cancel_met_inv db1 context period period.status count now db2 e7 in
    record {
      reason = reason;
      found = found;
      period = period;
      is_period = refl;
      confirmed = ==→eq _ _ (guard-eq-ok _ _ e5);
      new_id = new;
      timed = timed;
      apart = apart;
      tables_after = ap tables (sym y) ∙ ap tables w2 ∙ ap tables w1;
      rows_after =
          ap (λ d. d.appointments) (sym y)
          ∙ ap (λ d. d.appointments) w2
          ∙ ap (λ d. map (met_change period.status period context.user_id now) d.appointments) w1;
    }

-- What a review that returns has passed and done.
pub record IsPeriodReviewed (db : Database) (context : AuthorizationContext)
    (command : ReviewArtistUnavailablePeriodCommand) (now : ℕ) (db' : Database) : Type 0 where
  pub comment : Option Text
  pub period : ArtistUnavailablePeriod
  pub found : find (λ p. p.id == command.period_id) db.unavailable_periods ≡ some period
  pub affected : List Appointment
  pub is_affected : affected ≡ affected_appointments db period.artist_id (range_of period)
  pub confirmed : length affected ≡ command.confirmed_affected_appointment_count
  pub tables_after : tables db' ≡ (
    db.rules,
    update_many
        (is_pending_period period.id command.expected_row_version)
        (reviewed_period command.decision comment affected now context.user_id)
        db.unavailable_periods,
    db.leave_records,
  )
  pub rows_after :
      db'.appointments
      ≡ map
          (met_change (reviewed_status command.decision) period context.user_id now)
          db.appointments

pub update_period_inv :
    (db : Database) (fits : ArtistUnavailablePeriod → Bool)
    (change : ArtistUnavailablePeriod → ArtistUnavailablePeriod) (db' : Database)
    → update_period db fits change ≡ ok db'
    → db' ≡ record db { unavailable_periods = update_many fits change db.unavailable_periods }
unfolding update_period
update_period_inv db fits change db' h =
    let (_, _, k) =
      >>=-eq-ok
        (guard (count_of fits db.unavailable_periods == 1) artist_unavailable_period_state_conflict)
        _ h in
    sym (ok-injective _ db' k)

pub review_period-IsPeriodReviewed :
    (nfkc : Text → Text) (db : Database) (context : AuthorizationContext)
    (command : ReviewArtistUnavailablePeriodCommand) (now : ℕ)
    (result : ArtistUnavailablePeriodSummary) (db' : Database)
    → review_period nfkc db context command now ≡ ok (result, db')
    → IsPeriodReviewed db context command now db'
unfolding review_period append_audit period_by_id
review_period-IsPeriodReviewed nfkc db context command now result db' h =
    let (_, _, h1) = >>=-eq-ok (assert_role context backoffice_roles) _ h in
    let (comment, _, h2) =
      >>=-eq-ok (period_reason nfkc command.comment (not (is_approve command.decision))) _ h1 in
    let (period, e3, h3) = >>=-eq-ok (period_by_id db command.period_id) _ h2 in
    let (_, _, h4) = >>=-eq-ok (assert_site_scope context period.site_id) _ h3 in
    let (_, _, h5) =
      >>=-eq-ok
        (throw_if (leb period.unavailable_date (to_business_date now))
          artist_unavailable_period_date_invalid)
        _ h4 in
    let affected = affected_appointments db period.artist_id (range_of period) in
    let (_, e6, h6) =
      >>=-eq-ok
        (guard (length affected == command.confirmed_affected_appointment_count)
          artist_unavailable_period_impact_changed)
        _ h5 in
    let fits = is_pending_period period.id command.expected_row_version in
    let change = reviewed_period command.decision comment affected now context.user_id in
    let (db1, e7, h7) = >>=-eq-ok (update_period db fits change) _ h6 in
    let status = reviewed_status command.decision in
    let (db2, e8, h8) =
      >>=-eq-ok (cancel_met db1 context period status (length affected) now) _ h7 in
    let (_, y) =
      ok-pair {A = ArtistUnavailablePeriodSummary} {B = Database} (_, _) (result, db') h8 in
    let w1 = update_period_inv db fits change db1 e7 in
    let w2 = cancel_met_inv db1 context period status (length affected) now db2 e8 in
    record {
      comment = comment;
      period = period;
      found = or_throw-eq-ok _ _ e3;
      affected = affected;
      is_affected = refl;
      confirmed = ==→eq _ _ (guard-eq-ok _ _ e6);
      tables_after = ap tables (sym y) ∙ ap tables w2 ∙ ap tables w1;
      rows_after =
          ap (λ d. d.appointments) (sym y)
          ∙ ap (λ d. d.appointments) w2
          ∙ ap (λ d. map (met_change status period context.user_id now) d.appointments) w1;
    }

-- A cancellation that returns changes periods, and no appointment.
pub record IsPeriodCancelled (db : Database) (context : AuthorizationContext)
    (command : CancelArtistUnavailablePeriodCommand) (now : ℕ) (db' : Database) : Type 0 where
  pub reason : Option Text
  pub period : ArtistUnavailablePeriod
  pub tables_after : tables db' ≡ (
    db.rules,
    update_many
        (is_open_period period.id command.expected_row_version)
        (cancelled_period reason now context.user_id)
        db.unavailable_periods,
    db.leave_records,
  )
  pub rows_after : db'.appointments ≡ db.appointments

pub cancel_period-IsPeriodCancelled :
    (nfkc : Text → Text) (db : Database) (context : AuthorizationContext)
    (command : CancelArtistUnavailablePeriodCommand) (now : ℕ) (db' : Database)
    → cancel_period nfkc db context command now ≡ ok db'
    → IsPeriodCancelled db context command now db'
unfolding cancel_period append_audit
cancel_period-IsPeriodCancelled nfkc db context command now db' h =
    let (_, _, h1) = >>=-eq-ok (assert_role context absence_roles) _ h in
    let (reason, _, h2) =
      >>=-eq-ok (period_reason nfkc command.reason (not (role_eq context.role_code artist_role))) _
        h1 in
    let (period, _, h3) = >>=-eq-ok (period_by_id db command.period_id) _ h2 in
    let (found, _, h4) = >>=-eq-ok (artist_of_period db period) _ h3 in
    let (_, _, h5) = >>=-eq-ok (assert_artist_scope context found) _ h4 in
    let (_, _, h6) =
      >>=-eq-ok
        (throw_if (ltb period.unavailable_date (earliest_date context.role_code now))
          artist_unavailable_period_date_invalid)
        _ h5 in
    let fits = is_open_period period.id command.expected_row_version in
    let change = cancelled_period reason now context.user_id in
    let (db1, e7, h7) = >>=-eq-ok (update_period db fits change) _ h6 in
    let w = update_period_inv db fits change db1 e7 in
    let y = ok-injective _ db' h7 in
    record {
      reason = reason;
      period = period;
      tables_after = ap tables (sym y) ∙ ap tables w;
      rows_after = ap (λ d. d.appointments) (sym y) ∙ ap (λ d. d.appointments) w;
    }

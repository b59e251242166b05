-- ===== src/Unavailability/Confirmed.antt =====
-- What the caller of apps/api/src/unavailability/artist-unavailability.service.ts confirms is what
-- the commands cancel.
use makeup_booking_system.Access.{artist_role, role_eq, AuthorizationContext}
use makeup_booking_system.Base.{
  if◌then◌else◌, ==→true, >>=-eq-ok, Bool-cases, inl, inr, ok-injective, subst, Bool, List, [], any,
  ap, arith, false, find, leb, length, ltb, map, ok, refl, some, sym, true, ◌%◌, ◌&&◌, ◌==◌, ◌∙◌,
  ◌∷◌, ◌≡◌, ℕ,
}
use makeup_booking_system.Booking.Appointments.{append_audit}
use makeup_booking_system.Database.{
  artist_unavailable_period_created, artist_unavailable_period_submitted, ArtistProfile,
  AbsenceStatus, artist_leave, is_absence_active, unavailable_period_source, Appointment,
  ArtistUnavailablePeriod, Database, Text, is_absence_open,
}
use makeup_booking_system.Unavailability.{
  to_period_summary, ArtistUnavailablePeriodPreview, CreateArtistUnavailablePeriodCommand,
  assert_fits_schedule, preview_period, required_reason, resolve_artist, validate_period_date,
  ArtistUnavailablePeriodRange, ArtistUnavailablePeriodSummary,
  ReviewArtistUnavailablePeriodCommand, appointment_where, range_of, affected_appointments,
}
use makeup_booking_system.Unavailability.Commands.{
  period_audit, cancel_met, create_period, insert_period, new_period, period_time_check,
  review_period, same_period_time,
}
use makeup_booking_system.Booking.Cancel.{cancelled_row}
use makeup_booking_system.Tables.{update_many, count_of}
use makeup_booking_system.Absence.{cancel_affected, length-find_affected_appointments}
use makeup_booking_system.Overtime.{approve}
use makeup_booking_system.Unavailability.Laws.{appointment_where-cancel_row_if}
use makeup_booking_system.Unavailability.Steps.{cancel_row_if, review_period-IsPeriodReviewed}

any-cancel_row_if :
    (period : ArtistUnavailablePeriod) (user_id now : ℕ) (rows : List Appointment)
    → any
        (appointment_where period.artist_id (range_of period))
        (map (cancel_row_if period user_id now) rows)
      ≡ false
any-cancel_row_if period user_id now [] = refl
any-cancel_row_if period user_id now (a ∷ rows) =
    rw (appointment_where-cancel_row_if period user_id now a)
      (any-cancel_row_if period user_id now rows)

-- An approval of an unavailable period that returns was confirmed with the number of booked
-- appointments that met the period, and afterwards no booked appointment meets it.
pub review_period-approve :
    (nfkc : Text → Text) (db : Database) (context : AuthorizationContext)
    (command : ReviewArtistUnavailablePeriodCommand) (now : ℕ)
    (result : ArtistUnavailablePeriodSummary) (db' : Database)
    → review_period nfkc db context command now ≡ ok (result, db')
    → command.decision ≡ approve
    → (period : ArtistUnavailablePeriod) × (find
          (λ p. p.id == command.period_id)
          db.unavailable_periods
        ≡ some period)
      × (count_of (appointment_where period.artist_id (range_of period)) db.appointments
          ≡ command.confirmed_affected_appointment_count)
      × (any (appointment_where period.artist_id (range_of period)) db'.appointments ≡ false)
unfolding affected_appointments
review_period-approve nfkc db context command now result db' h e =
    let m = review_period-IsPeriodReviewed nfkc db context command now result db' h in
    (
      m.period,
      m.found,
      sym (length-find_affected_appointments db _) ∙ ap length (sym m.is_affected) ∙ m.confirmed,
      rw (m.rows_after, e) (any-cancel_row_if m.period context.user_id now db.appointments),
    )

-- The constraints of the table that a new period of an artist meets.
abbrev pub range_checks : ArtistUnavailablePeriodRange → Bool
range_checks range =
    leb range.end_minute 1440
    && ltb range.start_minute range.end_minute
    && range.start_minute % 15 == 0
    && range.end_minute % 15 == 0

abbrev pub range_taken : ℕ → ArtistUnavailablePeriodRange → ArtistUnavailablePeriod → Bool
range_taken artist_id range q =
    is_absence_open q.status
    && artist_id == q.artist_id
    && range.unavailable_date == q.unavailable_date
    && ltb range.start_minute q.end_minute
    && ltb q.start_minute range.end_minute

any-same_period_time :
    (p : ArtistUnavailablePeriod) (ps : List ArtistUnavailablePeriod)
    → any (range_taken p.artist_id (range_of p)) ps ≡ false
    → any (same_period_time p) ps ≡ false
unfolding same_period_time
any-same_period_time p [] h = refl
any-same_period_time p (q ∷ ps) h = ground (arith, any-same_period_time p ps)

cancel_met-ok :
    (db : Database) (context : AuthorizationContext) (period : ArtistUnavailablePeriod)
    (status : AbsenceStatus) (count now : ℕ)
    → count ≡ count_of (appointment_where period.artist_id (range_of period)) db.appointments
    → (db' : Database) × (cancel_met db context period status count now ≡ ok db')
unfolding cancel_met cancel_affected
cancel_met-ok db context period status count now h = elim (Bool-cases (is_absence_active status)) [
  | inl y ↦
      let test : (count_of (appointment_where period.artist_id (range_of period)) db.appointments
            == count)
          ≡ true =
        ==→true _ _ (sym h) in
      (
        record db {
          appointments =
              update_many (appointment_where period.artist_id (range_of period))
                (cancelled_row artist_leave (some period.reason)
                  (some (unavailable_period_source period.id)) now context.user_id)
                db.appointments;
        },
        rw (y, test) refl,
      )
  | inr n ↦ (db, rw n refl)
]

affected_appointments-new_period :
    (db : Database) (context : AuthorizationContext)
    (command : CreateArtistUnavailablePeriodCommand) (found : ArtistProfile) (reason : Text)
    (id : ℕ)
    → let count = length (affected_appointments db found.id command.range) in
      let period = new_period context command found reason count id in
      count ≡ count_of (appointment_where period.artist_id (range_of period)) db.appointments
unfolding affected_appointments appointment_where new_period
affected_appointments-new_period db context command found reason id =
    length-find_affected_appointments db (appointment_where found.id command.range)

-- A creation whose tests all pass returns.
create_period-ok :
    (nfkc : Text → Text) (db : Database) (context : AuthorizationContext)
    (command : CreateArtistUnavailablePeriodCommand) (now id : ℕ) (found : ArtistProfile)
    (reason : Text)
    → validate_period_date command.range.unavailable_date context.role_code now ≡ ok tt
    → required_reason nfkc command.reason ≡ ok reason
    → resolve_artist db context command.range.artist_id ≡ ok found
    → assert_fits_schedule db found.id command.range ≡ ok tt
    → command.confirmed_affected_appointment_count
      ≡ length (affected_appointments db found.id command.range)
    → any (λ q. id == q.id) db.unavailable_periods ≡ false
    → range_checks command.range ≡ true
    → any (range_taken found.id command.range) db.unavailable_periods ≡ false
    → (result : ArtistUnavailablePeriodSummary) × (db' : Database) × (create_period nfkc db context
          command now id
        ≡ ok (result, db'))
unfolding create_period insert_period period_time_check new_period
create_period-ok nfkc db context command now id found reason e1 r e2 e3 count new timed free =
    let affected = affected_appointments db found.id command.range in
    let period = new_period context command found reason (length affected) id in
    let apart = any-same_period_time period db.unavailable_periods free in
    let test : (length affected == command.confirmed_affected_appointment_count) ≡ true =
      ==→true _ _ (sym count) in
    let (db', e4) =
      cancel_met-ok (record db { unavailable_periods = period ∷ db.unavailable_periods }) context
        period period.status (length affected) now
        (affected_appointments-new_period db context command found reason id) in
    (
      to_period_summary period affected,
      append_audit
          (period_audit
            (if role_eq context.role_code artist_role
              then artist_unavailable_period_submitted
              else artist_unavailable_period_created)
            context id (some reason) found.site.id)
          db',
      rw (e1, r, e2, e3, test, new, timed, apart, e4) refl,
    )

-- A creation returns after a preview of the same range in the same tables, where the reason is
-- valid, the previewed number of affected appointments is confirmed, the id is new, the range is a
-- stretch of a day on quarters of an hour, and no open period of the artist meets it.
pub preview_period-create_period :
    (nfkc : Text → Text) (db : Database) (context : AuthorizationContext)
    (command : CreateArtistUnavailablePeriodCommand) (now id : ℕ)
    (preview : ArtistUnavailablePeriodPreview) (reason : Text)
    → preview_period db context command.range now ≡ ok preview
    → required_reason nfkc command.reason ≡ ok reason
    → command.confirmed_affected_appointment_count ≡ preview.affected_appointment_count
    → any (λ q. id == q.id) db.unavailable_periods ≡ false
    → range_checks command.range ≡ true
    → any (range_taken preview.artist_id command.range) db.unavailable_periods ≡ false
    → (result : ArtistUnavailablePeriodSummary) × (db' : Database) × (create_period nfkc db context
          command now id
        ≡ ok (result, db'))
unfolding preview_period
preview_period-create_period nfkc db context command now id preview reason h r c new timed free =
    let (_, e1, h1) =
      >>=-eq-ok (validate_period_date command.range.unavailable_date context.role_code now) _ h in
    let (found, e2, h2) = >>=-eq-ok (resolve_artist db context command.range.artist_id) _ h1 in
    let (_, e3, h3) = >>=-eq-ok (assert_fits_schedule db found.id command.range) _ h2 in
    let p = ok-injective _ preview h3 in
    create_period-ok nfkc db context command now id found reason e1 r e2 e3
      (c ∙ sym (ap (λ (p : ArtistUnavailablePeriodPreview). p.affected_appointment_count) p)) new
      timed
      (subst (λ (n : ℕ). any (range_taken n command.range) db.unavailable_periods ≡ false)
        (sym (ap (λ (p : ArtistUnavailablePeriodPreview). p.artist_id) p)) free)

-- ===== src/Overtime/Worked.antt =====
-- A day that a direct approval opens (apps/api/src/overtime/overtime.service.ts and
-- availability/artist-availability.service.ts).
use makeup_booking_system.Base.{
  ==→eq, Option, find_holds, subst, ==_refl, >>=-eq-ok, [], ap, arith, false, find, guard,
  guard-eq-ok, includes, ok, ok-injective, or_throw, or_throw-eq-ok, refl, some, sym,
  throw_if-eq-ok, true, ◌==◌, ◌∙◌, ◌∷◌, ◌≡◌, ◌≤◌, ℕ,
}
use makeup_booking_system.Errors.{
  overtime_date_invalid, overtime_artist_not_found, overtime_artist_unavailable,
  overtime_shift_not_configured,
}
use makeup_booking_system.Overtime.Steps.{create_overtime_inv, direct_approve-IsDirect}
use makeup_booking_system.Shift.Calendar.{
  is_date_only, iso_weekday_for_date_bounds, iso_weekday_for_date,
}
use makeup_booking_system.Access.{AuthorizationContext}
use makeup_booking_system.Availability.{
  approved_overtime, approved_overtime_on, artist_day, artist_on_leave_on, available, current_shift,
  day_available, day_outcome, get_day_with_client, overtime_outcome, shift_outcome,
  unavailable_intervals,
}
use makeup_booking_system.Booking.Appointments.{append_audit}
use makeup_booking_system.Database.{ArtistProfile, ArtistShiftTemplate, Database, Text, is_active}
use makeup_booking_system.Overtime.{
  OvertimeSummary, SubmitOvertimeCommand, active_artist, assert_non_working_day, direct_approve,
  new_overtime, validate_date, validate_definition,
}
use makeup_booking_system.Shift.Definition.{
  ShiftDefinition, assert_iso_weekday, assert_workdays, is_empty, split_by_break,
  validate_shift_definition, work_intervals_for_weekday,
}
use makeup_booking_system.Shift.Intervals.{subtract_minute_intervals}

abbrev with_workday : SubmitOvertimeCommand → ℕ → ShiftDefinition
with_workday command weekday = record {
  break_end_minute = command.break_end_minute;
  break_start_minute = command.break_start_minute;
  work_end_minute = command.work_end_minute;
  work_start_minute = command.work_start_minute;
  workdays = weekday ∷ [];
}

assert_iso_weekday-ok : (w : ℕ) → 1 ≤ w → w ≤ 7 → assert_iso_weekday w ≡ ok tt
unfolding assert_iso_weekday
assert_iso_weekday-ok w h k = ground arith

-- A definition that is valid on Mondays is valid on any weekday.
validate_definition-weekday :
    (command : SubmitOvertimeCommand) (w : ℕ)
    → assert_iso_weekday w ≡ ok tt
    → validate_definition command ≡ ok tt
    → validate_shift_definition (with_workday command w) ≡ ok tt
unfolding validate_definition validate_shift_definition assert_workdays is_empty assert_iso_weekday
validate_definition-weekday command w h k = rw h k

-- The intervals of a definition that is valid, on its weekday.
work_intervals-weekday :
    (command : SubmitOvertimeCommand) (w : ℕ)
    → assert_iso_weekday w ≡ ok tt
    → validate_shift_definition (with_workday command w) ≡ ok tt
    → work_intervals_for_weekday (with_workday command w) w
      ≡ ok (
          split_by_break command.work_start_minute command.work_end_minute
            command.break_start_minute command.break_end_minute)
unfolding work_intervals_for_weekday
work_intervals-weekday command w h k = rw (k, h, ==_refl w) refl

active_artist_inv :
    (db : Database) (id : ℕ) (owner : ArtistProfile)
    → active_artist db id ≡ ok owner
    → (find (λ a. a.id == id) db.artists ≡ some owner) × (is_active owner.employment_status ≡ true)
unfolding active_artist
active_artist_inv db id owner h =
    let (a, e, h1) =
      >>=-eq-ok (or_throw (find (λ a. a.id == id) db.artists) overtime_artist_not_found) _ h in
    let (_, g, h2) =
      >>=-eq-ok (guard (is_active a.employment_status) overtime_artist_unavailable) _ h1 in
    let same = ok-injective a owner h2 in
    (
      or_throw-eq-ok _ _ e ∙ ap some same,
      ap (λ o. is_active o.employment_status) (sym same) ∙ guard-eq-ok _ _ g,
    )

assert_non_working_day_inv :
    (db : Database) (id date : ℕ)
    → assert_non_working_day db id date ≡ ok tt
    → (shift : ArtistShiftTemplate) × (current_shift db id date ≡ some shift)
      × (includes shift.definition.workdays (iso_weekday_for_date date) ≡ false)
unfolding assert_non_working_day
assert_non_working_day_inv db id date h =
    let (s, e, h1) =
      >>=-eq-ok (or_throw (current_shift db id date) overtime_shift_not_configured) _ h in
    (s, or_throw-eq-ok _ _ e, throw_if-eq-ok _ _ h1)

same_some : (a b : ArtistProfile) → Path (Option ArtistProfile) (some a) (some b) → a ≡ b
same_some a b h = cc

-- After a direct approval of an overtime, where the artist's site is active and the artist is not
-- on leave on the date, the artist's day is available: its intervals are the working time of the
-- overtime without its break and the artist's unavailable periods, and it names the overtime.
pub direct_approve-get_day_with_client :
    (nfkc : Text → Text) (db : Database) (context : AuthorizationContext)
    (command : SubmitOvertimeCommand) (now id submitted_at : ℕ) (result : OvertimeSummary)
    (db' : Database) (owner : ArtistProfile)
    → direct_approve nfkc db context command now id submitted_at ≡ ok (result, db')
    → find (λ a. a.id == command.artist_id) db.artists ≡ some owner
    → is_active owner.site.status ≡ true
    → artist_on_leave_on db owner.id command.overtime_date ≡ false
    → (shift_id : ℕ) × (get_day_with_client db' command.artist_id command.overtime_date
        ≡ ok (
            artist_day owner command.overtime_date (
              day_available
                (subtract_minute_intervals
                  (split_by_break command.work_start_minute command.work_end_minute
                    command.break_start_minute command.break_end_minute)
                  (unavailable_intervals db owner.id command.overtime_date))
                (some id)
                shift_id
                approved_overtime)))
unfolding get_day_with_client day_outcome shift_outcome overtime_outcome available new_overtime
    append_audit approved_overtime_on validate_date current_shift artist_on_leave_on
    unavailable_intervals
direct_approve-get_day_with_client nfkc db context command now id submitted_at result db' owner h
      found site leave =
    let m = direct_approve-IsDirect nfkc db context command now id submitted_at result db' h in
    let (f, act) = active_artist_inv db command.artist_id m.owner m.found in
    let same : m.owner ≡ owner = same_some m.owner owner (sym f ∙ found) in
    let is_owner : owner.id ≡ command.artist_id =
      ==→eq _ _ (find_holds (λ a. a.id == command.artist_id) db.artists owner found) in
    let (shift, current, idle) = assert_non_working_day_inv db owner.id command.overtime_date (
      subst (λ (a : ArtistProfile). assert_non_working_day db a.id command.overtime_date ≡ ok tt)
        same m.idle) in
    let (_, dates, _) =
      >>=-eq-ok (guard (is_date_only (some command.overtime_date)) overtime_date_invalid) _
        m.dated in
    let dated = guard-eq-ok _ _ dates in
    let weekday = iso_weekday_for_date command.overtime_date in
    let (low, high) = iso_weekday_for_date_bounds command.overtime_date in
    let w = assert_iso_weekday-ok weekday low high in
    let valid = validate_definition-weekday command weekday w m.defined in
    let (_, _, e) = create_overtime_inv db context _ result db' m.created in
    (
      shift.id,
      rw
          (
            e,
            dated,
            found,
            subst (λ (a : ArtistProfile). is_active a.employment_status ≡ true) same act,
            site,
            current,
            leave,
            idle,
            is_owner,
            ==_refl command.artist_id,
            ==_refl command.overtime_date,
            work_intervals-weekday command weekday w valid,
          )
          refl,
    )

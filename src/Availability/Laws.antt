-- ===== src/Availability/Laws.antt =====
-- What an artist's day promises.
use makeup_booking_system.Availability.{approved_overtime_on}
use makeup_booking_system.Base.{
  ltb→lt, ℕ, ◌<◌, ◌≡◌, refl, Bool, true, false, ◌&&◌, Option, none, some, List, [], ◌∷◌, map, arith,
  ltb, ◌==◌, filter, find, find_holds, includes, All, All-append, ok, guard, or_throw, Bool-cases,
  >>=-eq-ok, ◌⊎◌, inl, inr, ==→eq, or_throw-eq-ok, subst,
}
use makeup_booking_system.Shift.Intervals.{
  MinuteInterval, interval, cut, cut_all, subtract_minute_intervals, contains, meets, IsProper,
}
use makeup_booking_system.Shift.Subtraction.{contains-subtract_minute_intervals}
use makeup_booking_system.Shift.Definition.{ShiftDefinition, work_intervals_for_weekday}
use makeup_booking_system.Shift.WellFormed.{IsAligned, work_intervals_for_weekday-IsAligned}
use makeup_booking_system.Shift.Calendar.{iso_weekday_for_date, is_date_only}
use makeup_booking_system.Errors.{
  DayReason, artist_on_leave, site_inactive, artist_inactive, availability_date_invalid,
  availability_artist_not_found,
}
use makeup_booking_system.Database.{
  Database, ArtistProfile, ArtistShiftTemplate, ArtistOvertime, ArtistUnavailablePeriod, is_active,
  is_absence_active,
}
use makeup_booking_system.Availability.{
  DayOutcome, ArtistDay, AvailabilitySource, day_unavailable, available, overtime_outcome,
  shift_outcome, day_outcome, get_day_with_client, artist_day, day_intervals, unavailable_intervals,
  artist_on_leave_on, current_shift,
}

cut-IsAligned : (b i : MinuteInterval) → IsAligned b → IsAligned i → All IsAligned (cut b i)
unfolding cut
cut-IsAligned b i p q = ground arith

cut_all-IsAligned :
    (b : MinuteInterval) (is : List MinuteInterval)
    → IsAligned b
    → All IsAligned is
    → All IsAligned (cut_all is b)
unfolding cut_all
cut_all-IsAligned b [] p q = tt
cut_all-IsAligned b (i ∷ is) p q =
    All-append IsAligned (cut b i) (cut_all is b) (cut-IsAligned b i p q.0)
      (cut_all-IsAligned b is p q.1)

-- Cutting stretches on quarters of an hour out of such stretches leaves such stretches.
pub subtract_minute_intervals-IsAligned :
    (is bs : List MinuteInterval)
    → All IsAligned is
    → All IsAligned bs
    → All IsAligned (subtract_minute_intervals is bs)
unfolding subtract_minute_intervals
subtract_minute_intervals-IsAligned is [] p q = p
subtract_minute_intervals-IsAligned is (b ∷ bs) p q =
    subtract_minute_intervals-IsAligned (cut_all is b) bs (cut_all-IsAligned b is q.0 p) q.1

-- The CHECK constraints of the table artist_unavailable_periods.
abbrev pub IsPeriod : ArtistUnavailablePeriod → Type 0
IsPeriod p = IsAligned (interval p.start_minute p.end_minute)

periods-IsAligned :
    (p : ArtistUnavailablePeriod → Bool) (ps : List ArtistUnavailablePeriod)
    → All IsPeriod ps
    → All IsAligned (map (λ q. interval q.start_minute q.end_minute) (filter p ps))
periods-IsAligned p [] h = tt
periods-IsAligned p (q ∷ ps) h = elim (Bool-cases (p q)) [
  | inl e ↦ rw e (h.0, periods-IsAligned p ps h.1)
  | inr e ↦ rw e (periods-IsAligned p ps h.1)
]

pub unavailable_intervals-IsAligned :
    (db : Database) (a date : ℕ)
    → All IsPeriod db.unavailable_periods
    → All IsAligned (unavailable_intervals db a date)
unfolding unavailable_intervals
unavailable_intervals-IsAligned db a date h =
    periods-IsAligned
      (λ p. p.artist_id == a && is_absence_active p.status && p.unavailable_date == date)
      db.unavailable_periods h

All-IsProper : (is : List MinuteInterval) → All IsAligned is → All IsProper is
All-IsProper [] h = tt
All-IsProper (i ∷ is) h = (h.0.proper, All-IsProper is h.1)

-- What the intervals of an outcome promise, where `periods` are the artist's unavailable periods.
record IsSound (periods intervals : List MinuteInterval) : Type 0 where
  aligned : All IsAligned intervals
  clear : (s e : ℕ) → s < e → contains intervals s e ≡ true → meets periods s e ≡ false

nil-IsSound : (periods : List MinuteInterval) → IsSound periods []
nil-IsSound periods = record { aligned = tt; clear = λ s e l c. cc }

unavailable-IsSound :
    (periods : List MinuteInterval) {r : DayReason} {o : DayOutcome}
    → ok (day_unavailable r) ≡ ok o
    → IsSound periods (day_intervals o)
unavailable-IsSound periods {r} {o} h =
    let e : day_intervals o ≡ [] = ground arith in rw e (nil-IsSound periods)

available-IsSound :
    (date shift_id : ℕ) (overtime_id : Option ℕ) (source : AvailabilitySource) (d : ShiftDefinition)
    (periods : List MinuteInterval) (o : DayOutcome)
    → All IsAligned periods
    → available date shift_id overtime_id source d periods ≡ ok o
    → IsSound periods (day_intervals o)
unfolding available
available-IsSound date shift_id overtime_id source d periods o p h =
    let weekday = iso_weekday_for_date date in
    let (is, e, h') =
      >>=-eq-ok (work_intervals_for_weekday (record d { workdays = weekday ∷ [] }) weekday) _ h in
    let f : day_intervals o ≡ subtract_minute_intervals is periods = ground arith in
    rw f (record {
      aligned =
          subtract_minute_intervals-IsAligned is periods
            (work_intervals_for_weekday-IsAligned _ _ is e) p;
      clear = λ s t l c.
          ground
            (arith, contains-subtract_minute_intervals is periods s t l (All-IsProper periods p));
    })

overtime_outcome-IsSound :
    (date : ℕ) (shift : ArtistShiftTemplate) (periods : List MinuteInterval)
    (t : Option ArtistOvertime) (o : DayOutcome)
    → All IsAligned periods
    → overtime_outcome date shift periods t ≡ ok o
    → IsSound periods (day_intervals o)
unfolding overtime_outcome
overtime_outcome-IsSound date shift periods none o p h = unavailable-IsSound periods h
overtime_outcome-IsSound date shift periods (some t) o p h =
    available-IsSound date _ _ _ _ periods o p h

-- The date is a workday of the shift, or the artist has an approved overtime on it.
abbrev pub WorksOn : Database → ℕ → ℕ → ArtistShiftTemplate → Type 0
WorksOn db a date x =
    (includes x.definition.workdays (iso_weekday_for_date date) ≡ true)
    ⊎ ((t : ArtistOvertime) × (approved_overtime_on db a date ≡ some t))

-- On a day with an interval the artist has a shift, works, and is not on leave.
abbrev pub IsWorking : Database → ℕ → ℕ → List MinuteInterval → Type 0
IsWorking db a date [] = Unit
IsWorking db a date (i ∷ is) =
    (artist_on_leave_on db a date ≡ false)
    × ((x : ArtistShiftTemplate) × (current_shift db a date ≡ some x) × WorksOn db a date x)

working :
    (db : Database) (a date : ℕ) (is : List MinuteInterval) (x : ArtistShiftTemplate)
    → artist_on_leave_on db a date ≡ false
    → current_shift db a date ≡ some x
    → WorksOn db a date x
    → IsWorking db a date is
working db a date [] x h k w = tt
working db a date (i ∷ is) x h k w = (h, (x, k, w))

no_work :
    (db : Database) (a date : ℕ) {r : DayReason} {o : DayOutcome}
    → ok (day_unavailable r) ≡ ok o
    → IsWorking db a date (day_intervals o)
no_work db a date {r} {o} h = let e : day_intervals o ≡ [] = ground arith in rw e tt

overtime_outcome-IsWorking :
    (db : Database) (a date : ℕ) (x : ArtistShiftTemplate) (periods : List MinuteInterval)
    (overtime : Option ArtistOvertime) (o : DayOutcome)
    → artist_on_leave_on db a date ≡ false
    → current_shift db a date ≡ some x
    → approved_overtime_on db a date ≡ overtime
    → overtime_outcome date x periods overtime ≡ ok o
    → IsWorking db a date (day_intervals o)
unfolding overtime_outcome
overtime_outcome-IsWorking db a date x periods none o here t e h = no_work db a date h
overtime_outcome-IsWorking db a date x periods (some overtime) o here t e h =
    working db a date (day_intervals o) x here t (inr (overtime, e))

shift_outcome-IsSound :
    (db : Database) (a date : ℕ) (t : Option ArtistShiftTemplate) (o : DayOutcome)
    → All IsAligned (unavailable_intervals db a date)
    → current_shift db a date ≡ t
    → shift_outcome db a date t ≡ ok o
    → IsSound (unavailable_intervals db a date) (day_intervals o)
      × IsWorking db a date (day_intervals o)
unfolding shift_outcome
shift_outcome-IsSound db a date none o p t h = (unavailable-IsSound _ h, no_work db a date h)
shift_outcome-IsSound db a date (some shift) o p t h =
    elim (Bool-cases (artist_on_leave_on db a date)) [
      | inl leave ↦
          let h' : ok (day_unavailable artist_on_leave) ≡ ok o = rw leave at h in
          (unavailable-IsSound _ h', no_work db a date h')
      | inr here ↦
          elim (Bool-cases (includes shift.definition.workdays (iso_weekday_for_date date))) [
            | inl day ↦ (
              available-IsSound date _ _ _ _ _ o p (rw (here, day) at h),
              working db a date (day_intervals o) shift here t (inl day),
            )
            | inr off ↦ (
              overtime_outcome-IsSound date _ _ _ o p (rw (here, off) at h),
              overtime_outcome-IsWorking db a date shift _ _ o here t refl (rw (here, off) at h),
            )
          ]
    ]

-- The profile that `findUnique` finds is of an active artist of an active site.
abbrev pub IsEmployed : ArtistProfile → Type 0
IsEmployed x = (is_active x.employment_status ≡ true) × (is_active x.site.status ≡ true)

day_outcome-IsSound :
    (db : Database) (x : ArtistProfile) (date : ℕ) (o : DayOutcome)
    → All IsAligned (unavailable_intervals db x.id date)
    → day_outcome db x date ≡ ok o
    → IsSound (unavailable_intervals db x.id date) (day_intervals o)
      × IsWorking db x.id date (day_intervals o)
      × (IsEmployed x ⊎ (day_intervals o ≡ []))
unfolding day_outcome
day_outcome-IsSound db x date o p h = elim (Bool-cases (is_active x.employment_status)) [
  | inl emp ↦ elim (Bool-cases (is_active x.site.status)) [
    | inl site ↦
        let (s, w) = shift_outcome-IsSound db x.id date _ o p refl (rw (emp, site) at h) in
        (s, w, inl (emp, site))
    | inr closed ↦
        let h' : ok (day_unavailable site_inactive) ≡ ok o = rw (emp, closed) at h in
        (unavailable-IsSound _ h', no_work db x.id date h', inr (ground arith))
  ]
  | inr left ↦
      let h' : ok (day_unavailable artist_inactive) ≡ ok o = rw left at h in
      (unavailable-IsSound _ h', no_work db x.id date h', inr (ground arith))
]

-- What a day that is found promises.
pub record IsDay (db : Database) (artist_id date : ℕ) (day : ArtistDay) : Type 0 where
  pub profile : ArtistProfile
  pub found : find (λ a. a.id == artist_id) db.artists ≡ some profile
  pub site : day.site_id ≡ profile.site.id
  pub employed : IsEmployed profile ⊎ (day_intervals day.outcome ≡ [])
  pub working : IsWorking db artist_id date (day_intervals day.outcome)
  pub aligned : All IsAligned (day_intervals day.outcome)
  pub clear :
      (s e : ℕ)
      → ltb s e
          && contains (day_intervals day.outcome) s e
          && meets (unavailable_intervals db artist_id date) s e
        ≡ false

clear_test :
    (s e : ℕ) (is bs : List MinuteInterval)
    → (s < e → contains is s e ≡ true → meets bs s e ≡ false)
    → ltb s e && contains is s e && meets bs s e ≡ false
clear_test s e is bs h = elim (Bool-cases (ltb s e)) [
  | inl l ↦ elim (Bool-cases (contains is s e)) [
    | inl c ↦ rw (l, c, h (ltb→lt s e l) c) refl
    | inr n ↦ rw (l, n) refl
  ]
  | inr g ↦ rw g refl
]

found-IsDay :
    (db : Database) (artist_id date : ℕ) (x : ArtistProfile) (o : DayOutcome)
    → All IsPeriod db.unavailable_periods
    → find (λ a. a.id == artist_id) db.artists ≡ some x
    → day_outcome db x date ≡ ok o
    → IsDay db artist_id date (artist_day x date o)
found-IsDay db artist_id date x o p f g =
    let same : x.id ≡ artist_id = ==→eq _ _ (find_holds (λ a. a.id == artist_id) db.artists x f) in
    let (s, w, e) =
      day_outcome-IsSound db x date o (unavailable_intervals-IsAligned db x.id date p) g in
    record {
      profile = x;
      found = f;
      site = refl;
      employed = e;
      working = subst (λ a. IsWorking db a date (day_intervals o)) same w;
      aligned = s.aligned;
      clear = λ m e. clear_test m e (day_intervals o) (unavailable_intervals db artist_id date) (
          subst
            (λ a.
              (s e : ℕ)
              → s < e
              → contains (day_intervals o) s e ≡ true
              → meets (unavailable_intervals db a date) s e ≡ false)
            same s.clear m e);
    }

-- Where each unavailable period is a stretch of a day on quarters of an hour, a day that is found
-- with an interval is a day of an active artist at an active site, who is not on leave and works:
-- the date is a workday of the shift in force, or the artist has an approved overtime on it. The
-- intervals of a day that is found are stretches on quarters of an hour that meet no active
-- unavailable period.
pub get_day_with_client-IsDay :
    (db : Database) (artist_id date : ℕ) (day : ArtistDay)
    → All IsPeriod db.unavailable_periods
    → get_day_with_client db artist_id date ≡ ok day
    → IsDay db artist_id date day
unfolding get_day_with_client
get_day_with_client-IsDay db artist_id date day p h =
    let (_, _, h1) = >>=-eq-ok (guard (is_date_only (some date)) availability_date_invalid) _ h in
    let (x, f, h2) =
      >>=-eq-ok (or_throw (find (λ a. a.id == artist_id) db.artists) availability_artist_not_found)
        _ h1 in
    let (o, g, h3) = >>=-eq-ok (day_outcome db x date) _ h2 in
    let e : artist_day x date o ≡ day = cc in
    rw (← e) (found-IsDay db artist_id date x o p (or_throw-eq-ok _ _ f) g)

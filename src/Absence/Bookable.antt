-- ===== src/Absence/Bookable.antt =====
-- A stretch of an artist's day that a booking or a generation finds room for lies in no absence
-- (apps/api/src/availability/artist-availability.service.ts and apps/api/src/booking).
use makeup_booking_system.Availability.{
  ArtistDay, artist_on_leave_on, day_intervals, get_day_with_client, unavailable_intervals,
}
use makeup_booking_system.Availability.Laws.{IsPeriod, IsWorking, get_day_with_client-IsDay}
use makeup_booking_system.Base.{
  All, lt→ltb, ok, Bool, Bool-cases, List, [], any, arith, false, filter, inl, inr, is_id, leb, ltb,
  map, refl, true, ◌&&◌, ◌*◌, ◌+◌, ◌==◌, ◌∷◌, ◌≡◌, ◌≤◌, ℕ,
}
use makeup_booking_system.Booking.Occupation.{host_on_leave_on}
use makeup_booking_system.Database.{
  Database, Appointment, ArtistUnavailablePeriod, LeaveRecord, is_absence_active,
}
use makeup_booking_system.Shift.Intervals.{contains, MinuteInterval, interval, meets}
use makeup_booking_system.Absence.Undisturbed.{leave_hits, period_hits}
use makeup_booking_system.Shift.Calendar.{
  business_date_minute_to_instant, business_offset_ms, minute_ms,
}
use makeup_booking_system.Unavailability.{appointment_where}

-- Where an appointment lies, by its minutes.
pub record IsAt (row : Appointment) (artist_id host_id date s d : ℕ) : Type 0 where
  pub at_artist : row.artist_id ≡ artist_id
  pub at_host : row.host_id ≡ host_id
  pub at_date : row.appointment_date ≡ date
  pub at_start : row.start_at ≡ business_date_minute_to_instant date s
  pub at_end : row.end_at ≡ business_date_minute_to_instant date s + d * minute_ms

hit_meets :
    (p : ArtistUnavailablePeriod) (row : Appointment) (artist_id host_id date s d : ℕ)
    → IsAt row artist_id host_id date s d
    → business_offset_ms ≤ date
    → period_hits p row ≡ true
    → (p.artist_id == artist_id && is_absence_active p.status && p.unavailable_date == date ≡ true)
      × (ltb p.start_minute (s + d) && ltb s p.end_minute ≡ true)
unfolding appointment_where business_date_minute_to_instant
hit_meets p row artist_id host_id date s d a o h =
    let h' = rw (a.at_artist, a.at_date, a.at_start, a.at_end) at h in (ground arith, ground arith)

meets-later :
    (q : ArtistUnavailablePeriod → Bool) (p : ArtistUnavailablePeriod)
    (ps : List ArtistUnavailablePeriod) (s e : ℕ)
    → meets (map (λ p. interval p.start_minute p.end_minute) (filter q (p ∷ ps))) s e ≡ false
    → meets (map (λ p. interval p.start_minute p.end_minute) (filter q ps)) s e ≡ false
meets-later q p ps s e h = elim (Bool-cases (q p)) [
  | inl y ↦ let k = rw y at h in ground arith
  | inr n ↦ rw n at h
]

any-period_hits :
    (ps : List ArtistUnavailablePeriod) (row : Appointment) (artist_id host_id date s d : ℕ)
    → IsAt row artist_id host_id date s d
    → business_offset_ms ≤ date
    → meets
        (map
          (λ p. interval p.start_minute p.end_minute)
          (filter
            (λ p.
              p.artist_id == artist_id && is_absence_active p.status && p.unavailable_date == date)
            ps))
        s
        (s + d)
      ≡ false
    → any (λ p. period_hits p row) ps ≡ false
any-period_hits [] row artist_id host_id date s d a o h = refl
any-period_hits (p ∷ ps) row artist_id host_id date s d a o h =
    elim (Bool-cases (period_hits p row)) [
      | inl y ↦
          let (f, m) = hit_meets p row artist_id host_id date s d a o y in
          let wrong : true ≡ false = rw (f, m) at h in cc
      | inr n ↦ rw n (
          any-period_hits ps row artist_id host_id date s d a o (
            meets-later
              (λ p.
                p.artist_id == artist_id
                && is_absence_active p.status
                && p.unavailable_date == date)
              p ps s (s + d) h))
    ]

any-leave_hits :
    (ls : List LeaveRecord) (row : Appointment) (artist_id host_id date s d : ℕ)
    → IsAt row artist_id host_id date s d
    → any
        (λ l.
          is_id l.artist_id artist_id
          && leb date l.end_date
          && leb l.start_date date
          && is_absence_active l.status)
        ls
      ≡ false
    → any
        (λ l.
          is_id l.host_id host_id
          && leb date l.end_date
          && leb l.start_date date
          && is_absence_active l.status)
        ls
      ≡ false
    → any (λ l. leave_hits l row) ls ≡ false
any-leave_hits [] row artist_id host_id date s d a h k = refl
any-leave_hits (l ∷ ls) row artist_id host_id date s d a h k =
    let rest = any-leave_hits ls row artist_id host_id date s d a in
    rw (a.at_artist, a.at_host, a.at_date) (ground (arith, rest))

-- What a new booked appointment is found to have: room in its artist's day, and a host who is not
-- on leave.
pub record IsRoomy (db : Database) (artist_id host_id date s d : ℕ) : Type 0 where
  pub day : ArtistDay
  pub day_found : get_day_with_client db artist_id date ≡ ok day
  pub fits : contains (day_intervals day.outcome) s (s + d) ≡ true
  pub host_here : host_on_leave_on db host_id date ≡ false
  pub modern : business_offset_ms ≤ date
  pub lasts : 1 ≤ d

working-here :
    (db : Database) (artist_id date s e : ℕ) (is : List MinuteInterval)
    → IsWorking db artist_id date is
    → contains is s e ≡ true
    → artist_on_leave_on db artist_id date ≡ false
working-here db artist_id date s e [] w h = cc
working-here db artist_id date s e (i ∷ is) w h = w.0

last_false : (a b c : Bool) → a ≡ true → b ≡ true → a && b && c ≡ false → c ≡ false
last_false a b c h k l = ground arith

-- It lies in no active absence.
pub IsRoomy-clear :
    (db : Database) (row : Appointment) (artist_id host_id date s d : ℕ)
    → All IsPeriod db.unavailable_periods
    → IsRoomy db artist_id host_id date s d
    → IsAt row artist_id host_id date s d
    → (any (λ p. period_hits p row) db.unavailable_periods ≡ false)
      × (any (λ l. leave_hits l row) db.leave_records ≡ false)
unfolding unavailable_intervals artist_on_leave_on host_on_leave_on
IsRoomy-clear db row artist_id host_id date s d p r a =
    let day = get_day_with_client-IsDay db artist_id date r.day p r.day_found in
    let lasting : ltb s (s + d) ≡ true = lt→ltb s (s + d) (omega (arith, r.lasts)) in
    (
      any-period_hits db.unavailable_periods row artist_id host_id date s d a r.modern
          (last_false _ _ _ lasting r.fits (day.clear s (s + d))),
      any-leave_hits db.leave_records row artist_id host_id date s d a
          (working-here db artist_id date s (s + d) (day_intervals r.day.outcome) day.working
            r.fits)
          r.host_here,
    )

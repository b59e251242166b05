-- ===== src/Unavailability/Orderly.antt =====
-- The commands of apps/api/src/unavailability/artist-unavailability.service.ts keep the absences
-- orderly: the periods keep their CHECK constraint and are apart, and no booked appointment lies in
-- an active absence.
use makeup_booking_system.Base.{
  any, ==→eq, All, Bool-cases, List, Option, [], ap, arith, false, find_holds, if◌then◌else◌, inl,
  inr, map, ok, refl, subst, sym, true, ◌==◌, ◌∙◌, ◌∷◌, ◌≡◌, ℕ,
}
use makeup_booking_system.Absence.Undisturbed.{
  Clear-add, Clear-map, Clear-rows, KeepsBooked, KeepsBooked-refl, leave_hits,
  leave_hits-KeepsBooked, period_hits, period_hits-KeepsBooked,
}
use makeup_booking_system.Availability.Laws.{IsPeriod}
use makeup_booking_system.Database.{
  is_absence_active, Appointment, ArtistUnavailablePeriod, Database, Text,
}
use makeup_booking_system.Unavailability.{
  CreateArtistUnavailablePeriodCommand, ArtistUnavailablePeriodSummary,
  CancelArtistUnavailablePeriodCommand, ReviewArtistUnavailablePeriodCommand,
}
use makeup_booking_system.Unavailability.Commands.{
  create_period, period_time_check, same_period_time, cancel_period, cancelled_period,
  is_open_period, is_pending_period, review_period, reviewed_period, reviewed_status, same_period,
}
use makeup_booking_system.Unavailability.Steps.{
  create_period-IsPeriodCreated, cancel_period-IsPeriodCancelled, met_change,
  review_period-IsPeriodReviewed,
}
use makeup_booking_system.Absence.Kept.{IsOrderly}
use makeup_booking_system.Access.{AuthorizationContext}
use makeup_booking_system.Booking.Appointments.{tables}
use makeup_booking_system.Overtime.{Decision, approve, reject}
use makeup_booking_system.Tables.{All-Apart, All-imply, Apart-map}
use makeup_booking_system.Unavailability.Laws.{
  IsPeriod-map, KeepsPeriod, KeepsPeriod-if, appointment_where-cancel_row_if,
  cancelled_period-KeepsPeriod, met_change-KeepsBooked, reviewed_period-KeepsPeriod,
  same_period-KeepsPeriod,
}

module _ (db db' : Database) (f : ArtistUnavailablePeriod → ArtistUnavailablePeriod)
    (g : Appointment → Appointment)
    (periods_after : tables db' ≡ (db.rules, map f db.unavailable_periods, db.leave_records))
    (rows_after : db'.appointments ≡ map g db.appointments)
    (keeps : (p : ArtistUnavailablePeriod) → KeepsPeriod p (f p))
    (keeps_rows : (a : Appointment) → KeepsBooked a (g a)) where
  -- An update of the periods and the appointments, where no changed period hits a changed row.
  IsOrderly-update :
      ((a : Appointment)
        → All (λ p. period_hits (f p) (g a) ≡ true → period_hits p a ≡ true) db.unavailable_periods)
      → IsOrderly db
      → IsOrderly db'
  IsOrderly-update k o =
      let ps : db'.unavailable_periods ≡ map f db.unavailable_periods =
        ap (λ t. t.1) periods_after in
      let ls : db'.leave_records ≡ db.leave_records = ap (λ t. t.2) periods_after in
      record {
        periods = rw ps (IsPeriod-map f keeps db.unavailable_periods o.periods);
        apart = rw ps (
            Apart-map same_period f
              (λ p q. same_period-KeepsPeriod p (f p) q (f q) (keeps p) (keeps q))
              db.unavailable_periods o.apart);
        leaves = rw ls o.leaves;
        periods_clear =
            rw (ps, rows_after)
              (Clear-map period_hits f g db.unavailable_periods db.appointments k o.periods_clear);
        leaves_clear =
            rw (ls, rows_after)
              (Clear-rows leave_hits leave_hits-KeepsBooked g db.leave_records db.appointments
                keeps_rows o.leaves_clear);
      }

-- The updates of a cancellation of a period, as one function.
abbrev cancelled_if :
    ℕ → ℕ → Option Text → ℕ → ℕ → ArtistUnavailablePeriod → ArtistUnavailablePeriod
cancelled_if id row_version reason now user_id p =
    if is_open_period id row_version p then cancelled_period reason now user_id p else p

hits-cancelled_if :
    (id row_version : ℕ) (reason : Option Text) (now user_id : ℕ) (p : ArtistUnavailablePeriod)
    (a : Appointment)
    → period_hits (cancelled_if id row_version reason now user_id p) a ≡ true
    → period_hits p a ≡ true
hits-cancelled_if id row_version reason now user_id p a =
    elim (Bool-cases (is_open_period id row_version p)) [
      | inl y ↦ rw y (λ h. cc)
      | inr n ↦ rw n (λ h. h)
    ]

All-true :
    {P : ArtistUnavailablePeriod → Type 0}
    → ((p : ArtistUnavailablePeriod) → P p)
    → (ps : List ArtistUnavailablePeriod) → All P ps
All-true h [] = tt
All-true h (p ∷ ps) = (h p, All-true h ps)

map_same : (rows : List Appointment) → rows ≡ map (λ a. a) rows
map_same [] = refl
map_same (a ∷ rows) = ap (λ r. a ∷ r) (map_same rows)

pub cancel_period-IsOrderly :
    (nfkc : Text → Text) (db : Database) (context : AuthorizationContext)
    (command : CancelArtistUnavailablePeriodCommand) (now : ℕ) (db' : Database)
    → cancel_period nfkc db context command now ≡ ok db'
    → IsOrderly db
    → IsOrderly db'
cancel_period-IsOrderly nfkc db context command now db' h o =
    let m = cancel_period-IsPeriodCancelled nfkc db context command now db' h in
    IsOrderly-update db db'
      (cancelled_if m.period.id command.expected_row_version m.reason now context.user_id) (λ a. a)
      m.tables_after (m.rows_after ∙ map_same db.appointments)
      (λ p. KeepsPeriod-if (is_open_period m.period.id command.expected_row_version p) p _ (λ fits.
        cancelled_period-KeepsPeriod m.reason now context.user_id m.period.id
          command.expected_row_version p fits))
      KeepsBooked-refl
      (λ a.
        All-true
          (λ p.
            hits-cancelled_if m.period.id command.expected_row_version m.reason now context.user_id
              p a)
          db.unavailable_periods)
      o

-- The updates of a review, as one function.
abbrev reviewed_if :
    ℕ
    → ℕ
    → Decision
    → Option Text
    → List Appointment
    → ℕ
    → ℕ
    → ArtistUnavailablePeriod
    → ArtistUnavailablePeriod
reviewed_if id row_version decision comment affected now user_id p =
    if is_pending_period id row_version p
    then reviewed_period decision comment affected now user_id p
    else p

-- The period that is reviewed hits no appointment afterwards.
hits-reviewed :
    (decision : Decision) (comment : Option Text) (affected : List Appointment) (now user_id : ℕ)
    (p : ArtistUnavailablePeriod) (a : Appointment)
    → period_hits
        (reviewed_period decision comment affected now user_id p)
        (met_change (reviewed_status decision) p user_id now a)
      ≡ false
hits-reviewed approve comment affected now user_id p a =
    appointment_where-cancel_row_if p user_id now a
hits-reviewed reject comment affected now user_id p a = refl

hits-reviewed_if :
    (id row_version : ℕ) (decision : Decision) (comment : Option Text) (affected : List Appointment)
    (now user_id : ℕ) (period p : ArtistUnavailablePeriod) (a : Appointment)
    → ((p.id == id) ≡ true → p ≡ period)
    → period_hits
        (reviewed_if id row_version decision comment affected now user_id p)
        (met_change (reviewed_status decision) period user_id now a)
      ≡ true
    → period_hits p a ≡ true
hits-reviewed_if id row_version decision comment affected now user_id period p a only =
    elim (Bool-cases (is_pending_period id row_version p)) [
      | inl y ↦
          let here : p ≡ period = only (ground arith) in
          rw y (λ h.
            let wrong : false ≡ true =
              sym (hits-reviewed decision comment affected now user_id period a)
              ∙ subst
                  (λ (q : ArtistUnavailablePeriod).
                    period_hits (reviewed_period decision comment affected now user_id q)
                      (met_change (reviewed_status decision) period user_id now a)
                    ≡ true)
                  here h in
            cc)
      | inr n ↦ rw n (
          period_hits-KeepsBooked p a _
            (met_change-KeepsBooked (reviewed_status decision) period user_id now a))
    ]

same_id-same_period :
    (id : ℕ) (p q : ArtistUnavailablePeriod)
    → (p.id == id) ≡ true
    → (q.id == id) ≡ true
    → same_period p q ≡ true
unfolding same_period
same_id-same_period id p q h k = ground arith

pub review_period-IsOrderly :
    (nfkc : Text → Text) (db : Database) (context : AuthorizationContext)
    (command : ReviewArtistUnavailablePeriodCommand) (now : ℕ)
    (result : ArtistUnavailablePeriodSummary) (db' : Database)
    → review_period nfkc db context command now ≡ ok (result, db')
    → IsOrderly db
    → IsOrderly db'
review_period-IsOrderly nfkc db context command now result db' h o =
    let m = review_period-IsPeriodReviewed nfkc db context command now result db' h in
    let is_id : m.period.id ≡ command.period_id =
      ==→eq _ _
        (find_holds (λ p. p.id == command.period_id) db.unavailable_periods m.period m.found) in
    let only =
      All-Apart same_period (λ p. p.id == command.period_id) (same_id-same_period command.period_id)
        db.unavailable_periods m.period o.apart m.found in
    IsOrderly-update db db'
      (reviewed_if m.period.id command.expected_row_version command.decision m.comment m.affected
        now context.user_id)
      (met_change (reviewed_status command.decision) m.period context.user_id now) m.tables_after
      m.rows_after
      (λ p. KeepsPeriod-if (is_pending_period m.period.id command.expected_row_version p) p _ (
        reviewed_period-KeepsPeriod command.decision m.comment m.affected now context.user_id
          m.period.id command.expected_row_version p))
      (met_change-KeepsBooked (reviewed_status command.decision) m.period context.user_id now)
      (λ a.
        All-imply
          (λ p i.
            hits-reviewed_if m.period.id command.expected_row_version command.decision m.comment
              m.affected now context.user_id m.period p a (rw is_id i))
          db.unavailable_periods only)
      o

-- A period that is created hits no appointment afterwards.
hits-created :
    (p : ArtistUnavailablePeriod) (user_id now : ℕ) (a : Appointment)
    → period_hits p (met_change p.status p user_id now a) ≡ false
hits-created p user_id now a = elim (Bool-cases (is_absence_active p.status)) [
  | inl y ↦ rw y (appointment_where-cancel_row_if p user_id now a)
  | inr n ↦ rw n refl
]

All-rows :
    (p : ArtistUnavailablePeriod) (user_id now : ℕ) (rows : List Appointment)
    → All (λ a. period_hits p a ≡ false) (map (met_change p.status p user_id now) rows)
All-rows p user_id now [] = tt
All-rows p user_id now (a ∷ rows) = (hits-created p user_id now a, All-rows p user_id now rows)

period_time_check-IsPeriod : (p : ArtistUnavailablePeriod) → period_time_check p ≡ true → IsPeriod p
unfolding period_time_check
period_time_check-IsPeriod p h = record {
  proper = ground arith;
  ends_in_day = ground arith;
  start_on_step = ground arith;
  end_on_step = ground arith;
}

any-same_period :
    (p : ArtistUnavailablePeriod) (ps : List ArtistUnavailablePeriod)
    → any (λ q. p.id == q.id) ps ≡ false
    → any (same_period_time p) ps ≡ false
    → any (same_period p) ps ≡ false
unfolding same_period
any-same_period p [] h k = refl
any-same_period p (q ∷ ps) h k = ground (arith, any-same_period p ps)

pub create_period-IsOrderly :
    (nfkc : Text → Text) (db : Database) (context : AuthorizationContext)
    (command : CreateArtistUnavailablePeriodCommand) (now id : ℕ)
    (result : ArtistUnavailablePeriodSummary) (db' : Database)
    → create_period nfkc db context command now id ≡ ok (result, db')
    → IsOrderly db
    → IsOrderly db'
create_period-IsOrderly nfkc db context command now id result db' h o =
    let m = create_period-IsPeriodCreated nfkc db context command now id result db' h in
    let g = met_change m.period.status m.period context.user_id now in
    let keeps = met_change-KeepsBooked m.period.status m.period context.user_id now in
    let ps : db'.unavailable_periods ≡ m.period ∷ db.unavailable_periods =
      ap (λ t. t.1) m.tables_after in
    let ls : db'.leave_records ≡ db.leave_records = ap (λ t. t.2) m.tables_after in
    record {
      periods = rw ps (period_time_check-IsPeriod m.period m.timed, o.periods);
      apart = rw ps (any-same_period m.period db.unavailable_periods m.new_id m.apart, o.apart);
      leaves = rw ls o.leaves;
      periods_clear =
          rw (ps, m.rows_after)
            (Clear-add period_hits m.period db.unavailable_periods (map g db.appointments)
              (All-rows m.period context.user_id now db.appointments)
              (Clear-rows period_hits period_hits-KeepsBooked g db.unavailable_periods
                db.appointments keeps o.periods_clear));
      leaves_clear =
          rw (ls, m.rows_after)
            (Clear-rows leave_hits leave_hits-KeepsBooked g db.leave_records db.appointments keeps
              o.leaves_clear);
    }

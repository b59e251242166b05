-- ===== src/Booking/SlotsLaws.antt =====
-- What the slots that booking-slot.service.ts of apps/api/src/booking offers promise.
use makeup_booking_system.Access.{AuthorizationContext, assert_role, booking_roles}
use makeup_booking_system.Availability.{
  ArtistDay, AvailabilitySource, DayOutcome, day_available, day_intervals, day_unavailable,
  get_day_with_client,
}
use makeup_booking_system.Base.{
  ==→eq, >>=-eq-ok, Bool, Bool-cases, List, Option, [], any, ap, arith, false, filter, guard,
  guard-eq-ok, includes, inl, inr, leb, length, map, none, ok, ok-injective, refl, some, sym, true,
  ◌==◌, ◌∙◌, ◌∷◌, ◌≡◌, ◌≢◌, ◌≤◌, ℕ,
}
use makeup_booking_system.Booking.Create.{day_intervals_or_throw}
use makeup_booking_system.Booking.Occupation.{HostRecord, host}
use makeup_booking_system.Booking.Slots.{
  BookingSlot, BookingSlotInput, BookingSlotResult, BookingUnavailableReason, blocked_intervals,
  day_slots, excluded_appointment, free_slots, get_slots, host_daily_limit_reached, host_reason,
  host_slots, no_slots, slot_appointments, slot_at, slot_result, slot_scope,
}
use makeup_booking_system.Booking.Times.{
  list_free_start_minutes, validate_booking_date, validate_booking_duration,
}
use makeup_booking_system.Database.{Appointment, Database}
use makeup_booking_system.Errors.{authorization_denied, booking_site_mismatch}
use makeup_booking_system.Shift.Intervals.{MinuteInterval}
use mathlib.Core.Option

-- A slot starts at the minute.
abbrev pub offers : List BookingSlot → ℕ → Bool
offers slots s = any (λ x. x.start_minute == s) slots

offers-map :
    (date d : ℕ) (starts : List ℕ) (s : ℕ)
    → offers (map (slot_at date d) starts) s ≡ includes starts s
offers-map date d [] s = refl
offers-map date d (x ∷ starts) s = ground (arith, offers-map date d starts s)

-- What the service has found where it offers a slot at `s`.
pub record IsOffered (db : Database) (context : AuthorizationContext) (input : BookingSlotInput)
    (now : ℕ) (s : ℕ) : Type 0 where
  pub role : assert_role context booking_roles ≡ ok tt
  pub date : validate_booking_date (some input.date) now ≡ ok tt
  pub duration : validate_booking_duration input.duration_minutes ≡ ok tt
  pub day : ArtistDay
  pub day_found : get_day_with_client db input.artist_id input.date ≡ ok day
  pub host_record : HostRecord
  pub host_found : host db input.host_id input.date ≡ ok host_record
  pub scope : slot_scope context.role_code context host_record ≡ true
  pub site : host_record.profile.site.id ≡ day.site_id
  pub host_free : host_reason host_record input.date ≡ none
  pub exclude_rule_id : Option ℕ
  pub room : length (filter (λ a. a.host_id == input.host_id) (slot_appointments db input)) ≤ 1
  pub available : day_intervals_or_throw day.outcome ≡ ok (day_intervals day.outcome)
  pub excluded : input.exclude_appointment_id ≡ none → exclude_rule_id ≡ none
  pub starts : List ℕ
  pub listed :
      list_free_start_minutes input.date
        (day_intervals day.outcome)
        input.duration_minutes
        (blocked_intervals db input exclude_rule_id)
      ≡ ok starts
  pub offered : includes starts s ≡ true

no_offer :
    (input : BookingSlotInput) (outcome : DayOutcome) (reason : BookingUnavailableReason)
    (r : BookingSlotResult) (s : ℕ)
    → ok (no_slots input outcome reason) ≡ ok r
    → offers r.slots s ≢ true
no_offer input outcome reason r s h k =
    let e = ok-injective (no_slots input outcome reason) r h in
    let wrong : false ≡ true = ap (λ (t : BookingSlotResult). offers t.slots s) e ∙ k in cc

-- Where the free slots have a slot, the host has room and the slot is a free start.
free_slots_inv :
    (db : Database) (input : BookingSlotInput) (intervals : List MinuteInterval)
    (source : AvailabilitySource) (rule : Option ℕ) (count : ℕ) (r : BookingSlotResult) (s : ℕ)
    → free_slots db input intervals source rule count ≡ ok r
    → offers r.slots s ≡ true
    → (count ≤ 1)
      × (starts : List ℕ) × (list_free_start_minutes input.date intervals input.duration_minutes
            (blocked_intervals db input rule)
          ≡ ok starts)
      × (includes starts s ≡ true)
unfolding free_slots
free_slots_inv db input intervals source rule count r s h k = elim (Bool-cases (leb 2 count)) [
  | inl full ↦
      let e =
        ok-injective (slot_result input none count [] (some host_daily_limit_reached)) r
          (rw full at h) in
      let wrong : false ≡ true = ap (λ (t : BookingSlotResult). offers t.slots s) e ∙ k in cc
  | inr room ↦
      let (starts, e1, h1) =
        >>=-eq-ok
          (list_free_start_minutes input.date intervals input.duration_minutes
            (blocked_intervals db input rule))
          _ (rw room at h) in
      let e = ok-injective _ r h1 in
      (
        ground arith,
        starts,
        e1,
        sym (offers-map input.date input.duration_minutes starts s)
            ∙ ap (λ (t : BookingSlotResult). offers t.slots s) e
            ∙ k,
      )
]

excluded_none :
    (db : Database) (host_id : ℕ) (o : Option ℕ) (x : Option Appointment)
    → excluded_appointment db o host_id ≡ ok x
    → o ≡ none
    → Option.bind x (λ a. a.fixed_rule_id) ≡ none
unfolding excluded_appointment Option.bind
excluded_none db host_id o x h e =
    let k : ok none ≡ ok x = rw e at h in let same = ok-injective none x k in rw (← same) refl

-- What the slots of a day with this outcome have found.
abbrev HasFree : Database → BookingSlotInput → DayOutcome → ℕ → Type 0
HasFree db input o s =
    (x : Option ℕ) × (length (filter (λ a. a.host_id == input.host_id) (slot_appointments db input))
      ≤ 1)
    × (day_intervals_or_throw o ≡ ok (day_intervals o))
    × (input.exclude_appointment_id ≡ none → x ≡ none)
    × (starts : List ℕ) × (list_free_start_minutes input.date (day_intervals o)
          input.duration_minutes (blocked_intervals db input x)
        ≡ ok starts)
    × (includes starts s ≡ true)

day_slots_inv :
    (db : Database) (input : BookingSlotInput) (o : DayOutcome) (r : BookingSlotResult) (s : ℕ)
    → day_slots db input o ≡ ok r
    → offers r.slots s ≡ true
    → HasFree db input o s
unfolding day_slots
day_slots_inv db input (day_unavailable reason) r s g k =
    absurd (no_offer input (day_unavailable reason) _ r s g k)
day_slots_inv db input (day_available intervals overtime_id shift_template_id source) r s g k =
    let (x, g1, g2) =
      >>=-eq-ok (excluded_appointment db input.exclude_appointment_id input.host_id) _ g in
    let (room, starts, l, i) = free_slots_inv db input intervals source _ _ r s g2 k in
    (_, room, refl, excluded_none db input.host_id input.exclude_appointment_id x g1, starts, l, i)

host_slots_inv :
    (db : Database) (input : BookingSlotInput) (o : DayOutcome)
    (reason : Option BookingUnavailableReason) (r : BookingSlotResult) (s : ℕ)
    → host_slots db input o reason ≡ ok r
    → offers r.slots s ≡ true
    → (reason ≡ none) × HasFree db input o s
unfolding host_slots
host_slots_inv db input o (some reason) r s g k = absurd (no_offer input o reason r s g k)
host_slots_inv db input o none r s g k = (refl, day_slots_inv db input o r s g k)

pub get_slots-IsOffered :
    (db : Database) (context : AuthorizationContext) (input : BookingSlotInput) (now : ℕ)
    (r : BookingSlotResult) (s : ℕ)
    → get_slots db context input now ≡ ok r
    → offers r.slots s ≡ true
    → IsOffered db context input now s
unfolding get_slots
get_slots-IsOffered db context input now r s h k =
    let (_, e1, h1) = >>=-eq-ok (assert_role context booking_roles) _ h in
    let (_, e2, h2) = >>=-eq-ok (validate_booking_date (some input.date) now) _ h1 in
    let (_, e3, h3) = >>=-eq-ok (validate_booking_duration input.duration_minutes) _ h2 in
    let (day, e4, h4) = >>=-eq-ok (get_day_with_client db input.artist_id input.date) _ h3 in
    let (p, e5, h5) = >>=-eq-ok (host db input.host_id input.date) _ h4 in
    let (_, e6, h6) =
      >>=-eq-ok (guard (slot_scope context.role_code context p) authorization_denied) _ h5 in
    let (_, e7, h7) =
      >>=-eq-ok (guard (p.profile.site.id == day.site_id) booking_site_mismatch) _ h6 in
    let (free, found) = host_slots_inv db input day.outcome (host_reason p input.date) r s h7 k in
    let (x, room, av, ex, starts, l, i) = found in
    record {
      role = e1;
      date = e2;
      duration = e3;
      day = day;
      day_found = e4;
      host_record = p;
      host_found = e5;
      scope = guard-eq-ok _ _ e6;
      site = ==→eq _ _ (guard-eq-ok _ _ e7);
      host_free = free;
      exclude_rule_id = x;
      room = room;
      available = av;
      excluded = ex;
      starts = starts;
      listed = l;
      offered = i;
    }

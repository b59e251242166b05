-- ===== src/Booking/SlotsBlocked.antt =====
-- What blocks a slot is what `createFresh` tests (booking-slot.service.ts and
-- booking-create.service.ts of apps/api/src/booking).
use makeup_booking_system.Base.{
  Bool, List, Option, [], any, any-append, ap, ap₂, arith, false, filter, flat_map, if◌then◌else◌,
  ltb, map, none, refl, some, true, ◌&&◌, ◌*◌, ◌++◌, ◌+◌, ◌||◌, ◌∙◌, ◌∷◌, ◌≡◌, ◌≤◌, ℕ,
}
use makeup_booking_system.Booking.Occupation.{
  fixed_occupations, pending_meets, pending_occupations, recurring_conflict,
}
use makeup_booking_system.Booking.Slots.{
  BookingSlotInput, appointment_instants, blocked_intervals, instants, pending_interval,
  recurring_occupations, slot_appointments,
}
use makeup_booking_system.Booking.Times.{InstantInterval, is_blocked}
use makeup_booking_system.Booking.TimesLaws.{blocked_at}
use makeup_booking_system.Database.{
  Appointment, Database, FixedAppointmentRequest, FixedAppointmentRuleWeekday,
}
use makeup_booking_system.Shift.Calendar.{
  business_date_minute_to_instant, business_offset_ms, instant-add, minute_ms,
}
use makeup_booking_system.Shift.Intervals.{MinuteInterval, interval, meets}

-- Instants of minutes order as the minutes do.
ltb-instant :
    (date m n : ℕ)
    → business_offset_ms ≤ date
    → ltb (business_date_minute_to_instant date m) (business_date_minute_to_instant date n)
      ≡ ltb m n
unfolding business_date_minute_to_instant
ltb-instant date m n h = ground arith

is_blocked-append :
    (xs ys : List InstantInterval) (a b : ℕ)
    → is_blocked (xs ++ ys) a b ≡ is_blocked xs a b || is_blocked ys a b
unfolding is_blocked
is_blocked-append xs ys a b = any-append (λ x. ltb a x.end_at && ltb x.start_at b) xs ys

is_blocked-appointments :
    (rows : List Appointment) (a b : ℕ)
    → is_blocked (map appointment_instants rows) a b
      ≡ any (λ x. ltb a x.end_at && ltb x.start_at b) rows
unfolding is_blocked
is_blocked-appointments [] a b = refl
is_blocked-appointments (x ∷ rows) a b =
    ap (λ t. (ltb a x.end_at && ltb x.start_at b) || t) (is_blocked-appointments rows a b)

and_swap : (a b : Bool) → a && b ≡ b && a
and_swap true true = refl
and_swap true false = refl
and_swap false true = refl
and_swap false false = refl

is_blocked-instants :
    (date : ℕ) (is : List MinuteInterval) (s e : ℕ)
    → business_offset_ms ≤ date
    → is_blocked
        (map (instants date) is)
        (business_date_minute_to_instant date s)
        (business_date_minute_to_instant date e)
      ≡ meets is s e
unfolding is_blocked
is_blocked-instants date [] s e h = refl
is_blocked-instants date (i ∷ is) s e h =
    ap₂ (λ (a b : Bool). a || b)
      (ap₂ (λ (a b : Bool). a && b) (ltb-instant date s i.end_minute h)
          (ltb-instant date i.start_minute e h)
        ∙ and_swap (ltb s i.end_minute) (ltb i.start_minute e))
      (is_blocked-instants date is s e h)

meets-rules :
    (ws : List FixedAppointmentRuleWeekday) (s e : ℕ)
    → meets (map (λ w. interval w.start_minute w.end_minute) ws) s e
      ≡ any (λ w. ltb s w.end_minute && ltb w.start_minute e) ws
meets-rules [] s e = refl
meets-rules (w ∷ ws) s e = ground (arith, meets-rules ws s e)

meets-pending_interval :
    (start duration : Option ℕ) (s e : ℕ)
    → meets (pending_interval start duration) s e ≡ pending_meets start duration s e
unfolding pending_meets
meets-pending_interval none duration s e = refl
meets-pending_interval (some start) none s e = refl
meets-pending_interval (some start) (some duration) s e = ground arith

meets-pending :
    (rs : List FixedAppointmentRequest) (s e : ℕ)
    → meets
        (flat_map (λ r. pending_interval r.target_start_minute r.target_duration_minutes) rs)
        s
        e
      ≡ any (λ r. pending_meets r.target_start_minute r.target_duration_minutes s e) rs
meets-pending [] s e = refl
meets-pending (r ∷ rs) s e =
    any-append (λ (i : MinuteInterval). ltb i.start_minute e && ltb s i.end_minute)
      (pending_interval r.target_start_minute r.target_duration_minutes) _
    ∙ ap₂ (λ (a b : Bool). a || b)
        (meets-pending_interval r.target_start_minute r.target_duration_minutes s e)
        (meets-pending rs s e)

-- The recurring occupations of a slot are those that `createFresh` tests.
meets-recurring_occupations :
    (db : Database) (input : BookingSlotInput) (rule : Option ℕ) (s e : ℕ)
    → meets (recurring_occupations db input rule) s e
      ≡ recurring_conflict db input.date input.artist_id input.host_id rule s e
unfolding recurring_occupations recurring_conflict
meets-recurring_occupations db input rule s e =
    let rules = fixed_occupations db input.date input.artist_id input.host_id rule in
    let requests = pending_occupations db input.date input.artist_id input.host_id in
    any-append (λ (i : MinuteInterval). ltb i.start_minute e && ltb s i.end_minute)
      (map (λ w. interval w.start_minute w.end_minute) rules) _
    ∙ ap₂ (λ (a b : Bool). a || b) (meets-rules rules s e) (meets-pending requests s e)

-- What blocks a stretch is what `createFresh` tests.
pub blocked_at-blocked_intervals :
    (db : Database) (input : BookingSlotInput) (rule : Option ℕ) (s : ℕ)
    → business_offset_ms ≤ input.date
    → blocked_at input.date (blocked_intervals db input rule) s input.duration_minutes ≡ (
        any
          (λ a.
            ltb (business_date_minute_to_instant input.date s) a.end_at
            && ltb a.start_at
                (business_date_minute_to_instant input.date s + input.duration_minutes * minute_ms))
          (slot_appointments db input)
        || recurring_conflict db input.date input.artist_id input.host_id rule s
            (s + input.duration_minutes))
unfolding blocked_intervals
blocked_at-blocked_intervals db input rule s h =
    is_blocked-append (map appointment_instants (slot_appointments db input)) _ _ _
    ∙ ap₂ (λ (a b : Bool). a || b) (is_blocked-appointments (slot_appointments db input) _ _)
        (ap
            (λ t.
              is_blocked (map (instants input.date) (recurring_occupations db input rule))
                (business_date_minute_to_instant input.date s) t)
            (instant-add input.date s input.duration_minutes h)
          ∙ is_blocked-instants input.date (recurring_occupations db input rule) s
              (s + input.duration_minutes) h
          ∙ meets-recurring_occupations db input rule s (s + input.duration_minutes))

pub filter-eq :
    (p q : Appointment → Bool) (rows : List Appointment)
    → ((a : Appointment) → p a ≡ q a)
    → filter p rows ≡ filter q rows
filter-eq p q [] h = refl
filter-eq p q (a ∷ rows) h =
    ap₂ (λ (b : Bool) (rest : List Appointment). if b then a ∷ rest else rest) (h a)
      (filter-eq p q rows h)

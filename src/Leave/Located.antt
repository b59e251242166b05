-- ===== src/Leave/Located.antt =====
-- The places of appointments while `cancel` of apps/api/src/leave/leave.service.ts books them again:
-- an id names one place.
use makeup_booking_system.Base.{
  All, Bool, Bool-cases, List, [], any, ap, arith, false, inl, inr, refl, true, ◌==◌, ◌∷◌, ◌≡◌,
}
use makeup_booking_system.Database.{Appointment}
use makeup_booking_system.Leave.Cancel.{restored_row}
use makeup_booking_system.Tables.{Apart, update_many}
use makeup_booking_system.Base.{ℕ}

-- The second row is at the place of the first, in whatever sequence and status.
pub record IsAtPlace (t c : Appointment) : Type 0 where
  pub host_same : c.host_id ≡ t.host_id
  pub artist_same : c.artist_id ≡ t.artist_id
  pub date_same : c.appointment_date ≡ t.appointment_date
  pub start_same : c.start_at ≡ t.start_at
  pub end_same : c.end_at ≡ t.end_at

-- Each row with the id of `t` is at its place.
abbrev pub Located : List Appointment → Appointment → Type 0
Located rows t = All (λ c. c.id ≡ t.id → IsAtPlace t c) rows

IsAtPlace-restored : (k : ℕ) (t c : Appointment) → IsAtPlace t c → IsAtPlace t (restored_row k c)
IsAtPlace-restored k t c s = record {
  host_same = s.host_same;
  artist_same = s.artist_same;
  date_same = s.date_same;
  start_same = s.start_same;
  end_same = s.end_same;
}

module _ (p : Appointment → Bool) (k : ℕ) where
  pub Located-restored :
      (t : Appointment) (rows : List Appointment)
      → Located rows t
      → Located (update_many p (restored_row k) rows) t
  Located-restored t [] h = tt
  Located-restored t (a ∷ rows) h = elim (Bool-cases (p a)) [
    | inl y ↦ rw y ((λ e. IsAtPlace-restored k t a (h.0 e)), Located-restored t rows h.1)
    | inr n ↦ rw n (h.0, Located-restored t rows h.1)
  ]

-- appointments_pkey
abbrev pub same_appointment_id : Appointment → Appointment → Bool
same_appointment_id a b = a.id == b.id

IsAtPlace-refl : (t c : Appointment) → c ≡ t → IsAtPlace t c
IsAtPlace-refl t c e = record {
  host_same = ap (λ (a : Appointment). a.host_id) e;
  artist_same = ap (λ (a : Appointment). a.artist_id) e;
  date_same = ap (λ (a : Appointment). a.appointment_date) e;
  start_same = ap (λ (a : Appointment). a.start_at) e;
  end_same = ap (λ (a : Appointment). a.end_at) e;
}

-- Another id is another place to look at.
Located-other :
    (t : Appointment) (rows : List Appointment)
    → any (same_appointment_id t) rows ≡ false
    → Located rows t
Located-other t [] h = tt
Located-other t (a ∷ rows) h =
    (λ e. let wrong : true ≡ false = ground arith in cc, Located-other t rows (ground arith))

Located-later :
    (a : Appointment) (rows todo : List Appointment)
    → any (same_appointment_id a) todo ≡ false
    → All (Located rows) todo
    → All (Located (a ∷ rows)) todo
Located-later a rows [] h l = tt
Located-later a rows (t ∷ todo) h l = (
  (λ e. let wrong : true ≡ false = ground arith in cc, l.0),
  Located-later a rows todo (ground arith) l.1,
)

-- Where ids are distinct, each appointment is where its id is found.
pub All-Located :
    (rows : List Appointment) → Apart same_appointment_id rows → All (Located rows) rows
All-Located [] h = tt
All-Located (a ∷ rows) h = (
  ((λ e. IsAtPlace-refl a a refl), Located-other a rows h.0),
  Located-later a rows rows h.0 (All-Located rows h.1),
)

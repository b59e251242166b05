-- ===== src/Overtime/Machine.antt =====
-- Histories of overtime requests: the transactions of apps/api/src/overtime/overtime.service.ts,
-- one after the other, follow the abstract machine of each request.
use makeup_booking_system.Base.{
  Bool-cases, arith, Option, ap, false, inl, inr, ok, refl, some, true, ◌∙◌, ◌≡◌, ◌⊎◌, ℕ,
}
use makeup_booking_system.Overtime.{
  is_open_request, is_pending_at, OvertimeSummary, ReviewOvertimeCommand, SubmitOvertimeCommand,
  WithdrawOvertimeCommand, direct_approve, review, same_overtime, submit, withdraw,
}
use makeup_booking_system.Overtime.Steps.{
  IsEntered, IsSettled, direct_approve-IsEntered, review-IsSettled, submit-IsEntered,
  withdraw-IsSettled,
}
use makeup_booking_system.Access.{AuthorizationContext}
use makeup_booking_system.Database.{
  ArtistOvertime, Database, RequestStatus, Text, is_pending, pending,
}
use makeup_booking_system.Overtime.Laws.{
  IsSettling, Moves, Moves-insert, Moves-update, appears, settled_if, stage_of, stays, settles,
}
use makeup_booking_system.Tables.{Apart, Apart-map}

pub data OvertimeStep (nfkc : Text → Text) : Database → Database → Type 0 where
  submits :
      {db db' : Database} (context : AuthorizationContext) (command : SubmitOvertimeCommand)
      (now id submitted_at : ℕ) (result : OvertimeSummary)
      → submit nfkc db context command now id submitted_at ≡ ok (result, db')
      → OvertimeStep nfkc db db'
  approves_directly :
      {db db' : Database} (context : AuthorizationContext) (command : SubmitOvertimeCommand)
      (now id submitted_at : ℕ) (result : OvertimeSummary)
      → direct_approve nfkc db context command now id submitted_at ≡ ok (result, db')
      → OvertimeStep nfkc db db'
  withdraws :
      {db db' : Database} (context : AuthorizationContext) (command : WithdrawOvertimeCommand)
      → withdraw db context command ≡ ok db'
      → OvertimeStep nfkc db db'
  reviews :
      {db db' : Database} (context : AuthorizationContext) (command : ReviewOvertimeCommand)
      (now : ℕ) (result : OvertimeSummary)
      → review nfkc db context command now ≡ ok (result, db')
      → OvertimeStep nfkc db db'

pub data OvertimeReach (nfkc : Text → Text) : Database → Database → Type 0 where
  no_steps : {db : Database} → OvertimeReach nfkc db db
  next_step :
      {db db' db'' : Database}
      → OvertimeStep nfkc db db'
      → OvertimeReach nfkc db' db''
      → OvertimeReach nfkc db db''

-- Every transaction enters a request or settles one.
pub OvertimeStep-cases :
    (nfkc : Text → Text) {db db' : Database}
    → OvertimeStep nfkc db db'
    → IsEntered db db' ⊎ IsSettled db db'
OvertimeStep-cases nfkc {db} {db'} (submits context command now id at result h) =
    inl (submit-IsEntered nfkc db context command now id at result db' h)
OvertimeStep-cases nfkc {db} {db'} (approves_directly context command now id at result h) =
    inl (direct_approve-IsEntered nfkc db context command now id at result db' h)
OvertimeStep-cases nfkc {db} {db'} (withdraws context command h) =
    inr (withdraw-IsSettled db context command db' h)
OvertimeStep-cases nfkc {db} {db'} (reviews context command now result h) =
    inr (review-IsSettled nfkc db context command now result db' h)

-- Each transaction of the overtime service moves every overtime request as the abstract machine
-- allows: it stays, or it appears pending or approved in its first version, or a pending request
-- is settled once, to a status that is not pending, in the next version.
pub OvertimeStep-Moves :
    (nfkc : Text → Text) {db db' : Database} (id : ℕ)
    → OvertimeStep nfkc db db'
    → Moves (stage_of db id) (stage_of db' id)
OvertimeStep-Moves nfkc {db} {db'} id s = elim (OvertimeStep-cases nfkc s) [
  | inl m ↦ rw m.after (Moves-insert m.request db.overtimes id m.opened m.first m.is_new)
  | inr m ↦ rw m.after (Moves-update m.id m.row_version m.change m.settling db.overtimes id)
]

same_status :
    (v : ℕ) {status : RequestStatus} {version : ℕ}
    → Path (Option (RequestStatus × ℕ)) (some (pending, v)) (some (status, version))
    → pending ≡ status
same_status v e = cc

-- Where the machine goes from a status that is not pending: nowhere.
Moves-stays :
    (s : Option (RequestStatus × ℕ)) (status : RequestStatus) (version : ℕ)
    {s' : Option (RequestStatus × ℕ)}
    → s ≡ some (status, version)
    → is_pending status ≡ false
    → Moves s s'
    → s' ≡ s
Moves-stays s status version e h stays = refl
Moves-stays s status version e h (appears o) = cc
Moves-stays s status version e h (settles {version = v} k) =
    let same : pending ≡ status = same_status v e in
    let wrong : true ≡ false = ap is_pending same ∙ h in cc

-- An overtime request that is not pending keeps its status and its version, whatever the
-- transactions of the overtime service commit.
pub OvertimeReach-settled :
    (nfkc : Text → Text) {db db' : Database} (id : ℕ) (status : RequestStatus) (version : ℕ)
    → OvertimeReach nfkc db db'
    → stage_of db id ≡ some (status, version)
    → is_pending status ≡ false
    → stage_of db' id ≡ some (status, version)
OvertimeReach-settled nfkc id status version no_steps e h = e
OvertimeReach-settled nfkc {db} id status version (next_step {db' = db1} s rest) e h =
    let same = Moves-stays (stage_of db id) status version e h (OvertimeStep-Moves nfkc id s) in
    OvertimeReach-settled nfkc id status version rest (same ∙ e) h

-- The second row has the key of the first, and is open only if the first is.
record KeepsKey (o p : ArtistOvertime) : Type 0 where
  id_kept : p.id ≡ o.id
  artist_kept : p.artist_id ≡ o.artist_id
  date_kept : p.overtime_date ≡ o.overtime_date
  open_kept : is_open_request p.status ≡ true → is_open_request o.status ≡ true

settled_if-KeepsKey :
    (id row_version : ℕ) (change : ArtistOvertime → ArtistOvertime)
    → IsSettling change
    → (o : ArtistOvertime) → KeepsKey o (settled_if id row_version change o)
settled_if-KeepsKey id row_version change s o = elim (Bool-cases (is_pending_at id row_version o)) [
  | inl y ↦ rw y (record {
    id_kept = s.id_kept o;
    artist_kept = s.artist_kept o;
    date_kept = s.date_kept o;
    open_kept = λ _. ground arith;
  })
  | inr n ↦
      rw n (record { id_kept = refl; artist_kept = refl; date_kept = refl; open_kept = λ h. h })
]

same_overtime-KeepsKey :
    (o o' p p' : ArtistOvertime)
    → KeepsKey o o'
    → KeepsKey p p'
    → same_overtime o p ≡ false
    → same_overtime o' p' ≡ false
unfolding same_overtime
same_overtime-KeepsKey o o' p p' k l h =
    rw (k.id_kept, k.artist_kept, k.date_kept, l.id_kept, l.artist_kept, l.date_kept)
      (ground (arith, k.open_kept, l.open_kept))

-- Whatever the transactions of the overtime service commit, no two overtimes share an id, and an
-- artist has at most one pending or approved overtime on a date, if it is so at the start.
pub OvertimeReach-Apart :
    (nfkc : Text → Text) {db db' : Database}
    → OvertimeReach nfkc db db'
    → Apart same_overtime db.overtimes
    → Apart same_overtime db'.overtimes
OvertimeReach-Apart nfkc no_steps a = a
OvertimeReach-Apart nfkc {db} (next_step {db' = db1} s rest) a =
    OvertimeReach-Apart nfkc rest (elim (OvertimeStep-cases nfkc s) [
      | inl m ↦ rw m.after (m.is_new, a)
      | inr m ↦ rw m.after (
          Apart-map same_overtime (settled_if m.id m.row_version m.change)
            (λ o p.
              same_overtime-KeepsKey o _ p _
                (settled_if-KeepsKey m.id m.row_version m.change m.settling o)
                (settled_if-KeepsKey m.id m.row_version m.change m.settling p))
            db.overtimes a)
    ])

-- ===== src/Overtime/Laws.antt =====
-- What an overtime request goes through (apps/api/src/overtime/overtime.service.ts): an abstract
-- machine on the status and the version of each request, which the service's transactions follow,
-- and the table's unique index.
use makeup_booking_system.Base.{
  Bool, Bool-cases, List, Option, [], any, ap, arith, false, find, find_here, find_later,
  if◌then◌else◌, inl, inr, none, refl, some, true, ◌+◌, ◌==◌, ◌∷◌, ◌≡◌, ℕ,
}
use makeup_booking_system.Booking.Rows.{update_many}
use makeup_booking_system.Database.{
  ArtistOvertime, Database, RequestStatus, approved, is_pending, pending, rejected, withdrawn,
}
use makeup_booking_system.Overtime.{is_open_request, is_pending_at, same_overtime}
use makeup_booking_system.Tables.{find-map}
use mathlib.Core.Option

-- What a request shows: its status and its version.
abbrev pub stage : ArtistOvertime → RequestStatus × ℕ
stage o = (o.status, o.row_version)

abbrev pub stage_of : Database → ℕ → Option (RequestStatus × ℕ)
stage_of db id = Option.map stage (find (λ o. o.id == id) db.overtimes)

-- The abstract machine of one request. A request appears pending or approved in its first version,
-- and a pending one is decided once.
pub data Moves : Option (RequestStatus × ℕ) → Option (RequestStatus × ℕ) → Type 0 where
  stays : {s : Option (RequestStatus × ℕ)} → Moves s s
  appears : {status : RequestStatus} → is_open_request status ≡ true → Moves none (some (status, 1))
  settles :
      {status : RequestStatus} {version : ℕ}
      → is_pending status ≡ false
      → Moves (some (pending, version)) (some (status, version + 1))

pending_lem : (s : RequestStatus) → is_pending s ≡ true → s ≡ pending
pending_lem pending h = refl
pending_lem approved h = cc
pending_lem rejected h = cc
pending_lem withdrawn h = cc

Moves-row :
    (fits : Bool) (o o' : ArtistOvertime)
    → (fits ≡ true → Moves (some (stage o)) (some (stage o')))
    → Moves (some (stage o)) (some (stage (if fits then o' else o)))
Moves-row true o o' h = h refl
Moves-row false o o' h = stays

settles-row :
    (o o' : ArtistOvertime)
    → is_pending o.status ≡ true
    → is_pending o'.status ≡ false
    → o'.row_version ≡ o.row_version + 1
    → Moves (some (stage o)) (some (stage o'))
settles-row o o' h k v = rw (pending_lem o.status h, v) (settles k)

-- What `updateMany` writes into a pending row: the next version, and a status that is not pending.
pub record IsSettling (change : ArtistOvertime → ArtistOvertime) : Type 0 where
  pub id_kept : (o : ArtistOvertime) → (change o).id ≡ o.id
  pub artist_kept : (o : ArtistOvertime) → (change o).artist_id ≡ o.artist_id
  pub date_kept : (o : ArtistOvertime) → (change o).overtime_date ≡ o.overtime_date
  pub settled : (o : ArtistOvertime) → is_pending (change o).status ≡ false
  pub next : (o : ArtistOvertime) → (change o).row_version ≡ o.row_version + 1

abbrev pub settled_if : ℕ → ℕ → (ArtistOvertime → ArtistOvertime) → ArtistOvertime → ArtistOvertime
settled_if id row_version change o = if is_pending_at id row_version o then change o else o

pub id-settled_if :
    (id row_version : ℕ) (change : ArtistOvertime → ArtistOvertime)
    → IsSettling change
    → (o : ArtistOvertime) → (settled_if id row_version change o).id ≡ o.id
id-settled_if id row_version change s o = elim (Bool-cases (is_pending_at id row_version o)) [
  | inl y ↦ rw y (s.id_kept o)
  | inr n ↦ rw n refl
]

Moves-found :
    (id row_version : ℕ) (change : ArtistOvertime → ArtistOvertime)
    → IsSettling change
    → (found : Option ArtistOvertime)
    → Moves
        (Option.map stage found)
        (Option.map stage (Option.map (settled_if id row_version change) found))
Moves-found id row_version change s none = stays
Moves-found id row_version change s (some o) =
    Moves-row (is_pending_at id row_version o) o (change o)
      (λ h. settles-row o (change o) (ground arith) (s.settled o) (s.next o))

-- The update of `withdraw` and `finishReview` moves each request as the machine does.
pub Moves-update :
    (id row_version : ℕ) (change : ArtistOvertime → ArtistOvertime)
    → IsSettling change
    → (rows : List ArtistOvertime) (other : ℕ)
    → Moves (Option.map stage (find (λ o. o.id == other) rows)) (
        Option.map stage
          (find (λ o. o.id == other) (update_many (is_pending_at id row_version) change rows)))
Moves-update id row_version change s rows other =
    rw
      (find-map (λ o. o.id == other) (settled_if id row_version change)
        (λ o. ap (λ n. n == other) (id-settled_if id row_version change s o)) rows)
      (Moves-found id row_version change s (find (λ o. o.id == other) rows))

not_found :
    (request : ArtistOvertime) (rows : List ArtistOvertime) (other : ℕ)
    → (request.id == other) ≡ true
    → any (same_overtime request) rows ≡ false
    → find (λ o. o.id == other) rows ≡ none
unfolding same_overtime
not_found request [] other y h = refl
not_found request (o ∷ rows) other y h = ground (arith, not_found request rows other y)

-- So does the insertion of a request with a new id.
pub Moves-insert :
    (request : ArtistOvertime) (rows : List ArtistOvertime) (other : ℕ)
    → is_open_request request.status ≡ true
    → request.row_version ≡ 1
    → any (same_overtime request) rows ≡ false
    → Moves
        (Option.map stage (find (λ o. o.id == other) rows))
        (Option.map stage (find (λ o. o.id == other) (request ∷ rows)))
Moves-insert request rows other o v h = elim (Bool-cases (request.id == other)) [
  | inl y ↦
      rw (find_here (λ o. o.id == other) request rows y, v)
        (rw (not_found request rows other y h) (appears o))
  | inr n ↦ rw (find_later (λ o. o.id == other) request rows n) stays
]

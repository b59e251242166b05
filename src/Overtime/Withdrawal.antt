-- ===== src/Overtime/Withdrawal.antt =====
-- When a withdrawal returns (apps/api/src/overtime/overtime.service.ts).
use makeup_booking_system.Overtime.Laws.{id-settled_if, settled_if, stage, stage_of}
use makeup_booking_system.Access.{AuthorizationContext, artist_role, assert_role}
use makeup_booking_system.Base.{
  ==_refl, ==→eq, Bool, Bool-cases, List, [], any, ap, arith, err, find, find_holds, if◌then◌else◌,
  inl, inr, is_id, ok, or_throw-eq-ok, refl, some, true, ◌&&◌, ◌+◌, ◌==◌, ◌>>=◌, ◌∙◌, ◌∷◌, ◌≡◌, ℕ,
}
use makeup_booking_system.Booking.Appointments.{append_audit}
use makeup_booking_system.Database.{ArtistOvertime, ArtistProfile, Database, is_pending, withdrawn}
use makeup_booking_system.Errors.{overtime_state_conflict}
use makeup_booking_system.Overtime.{
  WithdrawOvertimeCommand, artist_of, is_pending_at, overtime_by_id, same_overtime, update_overtime,
  withdraw, withdrawn_row,
}
use makeup_booking_system.Overtime.Steps.{withdrawn_row-IsSettling}
use makeup_booking_system.Tables.{
  Apart, any-Apart, count_of-Apart, count_of-none, find-map, update_many,
}
use mathlib.Core.Option

abbrev can_withdraw : ArtistOvertime → ℕ → Bool
can_withdraw o row_version = is_pending o.status && o.row_version == row_version

same_id-same_overtime :
    (id : ℕ) (o p : ArtistOvertime)
    → (o.id == id) ≡ true
    → (p.id == id) ≡ true
    → same_overtime o p ≡ true
unfolding same_overtime
same_id-same_overtime id o p h k = ground arith

-- The rows that the update changes are the request alone, if it may be withdrawn.
any-is_pending_at :
    (rows : List ArtistOvertime) (o : ArtistOvertime) (id row_version : ℕ)
    → Apart same_overtime rows
    → find (λ o. o.id == id) rows ≡ some o
    → any (is_pending_at id row_version) rows ≡ is_pending_at id row_version o
any-is_pending_at rows o id row_version a h =
    any-Apart same_overtime (λ o. o.id == id) (same_id-same_overtime id)
      (is_pending_at id row_version) rows o (λ b k. ground arith) a h

update_overtime-eq :
    (db : Database) (o : ArtistOvertime) (id row_version : ℕ)
    (change : ArtistOvertime → ArtistOvertime)
    → Apart same_overtime db.overtimes
    → find (λ o. o.id == id) db.overtimes ≡ some o
    → update_overtime db id row_version change ≡ (
        if can_withdraw o row_version
        then ok (record db {
          overtimes = update_many (is_pending_at id row_version) change db.overtimes;
        })
        else err overtime_state_conflict)
unfolding update_overtime
update_overtime-eq db o id row_version change a h =
    let is_o : (o.id == id) ≡ true = find_holds (λ o. o.id == id) db.overtimes o h in
    let fits = any-is_pending_at db.overtimes o id row_version a h in
    elim (Bool-cases (can_withdraw o row_version)) [
      | inl y ↦
          let one =
            count_of-Apart same_overtime (is_pending_at id row_version)
              (λ b c k l. same_id-same_overtime id b c (ground arith) (ground arith)) db.overtimes a
              (fits ∙ ground arith) in
          rw (one, y) refl
      | inr n ↦
          rw (count_of-none (is_pending_at id row_version) db.overtimes (fits ∙ ground arith), n)
            refl
    ]

stage_of-update :
    (rows : List ArtistOvertime) (o : ArtistOvertime) (id : ℕ)
    → find (λ o. o.id == id) rows ≡ some o
    → is_pending o.status ≡ true
    → Option.map stage
        (find (λ o. o.id == id) (update_many (is_pending_at id o.row_version) withdrawn_row rows))
      ≡ some (withdrawn, o.row_version + 1)
stage_of-update rows o id h p =
    let is_o : (o.id == id) ≡ true = find_holds (λ o. o.id == id) rows o h in
    let fits : is_pending_at id o.row_version o ≡ true = rw (is_o, p, ==_refl o.row_version) refl in
    rw
      (
        find-map (λ o. o.id == id) (settled_if id o.row_version withdrawn_row)
            (λ b.
              ap (λ n. n == id)
                (id-settled_if id o.row_version withdrawn_row withdrawn_row-IsSettling b))
            rows,
        h,
        fits,
      )
      refl

-- Where no two overtimes share an id or are open for an artist on a date, a withdrawal by the
-- artist of the request settles it as withdrawn in the next version if it is pending in the
-- expected version, and otherwise throws the state conflict.
pub withdraw-eq :
    (db : Database) (context : AuthorizationContext) (command : WithdrawOvertimeCommand)
    (o : ArtistOvertime) (owner : ArtistProfile)
    → assert_role context (artist_role ∷ []) ≡ ok tt
    → Apart same_overtime db.overtimes
    → overtime_by_id db command.overtime_id ≡ ok o
    → artist_of db o ≡ some owner
    → is_id owner.user_id context.user_id ≡ true
    → (withdraw db context command >>= λ d. ok (stage_of d command.overtime_id)) ≡ (
        if is_pending o.status && o.row_version == command.expected_row_version
        then ok (some (withdrawn, o.row_version + 1))
        else err overtime_state_conflict)
unfolding withdraw overtime_by_id append_audit Option.bind
withdraw-eq db context command o owner role a found is_owner own =
    let f = or_throw-eq-ok _ _ found in
    let is_o : o.id ≡ command.overtime_id =
      ==→eq _ _ (find_holds (λ o. o.id == command.overtime_id) db.overtimes o f) in
    rw
      (
        role,
        f,
        is_owner,
        own,
        is_o,
        update_overtime-eq db o command.overtime_id command.expected_row_version withdrawn_row a f,
      )
      (elim (Bool-cases (can_withdraw o command.expected_row_version)) [
        | inl y ↦
            let v : command.expected_row_version ≡ o.row_version = ground arith in
            rw (y, v) (ap ok (stage_of-update db.overtimes o command.overtime_id f (ground arith)))
        | inr n ↦ rw n refl
      ])

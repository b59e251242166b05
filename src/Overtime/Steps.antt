-- ===== src/Overtime/Steps.antt =====
-- The transactions of apps/api/src/overtime/overtime.service.ts that return, and what they write.
use makeup_booking_system.Booking.Appointments.{tables}
use makeup_booking_system.Access.{
  AuthorizationContext, artist_role, assert_role, assert_site_scope, backoffice_roles,
}
use makeup_booking_system.Base.{
  >>=-eq-ok, Bool, Option, [], any, ap, false, guard, if◌then◌else◌, is_id, ok, ok-injective,
  ok-pair, refl, some, sym, throw_if, throw_if-eq-ok, true, ◌==◌, ◌∙◌, ◌∷◌, ◌≡◌, ℕ,
}
use makeup_booking_system.Booking.Appointments.{append_audit}
use makeup_booking_system.Booking.Rows.{count_of, update_many}
use makeup_booking_system.Database.{
  ArtistOvertime, ArtistProfile, Database, Text, approved, is_approved, is_pending, pending,
  artist_overtime_directly_approved, artist_overtime_submitted,
}
use makeup_booking_system.Errors.{
  authorization_denied, overtime_pending_exists, overtime_state_conflict,
}
use makeup_booking_system.Overtime.{
  Decision, OvertimeSummary, ReviewOvertimeCommand, SubmitOvertimeCommand, WithdrawOvertimeCommand,
  active_artist, approve, artist_of, assert_approvable, assert_non_working_day, create_overtime,
  decided, direct_approve, finish_review, is_open_request, is_pending_at, is_reviewable,
  new_overtime, normalized_optional_text, normalized_required_text, overtime_by_id, reject, review,
  reviewed_row, same_overtime, submit, to_overtime_summary, update_overtime, validate_date,
  validate_definition, withdraw, withdrawn_row,
}
use makeup_booking_system.Overtime.Laws.{IsSettling}
use mathlib.Core.Option

-- A transaction that inserts a request.
pub record IsEntered (db db' : Database) : Type 0 where
  pub request : ArtistOvertime
  pub is_new : any (same_overtime request) db.overtimes ≡ false
  pub opened : is_open_request request.status ≡ true
  pub first : request.row_version ≡ 1
  pub after : db'.overtimes ≡ request ∷ db.overtimes
  pub tables_kept : tables db' ≡ tables db
  pub rows_kept : db'.appointments ≡ db.appointments

-- A transaction that settles a pending request.
pub record IsSettled (db db' : Database) : Type 0 where
  pub id : ℕ
  pub row_version : ℕ
  pub change : ArtistOvertime → ArtistOvertime
  pub settling : IsSettling change
  pub after : db'.overtimes ≡ update_many (is_pending_at id row_version) change db.overtimes
  pub tables_kept : tables db' ≡ tables db
  pub rows_kept : db'.appointments ≡ db.appointments

pub create_overtime_inv :
    (db : Database) (context : AuthorizationContext) (request : ArtistOvertime)
    (result : OvertimeSummary) (db' : Database)
    → create_overtime db context request ≡ ok (result, db')
    → (any (same_overtime request) db.overtimes ≡ false)
      × (result ≡ to_overtime_summary request)
      × (db'
          ≡ append_audit
              (record {
                action =
                    if is_approved request.status
                    then artist_overtime_directly_approved
                    else artist_overtime_submitted;
                actor_user_id = some context.user_id;
                object_id = request.id;
                reason = some request.reason;
                site_id = request.site_id;
              })
              (record db { overtimes = request ∷ db.overtimes }))
unfolding create_overtime
create_overtime_inv db context request result db' h =
    let (_, e, k) =
      >>=-eq-ok (throw_if (any (same_overtime request) db.overtimes) overtime_pending_exists) _ h in
    let (x, y) = ok-pair {A = OvertimeSummary} {B = Database} (_, _) (result, db') k in
    (throw_if-eq-ok _ _ e, sym x, sym y)

create_overtime-IsEntered :
    (db : Database) (context : AuthorizationContext) (command : SubmitOvertimeCommand) (site_id : ℕ)
    (reason : Text) (directly : Bool) (now id submitted_at : ℕ) (result : OvertimeSummary)
    (db' : Database)
    → create_overtime db context
        (new_overtime context command site_id reason directly now id submitted_at)
      ≡ ok (result, db')
    → IsEntered db db'
unfolding append_audit new_overtime
create_overtime-IsEntered db context command site_id reason directly now id submitted_at result db'
      h =
    let request = new_overtime context command site_id reason directly now id submitted_at in
    let (n, _, e) = create_overtime_inv db context request result db' h in
    record {
      request = request;
      is_new = n;
      opened = opens directly;
      first = refl;
      after = ap (λ d. d.overtimes) e;
      tables_kept = ap tables e;
      rows_kept = ap (λ d. d.appointments) e;
    }
  where
    opens : (directly : Bool) → is_open_request (if directly then approved else pending) ≡ true
    opens true = refl
    opens false = refl

-- What a submission that returns has passed: the artist found, and the insertion.
pub submit-IsEntered :
    (nfkc : Text → Text) (db : Database) (context : AuthorizationContext)
    (command : SubmitOvertimeCommand) (now id submitted_at : ℕ) (result : OvertimeSummary)
    (db' : Database)
    → submit nfkc db context command now id submitted_at ≡ ok (result, db')
    → IsEntered db db'
unfolding submit
submit-IsEntered nfkc db context command now id submitted_at result db' h =
    let (_, _, h1) = >>=-eq-ok (assert_role context (artist_role ∷ [])) _ h in
    let (_, _, h2) = >>=-eq-ok (validate_date (some command.overtime_date) now) _ h1 in
    let (_, _, h3) = >>=-eq-ok (validate_definition command) _ h2 in
    let (reason, _, h4) = >>=-eq-ok (normalized_required_text nfkc command.reason) _ h3 in
    let (owner, _, h5) = >>=-eq-ok (active_artist db command.artist_id) _ h4 in
    let (_, _, h6) =
      >>=-eq-ok (guard (is_id owner.user_id context.user_id) authorization_denied) _ h5 in
    let (_, _, h7) = >>=-eq-ok (assert_non_working_day db owner.id command.overtime_date) _ h6 in
    create_overtime-IsEntered db context command owner.site.id reason false now id submitted_at
      result db' h7

-- What a direct approval that returns has passed.
pub record IsDirect (nfkc : Text → Text) (db : Database) (context : AuthorizationContext)
    (command : SubmitOvertimeCommand) (now id submitted_at : ℕ) (result : OvertimeSummary)
    (db' : Database) : Type 0 where
  pub dated : validate_date (some command.overtime_date) now ≡ ok tt
  pub defined : validate_definition command ≡ ok tt
  pub reason : Text
  pub owner : ArtistProfile
  pub found : active_artist db command.artist_id ≡ ok owner
  pub idle : assert_non_working_day db owner.id command.overtime_date ≡ ok tt
  pub created :
      create_overtime db context
        (new_overtime context command owner.site.id reason true now id submitted_at)
      ≡ ok (result, db')

pub direct_approve-IsDirect :
    (nfkc : Text → Text) (db : Database) (context : AuthorizationContext)
    (command : SubmitOvertimeCommand) (now id submitted_at : ℕ) (result : OvertimeSummary)
    (db' : Database)
    → direct_approve nfkc db context command now id submitted_at ≡ ok (result, db')
    → IsDirect nfkc db context command now id submitted_at result db'
unfolding direct_approve
direct_approve-IsDirect nfkc db context command now id submitted_at result db' h =
    let (_, _, h1) = >>=-eq-ok (assert_role context backoffice_roles) _ h in
    let (_, e2, h2) = >>=-eq-ok (validate_date (some command.overtime_date) now) _ h1 in
    let (_, e3, h3) = >>=-eq-ok (validate_definition command) _ h2 in
    let (reason, _, h4) = >>=-eq-ok (normalized_required_text nfkc command.reason) _ h3 in
    let (owner, e5, h5) = >>=-eq-ok (active_artist db command.artist_id) _ h4 in
    let (_, _, h6) = >>=-eq-ok (assert_site_scope context owner.site.id) _ h5 in
    let (_, e7, h7) = >>=-eq-ok (assert_non_working_day db owner.id command.overtime_date) _ h6 in
    record {
      dated = e2;
      defined = e3;
      reason = reason;
      owner = owner;
      found = e5;
      idle = e7;
      created = h7;
    }

pub direct_approve-IsEntered :
    (nfkc : Text → Text) (db : Database) (context : AuthorizationContext)
    (command : SubmitOvertimeCommand) (now id submitted_at : ℕ) (result : OvertimeSummary)
    (db' : Database)
    → direct_approve nfkc db context command now id submitted_at ≡ ok (result, db')
    → IsEntered db db'
direct_approve-IsEntered nfkc db context command now id submitted_at result db' h =
    let m = direct_approve-IsDirect nfkc db context command now id submitted_at result db' h in
    create_overtime-IsEntered db context command m.owner.site.id m.reason true now id submitted_at
      result db' m.created

pub update_overtime_inv :
    (db : Database) (id row_version : ℕ) (change : ArtistOvertime → ArtistOvertime) (db' : Database)
    → update_overtime db id row_version change ≡ ok db'
    → db' ≡ record db { overtimes = update_many (is_pending_at id row_version) change db.overtimes }
unfolding update_overtime
update_overtime_inv db id row_version change db' h =
    let (_, _, k) =
      >>=-eq-ok
        (guard (count_of (is_pending_at id row_version) db.overtimes == 1) overtime_state_conflict)
        _ h in
    sym (ok-injective _ db' k)

pub withdrawn_row-IsSettling : IsSettling withdrawn_row
withdrawn_row-IsSettling = record {
  id_kept = λ o. refl;
  artist_kept = λ o. refl;
  date_kept = λ o. refl;
  settled = λ o. refl;
  next = λ o. refl;
}

decided_settled : (decision : Decision) → is_pending (decided decision) ≡ false
decided_settled approve = refl
decided_settled reject = refl

reviewed_row-IsSettling :
    (decision : Decision) (comment : Option Text) (now user_id : ℕ)
    → IsSettling (reviewed_row decision comment now user_id)
reviewed_row-IsSettling decision comment now user_id = record {
  id_kept = λ o. refl;
  artist_kept = λ o. refl;
  date_kept = λ o. refl;
  settled = λ o. decided_settled decision;
  next = λ o. refl;
}

-- A withdrawal settles a request.
pub withdraw-IsSettled :
    (db : Database) (context : AuthorizationContext) (command : WithdrawOvertimeCommand)
    (db' : Database)
    → withdraw db context command ≡ ok db'
    → IsSettled db db'
unfolding withdraw append_audit
withdraw-IsSettled db context command db' h =
    let (_, _, h1) = >>=-eq-ok (assert_role context (artist_role ∷ [])) _ h in
    let (request, _, h2) = >>=-eq-ok (overtime_by_id db command.overtime_id) _ h1 in
    let (_, _, h3) =
      >>=-eq-ok
        (guard (is_id (Option.bind (artist_of db request) (λ a. a.user_id)) context.user_id)
          authorization_denied)
        _ h2 in
    let (d, e, h4) =
      >>=-eq-ok (update_overtime db request.id command.expected_row_version withdrawn_row) _ h3 in
    record {
      id = request.id;
      row_version = command.expected_row_version;
      change = withdrawn_row;
      settling = withdrawn_row-IsSettling;
      after =
          sym (ap (λ d. d.overtimes) (ok-injective _ db' h4))
          ∙ ap (λ d. d.overtimes) (update_overtime_inv db request.id _ withdrawn_row d e);
      tables_kept =
          sym (ap tables (ok-injective _ db' h4))
          ∙ ap tables (update_overtime_inv db request.id _ withdrawn_row d e);
      rows_kept =
          sym (ap (λ d. d.appointments) (ok-injective _ db' h4))
          ∙ ap (λ d. d.appointments) (update_overtime_inv db request.id _ withdrawn_row d e);
    }

finish_review-IsSettled :
    (db : Database) (context : AuthorizationContext) (request : ArtistOvertime)
    (decision : Decision) (comment : Option Text) (now : ℕ) (result : OvertimeSummary)
    (db' : Database)
    → finish_review db context request decision comment now ≡ ok (result, db')
    → IsSettled db db'
unfolding finish_review append_audit
finish_review-IsSettled db context request decision comment now result db' h =
    let change = reviewed_row decision comment now context.user_id in
    let (d, e, k) = >>=-eq-ok (update_overtime db request.id request.row_version change) _ h in
    let (_, y) = ok-pair {A = OvertimeSummary} {B = Database} (_, _) (result, db') k in
    record {
      id = request.id;
      row_version = request.row_version;
      change = change;
      settling = reviewed_row-IsSettling decision comment now context.user_id;
      after =
          sym (ap (λ d. d.overtimes) y)
          ∙ ap (λ d. d.overtimes) (update_overtime_inv db request.id _ change d e);
      tables_kept = sym (ap tables y) ∙ ap tables (update_overtime_inv db request.id _ change d e);
      rows_kept =
          sym (ap (λ d. d.appointments) y)
          ∙ ap (λ d. d.appointments) (update_overtime_inv db request.id _ change d e);
    }

-- A review settles a request.
pub review-IsSettled :
    (nfkc : Text → Text) (db : Database) (context : AuthorizationContext)
    (command : ReviewOvertimeCommand) (now : ℕ) (result : OvertimeSummary) (db' : Database)
    → review nfkc db context command now ≡ ok (result, db')
    → IsSettled db db'
unfolding review
review-IsSettled nfkc db context command now result db' h =
    let (_, _, h1) = >>=-eq-ok (assert_role context backoffice_roles) _ h in
    let (comment, _, h2) = >>=-eq-ok (normalized_optional_text nfkc command.comment) _ h1 in
    let (request, _, h3) = >>=-eq-ok (overtime_by_id db command.overtime_id) _ h2 in
    let (_, _, h4) = >>=-eq-ok (assert_site_scope context request.site_id) _ h3 in
    let (_, _, h5) =
      >>=-eq-ok (throw_if (request.submitted_by_user_id == context.user_id) authorization_denied) _
        h4 in
    let (_, _, h6) =
      >>=-eq-ok
        (guard (is_reviewable db request command.expected_row_version) overtime_state_conflict) _
        h5 in
    let (_, _, h7) = >>=-eq-ok (assert_approvable db request command.decision now) _ h6 in
    finish_review-IsSettled db context request command.decision comment now result db' h7

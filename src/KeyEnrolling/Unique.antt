-- ===== src/KeyEnrolling/Unique.antt =====
-- internal/identity/key.go: what ConfirmKey adds.
use marketplace.Base.{
  ℕ, ◌≡◌, refl, ap, ◌∙◌, Bool, true, false, ◌||◌, ◌==◌, Option, none, some, List, [], ◌∷◌, arith,
  Bytes, is_set, find, select, subst, insert, delete, Bool-cases, inl, inr, ltb, count,
}
use marketplace.Policy.{key, same_method}
use marketplace.Store.{Db, Factor, Enrolment, RecoveryCode}
use marketplace.Service.{Service}
use marketplace.Answering.{Session}
use marketplace.Enrolling.{first_recovery_set, added}
use marketplace.FactorStore.{
  insert_factor, drop_enrolment, enrolment_of, recovery_codes, replace_recovery_codes, factors_of,
}
use marketplace.Tx.{outside, Error, no_enrolment, Visit, record_with, notify, request, or_fail}
use marketplace.Tx.After.{After, After-bind, After-map}
use marketplace.KeyEnrolling.{
  Credential, WebAuthn, is_credential, key_factor, insert_key, key_inserted, key_made, keys_of,
  confirm_key_tx,
}

-- What a key that was added leaves: it was in no table before, it is in this one, and its enrolment is
-- over; a key that was refused leaves nothing.
abbrev pub IsAdded : (Bytes → Bool) → Session → Bytes → ℕ → Db → Option Bool → Db → Type 0
IsAdded elsewhere session label now db none db' = db' ≡ db
IsAdded elsewhere session label now db (some issued) db' =
    (c : Credential) × (elsewhere c.id ≡ false)
    × (is_set (find (is_credential c.id) db.second_factors) ≡ false)
    × (db'.second_factors
        ≡ insert (record (key_factor session.account.id label c now) { id = db.next_id })
            db.second_factors)
    × (find (λ (e : Enrolment). e.session == session.id) db'.enrolments ≡ none)

find-delete_own : (p : Enrolment → Bool) (rows : List Enrolment) → find p (delete p rows) ≡ none
unfolding find delete
find-delete_own p [] = refl
find-delete_own p (r ∷ rows) = let ih = find-delete_own p rows in ground arith

-- The statements that leave the factors and the enrolments as they are.
abbrev IsKept : Db → Db → Type 0
IsKept db db' = (db'.second_factors ≡ db.second_factors) × (db'.enrolments ≡ db.enrolments)

first_recovery_set-IsKept :
    (s : Service) (account : ℕ) (hashes : List Bytes) (db : Db)
    → After (λ issued. IsKept db) (first_recovery_set s account hashes db)
unfolding first_recovery_set recovery_codes replace_recovery_codes
first_recovery_set-IsKept s account hashes db =
    elim (Bool-cases
      (ltb 0 (count (λ (r : RecoveryCode). r.account == account) db.recovery_codes))) [
        | inl some_left ↦ rw some_left (refl, refl)
        | inr first ↦ rw first (refl, refl)
      ]

-- What the insert of a key leaves, where it added a row and where it did not.
abbrev IsInserted : (Bytes → Bool) → Factor → Db → Bool → Db → Type 0
IsInserted elsewhere f db false db' = db' ≡ db
IsInserted elsewhere f db true db' =
    (elsewhere f.credential_id ≡ false)
    × (is_set (find (is_credential f.credential_id) db.second_factors) ≡ false)
    × (db'.second_factors ≡ insert (record f { id = db.next_id }) db.second_factors)

insert_key-once :
    (elsewhere : Bytes → Bool) (f : Factor) (db : Db)
    → After (IsInserted elsewhere f db) (insert_key elsewhere f db)
unfolding insert_key insert_factor
insert_key-once elsewhere f db =
    elim (Bool-cases (
      elsewhere f.credential_id
      || is_set (find (is_credential f.credential_id) db.second_factors))) [
        | inl taken ↦ rw taken refl
        | inr free ↦ rw free (ground arith, ground arith, refl)
      ]

key_inserted-IsKept :
    (s : Service) (v : Visit) (session : Session) (hashes : List Bytes) (db : Db)
    → After
        (λ out db'.
          ((issued : Bool) × (out ≡ some issued))
          × (db'.second_factors ≡ db.second_factors)
          × (find (λ (e : Enrolment). e.session == session.id) db'.enrolments ≡ none))
        (key_inserted s v session hashes true db)
unfolding key_inserted drop_enrolment added notify request record_with
key_inserted-IsKept s v session hashes db =
    let dropped : Db = record db {
      enrolments = delete (λ (e : Enrolment). e.session == session.id) db.enrolments;
    } in
    After-bind (λ issued. IsKept dropped) _ (first_recovery_set s session.account.id hashes) _
      dropped (first_recovery_set-IsKept s session.account.id hashes dropped)
      λ issued mid h. (
        (issued, refl),
        h.0,
        ap (find (λ (e : Enrolment). e.session == session.id)) h.1
            ∙ find-delete_own _ db.enrolments,
      )

key_made-IsAdded :
    (s : Service) (elsewhere : Bytes → Bool) (v : Visit) (session : Session) (label : Bytes)
    (hashes : List Bytes) (now : ℕ) (made : Option Credential) (db : Db)
    → After
        (IsAdded elsewhere session label now db)
        (key_made s elsewhere v session label hashes now made db)
unfolding key_made key_inserted
key_made-IsAdded s elsewhere v session label hashes now none db = refl
key_made-IsAdded s elsewhere v session label hashes now (some c) db =
    let f : Factor = key_factor session.account.id label c now in
    After-bind (IsInserted elsewhere f db) _ (insert_key elsewhere f) _ db
      (insert_key-once elsewhere f db) λ new mid h. next new mid h
  where
    next :
        (new : Bool) (mid : Db)
        → IsInserted elsewhere (key_factor session.account.id label c now) db new mid
        → After (IsAdded elsewhere session label now db) (key_inserted s v session hashes new mid)
    next false mid h = h
    next true mid h =
        After-map _ (IsAdded elsewhere session label now db)
          (key_inserted s v session hashes true mid) (key_inserted-IsKept s v session hashes mid)
          λ out db' k. rw k.0.1 (c, h.0, h.1, k.1 ∙ h.2, k.2)

or_fail-same :
    {A : Type 0} (found : Option A) (e : Error) (db : Db)
    → After (λ a mid. mid ≡ db) (or_fail found e db)
or_fail-same none e db = tt
or_fail-same (some a) e db = refl

enrolment_of-same :
    (session : ℕ) (now : ℕ) (db : Db) → After (λ e mid. mid ≡ db) (enrolment_of session key now db)
unfolding enrolment_of
enrolment_of-same session now db = or_fail-same _ no_enrolment db

-- A key is added by the transaction of ConfirmKey only where its credential's identifier is in no table:
-- then the row of the session's account is the one that is added, the session's enrolment is over, and
-- a key that is refused changes nothing.
pub confirm_key_tx-IsAdded :
    (s : Service) (r : WebAuthn) (elsewhere : Bytes → Bool) (v : Visit) (session : Session)
    (label parsed : Bytes) (hashes : List Bytes) (now : ℕ) (db : Db)
    → After
        (IsAdded elsewhere session label now db)
        (confirm_key_tx s r elsewhere v session label parsed hashes now db)
unfolding confirm_key_tx keys_of factors_of
confirm_key_tx-IsAdded s r elsewhere v session label parsed hashes now db =
    After-bind (λ e mid. mid ≡ db) _ (enrolment_of session.id key now) _ db
      (enrolment_of-same session.id now db)
      λ e mid same.
        After-bind (λ ceremony d. d ≡ mid) _ (or_fail (s.read_ceremony e.ceremony) outside) _ mid
          (or_fail-same (s.read_ceremony e.ceremony) outside mid)
          λ ceremony d still.
            subst
              (λ x. After (IsAdded elsewhere session label now x) (
                key_made s elsewhere v session label hashes now
                  (r.create_credential session.account
                    (select (λ (f : Factor). same_method f.method key)
                      (select (λ (f : Factor). f.account == session.account.id) d.second_factors))
                    ceremony parsed)
                  d))
              (still ∙ same) (key_made-IsAdded s elsewhere v session label hashes now _ d)

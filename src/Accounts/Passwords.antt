-- ===== src/Accounts/Passwords.antt =====
-- internal/identity/identity.go: what a change of password leaves.
use marketplace.Base.{
  ℕ, ◌+◌, ◌≡◌, refl, Bool, not, ◌&&◌, none, some, List, [], ◌∷◌, arith, inl, inr, Option-cases, ok,
  is_set, if◌then◌else◌, ◌==◌, find, count, update, insert, delete, Bytes, same_bytes,
}
use marketplace.Store.{Db, SessionRow, Challenge, Credential}
use marketplace.Service.{Service}
use marketplace.Answering.{Session}
use marketplace.ChallengeStore.{end_sign_ins, session_id, mark_stepped_up}
use marketplace.AccountStore.{
  password_of, password_still, set_password, revoke_sessions, insert_session,
}
use marketplace.Failures.{failures_in, clear_failures}
use marketplace.Failures.Counting.{run-delete}
use marketplace.Accounts.{change_tx, keep_step_up}
use marketplace.Tx.{Visit, record_with, request}

-- A session of the account that is not revoked.
abbrev pub is_open_of : ℕ → SessionRow → Bool
is_open_of account r = (r.account == account) && not (is_set r.revoked_at)

-- A challenge that stands between the account's password and a session.
abbrev pub is_sign_in_of : ℕ → Challenge → Bool
is_sign_in_of account r = (r.account == account) && (r.session == 0)

open-revoked :
    (account now : ℕ) (rows : List SessionRow)
    → count (is_open_of account) (
        update
          (is_open_of account)
          (λ r. record r { revoked_at = some now; revoked_reason = "password_changed" })
          rows)
      ≡ 0
unfolding count update
open-revoked account now [] = refl
open-revoked account now (r ∷ rs) = ground (arith, open-revoked account now rs)

open-insert :
    (account : ℕ) (row : SessionRow) (rows : List SessionRow)
    → count (is_open_of account) (insert row rows)
      ≡ count (is_open_of account) rows + (if is_open_of account row then 1 else 0)
unfolding count insert
open-insert account row [] = omega arith
open-insert account row (r ∷ rs) = ground (arith, open-insert account row rs)

-- A mark on a session leaves it as open as it was.
open-stepped :
    (account id at : ℕ) (rows : List SessionRow)
    → count
        (is_open_of account)
        (update (λ r. r.id == id) (λ r. record r { stepped_up = some at }) rows)
      ≡ count (is_open_of account) rows
unfolding count update
open-stepped account id at [] = refl
open-stepped account id at (r ∷ rs) = ground (arith, open-stepped account id at rs)

sign_ins-delete :
    (account : ℕ) (rows : List Challenge)
    → count (is_sign_in_of account) (delete (is_sign_in_of account) rows) ≡ 0
unfolding count delete
sign_ins-delete account [] = refl
sign_ins-delete account (r ∷ rs) = ground (arith, sign_ins-delete account rs)

secret-set :
    (account : ℕ) (secret : Bytes) (rows : List Credential)
    → find
        (λ (r : Credential). r.account == account)
        (insert
          (record { account = account; secret = secret })
          (delete (λ (r : Credential). r.account == account) rows))
      ≡ some (record { account = account; secret = secret })
unfolding find insert delete
secret-set account secret [] = ground arith
secret-set account secret (r ∷ rs) = ground (arith, secret-set account secret rs)

-- A committed change of password leaves the account with the new password, with one open session,
-- with no sign-in waiting for its second step, and with no run of wrong second factors.
pub change_tx_lem :
    (s : Service) (v : Visit) (session : Session) (secret fresh token result : Bytes) (now : ℕ)
    (db db' : Db)
    → change_tx s v session secret fresh token now db ≡ ok (result, db')
    → (password_of session.account.id db' ≡ ok (fresh, db'))
      × (count (is_open_of session.account.id) db'.sessions ≡ 1)
      × (count (is_sign_in_of session.account.id) db'.challenges ≡ 0)
      × (failures_in session.account.id db' ≡ 0)
unfolding change_tx keep_step_up password_still password_of set_password revoke_sessions
    insert_session end_sign_ins clear_failures failures_in record_with request session_id
    mark_stepped_up
change_tx_lem s v session secret fresh token result now db db' h =
    let id = session.account.id in
    let opened : SessionRow = record {
      id = db.next_id;
      account = id;
      hash = s.crypto.sha256 token;
      ip = v.ip;
      user_agent = v.user_agent;
      created = now;
      seen = now;
      stepped_up = none;
      email_proved = none;
      revoked_at = none;
      revoked_reason = "";
    } in
    let a = secret-set id fresh db.credentials in
    let b = sign_ins-delete id db.challenges in
    let c = run-delete id db.failures in
    let closed =
      update (is_open_of id)
        (λ (r : SessionRow). record r {
          revoked_at = some now;
          revoked_reason = "password_changed";
        })
        db.sessions in
    let d = open-insert id opened closed in
    let e = open-revoked id now db.sessions in
    elim (Option-cases session.stepped_up_at) [
      | inl never ↦ ground arith
      | inr (at, when) ↦
          elim (Option-cases (
            find (λ (r : SessionRow). same_bytes r.hash (s.crypto.sha256 token))
              (insert opened closed))) [
                | inl missing ↦ ground arith
                | inr (row, found) ↦
                    let f = open-stepped id row.id at (insert opened closed) in ground arith
              ]
    ]

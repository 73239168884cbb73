-- ===== src/Accounts.antt =====
-- internal/identity/identity.go and staff.go: creating and confirming an account, and changing its
-- password. The argon2 hash takes the salt that is drawn for it as an argument.
pub mod Passwords
use marketplace.Base.{
  ℕ, ◌+◌, ◌<◌, Bool, true, false, not, ◌&&◌, ◌||◌, Option, none, some, List, [], ◌∷◌, ltb,
  if◌then◌else◌, Bytes, is_set, Outcome, ok, err, String, same_bytes, find,
}
use marketplace.Policy.{Action, password}
use marketplace.Store.{Db, Account, SessionRow, Detail}
use marketplace.Service.{Service}
use marketplace.ChallengeStore.{end_sign_ins, mark_stepped_up, session_id}
use marketplace.AccountStore.{
  days, account_by_email, set_password, password_of, password_still, insert_session,
  revoke_sessions, insert_account, insert_staff, insert_verification, consume_verification,
}
use marketplace.Failures.{clear_failures}
use marketplace.Credentials.{
  max_password_bytes, byte_len, check_name, check_new, normalise_email, trim_space,
}
use marketplace.Answering.{Session, needs_step_up}
use marketplace.Tx.{
  Error, credentials, outside, token_invalid, step_up_needed, visit_scope, address_taken, Tx, Flow,
  Visit, World, ◌>>=◌, ◌>>◌, pure, fail, gets, or_fail, within, record_with, request, notify, taken,
  no_rows,
}

abbrev pub verification_lifetime : ℕ
verification_lifetime = days 1

-- `err` goes on to the caller, as `if err != nil { return err }` does.
abbrev pub and_then : {A B : Type 0} → Outcome Error A → (A → Flow B) → Flow B
and_then (ok a) f w = f a w
and_then (err e) f w = (err e, w)

abbrev pub unless : {B : Type 0} → Option Error → Flow B → Flow B
unless none f w = f w
unless (some e) f w = (err e, w)

-- The mail with a confirmation's link, and the one to an address that has an account.
verify_mail : Visit → Bytes → Bytes → Bytes → Tx (Unit {0})
verify_mail v to name token =
    request v "verify-email" to (Detail.name name ∷ Detail.link token ∷ [])

exists_mail : Visit → Option Account → Tx (Unit {0})
exists_mail v existing = do
  account ← or_fail existing no_rows
  request v "account-exists" account.email
      (Detail.name account.name ∷ Detail.sign_in_link v.base_url ∷ [])

-- The transaction of `SignUp`: what an address that is taken does is a branch of it.
unfoldable pub sign_up_tx :
    Service → Visit → Bytes → Bytes → Bytes → Bytes → Bytes → ℕ → Tx (Unit {0})
unfolding verify_mail exists_mail
sign_up_tx s v name email normalised secret token now db =
    elim (insert_account (trim_space email) normalised name db) [
      | err e ↦ (do existing ← account_by_email normalised; exists_mail v existing) db
      | ok (id, db') ↦
          (do
            set_password id secret
            insert_verification id (s.crypto.sha256 token) (now + verification_lifetime)
            verify_mail v (trim_space email) name token
            record_with v id "identity.signup" [])
            db'
    ]

unfoldable pub sign_up :
    Service → Visit → Bytes → Bytes → Bytes → Bytes → Bytes → ℕ → Flow (Unit {0})
sign_up s v given email typed salt token now = and_then (check_name given) λ name.
    and_then (normalise_email s email) λ normalised.
      unless (check_new s typed)
        (within v (sign_up_tx s v name email normalised (s.hash_password salt typed) token now))

unfoldable pub verify_account : Service → Visit → Bytes → ℕ → Flow (Unit {0})
verify_account s v token now = within v λ db.
    elim (consume_verification (s.crypto.sha256 token) now db) [
      | err e ↦ err token_invalid
      | ok (account, db') ↦ record_with v account "identity.email_verified" [] db'
    ]

resend_tx : Service → Visit → Bytes → ℕ → Option Account → Tx (Unit {0})
resend_tx s v token now none = pure tt
resend_tx s v token now (some account) = if is_set account.verified_at then pure tt else do
  insert_verification account.id (s.crypto.sha256 token) (now + verification_lifetime)
  verify_mail v account.email account.name token

unfoldable pub resend : Service → Visit → Bytes → Bytes → ℕ → Flow (Unit {0})
unfolding resend_tx verify_mail
resend s v email token now w = elim (normalise_email s email) [
  | err e ↦ (ok tt, w)
  | ok normalised ↦
      within v (do found ← account_by_email normalised; resend_tx s v token now found) w
]

-- The step-up that the old session proved goes on in the new one.
keep_step_up : Bytes → Option ℕ → Tx (Unit {0})
keep_step_up hash none = pure tt
keep_step_up hash (some at) = do id ← session_id hash; mark_stepped_up id at

-- The second transaction of `ChangePassword`.
unfoldable pub change_tx : Service → Visit → Session → Bytes → Bytes → Bytes → ℕ → Tx Bytes
unfolding keep_step_up
change_tx s v session secret fresh token now = do
  still ← password_still session.account.id secret
  if not still then fail credentials else do
    end_sign_ins session.account.id
    set_password session.account.id fresh
    revoke_sessions session.account.id now
    insert_session session.account.id (s.crypto.sha256 token) v.ip v.user_agent now
    keep_step_up (s.crypto.sha256 token) session.stepped_up_at
    record_with v session.account.id "identity.password_changed" []
    request v "password-changed" session.account.email (Detail.name session.account.name ∷ [])
    clear_failures session.account.id
    pure token

unfoldable pub change_password :
    Service → Visit → Session → Bytes → Bytes → Bytes → Bytes → ℕ → ℕ → Flow Bytes
change_password s v session current next salt token now later w =
    if ltb max_password_bytes (byte_len current)
    then (err credentials, w)
    else if needs_step_up session password now
    then (err step_up_needed, w)
    else unless (check_new s next)
        (λ w1.
          let (found, w2) = within v (password_of session.account.id) w1 in
          and_then found
            (λ secret w3. elim (s.verify current secret) [
              | none ↦ (err outside, w3)
              | some (match, _) ↦
                  if match
                  then within v
                      (change_tx s v session secret (s.hash_password salt next) token later) w3
                  else (err credentials, w3)
            ])
            w2)
        w

-- staff.go: CreateStaff, with what the caller does in the same transaction.
unfoldable pub sign_staff_in : Service → Visit → Bytes → ℕ → ℕ → Tx Bytes
sign_staff_in s v token now id = do
  record_with v id "identity.staff_created" []
  insert_session id (s.crypto.sha256 token) v.ip v.user_agent now
  record_with v id "identity.signin" []
  pure token

abbrev pub staff_inserted :
    Service
    → Visit
    → Bytes
    → Bytes
    → (ℕ → Tx (Unit {0}))
    → ℕ
    → Outcome Error (ℕ × Db)
    → Outcome Error (Bytes × Db)
staff_inserted s v secret token hook now (err e) = err address_taken
staff_inserted s v secret token hook now (ok (id, db)) =
    (do set_password id secret; hook id; sign_staff_in s v token now id) db

unfoldable pub create_staff_tx :
    Service → Visit → Bytes → Bytes → Bytes → Bytes → Bytes → (ℕ → Tx (Unit {0})) → ℕ → Tx Bytes
create_staff_tx s v name email normalised secret token hook now db =
    staff_inserted s v secret token hook now
      (insert_staff (trim_space email) normalised name now db)

unfoldable pub create_staff :
    Service → Visit → Bytes → Bytes → Bytes → Bytes → Bytes → (ℕ → Tx (Unit {0})) → ℕ → Flow Bytes
create_staff s v given email typed salt token hook now w =
    if not v.platform
    then (err visit_scope, w)
    else and_then (check_name given)
        (λ name. and_then (normalise_email s email) λ normalised. unless (check_new s typed) (
          within v (
            create_staff_tx s v name email normalised (s.hash_password salt typed) token hook now)))
        w

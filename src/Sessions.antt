-- ===== src/Sessions.antt =====
-- internal/identity/identity.go: signing in and out, authenticating a session, changing a password
-- and the sweep. Where the source reads the clock in each transaction, one argument stands for each
-- reading; the tokens that NewToken draws are arguments too.
pub mod Ending
pub mod SecondStep
use marketplace.Base.{
  ℕ, ◌+◌, ◌<◌, Bool, true, false, not, ◌&&◌, ◌||◌, Option, none, some, List, [], ◌∷◌, ◌==◌, ltb,
  leb, if◌then◌else◌, Bytes, is_set, Outcome, ok, err, String,
}
use marketplace.Policy.{UserKind, staff, Action, password, nothing}
use marketplace.Store.{Db, Account, SessionRow, Detail}
use marketplace.Service.{Service}
use marketplace.FactorStore.{count_factors}
use marketplace.ChallengeStore.{insert_challenge, end_sign_ins, mark_stepped_up, session_id}
use marketplace.AccountStore.{
  days, session_idle, session_lifetime, touch_every, account_by_email, account_by_id, set_password,
  password_of, password_still, insert_session, live_session, has_second_factor, touch_session,
  revoke_session, sweep_sessions, revoke_sessions, insert_account, insert_verification,
  consume_verification, insert_staff,
}
use marketplace.EmailCode.{hour}
use marketplace.Failures.{clear_failures}
use marketplace.Credentials.{
  max_password_bytes, byte_len, check_name, check_new, normalise_email, trim_space,
}
use marketplace.Answering.{Session, needs_step_up}
use marketplace.Tx.{
  Error, credentials, unverified, outside, session_invalid, token_invalid, step_up_needed,
  visit_scope, address_taken, Tx, Flow, Visit, World, ◌>>=◌, ◌>>◌, pure, fail, gets, or_fail,
  within, refusal_with, record_with, request, taken, no_rows,
}

-- What a sign-in opened: a session, or a challenge with ErrSecondStep.
pub data Opened : Type 0 where
  signed_in second_step : Bytes → Opened

-- (*Service).sweep: the time of the last sweep is the process's. `lastSweep` is the zero time until
-- the first, which is more than an hour before any moment.
unfoldable pub sweep : Visit → ℕ → World → World
sweep v now w =
    if leb (w.last_sweep + hour) now
    then (within v (sweep_sessions now) (record w { last_sweep = now })).1
    else w

-- The transaction that writes a session or a challenge.
unfoldable pub open_tx : Service → Visit → Account → Bytes → Option Bytes → Bytes → ℕ → Tx Opened
open_tx s v account secret rehashed token now = do
  still ← password_still account.id secret
  if not still then fail credentials else do
    elim rehashed [ none ↦ pure tt | some fresh ↦ set_password account.id fresh ]
    n ← count_factors account.id
    if ltb 0 n
        then insert_challenge account.id (s.crypto.sha256 token) 0 nothing now
          >> pure (second_step token)
        else insert_session account.id (s.crypto.sha256 token) v.ip v.user_agent now
          >> record_with v account.id "identity.signin" []
          >> pure (signed_in token)

-- What follows the transaction: only a session that was opened sweeps.
after_open : Visit → ℕ → Outcome Error Opened × World → Outcome Error Opened × World
after_open v later (ok (signed_in token), w) = (ok (signed_in token), sweep v later w)
after_open v later (ok (second_step token), w) = (ok (second_step token), w)
after_open v later (err e, w) = (err e, w)

-- The verified password's part of `SignIn`.
verified_sign_in :
    Service → Visit → Bytes → Bytes → Account → Bytes → Bytes → ℕ → ℕ → Bool × Bool → Flow Opened
verified_sign_in s v typed salt account secret token now later (match, stale) w =
    if not match
    then (let (result, w') = within v (refusal_with v account.id "identity.signin_failed" []) w in
        (elim result [ ok _ ↦ err credentials | err e ↦ err e ], w'))
    else if not (is_set account.verified_at)
    then (err unverified, w)
    else after_open v later (
        within v
          (open_tx s v account secret (if stale then some (s.hash_password salt typed) else none)
            token now)
          w)

-- `credentials`: the account of an address and its password, in one transaction.
unfoldable pub credentials_of : Bytes → Tx (Option (Account × Bytes))
credentials_of normalised = do
  found ← account_by_email normalised
  elim found [
    | none ↦ pure none
    | some account ↦ (do secret ← password_of account.id; pure (some (account, secret)))
  ]

checked_sign_in :
    Service
    → Visit
    → Bytes
    → Bytes
    → Bytes
    → ℕ
    → ℕ
    → Outcome Error (Option (Account × Bytes))
    → Flow Opened
checked_sign_in s v typed salt token now later (err e) w = (err e, w)
checked_sign_in s v typed salt token now later (ok none) w = (err credentials, w)
checked_sign_in s v typed salt token now later (ok (some (account, secret))) w =
    elim (s.verify typed secret) [
      | none ↦ (err outside, w)
      | some matched ↦ verified_sign_in s v typed salt account secret token now later matched w
    ]

-- (*Service).SignIn
unfoldable pub sign_in : Service → Visit → Bytes → Bytes → Bytes → Bytes → ℕ → ℕ → Flow Opened
unfolding after_open verified_sign_in checked_sign_in
sign_in s v email typed salt token now later w =
    if ltb max_password_bytes (byte_len typed)
    then (err credentials, w)
    else elim (normalise_email s email) [
      | err _ ↦ (err credentials, w)
      | ok normalised ↦
          let (found, w') = within v (credentials_of normalised) w in
          checked_sign_in s v typed salt token now later found w'
    ]

-- (*Service).end: SignOut's reason is "signout", Supersede's "replaced".
unfoldable pub end_session : Service → Visit → Bytes → String → String → ℕ → Flow (Unit {0})
end_session s v token reason action now = within v do
  ended ← revoke_session (s.crypto.sha256 token) reason now
  elim ended [ none ↦ pure tt | some row ↦ record_with v row.account action [] ]

unfoldable pub sign_out : Service → Visit → Bytes → ℕ → Flow (Unit {0})
unfolding end_session
sign_out s v token now = end_session s v token "signout" "identity.signout" now

unfoldable pub supersede : Service → Visit → Bytes → ℕ → Flow (Unit {0})
unfolding end_session
supersede s v token now = end_session s v token "replaced" "identity.session_replaced" now

-- Whether a session's row is idle or past its life: `now.Sub(at) > limit`.
abbrev pub is_expired : ℕ → SessionRow → Bool
is_expired now r = ltb (r.seen + session_idle) now || ltb (r.created + session_lifetime) now

-- The transaction of `authenticate`.
unfoldable pub authenticate_tx : Bytes → ℕ → Tx Session
authenticate_tx hash now = do
  found ← live_session hash
  row ← or_fail found session_invalid
  if is_expired now row then fail session_invalid else do
    factor ← has_second_factor row.account
    if ltb (row.seen + touch_every) now then touch_session row.id now else pure tt
    account ← account_by_id row.account
    pure (record {
      id = row.id;
      account = account;
      second_factor = factor;
      stepped_up_at = row.stepped_up;
      email_confirmed_at = row.email_proved;
    })

unfoldable pub authenticate : Service → Visit → Bytes → ℕ → Flow Session
authenticate s v token now = within v (authenticate_tx (s.crypto.sha256 token) now)

abbrev is_staff : UserKind → Bool
is_staff staff = true
is_staff _ = false

-- (*Service).AuthenticateStaff, on a platform visit
unfoldable pub authenticate_staff : Service → Visit → Bytes → ℕ → Flow Session
authenticate_staff s v token now w =
    let (result, w') = authenticate s v token now w in
    (
      elim result [
        | err e ↦ err e
        | ok session ↦ if is_staff session.account.kind then ok session else err session_invalid
      ],
      w',
    )

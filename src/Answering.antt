-- ===== src/Answering.antt =====
-- internal/identity/challenge.go and stepup.go: answering a challenge, at sign-in and at a step-up,
-- and opening a step-up. `now` and `at` are the two readings of the clock that an answer makes.
pub mod Inversion
pub mod Done
pub mod Guesses
pub mod Tries
pub mod StepUps
use marketplace.Base.{
  ℕ, ◌+◌, ◌<◌, Bool, true, false, not, ◌&&◌, ◌||◌, Option, none, some, List, [], ◌∷◌, ◌==◌, ltb,
  leb, if◌then◌else◌, Bytes, is_set, Outcome, ok, err, String,
}
use marketplace.Policy.{
  UserKind, Method, key, app, email, recovery, Action, factors, nothing, step_up_for, StepUp,
  contains, same_method,
}
use marketplace.Store.{Db, Account, Challenge, Detail, Purpose}
use marketplace.Service.{Service}
use marketplace.FactorStore.{recovery_codes}
use marketplace.ChallengeStore.{
  challenge_attempts, challenge_attempt, spend_challenge, insert_challenge, mark_stepped_up,
  mark_email_confirmed, session_id, minutes,
}
use marketplace.AccountStore.{insert_session}
use marketplace.Failures.{Offer, locks, second_factor, clear_failures, failed}
use marketplace.EmailCode.{send_code, purpose_of, has_email_factor}
use marketplace.Challenge.{Answer, challenge, offers, check_offered}
use marketplace.Tx.{
  Error, challenge_exhausted, codes_locked, code_wrong, no_second_factor, not_permitted, Tx, Flow,
  Visit, World, ◌>>=◌, ◌>>◌, pure, fail, gets, within, refusal_with, record_with, notify,
}

-- What the transaction of an answer commits: the result of a right one, or that it was wrong, with
-- whether the lock refused it and whether it was the challenge's last attempt.
pub data Verdict (A : Type 0) : Type 0 where
  right : A → Verdict A
  wrong : (locked exhausted : Bool) → Verdict A

unfoldable pub recovery_used : Visit → Account → Purpose → Tx (Unit {0})
recovery_used v account purpose = do
  codes ← recovery_codes account.id
  record_with v account.id "identity.recovery_code_used" (Detail.left codes.1 ∷ [])
  notify v account "recovery-code-used" (Detail.left codes.1 ∷ Detail.purpose purpose ∷ [])

module _ {A : Type 0} (s : Service) (v : Visit) (token : Bytes) (answer : Answer) (now : ℕ) where
  unfoldable pub wrong_answer : Account → Offer → Tx (Verdict A)
  wrong_answer account o = do
    attempts ← challenge_attempt (s.crypto.sha256 token) now
    refusal_with v account.id "identity.second_factor_failed" (Detail.method answer.method ∷ [])
    if second_factor o answer.method then failed v account else pure tt
    pure (wrong (locks o.codes_locked answer.method) (leb challenge_attempts attempts))

  unfoldable pub right_answer :
      (Challenge → Account → ℕ → Tx A) → Challenge → Account → Offer → Tx (Verdict A)
  unfolding recovery_used
  right_answer finish ch account o = do
    spend_challenge (s.crypto.sha256 token) now
    if same_method answer.method recovery then recovery_used v account (purpose_of ch) else pure tt
    result ← finish ch account now
    if second_factor o answer.method then clear_failures account.id else pure tt
    pure (right result)

  -- The transaction of `answerChallenge`.
  unfoldable pub answer_tx : ℕ → ℕ → (Challenge → Account → ℕ → Tx A) → Tx (Verdict A)
  answer_tx at session finish = do
    opened ← challenge s token session at
    let (ch, account) = opened
    o ← offers account ch.action
    proved ← check_offered s v account ch o answer now
    if proved then right_answer finish ch account o else wrong_answer account o

-- What the caller reads once the transaction has committed.
unfoldable pub judge : {A : Type 0} → Outcome Error (Verdict A) → Outcome Error A
judge (err e) = err e
judge (ok (right a)) = ok a
judge (ok (wrong locked exhausted)) =
    err (if exhausted then challenge_exhausted else if locked then codes_locked else code_wrong)

unfoldable pub answer_challenge :
    {A : Type 0}
    → Service
    → Visit
    → Bytes
    → Answer
    → ℕ
    → ℕ
    → ℕ
    → (Challenge → Account → ℕ → Tx A)
    → Flow A
answer_challenge s v token answer now at session finish w =
    let (result, w') = within v (answer_tx s v token answer now at session finish) w in
    (judge result, w')

-- What a completed second step opened; the session's token is the caller's `fresh`.
pub record SignedIn : Type 0 where
  pub session : Bytes
  pub recovery : Bool
  pub recovery_left : ℕ

-- The closure of `CompleteSignIn`.
unfoldable pub open_session :
    Service → Visit → Bytes → Answer → Challenge → Account → ℕ → Tx SignedIn
open_session s v fresh answer ch account now = do
  insert_session account.id (s.crypto.sha256 fresh) v.ip v.user_agent now
  id ← session_id (s.crypto.sha256 fresh)
  mark_stepped_up id now
  left ←
      (if same_method answer.method recovery
        then (do codes ← recovery_codes account.id; pure codes.1)
        else pure 0)
  record_with v account.id "identity.signin" (Detail.method answer.method ∷ [])
  pure (record {
    session = fresh;
    recovery = same_method answer.method recovery;
    recovery_left = left;
  })

-- `fresh` is the token that NewToken draws. The sweep that follows is `sweep` of Sessions.
unfoldable pub complete_sign_in : Service → Visit → Bytes → Bytes → Answer → ℕ → ℕ → Flow SignedIn
complete_sign_in s v fresh token answer now at =
    answer_challenge s v token answer now at 0 (open_session s v fresh answer)

-- The closure of `StepUp`.
unfoldable pub mark_session : Visit → ℕ → Answer → Challenge → Account → ℕ → Tx (Unit {0})
mark_session v session answer ch account now = do
  factor ← (if same_method answer.method email then has_email_factor account.id else pure true)
  if factor
      then mark_stepped_up session now
        >> record_with v account.id "identity.stepped_up"
            (Detail.method answer.method ∷ Detail.action ch.action ∷ [])
      else mark_email_confirmed session now
        >> record_with v account.id "identity.email_confirmed"
            (Detail.method answer.method ∷ Detail.action ch.action ∷ [])

unfoldable pub step_up : Service → Visit → ℕ → Bytes → Answer → ℕ → ℕ → Flow (Unit {0})
step_up s v session token answer now at =
    answer_challenge s v token answer now at session (mark_session v session answer)

-- A signed-in request's account (identity.go, Session).
pub record Session : Type 0 where
  pub id : ℕ
  pub account : Account
  pub second_factor : Bool
  pub stepped_up_at : Option ℕ
  pub email_confirmed_at : Option ℕ

abbrev pub step_up_lifetime : ℕ
step_up_lifetime = minutes 10

-- `now - at < StepUpLifetime`, also for a moment after `now`.
abbrev pub recent : ℕ → Option ℕ → Bool
recent now none = false
recent now (some at) = ltb now (at + step_up_lifetime)

-- (*Service).NeedsStepUp
unfoldable pub needs_step_up : Session → Action → ℕ → Bool
needs_step_up session action now =
    let asks = step_up_for session.account.kind action session.second_factor in
    if not asks.asked || recent now session.stepped_up_at
    then false
    else not asks.email || not (recent now session.email_confirmed_at)

abbrev is_empty : List Method → Bool
is_empty [] = true
is_empty (_ ∷ _) = false

-- `token` is the token that NewToken draws, and the result.
unfoldable pub begin_step_up : Service → Visit → Session → Action → Bytes → ℕ → Flow Bytes
begin_step_up s v session action token now = within v do
  o ← offers session.account action
  if is_empty o.methods && not o.recovery_left && not o.codes_locked
      then fail no_second_factor
      else insert_challenge session.account.id (s.crypto.sha256 token) session.id action now
        >> pure token

-- What a challenge's page shows.
pub record Pending : Type 0 where
  pub methods : List Method
  pub recovery : Bool
  pub action : Action
  pub codes_locked : Bool

unfoldable pub pending : Service → Visit → Bytes → ℕ → ℕ → Flow Pending
pending s v token session at = within v do
  opened ← challenge s token session at
  let (ch, account) = opened
  o ← offers account ch.action
  pure (record {
    methods = o.methods;
    recovery = o.recovery_left;
    action = ch.action;
    codes_locked = o.codes_locked;
  })

-- emailcode.go: `n` is the random number of the code.
unfoldable pub send_challenge_code : Service → Visit → Bytes → ℕ → ℕ → ℕ → ℕ → Flow (Unit {0})
send_challenge_code s v token session n now at = within v do
  opened ← challenge s token session at
  let (ch, account) = opened
  o ← offers account ch.action
  if contains o.methods email
      then send_code s.crypto v account (purpose_of ch) n now
      else fail (if o.codes_locked then codes_locked else not_permitted)

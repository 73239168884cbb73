-- ===== src/Challenge.antt =====
-- internal/identity/challenge.go and the answer of a key in key.go: what a challenge offers, how an
-- answer is checked, and what a right and a wrong answer do. The source reads the clock twice when
-- it answers: `at` for the challenge's lifetime and `now` for all else.
pub mod Done
pub mod Frame
pub mod Locked
pub mod Codes
use marketplace.Base.{
  ℕ, ◌+◌, Bool, true, false, not, ◌&&◌, ◌||◌, Option, none, some, List, [], ◌∷◌, ◌++◌, ◌==◌, ltb,
  leb, if◌then◌else◌, Bytes, same_bytes, is_set, find, update, Outcome, ok, err, String,
}
use marketplace.Policy.{
  Method, key, app, email, recovery, Use, verify, Action, nothing, permits, step_up_for, StepUp,
  contains, strongest, same_method,
}
use marketplace.Totp.{match_totp}
use marketplace.Recovery.{recovery_hash}
use marketplace.Store.{Db, Account, Factor, Challenge, Detail, Purpose}
use marketplace.Service.{Service, Sealer, KeyLogin}
use marketplace.FactorStore.{factors_of, recovery_codes}
use marketplace.ChallengeStore.{
  challenge_attempts, challenge_for_update, challenge_attempt, spend_challenge, apps_for_update,
  keys_for_update, used_app, use_recovery_code,
}
use marketplace.AccountStore.{account_by_id}
use marketplace.Failures.{
  Offer, failures_locked, locks, second_factor, second_factor_failures, clear_failures, failed,
}
use marketplace.EmailCode.{use_email_code, purpose_of}
use marketplace.Tx.{
  Error, outside, no_sealer, challenge_invalid, challenge_exhausted, codes_locked, code_wrong, Tx,
  Flow, Visit, ◌>>=◌, ◌>>◌, pure, fail, gets, modify, or_fail, within, refusal_with, record_with,
  notify,
}

pub record Answer : Type 0 where
  pub method : Method
  pub code : Bytes
  pub key : Bytes

abbrev is_nothing : Action → Bool
is_nothing nothing = true
is_nothing _ = false

-- The loop of `offers` over the account's factors.
permitted : Account → Bool → List Factor → List Method
permitted account locked [] = []
permitted account locked (f ∷ fs) =
    let rest = permitted account locked fs in
    if permits account.kind f.method verify && not (locks locked f.method)
    then f.method ∷ rest
    else rest

email_among : List Factor → Bool
email_among [] = false
email_among (f ∷ fs) = same_method f.method email || email_among fs

-- len(factors) > 0
abbrev has_any : List Factor → Bool
has_any [] = false
has_any (_ ∷ _) = true

-- What the challenge accepts, from the account's factors, its run of failures and its codes left.
unfoldable pub offer_of : Account → Action → List Factor → ℕ → ℕ → Offer
unfolding permitted email_among
offer_of account action factors failures left =
    let locked = leb failures_locked failures in
    let by_mail =
      not (is_nothing action)
      && (step_up_for account.kind action (has_any factors)).email
      && not locked in
    record {
      methods =
          strongest (permitted account locked factors ++ (if by_mail then email ∷ [] else []));
      recovery_left = ltb 0 left;
      email_factor = email_among factors;
      codes_locked = locked;
    }

unfoldable pub offers : Account → Action → Tx Offer
offers account action = do
  factors ← factors_of account.id
  failures ← second_factor_failures account.id
  codes ← recovery_codes account.id
  pure (offer_of account action factors failures codes.1)

-- (*Service).challenge: the live challenge of a token, for the session that it names.
unfoldable pub challenge : Service → Bytes → ℕ → ℕ → Tx (Challenge × Account)
challenge s token session at db = elim (challenge_for_update (s.crypto.sha256 token) at db) [
  | err e ↦ err challenge_invalid
  | ok (ch, db') ↦
      if ch.session == session
      then (do account ← account_by_id ch.account; pure (ch, account)) db'
      else err challenge_invalid
]

-- app.LastStep, 0 where it is NULL.
abbrev last_of : Option ℕ → ℕ
last_of none = 0
last_of (some step) = step

-- The loop of `checkApp`.
try_apps : Service → Sealer → ℕ → Bytes → ℕ → List Factor → Tx Bool
try_apps s sealer account code now [] = pure false
try_apps s sealer account code now (a ∷ rest) = do
  secret ← or_fail (sealer.open_for account a.secret) outside
  elim (match_totp s.crypto secret code now (last_of a.last_step)) [
    | some step ↦ used_app a.id step now >> pure true
    | none ↦ try_apps s sealer account code now rest
  ]

unfoldable pub check_app : Service → ℕ → Bytes → ℕ → Tx Bool
unfolding try_apps
check_app s account code now = do
  sealer ← or_fail s.sealer no_sealer
  apps ← apps_for_update account
  try_apps s sealer account code now apps

-- The loop of `checkKey` over the account's keys, and what it does with the one that answered.
login_key : Visit → Account → KeyLogin → ℕ → List Factor → Tx Bool
login_key v account login now [] = pure false
login_key v account login now (k ∷ ks) =
    if not (same_bytes k.credential_id login.credential_id)
    then login_key v account login now ks
    else if login.clone_warning
    then (do
      refusal_with v account.id "identity.second_factor_clone_suspected"
          (Detail.stored k.sign_count ∷ Detail.presented login.presented ∷ [])
      pure false)
    else (do
      modify λ db. record db {
        second_factors =
            update (λ f. f.id == k.id)
              (λ f. record f {
                sign_count = login.sign_count;
                flags = login.flags;
                last_used_at = some now;
              })
              db.second_factors;
      }
      pure true)

login_with : Visit → Account → ℕ → List Factor → Option KeyLogin → Tx Bool
login_with v account now keys none = pure false
login_with v account now keys (some login) = login_key v account login now keys

parsed_key : Service → Visit → Account → Challenge → ℕ → Option Bytes → Tx Bool
parsed_key s v account ch now none = pure false
parsed_key s v account ch now (some parsed) = do
  ceremony ← or_fail (s.read_ceremony ch.ceremony) outside
  if not (s.has_host v.base_url) then fail outside else do
    keys ← keys_for_update account.id
    login_with v account now keys (s.validate_login keys ceremony parsed)

unfoldable pub check_key : Service → Visit → Account → Challenge → Bytes → ℕ → Tx Bool
unfolding login_key login_with parsed_key
check_key s v account ch response now = elim ch.ceremony [
  | [] ↦ pure false
  | _ ∷ _ ↦ parsed_key s v account ch now (s.parse_login response)
]

recover : Service → ℕ → ℕ → Option Bytes → Tx Bool
recover s account now none = pure false
recover s account now (some hash) = use_recovery_code s.crypto account hash now

by_method : Service → Visit → Account → Challenge → Answer → ℕ → Method → Tx Bool
by_method s v account ch answer now app = check_app s account.id answer.code now
by_method s v account ch answer now email =
    use_email_code s.crypto account.id (purpose_of ch) answer.code now
by_method s v account ch answer now key = check_key s v account ch answer.key now
by_method s v account ch answer now _ = pure false

unfoldable pub check_offered : Service → Visit → Account → Challenge → Offer → Answer → ℕ → Tx Bool
unfolding recover by_method
check_offered s v account ch o answer now =
    if same_method answer.method recovery
    then if o.recovery_left
      then recover s account.id now (recovery_hash s.crypto answer.code)
      else pure false
    else if contains o.methods answer.method
    then by_method s v account ch answer now answer.method
    else pure false

-- ===== src/Enrolling.antt =====
-- internal/identity/factors.go and the enrolment of emailcode.go: adding and removing second
-- factors, and the recovery codes that come with them.
pub mod Removing
use marketplace.Base.{
  ℕ, ◌+◌, ◌*◌, ◌<◌, Bool, true, false, not, ◌&&◌, ◌||◌, Option, none, some, List, [], ◌∷◌, ◌==◌,
  ltb, map, if◌then◌else◌, Bytes, is_set, Outcome, ok, err, String,
}
use marketplace.Crypto.{Crypto}
use marketplace.Policy.{
  UserKind, Method, key, app, email, Use, enrol, Action, factors, permits, required,
}
use marketplace.Totp.{match_totp}
use marketplace.Recovery.{write_code, recovery_hash}
use marketplace.Store.{Db, Account, Factor, Enrolment, Detail, Purpose, enrolment}
use marketplace.Service.{Service, Sealer}
use marketplace.FactorStore.{
  factors_of, insert_factor, insert_app, delete_factor, count_factors, delete_recovery_codes,
  replace_recovery_codes, recovery_codes, put_enrolment, enrolment_of, drop_enrolment,
}
use marketplace.ChallengeStore.{minutes}
use marketplace.EmailCode.{send_code, use_email_code, has_email_factor}
use marketplace.Credentials.{check_label}
use marketplace.Answering.{Session, needs_step_up}
use marketplace.Accounts.{and_then, unless}
use marketplace.Tx.{
  Error, not_permitted, step_up_needed, no_sealer, outside, code_wrong, factor_required,
  no_second_factor, already_enrolled, factor_unknown, Tx, Flow, Visit, World, ◌>>=◌, ◌>>◌, pure,
  fail, gets, or_fail, within, record_with, notify,
}

abbrev pub enrolment_lifetime : ℕ
enrolment_lifetime = minutes 15

-- What adding a method asks first; `none` is no refusal.
unfoldable pub can_enrol : Session → Method → ℕ → Option Error
can_enrol session method now =
    if not (permits session.account.kind method enrol)
    then some not_permitted
    else if needs_step_up session factors now
    then some step_up_needed
    else none

-- `sealed` is the error of a service with no sealer.
abbrev with_sealer : {A : Type 0} → Option Sealer → (Sealer → Flow A) → Flow A
with_sealer none f w = (err no_sealer, w)
with_sealer (some sealer) f w = f sealer w

-- `secret` is what NewTOTPSecret draws, and the result, from which the page is made.
unfoldable pub begin_app : Service → Visit → Session → Bytes → ℕ → ℕ → Flow Bytes
begin_app s v session secret now later = unless (can_enrol session app now) (
    with_sealer s.sealer λ sealer. within v do
      sealed ← or_fail (sealer.seal_for session.account.id secret) outside
      put_enrolment (record {
        session = session.id;
        account = session.account.id;
        method = app;
        secret = sealed;
        ceremony = [];
        expires_at = later + enrolment_lifetime;
      })
      pure secret)

unfoldable pub pending_app : Service → Visit → Session → ℕ → ℕ → Flow Bytes
pending_app s v session now later = unless (can_enrol session app now) (
    with_sealer s.sealer λ sealer. within v do
      e ← enrolment_of session.id app later
      or_fail (sealer.open_for session.account.id e.secret) outside)

-- The hashes of the codes made from random bytes; those that are no code have none in the source
-- either, where the error is dropped.
hash_or_nil : Option Bytes → Bytes
hash_or_nil none = []
hash_or_nil (some h) = h

unfoldable pub code_hashes : Crypto → List Bytes → List Bytes
unfolding hash_or_nil
code_hashes c raws = map (λ raw. hash_or_nil (recovery_hash c (write_code raw))) raws

-- Whether the account had no codes yet, which are then stored.
unfoldable pub first_recovery_set : Service → ℕ → List Bytes → Tx Bool
first_recovery_set s account hashes = do
  codes ← recovery_codes account
  if ltb 0 codes.0 then pure false else replace_recovery_codes s.crypto account hashes >> pure true

-- What a method that was added leaves in the audit log and tells the owner.
unfoldable pub added : Visit → Account → Method → Tx (Unit {0})
added v account method = do
  record_with v account.id "identity.second_factor_added" (Detail.method method ∷ [])
  notify v account "second-factor-added" (Detail.method method ∷ [])

-- The transaction of `ConfirmApp`: `none` for a wrong code, and otherwise whether codes were issued.
unfoldable pub confirm_app_tx :
    Service → Sealer → Visit → Session → Bytes → Bytes → List Bytes → ℕ → Tx (Option Bool)
confirm_app_tx s sealer v session label code hashes now = do
  e ← enrolment_of session.id app now
  secret ← or_fail (sealer.open_for session.account.id e.secret) outside
  elim (match_totp s.crypto secret code now 0) [
    | none ↦ pure none
    | some step ↦ (do
      insert_app session.account.id label e.secret step now
      drop_enrolment session.id
      issued ← first_recovery_set s session.account.id hashes
      added v session.account app
      pure (some issued))
  ]

-- What `ConfirmApp` returns: the codes if they were issued.
shown : List Bytes → Outcome Error (Option Bool) × World → Outcome Error (List Bytes) × World
shown raws (err e, w) = (err e, w)
shown raws (ok none, w) = (err code_wrong, w)
shown raws (ok (some issued), w) = (ok (if issued then map write_code raws else []), w)

-- `raws` are the random bytes of the ten codes.
unfoldable pub confirm_app :
    Service → Visit → Session → Bytes → Bytes → List Bytes → ℕ → ℕ → Flow (List Bytes)
unfolding shown
confirm_app s v session given code raws now later = unless (can_enrol session app now) (
    with_sealer s.sealer λ sealer. and_then (check_label given) λ label w.
      shown raws (
        within v (confirm_app_tx s sealer v session label code (code_hashes s.crypto raws) later)
          w))

-- The transaction of `RemoveFactor`.
unfoldable pub remove_tx : Visit → Session → ℕ → Tx (Unit {0})
remove_tx v session id = do
  removed ← (λ db. elim (delete_factor session.account.id id db) [
    | err e ↦ err factor_unknown
    | ok found ↦ ok found
  ])
  left ← count_factors session.account.id
  if left == 0
      then (if required session.account.kind
          then fail factor_required
          else delete_recovery_codes session.account.id)
      else pure tt
  record_with v session.account.id "identity.second_factor_removed"
      (Detail.method removed.method ∷ [])
  notify v session.account "second-factor-removed" (Detail.method removed.method ∷ [])

unfoldable pub remove_factor : Visit → Session → ℕ → ℕ → Flow (Unit {0})
remove_factor v session id now w =
    if needs_step_up session factors now
    then (err step_up_needed, w)
    else within v (remove_tx v session id) w

unfoldable pub regenerate_recovery_codes :
    Service → Visit → Session → List Bytes → ℕ → Flow (List Bytes)
regenerate_recovery_codes s v session raws now w =
    if needs_step_up session factors now
    then (err step_up_needed, w)
    else within v
        (do
          n ← count_factors session.account.id
          if n == 0 then fail no_second_factor else do
            replace_recovery_codes s.crypto session.account.id (code_hashes s.crypto raws)
            record_with v session.account.id "identity.recovery_codes_regenerated" []
            pure (map write_code raws))
        w

-- emailcode.go: BeginEmail; `n` is the random number of the code.
unfoldable pub begin_email : Service → Visit → Session → ℕ → ℕ → ℕ → Flow (Unit {0})
begin_email s v session n now later = unless (can_enrol session email now) (
    within v do
      has ← has_email_factor session.account.id
      if has then fail already_enrolled else send_code s.crypto v session.account enrolment n later)

email_factor : ℕ → ℕ → Factor
email_factor account now = record {
  id = 0;
  account = account;
  method = email;
  label = [];
  secret = [];
  last_step = none;
  credential_id = [];
  public_key = [];
  sign_count = 0;
  flags = 0;
  created_at = now;
  last_used_at = none;
}

-- The transaction of `ConfirmEmail`: false for a wrong code.
unfoldable pub confirm_email_tx : Service → Visit → Session → Bytes → ℕ → Tx Bool
unfolding email_factor
confirm_email_tx s v session code now = do
  has ← has_email_factor session.account.id
  if has then fail already_enrolled else do
    proved ← use_email_code s.crypto session.account.id enrolment code now
    if proved
        then insert_factor (email_factor session.account.id now)
          >> added v session.account email
          >> pure true
        else pure false

proved_or_wrong : Outcome Error Bool × World → Outcome Error (Unit {0}) × World
proved_or_wrong (err e, w) = (err e, w)
proved_or_wrong (ok proved, w) = (if proved then ok tt else err code_wrong, w)

unfoldable pub confirm_email : Service → Visit → Session → Bytes → ℕ → ℕ → Flow (Unit {0})
unfolding proved_or_wrong
confirm_email s v session code now later =
    unless (can_enrol session email now)
      (λ w. proved_or_wrong (within v (confirm_email_tx s v session code later) w))

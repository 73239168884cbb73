-- ===== src/Tests/Answers.antt =====
-- The theorems on answers, codes and failures at concrete inputs.
use marketplace.Base.{◌==◌, find}
use marketplace.EmailCode.{answers}
use marketplace.Base.{◌==◌, delete}
use marketplace.EmailCode.{newest}
use marketplace.Recovery.{bound_recovery_hash}
use marketplace.ChallengeStore.{used_app}
use marketplace.Crypto.{padded}
use marketplace.Totp.{hotp}
use marketplace.Base.{◌==◌, same_bytes}
use marketplace.Policy.{same_method}
use marketplace.Base.{◌==◌, select}
use marketplace.Base.{
  ◌==◌, ℕ, ◌+◌, ◌≤◌, ◌<◌, ◌≡◌, refl, true, false, some, List, [], ◌∷◌, ok, arith, count, insert,
  update,
}
use marketplace.Policy.{app, email, nothing, contains, factors}
use marketplace.Crypto.{without_spaces}
use marketplace.Store.{Failure, Db, sign_in}
use marketplace.Totp.{match_totp, totp_step, totp_drift, totp_code}
use marketplace.Totp.Window.{match_totp_sound, match_totp_complete}
use marketplace.ChallengeStore.{insert_challenge, use_recovery_code, apps_for_update}
use marketplace.Answering.Tries.{Try}
use marketplace.Challenge.{offers, check_offered, check_app}
use marketplace.Challenge.Locked.{locked-check_offered}
use marketplace.Challenge.Codes.{Accepted, check_app-Accepted, use_recovery_code_once}
use marketplace.EmailCode.{
  use_email_code, send_code, is_recent, is_unused_of, email_code_every, email_codes_per_hour, hour,
}
use marketplace.EmailCode.Once.{use_email_code_once}
use marketplace.EmailCode.Sending.{send_code_lem}
use marketplace.Failures.{Offer, failed, clear_failures}
use marketplace.Tests.Data.{
  some_token, fresh_token, newer_token, six_zeros, some_crypto, some_sealer, some_service,
  some_visit, ana, some_db, noon, step_up_challenge, answer_by, left_by,
}

abbrev some_tries : List Try
some_tries =
    record { fresh = fresh_token; answer = answer_by email; now = noon; at = noon }
    ∷ record { fresh = newer_token; answer = answer_by app; now = noon; at = noon }
    ∷ []

abbrev opened_db : Db
opened_db = left_by (insert_challenge 1 some_token 0 nothing noon some_db)

abbrev locked_run : Failure
locked_run = record { account = 1; failures = 100 }

abbrev locked_db : Db
locked_db = record some_db { failures = locked_run ∷ [] }

run_found : find (λ f. f.account == ana.id) locked_db.failures ≡ some locked_run
unfolding find
run_found = refl

locked-check_offered_example :
    (o : Offer) × (offers ana factors locked_db ≡ ok (o, locked_db))
    × (o.codes_locked ≡ true)
    × (contains o.methods app ≡ false)
    × (check_offered some_service some_visit ana step_up_challenge o (answer_by app) noon locked_db
        ≡ ok (false, locked_db))
locked-check_offered_example =
    locked-check_offered some_service some_visit ana step_up_challenge locked_run (answer_by app)
      noon locked_db run_found (omega arith) refl

app_accepts :
    check_app some_service 1 six_zeros noon some_db
    ≡ ok (true, left_by (check_app some_service 1 six_zeros noon some_db))
unfolding check_app apps_for_update select same_method match_totp without_spaces totp_step
    same_bytes totp_code hotp padded used_app
app_accepts = refl

check_app-Accepted_example :
    Accepted some_service some_sealer 1 six_zeros noon some_db
      (left_by (check_app some_service 1 six_zeros noon some_db))
check_app-Accepted_example =
    check_app-Accepted some_service some_sealer 1 six_zeros noon some_db
      (left_by (check_app some_service 1 six_zeros noon some_db)) refl app_accepts

second_step_matches : match_totp some_crypto [] six_zeros noon 1 ≡ some 2
unfolding match_totp without_spaces totp_step same_bytes totp_code hotp padded
second_step_matches = refl

late_enough : totp_step noon ≤ 4 + totp_drift
unfolding totp_step
late_enough = omega arith

early_enough : 4 ≤ totp_step noon + totp_drift
unfolding totp_step
early_enough = omega arith

fourth_code : totp_code some_crypto [] 4 ≡ without_spaces six_zeros
unfolding without_spaces totp_code hotp padded
fourth_code = refl

match_totp_sound_example :
    (1 < 2)
    × (totp_step noon ≤ 2 + totp_drift)
    × (2 ≤ totp_step noon + totp_drift)
    × (totp_code some_crypto [] 2 ≡ without_spaces six_zeros)
match_totp_sound_example = match_totp_sound some_crypto [] six_zeros noon 1 2 second_step_matches

match_totp_complete_example :
    (s : ℕ) × (match_totp some_crypto [] six_zeros noon 1 ≡ some s) × (s ≤ 4)
match_totp_complete_example =
    match_totp_complete some_crypto [] six_zeros noon 1 4 (omega arith) late_enough early_enough
      fourth_code

code_refused :
    use_recovery_code some_crypto 1 (b'C' ∷ b'O' ∷ b'D' ∷ []) noon some_db
    ≡ ok (true, left_by (use_recovery_code some_crypto 1 (b'C' ∷ b'O' ∷ b'D' ∷ []) noon some_db))
unfolding use_recovery_code count same_bytes bound_recovery_hash
code_refused = refl

use_recovery_code_once_example :
    use_recovery_code some_crypto 1
      (b'C' ∷ b'O' ∷ b'D' ∷ [])
      (noon + 1)
      (left_by (use_recovery_code some_crypto 1 (b'C' ∷ b'O' ∷ b'D' ∷ []) noon some_db))
    ≡ ok (false, left_by (use_recovery_code some_crypto 1 (b'C' ∷ b'O' ∷ b'D' ∷ []) noon some_db))
use_recovery_code_once_example =
    use_recovery_code_once some_crypto 1 (b'C' ∷ b'O' ∷ b'D' ∷ []) noon (noon + 1) some_db
      (left_by (use_recovery_code some_crypto 1 (b'C' ∷ b'O' ∷ b'D' ∷ []) noon some_db)) true
      code_refused

abbrev mailed : Db
mailed = left_by (send_code some_crypto some_visit ana sign_in 0 noon some_db)

sends : send_code some_crypto some_visit ana sign_in 0 noon some_db ≡ ok (tt, mailed)
unfolding send_code count
sends = refl

send_code_lem_example :
    (count (is_recent 1 email_code_every noon) mailed.email_codes ≡ 1)
    × (count (is_recent 1 hour noon) mailed.email_codes ≤ email_codes_per_hour)
    × (count (is_unused_of 1 sign_in) mailed.email_codes ≡ 1)
send_code_lem_example =
    send_code_lem some_crypto some_visit ana sign_in 0 noon some_db mailed tt sends

abbrev answered : Db
answered = left_by (use_email_code some_crypto 1 sign_in six_zeros (noon + 1) mailed)

one_unused : count (is_unused_of 1 sign_in) mailed.email_codes ≤ 1
one_unused =
    omega
      (arith, (send_code_lem some_crypto some_visit ana sign_in 0 noon some_db mailed tt sends).2)

answers_it : use_email_code some_crypto 1 sign_in six_zeros (noon + 1) mailed ≡ ok (true, answered)
unfolding use_email_code newest select send_code count insert update delete answers without_spaces
    same_bytes padded
answers_it = refl

use_email_code_once_example :
    use_email_code some_crypto 1 sign_in six_zeros (noon + 2) answered ≡ ok (false, answered)
use_email_code_once_example =
    use_email_code_once some_crypto 1 sign_in six_zeros six_zeros (noon + 1) (noon + 2) mailed
      answered one_unused answers_it

abbrev tenth : Db
tenth = left_by (failed some_visit ana some_db)

fails : failed some_visit ana some_db ≡ ok (tt, tenth)
unfolding failed find
fails = refl

abbrev cleared : Db
cleared = left_by (clear_failures 1 some_db)

clears : clear_failures 1 some_db ≡ ok (tt, cleared)
unfolding clear_failures
clears = refl

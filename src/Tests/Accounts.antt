-- ===== src/Tests/Accounts.antt =====
-- The theorems on passwords, sessions, step-ups and factors at concrete inputs.
use marketplace.AccountStore.{account_by_id}
use marketplace.AccountStore.{has_second_factor}
use marketplace.Base.{is_set, update}
use marketplace.Base.{insert}
use marketplace.AccountStore.{live_session}
use marketplace.Tx.{notify}
use marketplace.FactorStore.{delete_recovery_codes}
use marketplace.Base.{delete}
use marketplace.FactorStore.{delete_factor}
use marketplace.ChallengeStore.{mark_email_confirmed}
use marketplace.Policy.{same_method}
use marketplace.ChallengeStore.{insert_challenge}
use marketplace.FactorStore.{count_factors}
use marketplace.AccountStore.{revoke_session}
use marketplace.Failures.{clear_failures}
use marketplace.Tx.{request}
use marketplace.Tx.{record_with}
use marketplace.AccountStore.{insert_session}
use marketplace.AccountStore.{revoke_sessions}
use marketplace.AccountStore.{set_password}
use marketplace.ChallengeStore.{end_sign_ins}
use marketplace.Base.{same_bytes}
use marketplace.Base.{find}
use marketplace.AccountStore.{password_still}
use marketplace.Base.{
  ◌+◌, ◌<◌, ◌≡◌, ◌≢◌, ◌⊎◌, refl, true, false, none, [], ◌∷◌, Bytes, ok, err, arith, count, ◌==◌,
}
use marketplace.Policy.{buyer, email, required}
use marketplace.Store.{Db, Factor}
use marketplace.AccountStore.{password_of, sweep_sessions}
use marketplace.EmailCode.{has_email_factor}
use marketplace.Failures.{failures_in}
use marketplace.Answering.{Session, mark_session}
use marketplace.Sessions.{second_step, open_tx, end_session, authenticate, authenticate_tx}
use marketplace.Sessions.Ending.{end_session-authenticate}
use marketplace.Sessions.SecondStep.{is_open_for, open_tx-second_step}
use marketplace.Accounts.{change_tx}
use marketplace.Accounts.Passwords.{change_tx_lem, is_open_of, is_sign_in_of}
use marketplace.Enrolling.{remove_tx}
use marketplace.Enrolling.Removing.{remove_tx_lem, is_of}
use marketplace.Tx.{session_invalid, within}
use marketplace.Tests.Data.{
  some_token, fresh_token, some_service, some_visit, ana, some_db, some_world, noon, some_session,
  step_up_challenge, answer_by, left_by,
}

abbrev old_secret : Bytes
old_secret = b'h' ∷ b'a' ∷ b's' ∷ []

abbrev changed : Db
changed =
    left_by (
      change_tx some_service some_visit some_session old_secret some_token fresh_token noon some_db)

changes :
    change_tx some_service some_visit some_session old_secret some_token fresh_token noon some_db
    ≡ ok (fresh_token, changed)
unfolding change_tx password_still find same_bytes end_sign_ins set_password revoke_sessions
    insert_session record_with request clear_failures
changes = refl

change_tx_lem_example :
    (password_of 1 changed ≡ ok (some_token, changed))
    × (count (is_open_of 1) changed.sessions ≡ 1)
    × (count (is_sign_in_of 1) changed.challenges ≡ 0)
    × (failures_in 1 changed ≡ 0)
change_tx_lem_example =
    change_tx_lem some_service some_visit some_session old_secret some_token fresh_token fresh_token
      noon some_db changed changes

ends :
    (end_session some_service some_visit fresh_token "signout" "identity.signout" noon some_world).0
    ≡ ok tt
unfolding end_session within revoke_session find
ends = refl

end_session-authenticate_example :
    (authenticate some_service some_visit fresh_token
      (noon + 1)
      (end_session some_service some_visit fresh_token "signout" "identity.signout" noon
        some_world).1).0
    ≡ err session_invalid
end_session-authenticate_example =
    end_session-authenticate some_service some_visit fresh_token "signout" "identity.signout" noon
      (noon + 1) some_world ends

abbrev swept : Db
swept = left_by (sweep_sessions noon changed)

sweeps : sweep_sessions noon changed ≡ ok (tt, swept)
unfolding sweep_sessions
sweeps = refl

abbrev her_session : Session
her_session = record {
  id = 10;
  account = ana;
  second_factor = true;
  stepped_up_at = none;
  email_confirmed_at = none;
}

accepts :
    authenticate_tx fresh_token (noon + 1) changed
    ≡ ok (her_session, left_by (authenticate_tx fresh_token (noon + 1) changed))
unfolding authenticate_tx live_session find change_tx password_still same_bytes end_sign_ins
    set_password revoke_sessions insert_session record_with request clear_failures insert update
    has_second_factor account_by_id
accepts = refl

has_factor : 0 < count (λ (f : Factor). f.account == 1) some_db.second_factors
unfolding count
has_factor = omega arith

abbrev waiting : Db
waiting = left_by (open_tx some_service some_visit ana old_secret none some_token noon some_db)

waits :
    open_tx some_service some_visit ana old_secret none some_token noon some_db
    ≡ ok (second_step some_token, waiting)
unfolding open_tx password_still find same_bytes count_factors count insert_challenge
waits = refl

open_tx-second_step_example :
    (second_step some_token ≡ second_step some_token)
    × (waiting.sessions ≡ some_db.sessions)
    × (is_set (find (is_open_for 1 (some_service.crypto.sha256 some_token) noon) waiting.challenges)
        ≡ true)
open_tx-second_step_example =
    open_tx-second_step some_service some_visit ana old_secret none some_token noon some_db waiting
      (second_step some_token) has_factor waits

no_email_factor : has_email_factor 1 changed ≡ ok (false, changed)
unfolding has_email_factor find change_tx password_still same_bytes end_sign_ins set_password
    revoke_sessions insert_session record_with request clear_failures same_method
no_email_factor = refl

abbrev confirmed : Db
confirmed =
    left_by (mark_session some_visit 10 (answer_by email) step_up_challenge ana noon changed)

confirms :
    mark_session some_visit 10 (answer_by email) step_up_challenge ana noon changed
    ≡ ok (tt, confirmed)
unfolding mark_session same_method has_email_factor find change_tx password_still same_bytes
    end_sign_ins set_password revoke_sessions insert_session record_with request clear_failures
    mark_email_confirmed
confirms = refl

abbrev removed : Db
removed = left_by (remove_tx some_visit some_session 3 some_db)

removes : remove_tx some_visit some_session 3 some_db ≡ ok (tt, removed)
unfolding remove_tx delete_factor find count_factors count delete required delete_recovery_codes
    record_with notify
removes = refl

remove_tx_lem_example :
    (count (is_of 1) removed.second_factors < count (is_of 1) some_db.second_factors)
    × ((count (is_of 1) removed.second_factors ≢ 0)
        ⊎ ((required buyer ≡ false) × (count (λ r. r.account == 1) removed.recovery_codes ≡ 0)))
remove_tx_lem_example = remove_tx_lem some_visit some_session 3 some_db removed tt removes

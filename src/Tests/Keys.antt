-- ===== src/Tests/Keys.antt =====
-- The theorem on the keys that are added, with an enrolment that waits.
use marketplace.Base.{◌+◌, false, some, [], ◌∷◌}
use marketplace.Policy.{key}
use marketplace.Store.{Db}
use marketplace.Tx.After.{After}
use marketplace.KeyEnrolling.{WebAuthn, confirm_key_tx}
use marketplace.KeyEnrolling.Unique.{IsAdded, confirm_key_tx-IsAdded}
use marketplace.Tests.Data.{some_service, some_visit, some_session, some_db, noon}

abbrev a_library : WebAuthn
a_library = record {
  begin_registration = λ account keys. some ([], []);
  parse_creation = λ response. some response;
  create_credential = λ account keys ceremony parsed.
      some (record { id = parsed; public_key = 1 ∷ []; sign_count = 0; flags = 1 });
  begin_login = λ account keys. some ([], []);
}

abbrev waiting : Db
waiting = record some_db {
  enrolments =
      record {
        session = 4;
        account = 1;
        method = key;
        secret = [];
        ceremony = b'c' ∷ [];
        expires_at = noon + 1;
      }
      ∷ [];
}

confirm_key_tx-IsAdded_example : After (IsAdded (λ id. false) some_session [] noon waiting) (
    confirm_key_tx some_service a_library
      (λ id. false)
      some_visit
      some_session
      []
      (b'k' ∷ [])
      ((b'h' ∷ []) ∷ [])
      noon
      waiting)
confirm_key_tx-IsAdded_example =
    confirm_key_tx-IsAdded some_service a_library (λ id. false) some_visit some_session []
      (b'k' ∷ []) ((b'h' ∷ []) ∷ []) noon waiting

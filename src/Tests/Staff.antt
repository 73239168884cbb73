-- ===== src/Tests/Staff.antt =====
-- The theorems on the first run, with two people who race for it.
use marketplace.Base.{◌≤◌, ◌≡◌, true, List, [], ◌∷◌, Bytes, same_bytes, err}
use marketplace.Tx.{World, setup_closed}
use marketplace.Tx.Flows.{Ends}
use marketplace.Staff.{Bootstrap, Form, new_bootstrap, is_open, setup}
use marketplace.Staff.FirstRun.{IsSetUp, successes, successes-le, setup-Ends}
use marketplace.Tests.Data.{
  some_token, fresh_token, newer_token, some_service, some_visit, some_world,
}

abbrev a_bootstrap : Bootstrap
a_bootstrap = new_bootstrap some_service some_token

abbrev form_of : Bytes → Bytes → Form
form_of email session = record {
  visit = record some_visit { platform = true; marketplace = 0 };
  token = some_token;
  name = b'O' ∷ [];
  email = email;
  typed =
      b'l' ∷ b'o' ∷ b'n' ∷ b'g' ∷ b' ' ∷ b'e' ∷ b'n' ∷ b'o' ∷ b'u' ∷ b'g' ∷ b'h' ∷ b' ' ∷ b'i'
      ∷ b's' ∷ [];
  salt = [];
  session = session;
  now = 9;
}

abbrev race : List (Form × World)
race =
    (form_of (b'o' ∷ []) fresh_token, some_world)
    ∷ (form_of (b'p' ∷ []) newer_token, some_world)
    ∷ []

successes-le_example : successes some_service a_bootstrap race some_world ≤ 1
successes-le_example = successes-le some_service a_bootstrap race some_world

setup-Ends_example :
    Ends
      (λ t w'.
        (is_open a_bootstrap some_world ≡ true)
        × (same_bytes (some_service.crypto.sha256 some_token) a_bootstrap.hash ≡ true)
        × IsSetUp some_service a_bootstrap (form_of (b'o' ∷ []) fresh_token) some_world t w'
        × ((g : Form) → setup some_service a_bootstrap g w' ≡ (err setup_closed, w')))
      some_world
      (setup some_service a_bootstrap (form_of (b'o' ∷ []) fresh_token) some_world)
setup-Ends_example =
    setup-Ends some_service a_bootstrap (form_of (b'o' ∷ []) fresh_token) some_world

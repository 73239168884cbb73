-- ===== src/Challenge/Frame.antt =====
-- What checking an answer leaves alone: the challenges, the sessions and the runs of failures.
use marketplace.Base.{
  ℕ, ◌≡◌, Bool, Option, none, some, List, [], ◌∷◌, arith, Bytes, ok, Option-cases, inl, inr, select,
  ◌&&◌, ◌==◌,
}
use marketplace.Crypto.{Crypto}
use marketplace.Policy.{Method, key, app, email, same_method}
use marketplace.Store.{Db, Account, Challenge, Factor, Purpose}
use marketplace.Service.{Service, Sealer, KeyLogin}
use marketplace.ChallengeStore.{apps_for_update, keys_for_update, used_app, use_recovery_code}
use marketplace.EmailCode.{use_email_code, purpose_of}
use marketplace.Recovery.{recovery_hash}
use marketplace.Failures.{Offer}
use marketplace.Challenge.{
  Answer, try_apps, check_app, login_key, login_with, parsed_key, check_key, recover, by_method,
  check_offered,
}
use marketplace.Tx.{Visit, refusal_with}

-- The tables that only the answer itself writes.
abbrev pub Frame : Db → Db → Type 0
Frame db db' =
    (db'.challenges ≡ db.challenges) × (db'.sessions ≡ db.sessions) × (db'.failures ≡ db.failures)

use_email_code-Frame :
    (c : Crypto) (account : ℕ) (purpose : Purpose) (typed : Bytes) (now : ℕ) (db db' : Db)
    (b : Bool)
    → use_email_code c account purpose typed now db ≡ ok (b, db')
    → Frame db db'
unfolding use_email_code
use_email_code-Frame c account purpose typed now db db' b h = ground arith

use_recovery_code-Frame :
    (c : Crypto) (account : ℕ) (hash : Bytes) (now : ℕ) (db db' : Db) (b : Bool)
    → use_recovery_code c account hash now db ≡ ok (b, db')
    → Frame db db'
unfolding use_recovery_code
use_recovery_code-Frame c account hash now db db' b h = ground arith

try_apps-Frame :
    (s : Service) (sealer : Sealer) (account : ℕ) (code : Bytes) (now : ℕ) (apps : List Factor)
    (db db' : Db) (b : Bool)
    → try_apps s sealer account code now apps db ≡ ok (b, db')
    → Frame db db'
unfolding try_apps used_app
try_apps-Frame s sealer account code now [] db db' b h = ground arith
try_apps-Frame s sealer account code now (a ∷ rest) db db' b h =
    ground (arith, try_apps-Frame s sealer account code now rest db db' b)

login_key-Frame :
    (v : Visit) (account : Account) (login : KeyLogin) (now : ℕ) (keys : List Factor) (db db' : Db)
    (b : Bool)
    → login_key v account login now keys db ≡ ok (b, db')
    → Frame db db'
unfolding login_key refusal_with
login_key-Frame v account login now [] db db' b h = ground arith
login_key-Frame v account login now (k ∷ ks) db db' b h =
    ground (arith, login_key-Frame v account login now ks db db' b)

check_app-Frame :
    (s : Service) (account : ℕ) (code : Bytes) (now : ℕ) (db db' : Db) (b : Bool)
    → check_app s account code now db ≡ ok (b, db')
    → Frame db db'
unfolding check_app apps_for_update
check_app-Frame s account code now db db' b h = elim (Option-cases s.sealer) [
  | inl missing ↦ ground arith
  | inr (sealer, there) ↦ ground (
    arith,
    try_apps-Frame s sealer account code now
        (select (λ f. (f.account == account) && same_method f.method app) db.second_factors) db db'
        b,
  )
]

login_with-Frame :
    (v : Visit) (account : Account) (now : ℕ) (keys : List Factor) (login : Option KeyLogin)
    (db db' : Db) (b : Bool)
    → login_with v account now keys login db ≡ ok (b, db')
    → Frame db db'
unfolding login_with
login_with-Frame v account now keys none db db' b h = ground arith
login_with-Frame v account now keys (some login) db db' b h =
    login_key-Frame v account login now keys db db' b h

parsed_key-Frame :
    (s : Service) (v : Visit) (account : Account) (ch : Challenge) (now : ℕ) (parsed : Option Bytes)
    (db db' : Db) (b : Bool)
    → parsed_key s v account ch now parsed db ≡ ok (b, db')
    → Frame db db'
unfolding parsed_key keys_for_update
parsed_key-Frame s v account ch now none db db' b h = ground arith
parsed_key-Frame s v account ch now (some parsed) db db' b h =
    let keys =
      select (λ (f : Factor). (f.account == account.id) && same_method f.method key)
        db.second_factors in
    elim (Option-cases (s.read_ceremony ch.ceremony)) [
      | inl unread ↦ ground arith
      | inr (ceremony, read) ↦ ground (
        arith,
        login_with-Frame v account now keys (s.validate_login keys ceremony parsed) db db' b,
      )
    ]

check_key-Frame :
    (s : Service) (v : Visit) (account : Account) (ch : Challenge) (response : Bytes) (now : ℕ)
    (db db' : Db) (b : Bool)
    → check_key s v account ch response now db ≡ ok (b, db')
    → Frame db db'
unfolding check_key
check_key-Frame s v account ch response now db db' b h =
    ground (arith, parsed_key-Frame s v account ch now (s.parse_login response) db db' b)

by_method-Frame :
    (s : Service) (v : Visit) (account : Account) (ch : Challenge) (answer : Answer) (now : ℕ)
    (method : Method) (db db' : Db) (b : Bool)
    → by_method s v account ch answer now method db ≡ ok (b, db')
    → Frame db db'
unfolding by_method
by_method-Frame s v account ch answer now app db db' b h =
    check_app-Frame s account.id answer.code now db db' b h
by_method-Frame s v account ch answer now email db db' b h =
    use_email_code-Frame s.crypto account.id (purpose_of ch) answer.code now db db' b h
by_method-Frame s v account ch answer now key db db' b h =
    check_key-Frame s v account ch answer.key now db db' b h
by_method-Frame s v account ch answer now _ db db' b h = ground arith

recover-Frame :
    (s : Service) (account : ℕ) (now : ℕ) (hash : Option Bytes) (db db' : Db) (b : Bool)
    → recover s account now hash db ≡ ok (b, db')
    → Frame db db'
unfolding recover
recover-Frame s account now none db db' b h = ground arith
recover-Frame s account now (some hash) db db' b h =
    use_recovery_code-Frame s.crypto account hash now db db' b h

pub check_offered-Frame :
    (s : Service) (v : Visit) (account : Account) (ch : Challenge) (o : Offer) (answer : Answer)
    (now : ℕ) (db db' : Db) (b : Bool)
    → check_offered s v account ch o answer now db ≡ ok (b, db')
    → Frame db db'
unfolding check_offered
check_offered-Frame s v account ch o answer now db db' b h = ground (
  arith,
  recover-Frame s account.id now (recovery_hash s.crypto answer.code) db db' b,
  by_method-Frame s v account ch answer now answer.method db db' b,
)

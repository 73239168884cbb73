-- ===== src/Challenge/Done.antt =====
-- internal/identity/challenge.go and key.go: the check of an answer does not fail where what is stored
-- can be read.
use marketplace.Base.{
  ℕ, ◌≡◌, refl, Bool, true, ◌&&◌, ◌==◌, Option, none, some, List, [], ◌∷◌, arith, Bytes, Outcome,
  Option-cases, inl, inr, is_set, select,
}
use marketplace.Crypto.{Crypto}
use marketplace.Policy.{Method, key, app, email, same_method}
use marketplace.Store.{Db, Account, Challenge, Factor, Purpose}
use marketplace.Service.{Service, Sealer, KeyLogin}
use marketplace.ChallengeStore.{apps_for_update, keys_for_update, used_app, use_recovery_code}
use marketplace.EmailCode.{use_email_code, purpose_of}
use marketplace.Recovery.{recovery_hash}
use marketplace.Failures.{Offer}
use marketplace.Challenge.{
  Answer, try_apps, check_app, login_key, login_with, parsed_key, check_key, recover, by_method,
  check_offered,
}
use marketplace.Tx.Scope.{is_result}
use marketplace.Tx.{Error, Visit, refusal_with}

-- Whether a statement goes on.
abbrev pub is_done : {A : Type 0} → Outcome Error (A × Db) → Bool
is_done r = is_result r

-- What is stored can be read: the sealer opens every app's secret, every ceremony of a key is read, and
-- the visit's address names a host.
pub record IsReadable (s : Service) (v : Visit) : Type 0 where
  pub sealer : Sealer
  pub there : s.sealer ≡ some sealer
  pub opens : (account : ℕ) (secret : Bytes) → is_set (sealer.open_for account secret) ≡ true
  pub reads : (text : Bytes) → is_set (s.read_ceremony text) ≡ true
  pub host : s.has_host v.base_url ≡ true

try_apps-done :
    (s : Service) (sealer : Sealer) (account : ℕ) (code : Bytes) (now : ℕ) (apps : List Factor)
    (db : Db)
    → ((account : ℕ) (secret : Bytes) → is_set (sealer.open_for account secret) ≡ true)
    → is_done (try_apps s sealer account code now apps db) ≡ true
unfolding try_apps used_app
try_apps-done s sealer account code now [] db opens = refl
try_apps-done s sealer account code now (a ∷ rest) db opens =
    ground (arith, opens account a.secret, try_apps-done s sealer account code now rest db opens)

login_key-done :
    (v : Visit) (account : Account) (login : KeyLogin) (now : ℕ) (keys : List Factor) (db : Db)
    → is_done (login_key v account login now keys db) ≡ true
unfolding login_key refusal_with
login_key-done v account login now [] db = refl
login_key-done v account login now (k ∷ ks) db =
    ground (arith, login_key-done v account login now ks db)

login_with-done :
    (v : Visit) (account : Account) (now : ℕ) (keys : List Factor) (login : Option KeyLogin)
    (db : Db)
    → is_done (login_with v account now keys login db) ≡ true
unfolding login_with
login_with-done v account now keys none db = refl
login_with-done v account now keys (some login) db = login_key-done v account login now keys db

use_email_code-done :
    (c : Crypto) (account : ℕ) (purpose : Purpose) (typed : Bytes) (now : ℕ) (db : Db)
    → is_done (use_email_code c account purpose typed now db) ≡ true
unfolding use_email_code
use_email_code-done c account purpose typed now db = ground arith

use_recovery_code-done :
    (c : Crypto) (account : ℕ) (hash : Bytes) (now : ℕ) (db : Db)
    → is_done (use_recovery_code c account hash now db) ≡ true
unfolding use_recovery_code
use_recovery_code-done c account hash now db = refl

recover-done :
    (s : Service) (account now : ℕ) (hash : Option Bytes) (db : Db)
    → is_done (recover s account now hash db) ≡ true
unfolding recover
recover-done s account now none db = refl
recover-done s account now (some hash) db = use_recovery_code-done s.crypto account hash now db

module _ (s : Service) (v : Visit) (readable : IsReadable s v) where
  check_app-done :
      (account : ℕ) (code : Bytes) (now : ℕ) (db : Db)
      → is_done (check_app s account code now db) ≡ true
  unfolding check_app apps_for_update
  check_app-done account code now db = simp readable.there (
      try_apps-done s readable.sealer account code now
        (select (λ f. (f.account == account) && same_method f.method app) db.second_factors) db
        readable.opens)

  parsed_key-done :
      (account : Account) (ch : Challenge) (now : ℕ) (parsed : Option Bytes) (db : Db)
      → is_done (parsed_key s v account ch now parsed db) ≡ true
  unfolding parsed_key keys_for_update
  parsed_key-done account ch now none db = refl
  parsed_key-done account ch now (some parsed) db =
      elim (Option-cases (s.read_ceremony ch.ceremony)) [
        | inl unread ↦ let read = readable.reads ch.ceremony in absurd (ground arith)
        | inr (ceremony, read) ↦
            rw (read, readable.host)
              (login_with-done v account now
                (select (λ (f : Factor). (f.account == account.id) && same_method f.method key)
                  db.second_factors)
                _ db)
      ]

  check_key-done :
      (account : Account) (ch : Challenge) (response : Bytes) (now : ℕ) (db : Db)
      → is_done (check_key s v account ch response now db) ≡ true
  unfolding check_key
  check_key-done account ch response now db =
      ground (arith, parsed_key-done account ch now (s.parse_login response) db)

  by_method-done :
      (account : Account) (ch : Challenge) (answer : Answer) (now : ℕ) (method : Method) (db : Db)
      → is_done (by_method s v account ch answer now method db) ≡ true
  unfolding by_method
  by_method-done account ch answer now app db = check_app-done account.id answer.code now db
  by_method-done account ch answer now email db =
      use_email_code-done s.crypto account.id (purpose_of ch) answer.code now db
  by_method-done account ch answer now key db = check_key-done account ch answer.key now db
  by_method-done account ch answer now _ db = refl

  pub check_offered-done :
      (account : Account) (ch : Challenge) (o : Offer) (answer : Answer) (now : ℕ) (db : Db)
      → is_done (check_offered s v account ch o answer now db) ≡ true
  unfolding check_offered
  check_offered-done account ch o answer now db = ground (
    arith,
    recover-done s account.id now (recovery_hash s.crypto answer.code) db,
    by_method-done account ch answer now answer.method db,
  )

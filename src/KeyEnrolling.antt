-- ===== src/KeyEnrolling.antt =====
-- internal/identity/key.go: adding a security key, and the options of a challenge that a key answers
-- (checkKey is in Challenge). The WebAuthn library is a parameter, with the JSON of its values.
pub mod Unique
use marketplace.Base.{
  ℕ, ◌+◌, Bool, true, false, not, ◌&&◌, ◌||◌, Option, none, some, List, [], ◌∷◌, if◌then◌else◌,
  Bytes, same_bytes, is_set, find, select, update, insert, Outcome, ok, err, map,
}
use marketplace.Policy.{Method, key, same_method, verify, permits}
use marketplace.Recovery.{write_code}
use marketplace.Store.{Db, Account, Factor, Challenge}
use marketplace.Service.{Service}
use marketplace.FactorStore.{factors_of, insert_factor, put_enrolment, enrolment_of, drop_enrolment}
use marketplace.Challenge.{challenge}
use marketplace.Credentials.{check_label}
use marketplace.Answering.{Session}
use marketplace.Accounts.{and_then, unless}
use marketplace.Enrolling.{can_enrol, enrolment_lifetime, first_recovery_set, added, code_hashes}
use marketplace.Tx.{
  Error, outside, key_refused, not_permitted, Tx, Flow, Visit, World, ◌>>=◌, ◌>>◌, pure, fail,
  modify, or_fail, within,
}

-- What CreateCredential gives back.
pub record Credential : Type 0 where
  pub id : Bytes
  pub public_key : Bytes
  pub sign_count : ℕ
  pub flags : ℕ

-- BeginRegistration and BeginLogin give the browser's options and the ceremony.
pub record WebAuthn : Type 0 where
  pub begin_registration : Account → List Factor → Option (Bytes × Bytes)
  pub parse_creation : Bytes → Option Bytes
  pub create_credential : Account → List Factor → Bytes → Bytes → Option Credential
  pub begin_login : Account → List Factor → Option (Bytes × Bytes)

-- relyingParty fails where the visit's address names no host.
abbrev pub with_host : {A : Type 0} → Service → Visit → Flow A → Flow A
with_host s v f w = if s.has_host v.base_url then f w else (err outside, w)

-- keysOf
unfoldable pub keys_of : ℕ → Tx (List Factor)
keys_of account = do
  all ← factors_of account
  pure (select (λ (f : Factor). same_method f.method key) all)

-- BeginKey
unfoldable pub begin_key : Service → WebAuthn → Visit → Session → ℕ → ℕ → Flow Bytes
begin_key s r v session now later = unless (can_enrol session key now) (
    with_host s v (
      within v do
        keys ← keys_of session.account.id
        begun ← or_fail (r.begin_registration session.account keys) outside
        put_enrolment (record {
          session = session.id;
          account = session.account.id;
          method = key;
          secret = [];
          ceremony = begun.1;
          expires_at = later + enrolment_lifetime;
        })
        pure begun.0))

abbrev pub is_credential : Bytes → Factor → Bool
is_credential id f = same_method f.method key && same_bytes f.credential_id id

abbrev pub key_factor : ℕ → Bytes → Credential → ℕ → Factor
key_factor account label c now = record {
  id = 0;
  account = account;
  method = key;
  label = label;
  secret = [];
  last_step = none;
  credential_id = c.id;
  public_key = c.public_key;
  sign_count = c.sign_count;
  flags = c.flags;
  created_at = now;
  last_used_at = none;
}

-- INSERT … ON CONFLICT (credential_id) DO NOTHING, and whether a row was added. `elsewhere` tells of
-- the rows of other marketplaces, which the transaction does not see.
unfoldable pub insert_key : (Bytes → Bool) → Factor → Tx Bool
insert_key elsewhere f db =
    if elsewhere f.credential_id || is_set (find (is_credential f.credential_id) db.second_factors)
    then ok (false, db)
    else (insert_factor f >> pure true) db

-- What follows the insert: `none` where nothing was added.
unfoldable pub key_inserted : Service → Visit → Session → List Bytes → Bool → Tx (Option Bool)
key_inserted s v session hashes false = pure none
key_inserted s v session hashes true = do
  drop_enrolment session.id
  issued ← first_recovery_set s session.account.id hashes
  added v session.account key
  pure (some issued)

unfoldable pub key_made :
    Service
    → (Bytes → Bool)
    → Visit
    → Session
    → Bytes
    → List Bytes
    → ℕ
    → Option Credential
    → Tx (Option Bool)
key_made s elsewhere v session label hashes now none = pure none
key_made s elsewhere v session label hashes now (some c) = do
  new ← insert_key elsewhere (key_factor session.account.id label c now)
  key_inserted s v session hashes new

-- The transaction of ConfirmKey: `none` is a refused key, and a ceremony that cannot be read an error.
unfoldable pub confirm_key_tx :
    Service
    → WebAuthn
    → (Bytes → Bool)
    → Visit
    → Session
    → Bytes
    → Bytes
    → List Bytes
    → ℕ
    → Tx (Option Bool)
confirm_key_tx s r elsewhere v session label parsed hashes now = do
  e ← enrolment_of session.id key now
  ceremony ← or_fail (s.read_ceremony e.ceremony) outside
  keys ← keys_of session.account.id
  key_made s elsewhere v session label hashes now
      (r.create_credential session.account keys ceremony parsed)

abbrev pub codes_or_refused :
    List Bytes → Outcome Error (Option Bool) × World → Outcome Error (List Bytes) × World
codes_or_refused raws (err e, w) = (err e, w)
codes_or_refused raws (ok none, w) = (err key_refused, w)
codes_or_refused raws (ok (some issued), w) = (ok (if issued then map write_code raws else []), w)

abbrev pub parsed_or : {A : Type 0} → Option Bytes → (Bytes → Flow A) → Flow A
parsed_or none f w = (err key_refused, w)
parsed_or (some parsed) f w = f parsed w

-- ConfirmKey
unfoldable pub confirm_key :
    Service
    → WebAuthn
    → (Bytes → Bool)
    → Visit
    → Session
    → Bytes
    → Bytes
    → List Bytes
    → ℕ
    → ℕ
    → Flow (List Bytes)
confirm_key s r elsewhere v session given response raws now later =
    unless (can_enrol session key now) (
      and_then (check_label given) λ label. parsed_or (r.parse_creation response) λ parsed.
        with_host s v λ w. codes_or_refused raws (
          within v
            (confirm_key_tx s r elsewhere v session label parsed (code_hashes s.crypto raws) later)
            w))

-- What KeyOptions does once the account and its keys are known.
unfoldable pub options_tx : Service → WebAuthn → Bytes → Account → List Factor → Tx Bytes
options_tx s r token account [] = fail not_permitted
options_tx s r token account (k ∷ keys) =
    if not (permits account.kind key verify) then fail not_permitted else do
      begun ← or_fail (r.begin_login account (k ∷ keys)) outside
      modify λ db. record db {
        challenges =
            update (λ (c : Challenge). same_bytes c.hash (s.crypto.sha256 token))
              (λ c. record c { ceremony = begun.1 }) db.challenges;
      }
      pure begun.0

-- KeyOptions
unfoldable pub key_options : Service → WebAuthn → Visit → Bytes → ℕ → ℕ → Flow Bytes
key_options s r v token session now = with_host s v (
    within v do
      opened ← challenge s token session now
      keys ← keys_of opened.1.id
      options_tx s r token opened.1 keys)

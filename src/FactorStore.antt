-- ===== src/FactorStore.antt =====
-- internal/identity/factorstore.go: the statements on second factors, recovery codes and enrolments.
-- The row locks that the source takes are left out: a transaction is one step of the model.
use marketplace.Base.{
  ℕ, ◌+◌, Bool, not, ◌&&◌, none, some, List, [], ◌∷◌, ◌==◌, ltb, Bytes, is_set, find, select, count,
  delete, insert,
}
use marketplace.Crypto.{Crypto}
use marketplace.Recovery.{bound_recovery_hash}
use marketplace.Policy.{Method, app, same_method}
use marketplace.Store.{Factor, RecoveryCode, Enrolment}
use marketplace.Tx.{Tx, ◌>>=◌, ◌>>◌, gets, modify, or_fail, no_rows, no_enrolment}

unfoldable pub factors_of : ℕ → Tx (List Factor)
factors_of account = gets λ db. select (λ f. f.account == account) db.second_factors

-- INSERT INTO second_factor: `id` is the column's default.
unfoldable pub insert_factor : Factor → Tx (Unit {0})
insert_factor f = modify λ db. record db {
  next_id = db.next_id + 1;
  second_factors = insert (record f { id = db.next_id }) db.second_factors;
}

unfoldable pub insert_app : ℕ → Bytes → Bytes → ℕ → ℕ → Tx (Unit {0})
unfolding insert_factor
insert_app account label sealed step now = insert_factor (record {
  id = 0;
  account = account;
  method = app;
  label = label;
  secret = sealed;
  last_step = some step;
  credential_id = [];
  public_key = [];
  sign_count = 0;
  flags = 0;
  created_at = now;
  last_used_at = none;
})

abbrev pub is_factor : ℕ → ℕ → Factor → Bool
is_factor account id f = (f.account == account) && (f.id == id)

-- An identifier that is not well formed is one that no row has.
unfoldable pub delete_factor : ℕ → ℕ → Tx Factor
delete_factor account id = do
  removed ← gets (λ db. find (is_factor account id) db.second_factors)
  modify λ db. record db { second_factors = delete (is_factor account id) db.second_factors }
  or_fail removed no_rows

unfoldable pub count_factors : ℕ → Tx ℕ
count_factors account = gets λ db. count (λ f. f.account == account) db.second_factors

unfoldable pub delete_recovery_codes : ℕ → Tx (Unit {0})
delete_recovery_codes account =
    modify λ db. record db { recovery_codes = delete (λ r. r.account == account) db.recovery_codes }

-- The loop of `replaceRecoveryCodes`.
insert_codes : Crypto → ℕ → List Bytes → List RecoveryCode → List RecoveryCode
insert_codes c account [] rows = rows
insert_codes c account (hash ∷ hashes) rows = insert_codes c account hashes (
    insert
      (record { account = account; code_hash = bound_recovery_hash c account hash; used_at = none })
      rows)

unfoldable pub replace_recovery_codes : Crypto → ℕ → List Bytes → Tx (Unit {0})
unfolding delete_recovery_codes insert_codes
replace_recovery_codes c account hashes = do
  delete_recovery_codes account
  modify λ db. record db { recovery_codes = insert_codes c account hashes db.recovery_codes }

-- How many codes were issued, and how many are left.
unfoldable pub recovery_codes : ℕ → Tx (ℕ × ℕ)
recovery_codes account = gets λ db. (
  count (λ r. r.account == account) db.recovery_codes,
  count (λ r. (r.account == account) && not (is_set r.used_at)) db.recovery_codes,
)

-- One row for a session: INSERT … ON CONFLICT (session_id) DO UPDATE.
unfoldable pub put_enrolment : Enrolment → Tx (Unit {0})
put_enrolment e =
    modify
      λ db. record db { enrolments = insert e (delete (λ r. r.session == e.session) db.enrolments) }

unfoldable pub enrolment_of : ℕ → Method → ℕ → Tx Enrolment
enrolment_of session method now = do
  found ← gets λ db.
      find (λ e. (e.session == session) && same_method e.method method && ltb now e.expires_at)
        db.enrolments
  or_fail found no_enrolment

unfoldable pub drop_enrolment : ℕ → Tx (Unit {0})
drop_enrolment session =
    modify λ db. record db { enrolments = delete (λ e. e.session == session) db.enrolments }

-- ===== src/EmailCode.antt =====
-- internal/identity/emailcode.go: the codes sent by e-mail, their limits and their single use.
pub mod Sending
pub mod Once
use marketplace.Base.{
  ℕ, ◌+◌, ◌*◌, ◌<◌, Bool, true, false, not, ◌&&◌, ◌||◌, Option, none, some, List, [], ◌∷◌, ◌==◌,
  ltb, leb, if◌then◌else◌, Bytes, same_bytes, is_set, find, select, count, update, delete, insert,
}
use marketplace.Crypto.{Crypto, padded, without_spaces, is_code}
use marketplace.Policy.{Method, email, same_method}
use marketplace.Store.{
  Db, Account, Factor, EmailCode, Purpose, sign_in, step_up, enrolment, Detail, Challenge,
}
use marketplace.ChallengeStore.{minutes}
use marketplace.Tx.{
  Tx, Visit, ◌>>=◌, ◌>>◌, pure, fail, gets, modify, request, code_too_soon, code_too_many,
}

abbrev pub email_code_lifetime : ℕ
email_code_lifetime = minutes 10

abbrev pub email_code_attempts : ℕ
email_code_attempts = 5

abbrev pub email_code_every : ℕ
email_code_every = minutes 1

abbrev pub email_codes_per_hour : ℕ
email_codes_per_hour = 5

abbrev pub hour : ℕ
hour = minutes 60

-- The code of a random number below a million, and its hash.
unfoldable pub new_email_code : Crypto → ℕ → Bytes × Bytes
new_email_code c n = let code = padded 6 n in (code, c.sha256 code)

unfoldable pub email_code_hash : Crypto → Bytes → Option Bytes
email_code_hash c typed =
    let code = without_spaces typed in if is_code 6 code then some (c.sha256 code) else none

abbrev pub same_purpose : Purpose → Purpose → Bool
same_purpose sign_in sign_in = true
same_purpose step_up step_up = true
same_purpose enrolment enrolment = true
same_purpose _ _ = false

-- Whether a code of the account was created less than `window` ago: `created_at > now - window`.
abbrev pub is_recent : ℕ → ℕ → ℕ → EmailCode → Bool
is_recent account window now r = (r.account == account) && ltb now (r.created_at + window)

unfoldable pub email_codes_since : ℕ → ℕ → ℕ → Tx ℕ
email_codes_since account window now =
    gets λ db. count (is_recent account window now) db.email_codes

-- The rows that an insertion leaves: the account's that are an hour old go, and its earlier codes of
-- the purpose are retired.
abbrev pub is_old : ℕ → ℕ → EmailCode → Bool
is_old account now r = (r.account == account) && leb (r.created_at + hour) now

abbrev pub is_unused_of : ℕ → Purpose → EmailCode → Bool
is_unused_of account purpose r =
    (r.account == account) && same_purpose r.purpose purpose && not (is_set r.used_at)

unfoldable pub insert_email_code : ℕ → Purpose → Bytes → ℕ → Tx (Unit {0})
insert_email_code account purpose hash now = do
  modify λ db. record db { email_codes = delete (is_old account now) db.email_codes }
  modify λ db. record db {
    email_codes =
        update (is_unused_of account purpose) (λ r. record r { used_at = some now }) db.email_codes;
  }
  modify λ db. record db {
    next_id = db.next_id + 1;
    email_codes =
        insert
          (record {
            id = db.next_id;
            account = account;
            purpose = purpose;
            code_hash = hash;
            expires_at = now + email_code_lifetime;
            attempts = 0;
            created_at = now;
            used_at = none;
          })
          db.email_codes;
  }

-- ORDER BY created_at DESC LIMIT 1
newest_of : EmailCode → List EmailCode → EmailCode
newest_of best [] = best
newest_of best (r ∷ rs) = newest_of (if ltb best.created_at r.created_at then r else best) rs

unfoldable pub newest : List EmailCode → Option EmailCode
unfolding newest_of
newest [] = none
newest (r ∷ rs) = some (newest_of r rs)

-- A code that can still be answered.
abbrev pub is_live : ℕ → Purpose → ℕ → EmailCode → Bool
is_live account purpose now r =
    is_unused_of account purpose r && ltb now r.expires_at && ltb r.attempts email_code_attempts

-- Whether a typed code is the stored one.
unfoldable pub answers : Crypto → Bytes → EmailCode → Bool
unfolding email_code_hash
answers c typed row = elim (email_code_hash c typed) [
  | none ↦ false
  | some hash ↦ same_bytes hash row.code_hash
]

spend_code : ℕ → ℕ → ℕ → Tx Bool
spend_code account id now = do
  modify λ db. record db {
    email_codes = update (λ r. r.id == id) (λ r. record r { used_at = some now }) db.email_codes;
  }
  modify λ db. record db {
    second_factors =
        update (λ f. (f.account == account) && same_method f.method email)
          (λ f. record f { last_used_at = some now }) db.second_factors;
  }
  pure true

miss_code : ℕ → Tx Bool
miss_code id = do
  modify λ db. record db {
    email_codes =
        update (λ r. r.id == id) (λ r. record r { attempts = r.attempts + 1 }) db.email_codes;
  }
  pure false

answer_code : Crypto → ℕ → Bytes → ℕ → Option EmailCode → Tx Bool
answer_code c account typed now none = pure false
answer_code c account typed now (some row) =
    if answers c typed row then spend_code account row.id now else miss_code row.id

unfoldable pub use_email_code : Crypto → ℕ → Purpose → Bytes → ℕ → Tx Bool
unfolding answer_code spend_code miss_code
use_email_code c account purpose typed now = do
  row ← gets (λ db. newest (select (is_live account purpose now) db.email_codes))
  answer_code c account typed now row

-- `n` is the random number that `newEmailCode` draws.
unfoldable pub send_code : Crypto → Visit → Account → Purpose → ℕ → ℕ → Tx (Unit {0})
unfolding email_codes_since insert_email_code new_email_code request
send_code c v account purpose n now = do
  minute ← email_codes_since account.id email_code_every now
  if ltb 0 minute then fail code_too_soon else do
    sent ← email_codes_since account.id hour now
    if leb email_codes_per_hour sent then fail code_too_many else do
      let (code, hash) = new_email_code c n
      insert_email_code account.id purpose hash now
      request v "second-factor-code" account.email
          (Detail.name account.name ∷ Detail.code code ∷ Detail.purpose purpose ∷ [])

unfoldable pub purpose_of : Challenge → Purpose
purpose_of ch = if ch.session == 0 then sign_in else step_up

unfoldable pub has_email_factor : ℕ → Tx Bool
has_email_factor account = gets λ db.
    is_set (find (λ f. (f.account == account) && same_method f.method email) db.second_factors)

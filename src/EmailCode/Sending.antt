-- ===== src/EmailCode/Sending.antt =====
-- internal/identity/emailcode.go: what a code that is sent leaves in the table.
use marketplace.Base.{
  ℕ, ◌+◌, ◌≤◌, ◌≡◌, refl, Bool, true, none, some, List, [], ◌∷◌, arith, ok, if◌then◌else◌, count,
  update, insert, delete,
}
use marketplace.Store.{Db, Account, EmailCode, Purpose, sign_in, step_up, enrolment}
use marketplace.Crypto.{Crypto}
use marketplace.EmailCode.{
  send_code, is_recent, is_old, is_unused_of, same_purpose, email_code_every, email_codes_per_hour,
  hour, email_code_lifetime, new_email_code,
}
use marketplace.Tx.{Visit}

module _ (account now : ℕ) where
  count-insert :
      (p : EmailCode → Bool) (row : EmailCode) (rows : List EmailCode)
      → count p (insert row rows) ≡ count p rows + (if p row then 1 else 0)
  unfolding count insert
  count-insert p row [] = omega arith
  count-insert p row (r ∷ rs) = ground (arith, count-insert p row rs)

  recent-kept :
      (window : ℕ) (purpose : Purpose) (rows : List EmailCode)
      → count (is_recent account window now) (
          update
            (is_unused_of account purpose)
            (λ r. record r { used_at = some now })
            (delete (is_old account now) rows))
        ≤ count (is_recent account window now) rows
  unfolding count update delete
  recent-kept window purpose [] = omega arith
  recent-kept window purpose (r ∷ rs) = ground (arith, recent-kept window purpose rs)

  none_unused :
      (purpose : Purpose) (rows : List EmailCode)
      → count
          (is_unused_of account purpose)
          (update (is_unused_of account purpose) (λ r. record r { used_at = some now }) rows)
        ≡ 0
  unfolding count update
  none_unused purpose [] = refl
  none_unused purpose (r ∷ rs) = ground (arith, none_unused purpose rs)

same_purpose_refl : (p : Purpose) → same_purpose p p ≡ true
same_purpose_refl sign_in = refl
same_purpose_refl step_up = refl
same_purpose_refl enrolment = refl

-- Once a code is sent, it is the only one of the account that was created in the last minute, at
-- most five were in the last hour, and it is the only unused one of its purpose.
pub send_code_lem :
    (c : Crypto) (v : Visit) (account : Account) (purpose : Purpose) (n now : ℕ) (db db' : Db)
    (u : Unit {0})
    → send_code c v account purpose n now db ≡ ok (u, db')
    → (count (is_recent account.id email_code_every now) db'.email_codes ≡ 1)
      × (count (is_recent account.id hour now) db'.email_codes ≤ email_codes_per_hour)
      × (count (is_unused_of account.id purpose) db'.email_codes ≡ 1)
unfolding send_code
send_code_lem c v account purpose n now db db' u h =
    let row : EmailCode = record {
      id = db.next_id;
      account = account.id;
      purpose = purpose;
      code_hash = (new_email_code c n).1;
      expires_at = now + email_code_lifetime;
      attempts = 0;
      created_at = now;
      used_at = none;
    } in
    let kept =
      update (is_unused_of account.id purpose) (λ r. record r { used_at = some now })
        (delete (is_old account.id now) db.email_codes) in
    let e : db'.email_codes ≡ insert row kept = ground arith in
    let a : count (is_recent account.id email_code_every now) db.email_codes ≡ 0 = ground arith in
    let b : count (is_recent account.id hour now) db.email_codes ≤ 4 = ground arith in
    let one = count-insert account.id now (is_recent account.id email_code_every now) row kept in
    let five = count-insert account.id now (is_recent account.id hour now) row kept in
    let unused = count-insert account.id now (is_unused_of account.id purpose) row kept in
    rw e (
      ground (arith, one, recent-kept account.id now email_code_every purpose db.email_codes),
      ground (arith, five, recent-kept account.id now hour purpose db.email_codes),
      ground (
        arith,
        unused,
        same_purpose_refl purpose,
        none_unused account.id now purpose (delete (is_old account.id now) db.email_codes),
      ),
    )

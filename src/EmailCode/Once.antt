-- ===== src/EmailCode/Once.antt =====
-- internal/identity/emailcode.go: a code sent by e-mail is accepted once, and for its own purpose.
use marketplace.Base.{
  ℕ, suc, ◌≤◌, ◌≡◌, refl, true, false, none, some, List, [], ◌∷◌, arith, Bool-cases, ◌⊎◌, ap, inl,
  inr, Option-cases, ok, ◌==◌, ltb, count, update, select, Bytes,
}
use marketplace.Store.{Db, EmailCode, Purpose}
use marketplace.Crypto.{Crypto}
use marketplace.EmailCode.{
  is_unused_of, is_live, newest, newest_of, use_email_code, answers, spend_code, miss_code,
  answer_code,
}

-- A row is among the rows of a list.
abbrev pub Among : EmailCode → List EmailCode → Type 0
Among row [] = ⊥
Among row (r ∷ rs) = (r ≡ row) ⊎ Among row rs

newest_of-Among :
    (best row : EmailCode) (rows : List EmailCode)
    → newest_of best rows ≡ row
    → Among row (best ∷ rows)
unfolding newest_of
newest_of-Among best row [] h = inl h
newest_of-Among best row (r ∷ rs) h = elim (Bool-cases (ltb best.created_at r.created_at)) [
  | inl later ↦ inr (newest_of-Among r row rs (rw later at h))
  | inr earlier ↦ elim (newest_of-Among best row rs (rw earlier at h)) [
    | inl same ↦ inl same
    | inr found ↦ inr (inr found)
  ]
]

newest-Among : (row : EmailCode) (rows : List EmailCode) → newest rows ≡ some row → Among row rows
unfolding newest
newest-Among row [] h = cc h
newest-Among row (r ∷ rs) h = newest_of-Among r row rs (cc h)

unused-spent_le :
    (account : ℕ) (purpose : Purpose) (now id : ℕ) (rows : List EmailCode)
    → count
        (is_unused_of account purpose)
        (update (λ r. r.id == id) (λ r. record r { used_at = some now }) rows)
      ≤ count (is_unused_of account purpose) rows
unfolding count update
unused-spent_le account purpose now id [] = omega arith
unused-spent_le account purpose now id (r ∷ rs) =
    ground (arith, unused-spent_le account purpose now id rs)

unused-spent :
    (account : ℕ) (purpose : Purpose) (now at : ℕ) (row : EmailCode) (rows : List EmailCode)
    → Among row (select (is_live account purpose at) rows)
    → suc (
        count
          (is_unused_of account purpose)
          (update (λ r. r.id == row.id) (λ r. record r { used_at = some now }) rows))
      ≤ count (is_unused_of account purpose) rows
unfolding count update select
unused-spent account purpose now at row [] h = absurd h
unused-spent account purpose now at row (r ∷ rs) h =
    elim (Bool-cases (is_live account purpose at r)) [
      | inl live ↦ elim (rw live at h) [
        | inl same ↦ ground (
          arith,
          unused-spent_le account purpose now row.id rs,
          ap (λ (x : EmailCode). x.id) same,
        )
        | inr later ↦ ground (arith, unused-spent account purpose now at row rs later)
      ]
      | inr dead ↦ ground (arith, unused-spent account purpose now at row rs (rw dead at h))
    ]

none_live :
    (account : ℕ) (purpose : Purpose) (now : ℕ) (rows : List EmailCode)
    → count (is_unused_of account purpose) rows ≡ 0
    → select (is_live account purpose now) rows ≡ []
unfolding count select
none_live account purpose now [] h = refl
none_live account purpose now (r ∷ rs) h = ground (arith, none_live account purpose now rs)

-- A code of an account and purpose that has at most one unused code is accepted at most once: after
-- one is accepted, whatever is typed is refused and the tables stay as they are.
pub use_email_code_once :
    (c : Crypto) (account : ℕ) (purpose : Purpose) (typed again : Bytes) (now later : ℕ)
    (db db' : Db)
    → count (is_unused_of account purpose) db.email_codes ≤ 1
    → use_email_code c account purpose typed now db ≡ ok (true, db')
    → use_email_code c account purpose again later db' ≡ ok (false, db')
unfolding use_email_code answer_code spend_code miss_code newest
use_email_code_once c account purpose typed again now later db db' one h =
    elim (Option-cases (newest (select (is_live account purpose now) db.email_codes))) [
      | inl missing ↦
          let k : answer_code c account typed now none db ≡ ok (true, db') = rw missing at h in cc k
      | inr (row, found) ↦ elim (Bool-cases (answers c typed row)) [
        | inl right ↦
            let e : db'.email_codes
                ≡ update (λ (r : EmailCode). r.id == row.id) (λ r. record r { used_at = some now })
                    db.email_codes =
              (let k : answer_code c account typed now (some row) db ≡ ok (true, db') =
                  rw found at h in
                ground arith) in
            let less =
              unused-spent account purpose now now row db.email_codes (newest-Among row _ found) in
            let gone =
              none_live account purpose later db'.email_codes (rw e (omega (arith, less, one))) in
            rw gone
        | inr wrong ↦
            let k : answer_code c account typed now (some row) db ≡ ok (true, db') =
              rw found at h in
            ground arith
      ]
    ]

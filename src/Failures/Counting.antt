-- ===== src/Failures/Counting.antt =====
-- internal/identity/failures.go: what one more wrong second factor writes.
use mathlib.Core.List.{append-nil}
use marketplace.Base.{
  ℕ, ◌+◌, ◌≡◌, refl, true, false, List, [], ◌∷◌, ◌++◌, arith, Bool-cases, inl, inr, ok, is_set,
  if◌then◌else◌, ◌==◌, find, update, insert, delete, String,
}
use marketplace.Store.{Db, Account, Failure, Mail, Detail}
use marketplace.Failures.{failures_in, run_of, clear_failures, failed}
use marketplace.Tx.{Visit}

run-update_other :
    (account other : ℕ) (rows : List Failure)
    → (other == account) ≡ false
    → run_of (
        find
          (λ f. f.account == other)
          (update (λ f. f.account == account) (λ f. record f { failures = f.failures + 1 }) rows))
      ≡ run_of (find (λ f. f.account == other) rows)
unfolding find update
run-update_other account other [] h = refl
run-update_other account other (r ∷ rs) h = ground (arith, run-update_other account other rs h)

run-update :
    (account other : ℕ) (rows : List Failure)
    → is_set (find (λ (f : Failure). f.account == account) rows) ≡ true
    → run_of (
        find
          (λ f. f.account == other)
          (update (λ f. f.account == account) (λ f. record f { failures = f.failures + 1 }) rows))
      ≡ (if other == account
          then run_of (find (λ f. f.account == other) rows) + 1
          else run_of (find (λ f. f.account == other) rows))
unfolding find update
run-update account other [] h = cc
run-update account other (r ∷ rs) h =
    ground (arith, run-update account other rs, run-update_other account other rs)

run-insert :
    (account other : ℕ) (rows : List Failure)
    → is_set (find (λ (f : Failure). f.account == account) rows) ≡ false
    → run_of
        (find (λ f. f.account == other) (insert (record { account = account; failures = 1 }) rows))
      ≡ (if other == account
          then run_of (find (λ f. f.account == other) rows) + 1
          else run_of (find (λ f. f.account == other) rows))
unfolding find insert
run-insert account other [] h = ground arith
run-insert account other (r ∷ rs) h = ground (arith, run-insert account other rs)

pub run-delete :
    (account : ℕ) (rows : List Failure)
    → run_of (find (λ f. f.account == account) (delete (λ f. f.account == account) rows)) ≡ 0
unfolding find delete
run-delete account [] = refl
run-delete account (r ∷ rs) = ground (arith, run-delete account rs)

run-delete_other :
    (account other : ℕ) (rows : List Failure)
    → (other == account) ≡ false
    → run_of (find (λ f. f.account == other) (delete (λ f. f.account == account) rows))
      ≡ run_of (find (λ f. f.account == other) rows)
unfolding find delete
run-delete_other account other [] h = refl
run-delete_other account other (r ∷ rs) h = ground (arith, run-delete_other account other rs h)

-- A wrong second factor adds one to its account's run of failures, and to no other account's.
pub failed-failures_in :
    (v : Visit) (account : Account) (other : ℕ) (db db' : Db) (u : Unit {0})
    → failed v account db ≡ ok (u, db')
    → failures_in other db'
      ≡ (if other == account.id then failures_in other db + 1 else failures_in other db)
unfolding failed failures_in
failed-failures_in v account other db db' u h =
    elim (Bool-cases (is_set (find (λ (f : Failure). f.account == account.id) db.failures))) [
      | inl there ↦ ground (arith, run-update account.id other db.failures there)
      | inr missing ↦ ground (arith, run-insert account.id other db.failures missing)
    ]

-- The mail to an account that a template makes.
abbrev pub notice : Visit → Account → String → Mail
notice v account template = record {
  template = template;
  language = v.language;
  to = account.email;
  from = v.marketplace_name;
  marketplace = v.marketplace;
  variables = Detail.name account.name ∷ [];
}

-- A wrong second factor mails its account once when it is the tenth or the hundredth of the run, and
-- at every other count not at all.
pub failed-outbox :
    (v : Visit) (account : Account) (db db' : Db) (u : Unit {0})
    → failed v account db ≡ ok (u, db')
    → db'.outbox
      ≡ db.outbox
        ++ (if failures_in account.id db + 1 == 10
            then notice v account "second-factor-failures" ∷ []
            else if failures_in account.id db + 1 == 100
            then notice v account "second-factor-locked" ∷ []
            else [])
unfolding failed insert
failed-outbox v account db db' u h = ground (arith, append-nil db.outbox)

-- Clearing an account's run leaves it at nothing, and leaves the runs of the others as they were.
pub clear_failures-failures_in :
    (account other : ℕ) (db db' : Db) (u : Unit {0})
    → clear_failures account db ≡ ok (u, db')
    → failures_in other db' ≡ (if other == account then 0 else failures_in other db)
unfolding clear_failures failures_in
clear_failures-failures_in account other db db' u h =
    ground (arith, run-delete account db.failures, run-delete_other account other db.failures)

-- ===== src/Failures.antt =====
-- internal/identity/failures.go: the run of failed second factors, and the lock on codes; with the
-- offer of a challenge (challenge.go), on which both depend.
pub mod Counting
use marketplace.Base.{
  ℕ, ◌+◌, Bool, true, false, not, ◌&&◌, ◌||◌, Option, none, some, List, [], ◌∷◌, ◌==◌, leb,
  if◌then◌else◌, Bytes, is_set, find, update, delete, insert, String,
}
use marketplace.Policy.{Method, key, app, email, recovery}
use marketplace.Store.{Db, Account, Failure, Detail}
use marketplace.Tx.{Tx, Visit, ◌>>=◌, ◌>>◌, pure, gets, modify, refusal_with, notify}

abbrev pub failures_notified : ℕ
failures_notified = 10

abbrev pub failures_locked : ℕ
failures_locked = 100

-- What a challenge accepts (challenge.go).
pub record Offer : Type 0 where
  pub methods : List Method
  pub recovery_left : Bool
  pub email_factor : Bool
  pub codes_locked : Bool

-- The methods whose codes a person types, which the lock refuses.
abbrev pub is_typed : Method → Bool
is_typed app = true
is_typed email = true
is_typed _ = false

unfoldable pub locks : Bool → Method → Bool
locks codes_locked method = codes_locked && is_typed method

unfoldable pub second_factor : Offer → Method → Bool
second_factor o key = true
second_factor o app = true
second_factor o recovery = true
second_factor o email = o.email_factor
second_factor o (Method.other n) = false

abbrev pub run_of : Option Failure → ℕ
run_of none = 0
run_of (some f) = f.failures

-- The account's run of failures, which the source reads by coalesce(…, 0).
unfoldable pub failures_in : ℕ → Db → ℕ
failures_in account db = run_of (find (λ f. f.account == account) db.failures)

unfoldable pub second_factor_failures : ℕ → Tx ℕ
unfolding failures_in
second_factor_failures account = gets (failures_in account)

-- INSERT … ON CONFLICT (account_id) DO UPDATE SET failures = failures + 1 RETURNING failures
unfoldable pub count_failure : ℕ → Tx ℕ
unfolding failures_in
count_failure account = do
  before ← gets (failures_in account)
  modify λ db. record db {
    failures =
        if is_set (find (λ f. f.account == account) db.failures)
        then update (λ f. f.account == account) (λ f. record f { failures = f.failures + 1 })
            db.failures
        else insert (record { account = account; failures = 1 }) db.failures;
  }
  pure (before + 1)

unfoldable pub clear_failures : ℕ → Tx (Unit {0})
clear_failures account =
    modify λ db. record db { failures = delete (λ f. f.account == account) db.failures }

-- What happens at a count that matters.
abbrev tell : Visit → Account → ℕ → String → String → Tx (Unit {0})
tell v account failures action template = do
  refusal_with v account.id action (Detail.failures failures ∷ [])
  notify v account template []

unfoldable pub failed : Visit → Account → Tx (Unit {0})
unfolding count_failure refusal_with notify
failed v account = do
  failures ← count_failure account.id
  if failures == failures_notified
      then tell v account failures "identity.second_factor_failures_notified"
          "second-factor-failures"
      else if failures == failures_locked
      then tell v account failures "identity.second_factor_locked" "second-factor-locked"
      else pure tt

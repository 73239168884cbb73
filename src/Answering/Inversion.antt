-- ===== src/Answering/Inversion.antt =====
-- The parts of an answer's transaction that committed.
use marketplace.Base.{
  ℕ, ◌≡◌, refl, subst, Bool, some, arith, Bytes, Outcome, ok, err, Option-cases, inl, inr,
  if◌then◌else◌, find, update, delete, select, count, not, is_set, ◌&&◌, ◌==◌, same_bytes,
}
use marketplace.Policy.{Action, recovery, same_method}
use marketplace.Store.{Db, Account, Challenge}
use marketplace.Service.{Service}
use marketplace.ChallengeStore.{is_live, spent, challenge_for_update, spend_challenge}
use marketplace.AccountStore.{account_by_id}
use marketplace.FactorStore.{factors_of, recovery_codes}
use marketplace.Failures.{Offer, second_factor, clear_failures, failures_in, second_factor_failures}
use marketplace.EmailCode.{purpose_of}
use marketplace.Challenge.{Answer, challenge, offers, offer_of, check_offered}
use marketplace.Challenge.Frame.{Frame, check_offered-Frame}
use marketplace.Answering.{Verdict, right, recovery_used, right_answer, wrong_answer, answer_tx}
use marketplace.Tx.{Tx, Visit, Error, ◌>>=◌, pure, record_with, notify}

-- Inversion of a statement that committed.
pub >>=-eq-ok :
    {A B : Type 0} (m : Tx A) (f : A → Tx B) (db : Db) {b : B} {db' : Db}
    → (m >>= f) db ≡ ok (b, db')
    → (a : A) × (db1 : Db) × (m db ≡ ok (a, db1)) × (f a db1 ≡ ok (b, db'))
>>=-eq-ok {A} m f db {b} {db'} h = go (m db) refl
  where
    go :
        (r : Outcome Error (A × Db))
        → m db ≡ r
        → (a : A) × (db1 : Db) × (m db ≡ ok (a, db1)) × (f a db1 ≡ ok (b, db'))
    go (ok (a, db1)) e = (a, db1, e, (rw (e, ◌>>=◌) at h))
    go (err e') e = let k : err e' ≡ ok (b, db') = (rw (e, ◌>>=◌) at h) in cc k

pub challenge_lem :
    (s : Service) (token : Bytes) (session at : ℕ) (db db' : Db) (ch : Challenge)
    (account : Account)
    → challenge s token session at db ≡ ok ((ch, account), db')
    → (db' ≡ db)
      × (find (is_live (s.crypto.sha256 token) at) db.challenges ≡ some ch)
      × (ch.session ≡ session)
      × (find (λ (a : Account). a.id == ch.account) db.accounts ≡ some account)
unfolding challenge challenge_for_update account_by_id
challenge_lem s token session at db db' ch account h =
    elim (Option-cases (find (is_live (s.crypto.sha256 token) at) db.challenges)) [
      | inl e ↦ ground arith
      | inr (row, e) ↦
          elim (Option-cases (find (λ (a : Account). a.id == row.account) db.accounts)) [
            | inl e' ↦ ground arith
            | inr (a, e') ↦ ground arith
          ]
    ]

-- What the offer of a challenge is, at the account's rows.
abbrev pub offer_at : Db → Account → Action → Offer
offer_at db account action =
    offer_of account action (select (λ f. f.account == account.id) db.second_factors)
      (failures_in account.id db)
      (count (λ r. (r.account == account.id) && not (is_set r.used_at)) db.recovery_codes)

pub offers_lem :
    (account : Account) (action : Action) (db : Db)
    → offers account action db ≡ ok (offer_at db account action, db)
unfolding offers factors_of second_factor_failures recovery_codes
offers_lem account action db = refl

-- An answer's transaction that committed: the live challenge, its account, what checking the answer
-- said and left, and what followed.
pub record Answered {A : Type 0} (s : Service) (v : Visit) (token : Bytes) (answer : Answer)
    (now at session : ℕ) (finish : Challenge → Account → ℕ → Tx A) (db db' : Db)
    (verdict : Verdict A) : Type 0 where
  pub ch : Challenge
  pub account : Account
  pub live : find (is_live (s.crypto.sha256 token) at) db.challenges ≡ some ch
  pub named : ch.session ≡ session
  pub owner : find (λ (a : Account). a.id == ch.account) db.accounts ≡ some account
  pub proved : Bool
  pub checked : Db
  pub check :
      check_offered s v account ch (offer_at db account ch.action) answer now db
      ≡ ok (proved, checked)
  pub frame : Frame db checked
  pub rest :
      (if proved
          then right_answer s v token answer now finish ch account (offer_at db account ch.action)
          else wrong_answer s v token answer now account (offer_at db account ch.action))
        checked
      ≡ ok (verdict, db')

module _ {A : Type 0} (s : Service) (v : Visit) (token : Bytes) (answer : Answer)
    (now at session : ℕ) (finish : Challenge → Account → ℕ → Tx A) (db db' : Db)
    (verdict : Verdict A) where
  -- What the transaction does once the challenge is open.
  abbrev opened_tx : Challenge → Account → Tx (Verdict A)
  opened_tx ch account = do
    o ← offers account ch.action
    proved ← check_offered s v account ch o answer now
    if proved
        then right_answer s v token answer now finish ch account o
        else wrong_answer s v token answer now account o

  opened-Answered :
      (ch : Challenge) (account : Account)
      → find (is_live (s.crypto.sha256 token) at) db.challenges ≡ some ch
      → ch.session ≡ session
      → find (λ (a : Account). a.id == ch.account) db.accounts ≡ some account
      → opened_tx ch account db ≡ ok (verdict, db')
      → Answered s v token answer now at session finish db db' verdict
  unfolding offers factors_of second_factor_failures recovery_codes
  opened-Answered ch account live named owner h =
      let o = offer_at db account ch.action in
      let (proved, checked, check, rest) =
        >>=-eq-ok (check_offered s v account ch o answer now)
          (λ proved.
            if proved
            then right_answer s v token answer now finish ch account o
            else wrong_answer s v token answer now account o)
          db h in
      record {
        ch = ch;
        account = account;
        live = live;
        named = named;
        owner = owner;
        proved = proved;
        checked = checked;
        check = check;
        frame = check_offered-Frame s v account ch o answer now db checked proved check;
        rest = rest;
      }

  pub answer_tx-Answered :
      answer_tx s v token answer now at session finish db ≡ ok (verdict, db')
      → Answered s v token answer now at session finish db db' verdict
  unfolding answer_tx
  answer_tx-Answered h =
      let ((ch, account), db1, opened, h1) = >>=-eq-ok (challenge s token session at) _ db h in
      let (same, live, named, owner) = challenge_lem s token session at db db1 ch account opened in
      opened-Answered ch account live named owner
        (subst (λ d. opened_tx ch account d ≡ ok (verdict, db')) same h1)

-- A right answer that committed: the completion ran on tables whose challenge is spent.
pub record Completed {A : Type 0} (s : Service) (token : Bytes) (answer : Answer) (now : ℕ)
    (finish : Challenge → Account → ℕ → Tx A) (ch : Challenge) (account : Account) (o : Offer)
    (db db' : Db) (verdict : Verdict A) : Type 0 where
  pub result : A
  pub paid : Db
  pub finished : Db
  pub ran : finish ch account now paid ≡ ok (result, finished)
  pub is_right : verdict ≡ right result
  pub spent_all :
      paid.challenges
      ≡ update (λ r. same_bytes r.hash (s.crypto.sha256 token)) (spent now) db.challenges
  pub sessions : paid.sessions ≡ db.sessions
  pub after_challenges : db'.challenges ≡ finished.challenges
  pub after_sessions : db'.sessions ≡ finished.sessions
  pub after_failures : db'.failures ≡ (
      if second_factor o answer.method
      then delete (λ f. f.account == account.id) finished.failures
      else finished.failures)

pub right_answer-Completed :
    {A : Type 0} (s : Service) (v : Visit) (token : Bytes) (answer : Answer) (now : ℕ)
    (finish : Challenge → Account → ℕ → Tx A) (ch : Challenge) (account : Account) (o : Offer)
    (db db' : Db) (verdict : Verdict A)
    → right_answer s v token answer now finish ch account o db ≡ ok (verdict, db')
    → Completed s token answer now finish ch account o db db' verdict
unfolding right_answer spend_challenge recovery_used record_with notify clear_failures
    recovery_codes
right_answer-Completed s v token answer now finish ch account o db db' verdict h =
    let db1 : Db = record db {
      challenges =
          update (λ r. same_bytes r.hash (s.crypto.sha256 token)) (spent now) db.challenges;
    } in
    let (u, paid, e, h1) =
      >>=-eq-ok
        (if same_method answer.method recovery
          then recovery_used v account (purpose_of ch)
          else pure tt)
        _ db1 h in
    let (result, finished, ran, h2) = >>=-eq-ok (finish ch account now) _ paid h1 in
    record {
      result = result;
      paid = paid;
      finished = finished;
      ran = ran;
      is_right = ground arith;
      spent_all = ground arith;
      sessions = ground arith;
      after_challenges = ground arith;
      after_sessions = ground arith;
      after_failures = ground arith;
    }

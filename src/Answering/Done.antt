-- ===== src/Answering/Done.antt =====
-- internal/identity/challenge.go: an answer to a live challenge is committed, right or wrong, where what
-- is stored can be read.
use marketplace.Base.{
  ℕ, ◌≡◌, refl, Bool, true, false, none, some, List, [], ◌∷◌, arith, Bytes, same_bytes,
  same_bytes_refl, Outcome, ok, err, Bool-cases, inl, inr, is_set, is_set-insert, find, find-update,
  insert, if◌then◌else◌,
}
use marketplace.Policy.{recovery, same_method}
use marketplace.Store.{Db, Account, Challenge, SessionRow}
use marketplace.Service.{Service}
use marketplace.FactorStore.{factors_of, recovery_codes}
use marketplace.ChallengeStore.{
  is_live, attempted, challenge_attempt, spend_challenge, session_id, mark_stepped_up,
}
use marketplace.AccountStore.{insert_session}
use marketplace.EmailCode.{purpose_of}
use marketplace.Failures.{Offer, failed, clear_failures, second_factor_failures}
use marketplace.Challenge.{Answer, challenge, offers, check_offered}
use marketplace.Challenge.Done.{is_done, IsReadable, check_offered-done}
use marketplace.Challenge.Frame.{check_offered-Frame}
use marketplace.Answering.{wrong_answer, right_answer, recovery_used, answer_tx, open_session}
use marketplace.Answering.Inversion.{challenge_lem, offer_at}
use marketplace.Tx.{Error, Tx, Visit, ◌>>=◌, pure, refusal_with, record_with, notify}

bind-done :
    {A B : Type 0} (m : Tx A) (f : A → Tx B) (db : Db)
    → is_done (m db) ≡ true
    → ((a : A) (mid : Db) → m db ≡ ok (a, mid) → is_done (f a mid) ≡ true)
    → is_done ((m >>= f) db) ≡ true
bind-done {A} {B} m f db h next = go (m db) h next
  where
    go :
        (r : Outcome Error (A × Db))
        → is_done r ≡ true
        → ((a : A) (mid : Db) → r ≡ ok (a, mid) → is_done (f a mid) ≡ true)
        → is_done (elim r [ ok (a, mid) ↦ f a mid | err e ↦ err e ]) ≡ true
    go (ok (a, mid)) h next = next a mid refl
    go (err e) h next = absurd cc

-- What goes on went on from its first statement.
pub bind-first :
    {A B : Type 0} (m : Tx A) (f : A → Tx B) (db : Db)
    → is_done ((m >>= f) db) ≡ true
    → is_done (m db) ≡ true
bind-first {A} {B} m f db h = go (m db) h
  where
    go :
        (r : Outcome Error (A × Db))
        → is_done (elim r [ ok (a, mid) ↦ f a mid | err e ↦ err e ]) ≡ true
        → is_done r ≡ true
    go (ok (a, mid)) h = refl
    go (err e) h = h

is_set-live :
    (hash : Bytes) (at : ℕ) (rows : List Challenge) {ch : Challenge}
    → find (is_live hash at) rows ≡ some ch
    → is_set (find (λ r. same_bytes r.hash hash) rows) ≡ true
unfolding find
is_set-live hash at [] h = absurd cc
is_set-live hash at (r ∷ rs) {ch} h = ground (arith, is_set-live hash at rs {ch = ch})

failed-done : (v : Visit) (account : Account) (db : Db) → is_done (failed v account db) ≡ true
unfolding failed
failed-done v account db = ground arith

wrong_answer-done :
    (A : Type 0) (s : Service) (v : Visit) (token : Bytes) (answer : Answer) (now : ℕ)
    (account : Account) (o : Offer) (db : Db)
    → is_set (find (λ (r : Challenge). same_bytes r.hash (s.crypto.sha256 token)) db.challenges)
      ≡ true
    → is_done (wrong_answer {A = A} s v token answer now account o db) ≡ true
unfolding wrong_answer challenge_attempt refusal_with failed
wrong_answer-done A s v token answer now account o db there =
    let hash = s.crypto.sha256 token in
    let kept =
      find-update (λ (r : Challenge). same_bytes r.hash hash) (attempted now) db.challenges
        (λ r. refl) in
    ground (arith, kept)

pub open_session-done :
    (s : Service) (v : Visit) (fresh : Bytes) (answer : Answer) (ch : Challenge) (account : Account)
    (now : ℕ) (db : Db)
    → is_done (open_session s v fresh answer ch account now db) ≡ true
unfolding open_session insert_session session_id mark_stepped_up record_with recovery_codes
open_session-done s v fresh answer ch account now db =
    let hash = s.crypto.sha256 fresh in
    let row : SessionRow = record {
      id = db.next_id;
      account = account.id;
      hash = hash;
      ip = v.ip;
      user_agent = v.user_agent;
      created = now;
      seen = now;
      stepped_up = none;
      email_proved = none;
      revoked_at = none;
      revoked_reason = "";
    } in
    let there : is_set (find (λ (r : SessionRow). same_bytes r.hash hash) (insert row db.sessions))
        ≡ true =
      is_set-insert (λ (r : SessionRow). same_bytes r.hash hash) row db.sessions
        (inr (same_bytes_refl hash)) in
    ground (arith, there)

recovery_used-done :
    (s : Service) (v : Visit) (account : Account) (ch : Challenge) (method : Bool) (db : Db)
    → is_done ((if method then recovery_used v account (purpose_of ch) else pure tt) db) ≡ true
unfolding recovery_used recovery_codes record_with notify
recovery_used-done s v account ch true db = refl
recovery_used-done s v account ch false db = refl

module _ {A : Type 0} (s : Service) (v : Visit) (token : Bytes) (answer : Answer)
    (now at session : ℕ) (finish : Challenge → Account → ℕ → Tx A)
    (finishes : (ch : Challenge) (account : Account) (now : ℕ) (db : Db)
      → is_done (finish ch account now db) ≡ true) where
  right_answer-done :
      (ch : Challenge) (account : Account) (o : Offer) (db : Db)
      → is_done (right_answer s v token answer now finish ch account o db) ≡ true
  unfolding right_answer spend_challenge clear_failures
  right_answer-done ch account o db =
      bind-done
        (if same_method answer.method recovery
          then recovery_used v account (purpose_of ch)
          else pure tt)
        _ _ (recovery_used-done s v account ch (same_method answer.method recovery) _)
        λ u mid e.
          bind-done (finish ch account now) _ mid (finishes ch account now mid)
            λ result left e'. ground arith

  -- Once its challenge is found, an answer is committed.
  pub answer_tx-done :
      (db : Db)
      → IsReadable s v
      → is_done (challenge s token session at db) ≡ true
      → is_done (answer_tx s v token answer now at session finish db) ≡ true
  unfolding answer_tx offers factors_of second_factor_failures recovery_codes
  answer_tx-done db readable found =
      bind-done (challenge s token session at) _ db found λ (ch, account) mid e.
        let (same, live, _, _) = challenge_lem s token session at db mid ch account e in
        let there : is_set
              (find (λ (r : Challenge). same_bytes r.hash (s.crypto.sha256 token)) mid.challenges)
            ≡ true =
          rw same (is_set-live (s.crypto.sha256 token) at db.challenges live) in
        let o = offer_at mid account ch.action in
        bind-done (check_offered s v account ch o answer now) _ mid
          (check_offered-done s v readable account ch o answer now mid)
          λ proved checked e'.
            let frame = check_offered-Frame s v account ch o answer now mid checked proved e' in
            elim (Bool-cases proved) [
              | inl true_is ↦ rw true_is (right_answer-done ch account o checked)
              | inr false_is ↦
                  rw false_is
                    (wrong_answer-done A s v token answer now account o checked (rw frame.0 there))
            ]

-- ===== src/Answering/Guesses.antt =====
-- How many answers a challenge takes: each one that is looked at uses a guess up, and a right one
-- uses up all that are left.
use marketplace.Base.{
  ℕ, ◌+◌, ◌-◌, ◌≤◌, ◌<◌, ◌≡◌, refl, ◌∙◌, ap, inl, inr, Bool, true, false, not, ◌&&◌, ◌||◌, none,
  some, List, [], ◌∷◌, arith, Bytes, same_bytes, ok, is_set, Bool-cases, if◌then◌else◌, find,
  update, insert, delete, leb, ◌==◌,
}
use marketplace.Policy.{Action}
use marketplace.Store.{Db, Account, Challenge}
use marketplace.Service.{Service}
use marketplace.ChallengeStore.{
  is_live, attempted, spent, challenge_attempts, challenge_lifetime, insert_challenge,
  challenge_attempt, mark_stepped_up, session_id,
}
use marketplace.AccountStore.{insert_session}
use marketplace.Challenge.{Answer}
use marketplace.FactorStore.{recovery_codes}
use marketplace.Failures.{Offer, failed}
use marketplace.Answering.{
  Verdict, right, wrong, right_answer, wrong_answer, answer_tx, open_session, SignedIn,
}
use marketplace.Answering.Inversion.{offer_at, answer_tx-Answered, right_answer-Completed}
use marketplace.Tx.{Tx, Visit, refusal_with, record_with}

-- The wrong answers that the challenges of a token can still take.
unfoldable pub guesses_left : Bytes → List Challenge → ℕ
guesses_left hash [] = 0
guesses_left hash (r ∷ rs) =
    (if same_bytes r.hash hash && not (is_set r.used_at)
      then challenge_attempts - r.attempts
      else 0)
    + guesses_left hash rs

guesses-attempted_le :
    (hash : Bytes) (now : ℕ) (rows : List Challenge)
    → guesses_left hash (update (λ r. same_bytes r.hash hash) (attempted now) rows)
      ≤ guesses_left hash rows
unfolding guesses_left update
guesses-attempted_le hash now [] = omega arith
guesses-attempted_le hash now (r ∷ rs) = ground (arith, guesses-attempted_le hash now rs)

guesses-attempted :
    (hash : Bytes) (now at : ℕ) (rows : List Challenge) {ch : Challenge}
    → find (is_live hash at) rows ≡ some ch
    → guesses_left hash (update (λ r. same_bytes r.hash hash) (attempted now) rows)
      < guesses_left hash rows
unfolding guesses_left update find
guesses-attempted hash now at [] h = cc
guesses-attempted hash now at (r ∷ rs) {ch} h =
    ground (arith, guesses-attempted_le hash now rs, guesses-attempted hash now at rs {ch = ch})

guesses-spent :
    (hash : Bytes) (now : ℕ) (rows : List Challenge)
    → guesses_left hash (update (λ r. same_bytes r.hash hash) (spent now) rows) ≡ 0
unfolding guesses_left update
guesses-spent hash now [] = refl
guesses-spent hash now (r ∷ rs) = ground (arith, guesses-spent hash now rs)

guesses_pos :
    (hash : Bytes) (at : ℕ) (rows : List Challenge) {ch : Challenge}
    → find (is_live hash at) rows ≡ some ch
    → 0 < guesses_left hash rows
unfolding guesses_left find
guesses_pos hash at [] h = cc
guesses_pos hash at (r ∷ rs) {ch} h = ground (arith, guesses_pos hash at rs {ch = ch})

failed-challenges :
    (v : Visit) (account : Account) (db db' : Db) (u : Unit {0})
    → failed v account db ≡ ok (u, db')
    → db'.challenges ≡ db.challenges
unfolding failed
failed-challenges v account db db' u h = ground arith

-- Whether an answer was right.
abbrev pub is_right : {A : Type 0} → Verdict A → Bool
is_right (right a) = true
is_right (wrong locked exhausted) = false

-- An answer to a challenge whose completion leaves the challenges alone.
module _ {A : Type 0} (s : Service) (v : Visit) (token : Bytes) (answer : Answer)
    (now at session : ℕ) (finish : Challenge → Account → ℕ → Tx A)
    (keeps : (ch : Challenge) (account : Account) (now : ℕ) (db db' : Db) (a : A)
      → finish ch account now db ≡ ok (a, db')
      → db'.challenges ≡ db.challenges) where
  wrong-challenges :
      (account : Account) (o : Offer) (db db' : Db) (verdict : Verdict A)
      → wrong_answer s v token answer now account o db ≡ ok (verdict, db')
      → (db'.challenges
          ≡ update (λ r. same_bytes r.hash (s.crypto.sha256 token)) (attempted now) db.challenges)
        × (is_right verdict ≡ false)
  unfolding wrong_answer challenge_attempt refusal_with failed
  wrong-challenges account o db db' verdict h = ground arith

  right-guesses :
      (ch : Challenge) (account : Account) (o : Offer) (db db' : Db) (verdict : Verdict A)
      → right_answer s v token answer now finish ch account o db ≡ ok (verdict, db')
      → guesses_left (s.crypto.sha256 token) db'.challenges ≡ 0
  right-guesses ch account o db db' verdict h =
      let c = right_answer-Completed s v token answer now finish ch account o db db' verdict h in
      let e =
        c.after_challenges ∙ keeps ch account now c.paid c.finished c.result c.ran ∙ c.spent_all in
      rw e (guesses-spent (s.crypto.sha256 token) now db.challenges)

  -- A committed answer leaves fewer guesses than it found, and a right one leaves none.
  pub answer_tx-guesses :
      (db db' : Db) (verdict : Verdict A)
      → answer_tx s v token answer now at session finish db ≡ ok (verdict, db')
      → (guesses_left (s.crypto.sha256 token) db'.challenges
          < guesses_left (s.crypto.sha256 token) db.challenges)
        × (is_right verdict ≡ true → guesses_left (s.crypto.sha256 token) db'.challenges ≡ 0)
  unfolding wrong_answer
  answer_tx-guesses db db' verdict h =
      let a = answer_tx-Answered s v token answer now at session finish db db' verdict h in
      let o = offer_at db a.account a.ch.action in
      elim (Bool-cases a.proved) [
        | inl yes_it_is ↦
            let rest : right_answer s v token answer now finish a.ch a.account o a.checked
                ≡ ok (verdict, db') =
              rw yes_it_is at a.rest in
            let none_left = right-guesses a.ch a.account o a.checked db' verdict rest in
            (
              omega (arith, none_left, guesses_pos (s.crypto.sha256 token) at db.challenges a.live),
              λ _. none_left,
            )
        | inr no_it_is_not ↦
            let rest : wrong_answer s v token answer now a.account o a.checked ≡ ok (verdict, db') =
              rw no_it_is_not at a.rest in
            let e =
              (wrong-challenges a.account o a.checked db' verdict rest).0
              ∙ ap (update (λ r. same_bytes r.hash (s.crypto.sha256 token)) (attempted now))
                  a.frame.0 in
            (
              rw e (guesses-attempted (s.crypto.sha256 token) now at db.challenges a.live),
              λ r. cc (r, (wrong-challenges a.account o a.checked db' verdict rest).1),
            )
      ]

pub open_session-challenges :
    (s : Service) (v : Visit) (fresh : Bytes) (answer : Answer) (ch : Challenge) (account : Account)
    (now : ℕ) (db db' : Db) (a : SignedIn)
    → open_session s v fresh answer ch account now db ≡ ok (a, db')
    → db'.challenges ≡ db.challenges
unfolding open_session insert_session session_id mark_stepped_up record_with recovery_codes
open_session-challenges s v fresh answer ch account now db db' a h = ground arith

guesses-insert :
    (hash : Bytes) (row : Challenge) (rows : List Challenge)
    → guesses_left hash (insert row rows) ≡ guesses_left hash rows + guesses_left hash (row ∷ [])
unfolding guesses_left insert
guesses-insert hash row [] = omega arith
guesses-insert hash row (r ∷ rs) = ground (arith, guesses-insert hash row rs)

guesses-delete :
    (hash : Bytes) (p : Challenge → Bool) (rows : List Challenge)
    → guesses_left hash (delete p rows) ≤ guesses_left hash rows
unfolding guesses_left delete
guesses-delete hash p [] = omega arith
guesses-delete hash p (r ∷ rs) = ground (arith, guesses-delete hash p rs)

guesses-one : (hash : Bytes) (row : Challenge) → guesses_left hash (row ∷ []) ≤ challenge_attempts
unfolding guesses_left
guesses-one hash row = ground arith

-- Opening a challenge adds five guesses at most to those that its token has.
pub insert_challenge-guesses :
    (account : ℕ) (hash : Bytes) (session : ℕ) (action : Action) (now : ℕ) (db db' : Db)
    (u : Unit {0})
    → insert_challenge account hash session action now db ≡ ok (u, db')
    → guesses_left hash db'.challenges ≤ guesses_left hash db.challenges + challenge_attempts
unfolding insert_challenge
insert_challenge-guesses account hash session action now db db' u h =
    let row : Challenge = record {
      hash = hash;
      account = account;
      session = session;
      action = action;
      attempts = 0;
      ceremony = [];
      expires_at = now + challenge_lifetime;
      used_at = none;
    } in
    let gone =
      delete
        (λ (r : Challenge). (r.account == account) && (leb r.expires_at now || is_set r.used_at))
        db.challenges in
    let e : db'.challenges ≡ insert row gone = ground arith in
    let one : guesses_left hash (row ∷ []) ≤ challenge_attempts = guesses-one hash row in
    rw e (
      omega (
        arith,
        one,
        guesses-insert hash row gone,
        guesses-delete hash
            (λ (r : Challenge).
              (r.account == account) && (leb r.expires_at now || is_set r.used_at))
            db.challenges,
      ))

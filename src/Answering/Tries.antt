-- ===== src/Answering/Tries.antt =====
-- A whole series of answers at the second step of a sign-in, in one scope of the world.
use marketplace.Base.{ℕ, ◌+◌, Bool, if◌then◌else◌, List, [], ◌∷◌, Bytes, Outcome, ok, err}
use marketplace.Service.{Service}
use marketplace.Challenge.{Answer, challenge}
use marketplace.Answering.{Verdict, right, wrong, answer_tx, open_session, SignedIn}
use marketplace.Tx.Scope.{is_result}
use marketplace.Tx.{Tx, Visit, Error, World, within}
use marketplace.Answering.Guesses.{guesses_left}

-- One answer at the second step of a sign-in: the token drawn for its session, the answer, and its
-- two readings of the clock.
pub record Try : Type 0 where
  pub fresh : Bytes
  pub answer : Answer
  pub now : ℕ
  pub at : ℕ

-- The transaction of `CompleteSignIn` for a try.
abbrev pub attempt :
    Service → Visit → Bytes → Try → World → Outcome Error (Verdict SignedIn) × World
attempt s v token t =
    within v (answer_tx s v token t.answer t.now t.at 0 (open_session s v t.fresh t.answer))

-- Whether a try finds its challenge to answer, whatever comes of the answer.
abbrev pub finds : Service → Visit → Bytes → Try → World → Bool
finds s v token t w = is_result (within v (challenge s token 0 t.at) w).0

-- How many of the tries found the challenge, and how many of them opened a session.
abbrev pub tally : Bool → Outcome Error (Verdict SignedIn) → ℕ × ℕ → ℕ × ℕ
tally found (err e) (looked, opened) = (if found then looked + 1 else looked, opened)
tally found (ok (right a)) (looked, opened) = (if found then looked + 1 else looked, opened + 1)
tally found (ok (wrong locked exhausted)) (looked, opened) =
    (if found then looked + 1 else looked, opened)

unfoldable pub tries : Service → Visit → Bytes → List Try → World → ℕ × ℕ
tries s v token [] w = (0, 0)
tries s v token (t ∷ ts) w =
    let (result, w') = attempt s v token t w in
    tally (finds s v token t w) result (tries s v token ts w')

-- The guesses that a token has left in the visit's scope.
abbrev pub left_in : Service → Visit → Bytes → World → ℕ
left_in s v token w = guesses_left (s.crypto.sha256 token) (w.scopes v.marketplace).challenges

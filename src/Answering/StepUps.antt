-- ===== src/Answering/StepUps.antt =====
-- internal/identity/stepup.go: what a right step-up writes, and which actions it is enough for.
use marketplace.Base.{
  ℕ, ◌≡◌, ◌≢◌, refl, true, false, Option, some, List, [], ◌∷◌, arith, ◌⊎◌, ◌↔◌, ok, ◌==◌, update,
}
use marketplace.Policy.{
  buyer, store, staff, email, same_method, Action, password, factors, step_up_for, permits,
  required,
}
use marketplace.Store.{Db, Account, Challenge, SessionRow}
use marketplace.ChallengeStore.{mark_email_confirmed}
use marketplace.EmailCode.{has_email_factor}
use marketplace.Answering.{Answer, Session, mark_session, needs_step_up, recent}
use marketplace.Tx.{Visit, record_with}

-- The step-up of a row of sessions.
abbrev pub stepped_ups : List SessionRow → List (Option ℕ)
stepped_ups [] = []
stepped_ups (r ∷ rs) = r.stepped_up ∷ stepped_ups rs

confirmed-stepped :
    (id at : ℕ) (rows : List SessionRow)
    → stepped_ups (update (λ r. r.id == id) (λ r. record r { email_proved = some at }) rows)
      ≡ stepped_ups rows
unfolding update
confirmed-stepped id at [] = refl
confirmed-stepped id at (r ∷ rs) = ground (arith, confirmed-stepped id at rs)

-- A mailed code of an account that does not have the e-mail as a factor steps no session up: the
-- step-ups of all the sessions stay as they were.
pub mark_session-email :
    (v : Visit) (session : ℕ) (answer : Answer) (ch : Challenge) (account : Account) (now : ℕ)
    (db db' : Db) (u : Unit {0})
    → answer.method ≡ email
    → has_email_factor account.id db ≡ ok (false, db)
    → mark_session v session answer ch account now db ≡ ok (u, db')
    → stepped_ups db'.sessions ≡ stepped_ups db.sessions
unfolding mark_session mark_email_confirmed record_with same_method
mark_session-email v session answer ch account now db db' u m f h =
    ground (arith, confirmed-stepped session now db.sessions)

-- A session that was not stepped up in the last ten minutes may act without a step-up only in two
-- cases: a buyer, a store or a staff account that has no factor changes its password or its factors;
-- or the action is neither of these, the kind is a buyer or a store, and the session confirmed its
-- address by e-mail in the last ten minutes.
pub needs_step_up_iff :
    (session : Session) (action : Action) (now : ℕ)
    → recent now session.stepped_up_at ≡ false
    → (needs_step_up session action now ≡ false) ↔ (
        ((((action ≡ password) ⊎ (action ≡ factors)) × (session.second_factor ≡ false))
          × ((session.account.kind ≡ buyer)
              ⊎ ((session.account.kind ≡ store) ⊎ (session.account.kind ≡ staff))))
        ⊎ (((action ≢ password) × (action ≢ factors))
            × (((session.account.kind ≡ buyer) ⊎ (session.account.kind ≡ store))
                × (recent now session.email_confirmed_at ≡ true))))
unfolding needs_step_up step_up_for permits required
needs_step_up_iff session action now old = ground arith

-- ===== src/Sessions/Ending.antt =====
-- internal/identity/identity.go and store.go: a session that was ended, or that the sweep removes.
use marketplace.Base.{
  ℕ, ◌+◌, ◌≤◌, ◌≡◌, refl, false, none, some, List, [], ◌∷◌, arith, Bool-cases, inl, inr,
  Option-cases, ok, err, if◌then◌else◌, ◌==◌, ltb, find, update, delete, Bytes, String,
}
use marketplace.Store.{Db, SessionRow, Account}
use marketplace.Service.{Service}
use marketplace.AccountStore.{
  is_held, is_swept, revoked, revoke_session, sweep_sessions, live_session, touch_session,
  touch_every, has_second_factor, account_by_id,
}
use marketplace.Answering.{Session}
use marketplace.Sessions.{end_session, authenticate_tx, authenticate, is_expired}
use marketplace.Tx.Scope.{within_after}
use marketplace.Tx.{Tx, Visit, World, session_invalid, record_with, pure, ◌>>=◌}

held-revoked :
    (hash : Bytes) (reason : String) (now : ℕ) (rows : List SessionRow)
    → find (is_held hash) (update (is_held hash) (revoked reason now) rows) ≡ none
unfolding find update
held-revoked hash reason now [] = refl
held-revoked hash reason now (r ∷ rs) = ground (arith, held-revoked hash reason now rs)

-- The transaction of `end`.
abbrev end_tx : Service → Visit → Bytes → String → String → ℕ → Tx (Unit {0})
end_tx s v token reason action now = do
  ended ← revoke_session (s.crypto.sha256 token) reason now
  elim ended [ none ↦ pure tt | some row ↦ record_with v row.account action [] ]

ended_sessions :
    (s : Service) (v : Visit) (token : Bytes) (reason action : String) (now : ℕ) (db db' : Db)
    (u : Unit {0})
    → end_tx s v token reason action now db ≡ ok (u, db')
    → db'.sessions ≡ update (is_held (s.crypto.sha256 token)) (revoked reason now) db.sessions
unfolding revoke_session record_with
ended_sessions s v token reason action now db db' u h =
    elim (Option-cases (find (is_held (s.crypto.sha256 token)) db.sessions)) [
      | inl missing ↦ ground arith
      | inr (row, there) ↦ ground arith
    ]

missing-authenticate_tx :
    (hash : Bytes) (later : ℕ) (db : Db)
    → find (is_held hash) db.sessions ≡ none
    → authenticate_tx hash later db ≡ err session_invalid
unfolding authenticate_tx live_session
missing-authenticate_tx hash later db missing = rw missing

-- A session that signing out or a newer one ended is not accepted again: whatever the time, the
-- token's request is refused, once the ending committed.
pub end_session-authenticate :
    (s : Service) (v : Visit) (token : Bytes) (reason action : String) (now later : ℕ) (w : World)
    → (end_session s v token reason action now w).0 ≡ ok tt
    → (authenticate s v token later (end_session s v token reason action now w).1).0
      ≡ err session_invalid
unfolding end_session authenticate
end_session-authenticate s v token reason action now later w h =
    within_after v _ (authenticate_tx (s.crypto.sha256 token) later) w tt session_invalid h
      λ db db' u ran. missing-authenticate_tx (s.crypto.sha256 token) later db' (
        rw (ended_sessions s v token reason action now db db' u ran)
          (held-revoked (s.crypto.sha256 token) reason now db.sessions))

held-swept :
    (hash : Bytes) (now later : ℕ) (rows : List SessionRow) {row : SessionRow}
    → now ≤ later
    → find (is_held hash) rows ≡ some row
    → is_expired later row ≡ false
    → find (is_held hash) (delete (is_swept now) rows) ≡ some row
unfolding find delete
held-swept hash now later [] le h e = cc
held-swept hash now later (r ∷ rs) {row} le h e = elim (Bool-cases (is_held hash r)) [
  | inl held ↦ ground arith
  | inr other ↦ ground (arith, held-swept hash now later rs {row = row} le)
]

-- The sweep takes no session from its holder: a token that a later request would be accepted with is
-- accepted after the sweep too, for the same session.
pub sweep_sessions-authenticate :
    (hash : Bytes) (now later : ℕ) (db swept db' : Db) (session : Session) (u : Unit {0})
    → now ≤ later
    → sweep_sessions now db ≡ ok (u, swept)
    → authenticate_tx hash later db ≡ ok (session, db')
    → (after : Db) × (authenticate_tx hash later swept ≡ ok (session, after))
unfolding sweep_sessions authenticate_tx live_session has_second_factor touch_session account_by_id
sweep_sessions-authenticate hash now later db swept db' session u le h e =
    elim (Option-cases (find (is_held hash) db.sessions)) [
      | inl missing ↦ cc (e, missing-authenticate_tx hash later db missing)
      | inr (row, there) ↦ elim (Bool-cases (is_expired later row)) [
        | inl over ↦ ground arith
        | inr alive ↦
            let kept = held-swept hash now later db.sessions {row = row} le there alive in
            elim (Option-cases (find (λ (a : Account). a.id == row.account) db.accounts)) [
              | inl missing ↦ ground arith
              | inr (account, owner) ↦ (
                if ltb (row.seen + touch_every) later
                    then (record swept {
                      sessions =
                          update (λ r. r.id == row.id) (λ r. record r { seen = later })
                            swept.sessions;
                    })
                    else swept,
                ground arith,
              )
            ]
      ]
    ]

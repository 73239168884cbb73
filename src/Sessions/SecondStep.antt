-- ===== src/Sessions/SecondStep.antt =====
-- internal/identity/identity.go: a sign-in of an account that has a second factor.
use marketplace.Base.{
  ℕ, ◌+◌, ◌<◌, ◌≡◌, Bool, true, ◌&&◌, ◌||◌, Option, none, [], arith, ok, ◌==◌, leb, inr, is_set,
  is_set-insert, find, insert, delete, count, Bytes, same_bytes_refl,
}
use marketplace.Policy.{nothing}
use marketplace.Store.{Db, Account, Challenge}
use marketplace.Service.{Service}
use marketplace.FactorStore.{count_factors}
use marketplace.AccountStore.{password_still, password_of, set_password}
use marketplace.ChallengeStore.{insert_challenge, is_live, challenge_lifetime}
use marketplace.Sessions.{Opened, second_step, open_tx}
use marketplace.Tx.{Visit}

-- A challenge of the account's sign-in that can be answered by the token of a hash.
abbrev pub is_open_for : ℕ → Bytes → ℕ → Challenge → Bool
is_open_for account hash now r =
    is_live hash now r && (r.account == account) && (r.session == 0) && (r.attempts == 0)

abbrev fresh_row : ℕ → Bytes → ℕ → Challenge
fresh_row account hash now = record {
  hash = hash;
  account = account;
  session = 0;
  action = nothing;
  attempts = 0;
  ceremony = [];
  expires_at = now + challenge_lifetime;
  used_at = none;
}

-- Where the verified password belongs to an account that has a factor, the sign-in opens no session:
-- the sessions stay as they are, the caller gets the token, and among the challenges is one of the
-- account's sign-in that the token answers, with no attempt made at it.
pub open_tx-second_step :
    (s : Service) (v : Visit) (account : Account) (secret : Bytes) (rehashed : Option Bytes)
    (token : Bytes) (now : ℕ) (db db' : Db) (opened : Opened)
    → 0 < count (λ f. f.account == account.id) db.second_factors
    → open_tx s v account secret rehashed token now db ≡ ok (opened, db')
    → (opened ≡ second_step token)
      × (db'.sessions ≡ db.sessions)
      × (is_set (find (is_open_for account.id (s.crypto.sha256 token) now) db'.challenges) ≡ true)
unfolding open_tx count_factors password_still password_of set_password insert_challenge
open_tx-second_step s v account secret rehashed token now db db' opened some_factor h =
    let hash = s.crypto.sha256 token in
    let row = fresh_row account.id hash now in
    let gone =
      delete
        (λ (r : Challenge). (r.account == account.id) && (leb r.expires_at now || is_set r.used_at))
        db.challenges in
    let there : db'.challenges ≡ insert row gone = ground arith in
    (
      ground arith,
      ground arith,
      rw there (
          is_set-insert (is_open_for account.id hash now) row gone
            (inr (ground (arith, same_bytes_refl hash)))),
    )

-- ===== src/ChallengeStore.antt =====
-- internal/identity/challengestore.go: the statements on challenges, and on what answering one uses.
-- `seconds` and the like are durations in nanoseconds.
use marketplace.Base.{
  ℕ, ◌+◌, ◌*◌, Bool, not, ◌&&◌, ◌||◌, none, some, List, [], ◌==◌, ltb, leb, if◌then◌else◌, Bytes,
  same_bytes, is_set, find, select, count, update, delete, insert,
}
use marketplace.Crypto.{Crypto}
use marketplace.Policy.{Method, key, app, Action, same_method}
use marketplace.Totp.{second}
use marketplace.Store.{Factor, Challenge, RecoveryCode}
use marketplace.Recovery.{bound_recovery_hash}
use marketplace.Tx.{Tx, ◌>>=◌, ◌>>◌, pure, gets, modify, or_fail, no_rows}

abbrev pub minutes : ℕ → ℕ
minutes n = n * 60 * second

abbrev pub challenge_lifetime : ℕ
challenge_lifetime = minutes 5

abbrev pub challenge_attempts : ℕ
challenge_attempts = 5

unfoldable pub insert_challenge : ℕ → Bytes → ℕ → Action → ℕ → Tx (Unit {0})
insert_challenge account hash session action now = modify λ db. record db {
  challenges =
      insert
        (record {
          hash = hash;
          account = account;
          session = session;
          action = action;
          attempts = 0;
          ceremony = [];
          expires_at = now + challenge_lifetime;
          used_at = none;
        })
        (delete (λ r. (r.account == account) && (leb r.expires_at now || is_set r.used_at))
          db.challenges);
}

unfoldable pub end_sign_ins : ℕ → Tx (Unit {0})
end_sign_ins account = modify λ db. record db {
  challenges = delete (λ r. (r.account == account) && (r.session == 0)) db.challenges;
}

-- A challenge that can still be answered.
abbrev pub is_live : Bytes → ℕ → Challenge → Bool
is_live hash now r =
    same_bytes r.hash hash
    && not (is_set r.used_at)
    && ltb now r.expires_at
    && ltb r.attempts challenge_attempts

unfoldable pub challenge_for_update : Bytes → ℕ → Tx Challenge
challenge_for_update hash now = do
  found ← gets (λ db. find (is_live hash now) db.challenges)
  or_fail found no_rows

abbrev pub attempted : ℕ → Challenge → Challenge
attempted now r = record r {
  attempts = r.attempts + 1;
  used_at = if leb challenge_attempts (r.attempts + 1) then some now else r.used_at;
}

-- UPDATE … RETURNING attempts: the new count of the row.
unfoldable pub challenge_attempt : Bytes → ℕ → Tx ℕ
challenge_attempt hash now = do
  modify λ db. record db {
    challenges = update (λ r. same_bytes r.hash hash) (attempted now) db.challenges;
  }
  found ← gets (λ db. find (λ r. same_bytes r.hash hash) db.challenges)
  row ← or_fail found no_rows
  pure row.attempts

abbrev pub spent : ℕ → Challenge → Challenge
spent now r = record r { used_at = some now }

unfoldable pub spend_challenge : Bytes → ℕ → Tx (Unit {0})
spend_challenge hash now =
    modify λ db. record db {
      challenges = update (λ r. same_bytes r.hash hash) (spent now) db.challenges;
    }

unfoldable pub mark_stepped_up : ℕ → ℕ → Tx (Unit {0})
mark_stepped_up session at = modify λ db. record db {
  sessions = update (λ r. r.id == session) (λ r. record r { stepped_up = some at }) db.sessions;
}

unfoldable pub mark_email_confirmed : ℕ → ℕ → Tx (Unit {0})
mark_email_confirmed session at = modify λ db. record db {
  sessions = update (λ r. r.id == session) (λ r. record r { email_proved = some at }) db.sessions;
}

unfoldable pub session_id : Bytes → Tx ℕ
session_id hash = do
  found ← gets (λ db. find (λ r. same_bytes r.hash hash) db.sessions)
  row ← or_fail found no_rows
  pure row.id

-- appsForUpdate and keysForUpdate
unfoldable pub factors_of_kind : Method → ℕ → Tx (List Factor)
factors_of_kind method account =
    gets λ db. select (λ f. (f.account == account) && same_method f.method method) db.second_factors

unfoldable pub apps_for_update : ℕ → Tx (List Factor)
unfolding factors_of_kind
apps_for_update account = factors_of_kind app account

unfoldable pub keys_for_update : ℕ → Tx (List Factor)
unfolding factors_of_kind
keys_for_update account = factors_of_kind key account

unfoldable pub used_app : ℕ → ℕ → ℕ → Tx (Unit {0})
used_app id step now = modify λ db. record db {
  second_factors =
      update (λ f. f.id == id) (λ f. record f { last_step = some step; last_used_at = some now })
        db.second_factors;
}

-- An unused code of the account.
abbrev pub is_unused : ℕ → Bytes → RecoveryCode → Bool
is_unused account bound r =
    (r.account == account) && same_bytes r.code_hash bound && not (is_set r.used_at)

-- The rows affected are one exactly when the account has the code unused: (account_id, code_hash) is
-- the table's primary key.
unfoldable pub use_recovery_code : Crypto → ℕ → Bytes → ℕ → Tx Bool
use_recovery_code c account hash now = do
  affected ←
      gets (λ db. count (is_unused account (bound_recovery_hash c account hash)) db.recovery_codes)
  modify λ db. record db {
    recovery_codes =
        update (is_unused account (bound_recovery_hash c account hash))
          (λ r. record r { used_at = some now }) db.recovery_codes;
  }
  pure (affected == 1)

-- ===== src/AccountStore.antt =====
-- internal/identity/store.go: the statements on accounts, passwords, confirmations and sessions.
use marketplace.Base.{
  ℕ, ◌+◌, ◌*◌, Bool, false, not, ◌&&◌, ◌||◌, Option, none, some, ◌==◌, ltb, if◌then◌else◌, Bytes,
  String, same_bytes, is_set, find, update, delete, insert,
}
use marketplace.Policy.{UserKind, buyer, staff}
use marketplace.Store.{Account, Credential, Verification, SessionRow, Factor}
use marketplace.EmailCode.{hour}
use marketplace.Tx.{Tx, ◌>>=◌, ◌>>◌, pure, fail, gets, modify, or_fail, no_rows, taken}

-- identity.go: SessionIdle, SessionLifetime, touchEvery, RevokedKept, sweepEvery
abbrev pub days : ℕ → ℕ
days n = n * 24 * hour

abbrev pub session_idle : ℕ
session_idle = days 30

abbrev pub session_lifetime : ℕ
session_lifetime = days 90

abbrev pub touch_every : ℕ
touch_every = hour

abbrev pub revoked_kept : ℕ
revoked_kept = days 7

-- INSERT … ON CONFLICT ON CONSTRAINT account_email_is_unique DO NOTHING RETURNING id
insert_row : UserKind → Bytes → Bytes → Bytes → Option ℕ → Tx ℕ
insert_row kind email normalised name verified = do
  existing ← gets (λ db. find (λ (a : Account). same_bytes a.normalised normalised) db.accounts)
  if is_set existing then fail taken else do
    id ← gets (λ db. db.next_id)
    modify λ db. record db {
      next_id = db.next_id + 1;
      accounts =
          insert
            (record {
              id = id;
              kind = kind;
              email = email;
              normalised = normalised;
              name = name;
              verified_at = verified;
            })
            db.accounts;
    }
    pure id

unfoldable pub insert_account : Bytes → Bytes → Bytes → Tx ℕ
unfolding insert_row
insert_account email normalised name = insert_row buyer email normalised name none

unfoldable pub insert_staff : Bytes → Bytes → Bytes → ℕ → Tx ℕ
unfolding insert_row
insert_staff email normalised name at = insert_row staff email normalised name (some at)

unfoldable pub account_by_email : Bytes → Tx (Option Account)
account_by_email normalised =
    gets λ db. find (λ (a : Account). same_bytes a.normalised normalised) db.accounts

unfoldable pub account_by_id : ℕ → Tx Account
account_by_id id = do
  found ← gets (λ db. find (λ (a : Account). a.id == id) db.accounts)
  or_fail found no_rows

-- ON CONFLICT (account_id, kind) DO UPDATE: an account has one password.
unfoldable pub set_password : ℕ → Bytes → Tx (Unit {0})
set_password account secret = modify λ db. record db {
  credentials =
      insert (record { account = account; secret = secret })
        (delete (λ (r : Credential). r.account == account) db.credentials);
}

unfoldable pub password_of : ℕ → Tx Bytes
password_of account = do
  found ← gets (λ db. find (λ (r : Credential). r.account == account) db.credentials)
  row ← or_fail found no_rows
  pure row.secret

unfoldable pub password_still : ℕ → Bytes → Tx Bool
unfolding password_of
password_still account verified = do secret ← password_of account; pure (same_bytes secret verified)

unfoldable pub insert_verification : ℕ → Bytes → ℕ → Tx (Unit {0})
insert_verification account hash expires = modify λ db. record db {
  verifications =
      insert (record { hash = hash; account = account; expires_at = expires; used_at = none })
        db.verifications;
}

abbrev pub is_open : Bytes → ℕ → Verification → Bool
is_open hash now r = same_bytes r.hash hash && not (is_set r.used_at) && ltb now r.expires_at

-- coalesce(verified_at, now)
abbrev pub verified : ℕ → Account → Account
verified now a = record a { verified_at = if is_set a.verified_at then a.verified_at else some now }

unfoldable pub consume_verification : Bytes → ℕ → Tx ℕ
consume_verification hash now = do
  found ← gets (λ db. find (is_open hash now) db.verifications)
  row ← or_fail found no_rows
  modify λ db. record db {
    verifications =
        update (is_open hash now) (λ r. record r { used_at = some now }) db.verifications;
  }
  modify λ db. record db {
    accounts = update (λ (a : Account). a.id == row.account) (verified now) db.accounts;
  }
  pure row.account

unfoldable pub insert_session : ℕ → Bytes → Bytes → Bytes → ℕ → Tx (Unit {0})
insert_session account hash ip agent now = modify λ db. record db {
  next_id = db.next_id + 1;
  sessions =
      insert
        (record {
          id = db.next_id;
          account = account;
          hash = hash;
          ip = ip;
          user_agent = agent;
          created = now;
          seen = now;
          stepped_up = none;
          email_proved = none;
          revoked_at = none;
          revoked_reason = "";
        })
        db.sessions;
}

-- A session that is not revoked.
abbrev pub is_held : Bytes → SessionRow → Bool
is_held hash r = same_bytes r.hash hash && not (is_set r.revoked_at)

-- The row, and whether its account has a second factor.
unfoldable pub live_session : Bytes → Tx (Option SessionRow)
live_session hash = gets λ db. find (is_held hash) db.sessions

unfoldable pub has_second_factor : ℕ → Tx Bool
has_second_factor account =
    gets λ db. is_set (find (λ (f : Factor). f.account == account) db.second_factors)

unfoldable pub touch_session : ℕ → ℕ → Tx (Unit {0})
touch_session id now = modify λ db. record db {
  sessions = update (λ r. r.id == id) (λ r. record r { seen = now }) db.sessions;
}

abbrev pub revoked : String → ℕ → SessionRow → SessionRow
revoked reason now r = record r { revoked_at = some now; revoked_reason = reason }

-- UPDATE … RETURNING account_id: `none` where no row is live.
unfoldable pub revoke_session : Bytes → String → ℕ → Tx (Option SessionRow)
revoke_session hash reason now = do
  found ← gets (λ db. find (is_held hash) db.sessions)
  modify λ db. record db { sessions = update (is_held hash) (revoked reason now) db.sessions }
  pure found

-- `revoked_at < $3`, false where it is NULL.
abbrev revoked_before : Option ℕ → ℕ → Bool
revoked_before none now = false
revoked_before (some at) now = ltb (at + revoked_kept) now

abbrev pub is_swept : ℕ → SessionRow → Bool
is_swept now r =
    ltb (r.created + session_lifetime) now
    || ltb (r.seen + session_idle) now
    || revoked_before r.revoked_at now

unfoldable pub sweep_sessions : ℕ → Tx (Unit {0})
sweep_sessions now = modify λ db. record db { sessions = delete (is_swept now) db.sessions }

unfoldable pub revoke_sessions : ℕ → ℕ → Tx (Unit {0})
revoke_sessions account now = modify λ db. record db {
  sessions =
      update (λ r. (r.account == account) && not (is_set r.revoked_at))
        (revoked "password_changed" now) db.sessions;
}

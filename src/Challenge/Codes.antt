-- ===== src/Challenge/Codes.antt =====
-- internal/identity/challenge.go and challengestore.go: an app's code and a recovery code are used up.
use marketplace.Base.{
  ℕ, ◌+◌, ◌≤◌, ◌<◌, ◌≡◌, refl, Bool, true, false, ◌&&◌, some, List, [], ◌∷◌, arith, inl, inr,
  Option-cases, ok, ◌==◌, count, update, select, update-none, IsRow, IsRow-later, select-IsRow,
  Bytes,
}
use marketplace.Crypto.{Crypto, without_spaces}
use marketplace.Totp.{match_totp, totp_step, totp_drift, totp_code}
use marketplace.Store.{Db, Factor, RecoveryCode}
use marketplace.Service.{Service, Sealer}
use marketplace.Policy.{app, same_method}
use marketplace.Recovery.{bound_recovery_hash}
use marketplace.ChallengeStore.{is_unused, use_recovery_code, used_app, apps_for_update}
use marketplace.Challenge.{last_of, try_apps, check_app}
use marketplace.Totp.Window.{match_totp_sound}

used-unused :
    (account now : ℕ) (bound : Bytes) (rows : List RecoveryCode)
    → count
        (is_unused account bound)
        (update (is_unused account bound) (λ r. record r { used_at = some now }) rows)
      ≡ 0
unfolding count update
used-unused account now bound [] = refl
used-unused account now bound (r ∷ rs) = ground (arith, used-unused account now bound rs)

-- A recovery code is accepted at most once: after an account's code was looked up, whatever was
-- said, the same code is refused and the tables stay as they are.
pub use_recovery_code_once :
    (c : Crypto) (account : ℕ) (hash : Bytes) (now later : ℕ) (db db' : Db) (b : Bool)
    → use_recovery_code c account hash now db ≡ ok (b, db')
    → use_recovery_code c account hash later db' ≡ ok (false, db')
unfolding use_recovery_code
use_recovery_code_once c account hash now later db db' b h =
    let bound = bound_recovery_hash c account hash in
    let none_left : count (is_unused account bound) db'.recovery_codes ≡ 0 =
      ground (arith, used-unused account now bound db.recovery_codes) in
    let same =
      update-none (is_unused account bound) (λ r. record r { used_at = some later })
        db'.recovery_codes none_left in
    rw (none_left, same) refl

-- An app of the account that accepted a code: the code is its secret's for a step after its last accepted one and
-- at most one step from the current one, and it is the step that the app's row keeps from then on.
pub record Accepted (s : Service) (sealer : Sealer) (account : ℕ) (typed : Bytes) (now : ℕ)
    (db db' : Db) : Type 0 where
  pub factor : Factor
  pub is_row : IsRow factor db.second_factors
  pub owner : factor.account ≡ account
  pub is_app : same_method factor.method app ≡ true
  pub secret : Bytes
  pub step : ℕ
  pub opens : sealer.open_for account factor.secret ≡ some secret
  pub is_new : last_of factor.last_step < step
  pub near : (totp_step now ≤ step + totp_drift) × (step ≤ totp_step now + totp_drift)
  pub same : totp_code s.crypto secret step ≡ without_spaces typed
  pub keeps :
      db'.second_factors
      ≡ update
          (λ f. f.id == factor.id)
          (λ f. record f { last_step = some step; last_used_at = some now })
          db.second_factors

-- A row of the table that is an app of the account.
abbrev IsOwnApp : ℕ → Db → Factor → Type 0
IsOwnApp account db a =
    IsRow a db.second_factors × (a.account ≡ account) × (same_method a.method app ≡ true)

try_apps-Accepted :
    (s : Service) (sealer : Sealer) (account : ℕ) (typed : Bytes) (now : ℕ) (apps : List Factor)
    (db db' : Db)
    → ((a : Factor) → IsRow a apps → IsOwnApp account db a)
    → try_apps s sealer account typed now apps db ≡ ok (true, db')
    → Accepted s sealer account typed now db db'
unfolding try_apps used_app
try_apps-Accepted s sealer account typed now [] db db' own h = cc h
try_apps-Accepted s sealer account typed now (a ∷ rest) db db' own h =
    elim (Option-cases (sealer.open_for account a.secret)) [
      | inl sealed ↦ ground arith
      | inr (secret, opens) ↦
          elim (Option-cases (match_totp s.crypto secret typed now (last_of a.last_step))) [
            | inl no_match ↦
                try_apps-Accepted s sealer account typed now rest db db'
                  (λ x there. own x (IsRow-later x a rest there)) (ground arith)
            | inr (step, found) ↦
                let (after, low, high, same) =
                  match_totp_sound s.crypto secret typed now (last_of a.last_step) step found in
                let (there, mine, kind) = own a ([], rest, refl) in
                record {
                  factor = a;
                  is_row = there;
                  owner = mine;
                  is_app = kind;
                  secret = secret;
                  step = step;
                  opens = opens;
                  is_new = after;
                  near = (low, high);
                  same = same;
                  keeps = ground arith;
                }
          ]
    ]

-- A code typed from an app is accepted only by a row of the account's apps whose secret's code it is, for a step that
-- is after the last one the factor accepted and at most one from the current one; and the factor
-- then keeps that step as its last.
pub check_app-Accepted :
    (s : Service) (sealer : Sealer) (account : ℕ) (typed : Bytes) (now : ℕ) (db db' : Db)
    → s.sealer ≡ some sealer
    → check_app s account typed now db ≡ ok (true, db')
    → Accepted s sealer account typed now db db'
unfolding check_app apps_for_update
check_app-Accepted s sealer account typed now db db' there h =
    try_apps-Accepted s sealer account typed now
      (select (λ f. (f.account == account) && same_method f.method app) db.second_factors) db db'
      (λ a there.
        let (row, hit) =
          select-IsRow (λ f. (f.account == account) && same_method f.method app) a db.second_factors
            there in
        (row, ground arith, ground arith))
      (ground arith)

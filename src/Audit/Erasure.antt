-- ===== src/Audit/Erasure.antt =====
-- internal/platform/audit/keys.go and open.go: what a person's destroyed key had sealed stays erased,
-- whatever is appended afterwards.
use marketplace.Base.{
  subst, ℕ, ◌≡◌, refl, ◌∙◌, Bool, true, false, not, ◌&&◌, Option, none, some, List, [], ◌∷◌, arith,
  Bool-cases, inl, inr, Bytes, is_set, find, find-insert, find-true, find-update_any, Option-cases,
  Outcome, ok, err,
}
use marketplace.Crypto.{Crypto}
use marketplace.Audit.{Entry, Refusal, cannot_seal, is_empty}
use marketplace.Audit.Keys.{
  UserKey, Tables, Row, Vault, Step, is_key_of, destroy, open_key, create_key, read_key, ◌>>=◌,
  >>=-eq-ok, >>=-ok, or_fail, seal_with,
}
use marketplace.Audit.Log.{
  Draws, append, append_sealed, seal, head, insert_row, advance, Opened, open_part, opened,
  open_written, open_row, user_of,
}
use marketplace.Audit.Written.{kept, appended}
use marketplace.Audit.Appending.{append-sealed}

-- The person has a key, and it is destroyed.
abbrev pub IsDestroyed : Bytes → Tables → Type 0
IsDestroyed user t =
    (k : UserKey) × (find (is_key_of user) t.user_keys ≡ some k) × (is_set k.destroyed_at ≡ true)

destroy-IsDestroyed :
    (v : Vault) (user : Bytes) (now : ℕ) (t t' : Tables) (k : UserKey)
    → find (is_key_of user) t.user_keys ≡ some k
    → destroy v user now t ≡ ok (tt, t')
    → IsDestroyed user t'
unfolding destroy
destroy-IsDestroyed v user now t t' k found h =
    let now_gone = λ (k : UserKey). record k { wrapped = none; destroyed_at = some now } in
    let is_live = λ (k : UserKey). is_key_of user k && not (is_set k.destroyed_at) in
    let after = find-update_any (is_key_of user) is_live now_gone t.user_keys (λ k. refl) in
    elim (Bool-cases (is_set k.destroyed_at)) [
      | inl already ↦ (k, ground arith, already)
      | inr live ↦ (now_gone k, ground (arith, find-true (is_key_of user) t.user_keys found), refl)
    ]

open_key-IsDestroyed :
    (v : Vault) (user other fresh key : Bytes) (t t' : Tables)
    → open_key v other fresh t ≡ ok (key, t')
    → IsDestroyed user t
    → IsDestroyed user t'
unfolding open_key create_key read_key
open_key-IsDestroyed v user other fresh key t t' h (k, found, gone) =
    elim (Option-cases (v.wrap fresh)) [
      | inl failed ↦ (k, ground arith, gone)
      | inr (w, e) ↦
          let row : UserKey = record { user = other; wrapped = some w; destroyed_at = none } in
          (k, ground (arith, find-insert (is_key_of user) row t.user_keys), gone)
    ]

open_part-IsDestroyed :
    {A : Type 0} (v : Vault) (read : Bytes → Option A) (user fresh sealed : Bytes) (t : Tables)
    → IsDestroyed user t
    → open_part v read user fresh sealed t ≡ ok (none, t)
unfolding open_part open_key read_key
open_part-IsDestroyed v read user fresh sealed t (k, found, gone) = ground arith

seal-IsDestroyed :
    (v : Vault) (user other fresh nonce text sealed : Bytes) (carries : Bool) (t t' : Tables)
    → seal v other fresh nonce text carries t ≡ ok (sealed, t')
    → IsDestroyed user t
    → IsDestroyed user t'
unfolding seal
seal-IsDestroyed v user other fresh nonce text sealed false t t' h g =
    let e : t ≡ t' = ground arith in subst (IsDestroyed user) e g
seal-IsDestroyed v user other fresh nonce text sealed true t t' h g =
    let (key, u, opened, rest) =
      >>=-eq-ok (open_key v other fresh) (λ key. or_fail (seal_with v key nonce text) cannot_seal) t
        h in
    let e : u ≡ t' = ground arith in
    subst (IsDestroyed user) e (open_key-IsDestroyed v user other fresh key t u opened g)

append_sealed-keys :
    (c : Crypto) (v : Vault) (e : Entry) (now : ℕ) (a s : Bytes) (t t' : Tables)
    → append_sealed c v e now a s t ≡ ok (tt, t')
    → t'.user_keys ≡ t.user_keys
unfolding append_sealed head insert_row advance
append_sealed-keys c v e now a s t t' h = ground arith

append-IsDestroyed :
    (c : Crypto) (v : Vault) (user : Bytes) (d : Draws) (e : Entry) (t t' : Tables)
    → append c v d e t ≡ ok (tt, t')
    → IsDestroyed user t
    → IsDestroyed user t'
append-IsDestroyed c v user d e t t' h g =
    let (a, u, s, w, first, second, last) = append-sealed c v d e t t' h in
    rw (append_sealed-keys c v e d.now a s w t' last) (
      seal-IsDestroyed v user _ _ _ _ s _ u w second
        (seal-IsDestroyed v user _ _ _ _ a _ t u first g))

kept-IsDestroyed :
    (c : Crypto) (v : Vault) (user : Bytes) (d : Draws) (e : Entry) (t : Tables)
    → IsDestroyed user t
    → (r : Outcome Refusal (Unit {0} × Tables)) → append c v d e t ≡ r
    → IsDestroyed user (kept t r)
unfolding kept
kept-IsDestroyed c v user d e t g (ok (_, t')) h = append-IsDestroyed c v user d e t t' h g
kept-IsDestroyed c v user d e t g (err _) h = g

appended-IsDestroyed :
    (c : Crypto) (v : Vault) (user : Bytes) (entries : List (Draws × Entry)) (t : Tables)
    → IsDestroyed user t
    → IsDestroyed user (appended c v entries t)
unfolding appended
appended-IsDestroyed c v user [] t g = g
appended-IsDestroyed c v user ((d, e) ∷ earlier) t g =
    let t' = appended c v earlier t in
    kept-IsDestroyed c v user d e t' (appended-IsDestroyed c v user earlier t g) (append c v d e t')
      refl

-- What a row says once its parts' keys are gone.
unfoldable pub erased : Row → Opened
erased r = record {
  entry = r.entry;
  from = [];
  before = [];
  after = [];
  origin_erased = not (is_empty r.entry.actor_secret);
  state_erased = not (is_empty r.entry.subject_secret);
}

-- A part that is sealed with the person's key, or not written.
abbrev pub IsSealedBy : Bytes → Bytes → Option Bytes → Type 0
IsSealedBy user sealed key = is_empty sealed ≡ false → user_of key ≡ user

part-IsDestroyed :
    {A : Type 0} (v : Vault) (read : Bytes → Option A) (user fresh sealed : Bytes)
    (key : Option Bytes) (t : Tables)
    → IsDestroyed user t
    → IsSealedBy user sealed key
    → open_written v read key fresh sealed t ≡ ok (none, t)
part-IsDestroyed v read user fresh sealed key t g by = elim (Bool-cases (is_empty sealed)) [
  | inl absent ↦ rw absent
  | inr present ↦ rw (present, by present) (open_part-IsDestroyed v read user fresh sealed t g)
]

open_row-IsDestroyed :
    (v : Vault) (user fresh : Bytes) (r : Row) (t : Tables)
    → IsDestroyed user t
    → IsSealedBy user r.entry.actor_secret r.actor_key
    → IsSealedBy user r.entry.subject_secret r.subject_key
    → open_row v fresh r t ≡ ok (erased r, t)
unfolding open_row erased
open_row-IsDestroyed v user fresh r t g origin state =
    let first =
      part-IsDestroyed v v.read_origin user fresh r.entry.actor_secret r.actor_key t g origin in
    let second =
      part-IsDestroyed v v.read_state user fresh r.entry.subject_secret r.subject_key t g state in
    let read_state = open_written v v.read_state r.subject_key fresh r.entry.subject_secret in
    let answer : Option Bytes → Option (Bytes × Bytes) → Step Opened =
      (λ o s t. ok (opened r o s, t)) in
    >>=-ok (open_written v v.read_origin r.actor_key fresh r.entry.actor_secret)
      (λ o. read_state >>= answer o) t first
    ∙ >>=-ok read_state (answer none) t second
    ∙ ground arith

-- What is about a person is erased for good by destroying their key: whatever is appended after a
-- person who has a key was erased, every row whose parts are sealed with that person's key is read as
-- its own account of who did what to what, with no origin and no state, and says which were erased.
pub open_row-destroyed :
    (c : Crypto) (v : Vault) (user fresh : Bytes) (now : ℕ) (entries : List (Draws × Entry))
    (t t' : Tables) (k : UserKey) (r : Row)
    → find (is_key_of user) t.user_keys ≡ some k
    → destroy v user now t ≡ ok (tt, t')
    → IsSealedBy user r.entry.actor_secret r.actor_key
    → IsSealedBy user r.entry.subject_secret r.subject_key
    → open_row v fresh r (appended c v entries t') ≡ ok (erased r, appended c v entries t')
open_row-destroyed c v user fresh now entries t t' k r found h origin state =
    open_row-IsDestroyed v user fresh r (appended c v entries t')
      (appended-IsDestroyed c v user entries t' (destroy-IsDestroyed v user now t t' k found h))
      origin state

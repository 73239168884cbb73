-- ===== src/Audit/Keys.antt =====
-- internal/platform/audit/keys.go and seal.go, with Seal and Open of internal/platform/keys/keys.go:
-- one data key for each person, wrapped by a keeper, and what it seals. The keeper, AES-GCM and the
-- JSON of a record's parts are parameters; a fresh key and a nonce are arguments.
use marketplace.Base.{
  arith, ◌≡◌, refl, ℕ, zero, suc, Bool, ◌||◌, Option, none, some, List, [], ◌∷◌, ◌++◌, ◌==◌, ltb,
  if◌then◌else◌, is_set, Bytes, same_bytes, length, Outcome, ok, err, find, insert, update, ◌&&◌,
  not,
}
use marketplace.Audit.{
  Record, Refusal, key_destroyed, keeper_failed, cannot_seal, cannot_open, not_personal,
  platform_key_kept, is_empty,
}

-- What the package calls and does not implement. `none` is an error.
pub record Vault : Type 0 where
  pub wrap : Bytes → Option Bytes
  pub unwrap : Bytes → Option Bytes
  -- cipher.AEAD's Seal and Open: key, nonce, and the plaintext or the ciphertext
  pub gcm_seal : Bytes → Bytes → Bytes → Bytes
  pub gcm_open : Bytes → Bytes → Bytes → Option Bytes
  -- the JSON of origin and state, and its readers
  pub origin_json : Bytes → Bytes
  pub read_origin : Bytes → Option Bytes
  pub state_json : Bytes → Bytes → Bytes
  pub read_state : Bytes → Option (Bytes × Bytes)
  -- the identifier Platform
  pub platform : Bytes

-- A row of user_key.
pub record UserKey : Type 0 where
  pub user : Bytes
  pub wrapped : Option Bytes
  pub destroyed_at : Option ℕ

-- A row of audit_log, and one of audit_chain.
pub record Row : Type 0 where
  pub entry : Record
  pub actor_key : Option Bytes
  pub subject_key : Option Bytes

pub record Chain : Type 0 where
  pub marketplace : Bytes
  pub last_hash : Bytes
  pub length : ℕ

pub record Tables : Type 0 where
  pub user_keys : List UserKey
  pub audit_log : List Row
  pub audit_chains : List Chain

abbrev pub Step : Type 0 → Type 0
Step A = Tables → Outcome Refusal (A × Tables)

infixl 5 ◌>>=◌ ◌>>◌
abbrev pub ◌>>=◌ : {A B : Type 0} → Step A → (A → Step B) → Step B
◌>>=◌ m f t = elim (m t) [ ok (a, t') ↦ f a t' | err e ↦ err e ]

abbrev pub ◌>>◌ : {A B : Type 0} → Step A → Step B → Step B
m >> k = m >>= λ _. k

abbrev pub or_fail : {A : Type 0} → Option A → Refusal → Step A
or_fail none e t = err e
or_fail (some a) e t = ok (a, t)

-- What a committed chain of steps has done.
pub >>=-eq-ok :
    {A B : Type 0} (m : Step A) (f : A → Step B) (t : Tables) {b : B} {t' : Tables}
    → (m >>= f) t ≡ ok (b, t')
    → (a : A) × (u : Tables) × (m t ≡ ok (a, u)) × (f a u ≡ ok (b, t'))
>>=-eq-ok {A} {B} m f t {b} {t'} h = go (m t) refl h
  where
    go :
        (r : Outcome Refusal (A × Tables))
        → m t ≡ r
        → (elim r as (λ _. Outcome Refusal (B × Tables)) [ ok (a, u) ↦ f a u | err e ↦ err e ])
          ≡ ok (b, t')
        → (a : A) × (u : Tables) × (m t ≡ ok (a, u)) × (f a u ≡ ok (b, t'))
    go (ok (a, u)) e k = (a, u, e, k)
    go (err e) _ k = cc

pub >>=-ok :
    {A B : Type 0} (m : Step A) (f : A → Step B) (t : Tables) {a : A} {u : Tables}
    → m t ≡ ok (a, u)
    → (m >>= f) t ≡ f a u
>>=-ok m f t e = ground arith

abbrev pub key_size : ℕ
key_size = 32

-- NonceSize of cipher.NewGCM
abbrev pub nonce_size : ℕ
nonce_size = 12

-- keys.Seal: the nonce, then the ciphertext.
unfoldable pub seal_with : Vault → Bytes → Bytes → Bytes → Option Bytes
seal_with v key nonce plaintext =
    if length key == key_size then some (nonce ++ v.gcm_seal key nonce plaintext) else none

abbrev pub cut : ℕ → Bytes → Bytes × Bytes
cut zero xs = ([], xs)
cut (suc n) [] = ([], [])
cut (suc n) (x ∷ xs) = let (front, back) = cut n xs in (x ∷ front, back)

-- keys.Open
unfoldable pub open_with : Vault → Bytes → Bytes → Option Bytes
open_with v key sealed =
    if length key == key_size
    then if ltb (length sealed) nonce_size
      then none
      else v.gcm_open key (cut nonce_size sealed).0 (cut nonce_size sealed).1
    else none

abbrev pub is_key_of : Bytes → UserKey → Bool
is_key_of user k = same_bytes k.user user

abbrev column : Option Bytes → Bytes
column none = []
column (some w) = w

-- (*Keys).read, of a row that was found: the wrapped key, or that it was destroyed.
unfoldable pub read_key : UserKey → Outcome Refusal Bytes
read_key k = if is_set k.destroyed_at then err key_destroyed else ok (column k.wrapped)

-- (*Keys).create, with the key that was drawn. A transaction runs alone, so its INSERT conflicts with
-- nothing.
unfoldable pub create_key : Vault → Bytes → Bytes → Step Bytes
create_key v user fresh = do
  wrapped ← or_fail (v.wrap fresh) keeper_failed
  λ t. ok (
    wrapped,
    record t {
      user_keys =
          insert (record { user = user; wrapped = some wrapped; destroyed_at = none }) t.user_keys;
    },
  )

abbrev pub find_key : Vault → Bytes → Bytes → Option UserKey → Step Bytes
find_key v user fresh none t = create_key v user fresh t
find_key v user fresh (some k) t = elim (read_key k) [ ok w ↦ ok (w, t) | err e ↦ err e ]

-- (*Keys).open: the person's key, created the first time.
unfoldable pub open_key : Vault → Bytes → Bytes → Step Bytes
open_key v user fresh t =
    (find_key v user fresh (find (is_key_of user) t.user_keys) >>= λ wrapped.
    or_fail (v.unwrap wrapped) keeper_failed)
      t

-- (*Keys).Destroy
unfoldable pub destroy : Vault → Bytes → ℕ → Step (Unit {0})
destroy v user now t =
    if same_bytes user v.platform
    then err platform_key_kept
    else ok (
      tt,
      record t {
        user_keys =
            update (λ k. is_key_of user k && not (is_set k.destroyed_at))
              (λ k. record k { wrapped = none; destroyed_at = some now }) t.user_keys;
      },
    )

-- personal
abbrev is_personal : Vault → Bytes → Bool
is_personal v person = not (is_empty person || same_bytes person v.platform)

-- (*Keys).SealFor
unfoldable pub seal_for : Vault → Bytes → Bytes → Bytes → Bytes → Step Bytes
seal_for v person fresh nonce plaintext =
    if is_personal v person
    then (do key ← open_key v person fresh; or_fail (seal_with v key nonce plaintext) cannot_seal)
    else (λ t. err not_personal)

-- (*Keys).OpenFor
unfoldable pub open_for : Vault → Bytes → Bytes → Bytes → Step Bytes
open_for v person fresh sealed =
    if is_personal v person
    then (do key ← open_key v person fresh; or_fail (open_with v key sealed) cannot_open)
    else (λ t. err not_personal)

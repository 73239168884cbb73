-- ===== src/Tests/Trail.antt =====
-- The theorems on the audit trail at concrete inputs.
use marketplace.Base.{
  ℕ, ◌<◌, ◌^◌, same_bytes_refl, ◌≡◌, ◌≢◌, ◌⊎◌, refl, ap, true, false, none, some, List, [], ◌∷◌,
  ◌++◌, Bytes, arith, ok, length, find, update, same_bytes,
}
use marketplace.Audit.{Entry, Record, digest, digest_input, big_endian}
use marketplace.Audit.Keys.{Vault, UserKey, Tables, Row, destroy}
use marketplace.Audit.Log.{Draws, open_row}
use marketplace.Audit.Verify.{walk, fault, verify}
use marketplace.Audit.Digest.{IsSized, unlinked}
use marketplace.Audit.Tampering.{Collision, IsHash, IsStored, walk-last_hash}
use marketplace.Audit.Written.{appended, empty_log, records_in, verify-appended}
use marketplace.Audit.Erasure.{erased, open_row-destroyed}
use marketplace.Tests.Data.{some_crypto}

abbrev shop : Bytes
shop = b'S' ∷ []

abbrev ana : Bytes
ana = b'a' ∷ []

abbrev a_vault : Vault
a_vault = record {
  wrap = some;
  unwrap = some;
  gcm_seal = λ key nonce text. text;
  gcm_open = λ key nonce text. some text;
  origin_json = λ from. from;
  read_origin = some;
  state_json = λ before after. before ++ after;
  read_state = λ text. some ([], text);
  platform = b'P' ∷ [];
}

abbrev a_key : Bytes
a_key =
    0 ∷ 1 ∷ 2 ∷ 3 ∷ 4 ∷ 5 ∷ 6 ∷ 7 ∷ 8 ∷ 9 ∷ 10 ∷ 11 ∷ 12 ∷ 13 ∷ 14 ∷ 15 ∷ 0 ∷ 1 ∷ 2 ∷ 3 ∷ 4 ∷ 5 ∷ 6
    ∷ 7 ∷ 8 ∷ 9 ∷ 10 ∷ 11 ∷ 12 ∷ 13 ∷ 14 ∷ 15 ∷ []

abbrev a_nonce : Bytes
a_nonce = 0 ∷ 1 ∷ 2 ∷ 3 ∷ 4 ∷ 5 ∷ 6 ∷ 7 ∷ 8 ∷ 9 ∷ 10 ∷ 11 ∷ []

abbrev draws : Draws
draws = record {
  actor_fresh = a_key;
  actor_nonce = a_nonce;
  subject_fresh = a_key;
  subject_nonce = a_nonce;
  now = 7;
}

-- She changes her name, from an address.
abbrev change : Entry
change = record {
  marketplace = shop;
  actor_id = ana;
  actor_kind = b'b' ∷ [];
  action = b'c' ∷ [];
  subject_kind = b'u' ∷ [];
  subject_id = ana;
  person = ana;
  from = b'i' ∷ [];
  before = b'x' ∷ [];
  after = b'y' ∷ [];
}

-- An entry without an action is refused.
abbrev nothing_done : Entry
nothing_done = record change { action = [] }

abbrev elsewhere : Entry
elsewhere = record change { marketplace = [] }

abbrev entries : List (Draws × Entry)
entries = (draws, change) ∷ (draws, elsewhere) ∷ (draws, nothing_done) ∷ (draws, change) ∷ []

verify-appended_example :
    verify some_crypto (appended some_crypto a_vault entries (empty_log [])) ≡ record {
      chains = length (appended some_crypto a_vault entries (empty_log [])).audit_chains;
      records =
          records_in
            (appended some_crypto a_vault entries (empty_log [])).audit_log
            (appended some_crypto a_vault entries (empty_log [])).audit_chains;
      breaks = [];
    }
verify-appended_example = verify-appended some_crypto a_vault entries []

abbrev her_key : UserKey
her_key = record { user = ana; wrapped = some a_key; destroyed_at = none }

abbrev with_key : Tables
with_key = empty_log (her_key ∷ [])

abbrev without_key : Tables
without_key = empty_log (record her_key { wrapped = none; destroyed_at = some 8 } ∷ [])

-- Her row: two parts that her key has sealed.
abbrev her_row : Row
her_row = record {
  entry = record {
    marketplace = shop;
    sequence = 1;
    recorded_at = 7;
    actor_id = ana;
    actor_kind = b'b' ∷ [];
    action = b'c' ∷ [];
    subject_kind = b'u' ∷ [];
    subject_id = ana;
    actor_secret = a_nonce ++ b'i' ∷ [];
    subject_secret = a_nonce ++ b'x' ∷ b'y' ∷ [];
    previous_hash = [];
    hash = [];
  };
  actor_key = some ana;
  subject_key = some ana;
}

found_key : find (λ (k : UserKey). same_bytes k.user ana) with_key.user_keys ≡ some her_key
unfolding find same_bytes
found_key = refl

destroyed : destroy a_vault ana 8 with_key ≡ ok (tt, without_key)
unfolding destroy update same_bytes
destroyed = refl

open_row-destroyed_example :
    open_row a_vault a_key her_row (appended some_crypto a_vault entries without_key)
    ≡ ok (erased her_row, appended some_crypto a_vault entries without_key)
open_row-destroyed_example =
    open_row-destroyed some_crypto a_vault ana a_key 8 entries with_key without_key her_key her_row
      found_key destroyed (λ h. refl) (λ h. refl)

-- The first record of a chain that starts from a hash of one byte, the second, and the first with
-- other content. The hash is the text itself, so that nothing collides.
abbrev start : Bytes
start = 0 ∷ []

abbrev unhashed : Record
unhashed = record {
  marketplace = shop;
  sequence = 1;
  recorded_at = 7;
  actor_id = ana;
  actor_kind = [];
  action = b'c' ∷ [];
  subject_kind = b'u' ∷ [];
  subject_id = [];
  actor_secret = [];
  subject_secret = [];
  previous_hash = start;
  hash = [];
}

abbrev first_hash : Bytes
first_hash = digest some_crypto start unhashed

abbrev first : Record
first = record unhashed { hash = first_hash }

abbrev second : Record
second = record first {
  sequence = 2;
  previous_hash = first_hash;
  hash = digest some_crypto first_hash (record first { sequence = 2 });
}

abbrev forged : Record
forged = record first { action = b'd' ∷ [] }

-- The texts of such a record are short.
sized :
    (n : ℕ)
    → n < 256 ^ 8
    → (action : Bytes) → length action ≡ 1
    → (p h : Bytes)
    → IsSized (record unhashed { sequence = n; action = action; previous_hash = p; hash = h })
sized n small action one p h = record {
  marketplace = omega arith;
  sequence = small;
  recorded_at = omega arith;
  actor_id = omega arith;
  actor_kind = omega arith;
  action = omega arith;
  subject_kind = omega arith;
  subject_id = omega arith;
  actor_secret = omega arith;
  subject_secret = omega arith;
}

first_hash-IsHash : IsHash first_hash
unfolding digest digest_input big_endian
first_hash-IsHash = omega arith

second-IsHash : IsHash second.hash
unfolding digest digest_input big_endian
second-IsHash = omega arith

first-IsStored : IsStored first
first-IsStored = (sized 1 (omega arith) (b'c' ∷ []) refl start first_hash, first_hash-IsHash)

second-IsStored : IsStored second
second-IsStored = (sized 2 (omega arith) (b'c' ∷ []) refl first_hash second.hash, second-IsHash)

forged-IsStored : IsStored forged
forged-IsStored = (sized 1 (omega arith) (b'd' ∷ []) refl start first_hash, first_hash-IsHash)

fits :
    (p : Bytes) (r : Record)
    → r.previous_hash ≡ p
    → digest some_crypto p r ≡ r.hash
    → fault some_crypto p r ≡ none
unfolding fault same_bytes digest digest_input
fits p r chained right = rw (chained, right, same_bytes_refl p, same_bytes_refl r.hash) refl

first-fits : fault some_crypto start first ≡ none
unfolding digest digest_input
first-fits = fits start first refl refl

second-fits : fault some_crypto first_hash second ≡ none
unfolding digest digest_input
second-fits = fits first_hash second refl refl

walked : walk some_crypto shop start (first ∷ second ∷ []) ≡ []
unfolding walk
walked = rw (first-fits, second-fits) refl

walk-last_hash_example :
    ((start ≡ start) × (first ∷ second ∷ [] ≡ first ∷ second ∷ [])) ⊎ Collision some_crypto
walk-last_hash_example =
    walk-last_hash some_crypto shop start start (first ∷ second ∷ []) (first ∷ second ∷ [])
      (omega arith) (omega arith) (first-IsStored, (second-IsStored, tt))
      (first-IsStored, (second-IsStored, tt)) refl walked walked refl

forged-other : unlinked forged ≢ unlinked first
unfolding same_bytes
forged-other h =
    let k : true ≡ false = ap (λ (r : Record). same_bytes r.action (b'd' ∷ [])) h in cc k

-- ===== src/Hasher.antt =====
-- internal/identity/password.go: the PHC string of a password, how it is made, read back and checked.
-- Parameters: argon2id, the base64 without padding, norm.NFKC, and fmt's printing and scanning of the
-- three costs. subtle.ConstantTimeCompare is an equality. The bound on the hashes that are made at
-- once, and the dummy, which only takes time, are left out.
pub mod Roundtrip
use marketplace.Base.{
  ℕ, Bool, true, false, not, ◌&&◌, ◌||◌, Option, none, some, List, [], ◌∷◌, ◌++◌, ◌==◌, ltb, length,
  if◌then◌else◌, Bytes, same_bytes,
}
use marketplace.Service.{Service}
use marketplace.Text.{split_on}

-- Params
pub record Params : Type 0 where
  pub memory : ℕ
  pub time : ℕ
  pub threads : ℕ
  pub key_len : ℕ
  pub salt_len : ℕ

-- Current
abbrev pub current_params : Params
current_params = record { memory = 65536; time = 3; threads = 1; key_len = 32; salt_len = 16 }

-- maxEncodedLen, maxMemoryKiB and maxTime
abbrev pub max_encoded_len : ℕ
max_encoded_len = 1024

abbrev pub max_memory_kib : ℕ
max_memory_kib = 262144

abbrev pub max_time : ℕ
max_time = 10

-- What password.go calls: IDKey on a password, a salt and the parameters, and the two encodings. The
-- costs are memory, time and threads.
pub record Encoding : Type 0 where
  pub id_key : Bytes → Bytes → Params → Bytes
  pub print_costs : ℕ × ℕ × ℕ → Bytes
  pub scan_costs : Bytes → Option (ℕ × ℕ × ℕ)
  pub encode64 : Bytes → Bytes
  pub decode64 : Bytes → Option Bytes
  pub normalise : Bytes → Bytes

abbrev pub dollar : ℕ
dollar = b'$'

-- "argon2id", and "v=19" of argon2.Version
abbrev pub argon2id : Bytes
argon2id = b'a' ∷ b'r' ∷ b'g' ∷ b'o' ∷ b'n' ∷ b'2' ∷ b'i' ∷ b'd' ∷ []

abbrev pub version : Bytes
version = b'v' ∷ b'=' ∷ b'1' ∷ b'9' ∷ []

abbrev pub same_params : Params → Params → Bool
same_params p q =
    p.memory == q.memory
    && p.time == q.time
    && p.threads == q.threads
    && p.key_len == q.key_len
    && p.salt_len == q.salt_len

-- The bounds on the costs and on a length that is read back.
abbrev pub costs_fit : ℕ → ℕ → ℕ → Bool
costs_fit memory time threads =
    not (
      ltb memory 1 || ltb max_memory_kib memory || ltb time 1 || ltb max_time time || ltb threads 1)

abbrev pub length_fits : ℕ → Bool
length_fits n = not (ltb n 1 || ltb max_encoded_len n)

module _ (e : Encoding) where
  -- The string that encode makes of a key.
  abbrev pub phc : Params → Bytes → Bytes → Bytes
  phc p salt key =
      dollar ∷ argon2id
      ++ (dollar ∷ version
          ++ (dollar ∷ e.print_costs (p.memory, p.time, p.threads)
              ++ (dollar ∷ e.encode64 salt ++ (dollar ∷ e.encode64 key))))

  -- (*Hasher).encode, with the salt that is drawn
  unfoldable pub encode : Params → Bytes → Bytes → Bytes
  encode p salt password = phc p salt (e.id_key password salt p)

  -- (*Hasher).Hash
  unfoldable pub hash : Params → Bytes → Bytes → Bytes
  hash p salt password = encode p salt (e.normalise password)

  abbrev pub with_lengths :
      ℕ × ℕ × ℕ → Option Bytes → Option Bytes → Option (Params × Bytes × Bytes)
  with_lengths (memory, time, threads) none key = none
  with_lengths (memory, time, threads) (some salt) none = none
  with_lengths (memory, time, threads) (some salt) (some key) =
      if length_fits (length salt) && length_fits (length key)
      then some (
        record {
          memory = memory;
          time = time;
          threads = threads;
          key_len = length key;
          salt_len = length salt;
        },
        salt,
        key,
      )
      else none

  abbrev pub with_costs : Option (ℕ × ℕ × ℕ) → Bytes → Bytes → Option (Params × Bytes × Bytes)
  with_costs none salt key = none
  with_costs (some (memory, time, threads)) salt key =
      if costs_fit memory time threads
      then with_lengths (memory, time, threads) (e.decode64 salt) (e.decode64 key)
      else none

  abbrev pub with_parts : List Bytes → Option (Params × Bytes × Bytes)
  with_parts (first ∷ name ∷ v ∷ costs ∷ salt ∷ key ∷ []) =
      if same_bytes name argon2id && same_bytes v version
      then with_costs (e.scan_costs costs) salt key
      else none
  with_parts _ = none

  -- decode; `none` is errNotPHC.
  unfoldable pub decode : Bytes → Option (Params × Bytes × Bytes)
  decode encoded = with_parts (split_on dollar encoded)

  abbrev pub checked : Params → Bytes → Option (Params × Bytes × Bytes) → Option (Bool × Bool)
  checked own password none = none
  checked own password (some (p, salt, key)) =
      some (same_bytes (e.id_key (e.normalise password) salt p) key, not (same_params p own))

  -- (*Hasher).Verify: whether the password matches, and whether the hash is stale.
  unfoldable pub verify : Params → Bytes → Bytes → Option (Bool × Bool)
  verify own password encoded = checked own password (decode encoded)

  -- The service with this hasher.
  abbrev pub with_hasher : Params → Service → Service
  with_hasher p s = record s { verify = verify p; hash_password = hash p }

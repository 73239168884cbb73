-- ===== src/Hasher/Roundtrip.antt =====
-- internal/identity/password.go: a hash is read back with the parameters and the salt it was made
-- with, and what is read back is within bounds.
use marketplace.Base.{
  ℕ, ◌^◌, ◌<◌, ◌≤◌, ◌≡◌, refl, true, not, ◌&&◌, Option, none, some, List, [], ◌∷◌, ◌++◌, arith,
  length, Bytes, same_bytes, Bool-cases, inl, inr, ap, ◌∙◌,
}
use marketplace.Text.{split_on, lacks, split_on-part, split_on-last}
use marketplace.Hasher.{
  Params, Encoding, dollar, argon2id, version, same_params, costs_fit, length_fits, phc, encode,
  hash, with_lengths, with_costs, with_parts, decode, checked, verify, max_encoded_len,
  max_memory_kib, max_time,
}

-- What fmt, base64 and argon2 do: what they print is without a dollar and is read back, and a key
-- has the length that was asked for.
pub record IsEncoding (e : Encoding) : Type 0 where
  pub costs_lack : (c : ℕ × ℕ × ℕ) → lacks dollar (e.print_costs c) ≡ true
  pub costs_back :
      (memory time threads : ℕ)
      → memory < 2 ^ 32
      → time < 2 ^ 32
      → threads < 2 ^ 8
      → e.scan_costs (e.print_costs (memory, time, threads)) ≡ some (memory, time, threads)
  pub text_lacks : (text : Bytes) → lacks dollar (e.encode64 text) ≡ true
  pub text_back : (text : Bytes) → e.decode64 (e.encode64 text) ≡ some text
  pub key_length :
      (password salt : Bytes) (p : Params) → length (e.id_key password salt p) ≡ p.key_len

-- The bounds within which argon2 does not panic and its memory is limited.
abbrev pub IsBounded : Params → Type 0
IsBounded p =
    (1 ≤ p.memory)
    × (p.memory ≤ max_memory_kib)
    × (1 ≤ p.time)
    × (p.time ≤ max_time)
    × (1 ≤ p.threads)
    × (1 ≤ p.key_len)
    × (p.key_len ≤ max_encoded_len)
    × (1 ≤ p.salt_len)
    × (p.salt_len ≤ max_encoded_len)

costs_fit-IsBounded :
    (memory time threads : ℕ)
    → costs_fit memory time threads ≡ true
    → (1 ≤ memory) × (memory ≤ max_memory_kib) × (1 ≤ time) × (time ≤ max_time) × (1 ≤ threads)
costs_fit-IsBounded memory time threads h =
    (ground arith, ground arith, ground arith, ground arith, ground arith)

length_fits-IsBounded : (n : ℕ) → length_fits n ≡ true → (1 ≤ n) × (n ≤ max_encoded_len)
length_fits-IsBounded n h = (ground arith, ground arith)

IsBounded-costs_fit : (p : Params) → IsBounded p → costs_fit p.memory p.time p.threads ≡ true
IsBounded-costs_fit p (a, b, c, d, f, g, h, i, j) = ground arith

IsBounded-length_fits : (n : ℕ) → 1 ≤ n → n ≤ max_encoded_len → length_fits n ≡ true
IsBounded-length_fits n a b = ground arith

-- What holds of what is read, where something is.
unfoldable pub OnSome : {A : Type 0} → (A → Type 0) → Option A → Type 0
OnSome P none = Unit {0}
OnSome P (some a) = P a

unfoldable pub IsRead : Params × Bytes × Bytes → Type 0
IsRead (p, salt, key) = IsBounded p × (length salt ≡ p.salt_len) × (length key ≡ p.key_len)

module _ (e : Encoding) where
  with_lengths-IsRead :
      (memory time threads : ℕ) (salt key : Option Bytes)
      → costs_fit memory time threads ≡ true
      → OnSome IsRead (with_lengths e (memory, time, threads) salt key)
  unfolding OnSome IsRead
  with_lengths-IsRead memory time threads none key fit = tt
  with_lengths-IsRead memory time threads (some salt) none fit = tt
  with_lengths-IsRead memory time threads (some salt) (some key) fit =
      elim (Bool-cases (length_fits (length salt) && length_fits (length key))) [
        | inr other ↦ rw other tt
        | inl fits ↦
            let (a, b, c, d, f) = costs_fit-IsBounded memory time threads fit in
            let (g, h) = length_fits-IsBounded (length salt) (ground arith) in
            let (i, j) = length_fits-IsBounded (length key) (ground arith) in
            rw fits ((a, b, c, d, f, i, j, g, h), refl, refl)
      ]

  with_costs-IsRead :
      (costs : Option (ℕ × ℕ × ℕ)) (salt key : Bytes) → OnSome IsRead (with_costs e costs salt key)
  unfolding OnSome
  with_costs-IsRead none salt key = tt
  with_costs-IsRead (some (memory, time, threads)) salt key =
      elim (Bool-cases (costs_fit memory time threads)) [
        | inr other ↦ rw other tt
        | inl fit ↦
            rw fit (with_lengths-IsRead memory time threads (e.decode64 salt) (e.decode64 key) fit)
      ]

  with_parts-IsRead : (parts : List Bytes) → OnSome IsRead (with_parts e parts)
  unfolding OnSome
  with_parts-IsRead [] = tt
  with_parts-IsRead (a ∷ []) = tt
  with_parts-IsRead (a ∷ b ∷ []) = tt
  with_parts-IsRead (a ∷ b ∷ c ∷ []) = tt
  with_parts-IsRead (a ∷ b ∷ c ∷ d ∷ []) = tt
  with_parts-IsRead (a ∷ b ∷ c ∷ d ∷ f ∷ []) = tt
  with_parts-IsRead (first ∷ name ∷ v ∷ costs ∷ salt ∷ key ∷ []) =
      elim (Bool-cases (same_bytes name argon2id && same_bytes v version)) [
        | inr other ↦ rw other tt
        | inl ours ↦ rw ours (with_costs-IsRead (e.scan_costs costs) salt key)
      ]
  with_parts-IsRead (a ∷ b ∷ c ∷ d ∷ f ∷ g ∷ h ∷ rest) = tt

  -- Whatever the text that is stored, what is read of it is within the bounds that keep argon2 from
  -- panicking and from allocating without limit, and the salt and the key have the lengths it says.
  pub decode-IsRead : (encoded : Bytes) → OnSome IsRead (decode e encoded)
  unfolding decode
  decode-IsRead encoded = with_parts-IsRead (split_on dollar encoded)

module _ (e : Encoding) (laws : IsEncoding e) where
  split_on-phc :
      (p : Params) (salt key : Bytes)
      → split_on dollar (phc e p salt key)
        ≡ []
          ∷ argon2id
          ∷ version
          ∷ e.print_costs (p.memory, p.time, p.threads)
          ∷ e.encode64 salt
          ∷ e.encode64 key
          ∷ []
  unfolding split_on
  split_on-phc p salt key =
      let costs : Bytes = e.print_costs (p.memory, p.time, p.threads) in
      let rest : Bytes = e.encode64 salt ++ (dollar ∷ e.encode64 key) in
      let a = split_on-part dollar costs rest (laws.costs_lack (p.memory, p.time, p.threads)) in
      let b = split_on-part dollar (e.encode64 salt) (e.encode64 key) (laws.text_lacks salt) in
      let c = split_on-last dollar (e.encode64 key) (laws.text_lacks key) in
      ap (λ parts. [] ∷ argon2id ∷ version ∷ parts)
        (a ∙ ap (λ parts. costs ∷ parts) (b ∙ ap (λ parts. e.encode64 salt ∷ parts) c))

  -- What encode writes is read back.
  decode-phc :
      (p : Params) (salt key : Bytes)
      → IsBounded p
      → p.threads < 2 ^ 8
      → length salt ≡ p.salt_len
      → length key ≡ p.key_len
      → decode e (phc e p salt key) ≡ some (p, salt, key)
  unfolding decode same_bytes
  decode-phc p salt key bounded small salted keyed =
      let (a, b, c, d, f, g, h, i, j) = bounded in
      let parts = split_on-phc p salt key in
      let back = laws.costs_back p.memory p.time p.threads (omega arith) (omega arith) small in
      let fit = IsBounded-costs_fit p bounded in
      let salt_fits = IsBounded-length_fits p.salt_len i j in
      let key_fits = IsBounded-length_fits p.key_len g h in
      ap (with_parts e) parts
      ∙ rw (back, fit, laws.text_back salt, laws.text_back key, salted, keyed, salt_fits, key_fits)
          refl

  -- A hash of a password is read back, whatever the parameters within bounds it was made with: it
  -- matches a password exactly where argon2 derives the same key of the two, with the parameters and
  -- the salt of the hash, and it is stale exactly where those parameters are not the hasher's own.
  pub verify-hash :
      (own p : Params) (salt password other : Bytes)
      → IsBounded p
      → p.threads < 2 ^ 8
      → length salt ≡ p.salt_len
      → verify e own other (hash e p salt password)
        ≡ some (
          same_bytes (e.id_key (e.normalise other) salt p) (e.id_key (e.normalise password) salt p),
          not (same_params p own),
        )
  unfolding verify hash encode
  verify-hash own p salt password other bounded small salted =
      let key : Bytes = e.id_key (e.normalise password) salt p in
      ap (checked e own other)
        (decode-phc p salt key bounded small salted (laws.key_length (e.normalise password) salt p))

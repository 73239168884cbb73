-- ===== src/Recovery/Reading.antt =====
-- A recovery code is read the way people copy it.
use marketplace.Base.{
  ℕ, zero, suc, ◌+◌, ◌%◌, ◌<◌, ◌≤◌, ◌≡◌, refl, ◌⊎◌, inl, inr, true, ◌&&◌, none, some, [], ◌∷◌, map,
  arith, ◌==◌, ltb, Bool-cases, Bytes, length, all, ◌∙◌, length-map,
}
use marketplace.Crypto.{Crypto}
use marketplace.Recovery.{
  member, index, recovery_alphabet, recovery_symbols, symbol, write_from, write_code, read_symbol,
  symbols_of, is_symbol, recovery_hash,
}

-- A way to write one symbol: as it is, as its capital, or, for a zero an O and for a one an I or an
-- L, in either case.
abbrev pub Writes : ℕ → ℕ → Type 0
Writes s c =
    (c ≡ s)
    ⊎ (((b'a' ≤ s) × (c + 32 ≡ s))
        ⊎ (((s ≡ b'0') × ((c ≡ b'o') ⊎ (c ≡ b'O')))
            ⊎ ((s ≡ b'1') × ((c ≡ b'i') ⊎ ((c ≡ b'I') ⊎ ((c ≡ b'l') ⊎ (c ≡ b'L')))))))

-- A copy of a code: each symbol written in one of its ways, with hyphens and spaces anywhere.
pub data Copy : Bytes → Bytes → Type 0 where
  done : Copy [] []
  gap :
      {symbols typed : Bytes}
      → (c : ℕ) → (c ≡ b'-') ⊎ (c ≡ b' ')
      → Copy symbols typed
      → Copy symbols (c ∷ typed)
  next :
      {symbols typed : Bytes}
      → (s c : ℕ) → is_symbol s ≡ true
      → Writes s c
      → Copy symbols typed
      → Copy (s ∷ symbols) (c ∷ typed)

read-Writes : (s c : ℕ) → is_symbol s ≡ true → Writes s c → read_symbol c ≡ some s
unfolding read_symbol is_symbol
read-Writes s c h w = ground arith

read_gap : (c : ℕ) → (c ≡ b'-') ⊎ (c ≡ b' ') → read_symbol c ≡ none
unfolding read_symbol
read_gap c h = ground arith

symbols_of-Copy : {symbols typed : Bytes} → Copy symbols typed → symbols_of typed ≡ symbols
unfolding symbols_of
symbols_of-Copy done = refl
symbols_of-Copy (gap c h rest) = ground (arith, read_gap c h, symbols_of-Copy rest)
symbols_of-Copy (next s c h w rest) = ground (arith, read-Writes s c h w, symbols_of-Copy rest)

Copy-all : {symbols typed : Bytes} → Copy symbols typed → all is_symbol symbols ≡ true
Copy-all done = refl
Copy-all (gap c h rest) = Copy-all rest
Copy-all (next s c h w rest) = ground (arith, Copy-all rest)

-- Every copy of twelve symbols, in any case, with hyphens and spaces anywhere, an O for a zero and
-- an I or an L for a one, is read as the hash of the symbols.
pub recovery_hash-Copy :
    (c : Crypto) {symbols typed : Bytes}
    → Copy symbols typed
    → length symbols ≡ recovery_symbols
    → recovery_hash c typed ≡ some (c.sha256 symbols)
unfolding recovery_hash
recovery_hash-Copy c copy twelve = ground (arith, symbols_of-Copy copy, Copy-all copy)

-- What stands at a place of an alphabet is one of its members.
member-index :
    (alphabet : Bytes) (i : ℕ) → i < length alphabet → member alphabet (index alphabet i) ≡ true
unfolding member
member-index [] i inside = absurd (omega arith)
member-index (b ∷ bs) zero inside = ground arith
member-index (b ∷ bs) (suc i) inside = ground (arith, member-index bs i)

symbol-is_symbol : (b : ℕ) → is_symbol (symbol b) ≡ true
unfolding symbol is_symbol
symbol-is_symbol b = member-index recovery_alphabet (b % 32) (omega arith)

write_from-Copy : (j : ℕ) (raw : Bytes) → Copy (map symbol raw) (write_from j raw)
unfolding write_from
write_from-Copy j [] = done
write_from-Copy j (b ∷ raw) = elim (Bool-cases (ltb 0 j && (j % 4 == 0))) [
  | inl dash ↦ rw dash (
      gap b'-' (inl refl)
        (next (symbol b) (symbol b) (symbol-is_symbol b) (inl refl) (write_from-Copy (j + 1) raw)))
  | inr plain ↦
      rw plain
        (next (symbol b) (symbol b) (symbol-is_symbol b) (inl refl) (write_from-Copy (j + 1) raw))
]

pub write_code-Copy : (raw : Bytes) → Copy (map symbol raw) (write_code raw)
unfolding write_code
write_code-Copy raw = write_from-Copy 0 raw

-- A code made from twelve random bytes, as it is shown to the person, is read back as the hash of
-- its twelve symbols.
pub recovery_hash-write_code :
    (c : Crypto) (raw : Bytes)
    → length raw ≡ recovery_symbols
    → recovery_hash c (write_code raw) ≡ some (c.sha256 (map symbol raw))
recovery_hash-write_code c raw twelve =
    recovery_hash-Copy c (write_code-Copy raw) (length-map raw symbol ∙ twelve)

-- ===== src/Recovery.antt =====
-- internal/identity/recovery.go: recovery codes as they are shown, read back and stored. A text is
-- the list of its code points.
pub mod Reading
use marketplace.Base.{
  ℕ, zero, suc, ◌+◌, ◌-◌, ◌%◌, ◌<◌, Bool, true, false, ◌&&◌, ◌||◌, Option, none, some, List, [],
  ◌∷◌, ◌++◌, ◌==◌, leb, ltb, if◌then◌else◌, Bytes, length, all,
}
use marketplace.Crypto.{Crypto}

abbrev pub recovery_code_count : ℕ
recovery_code_count = 10

abbrev pub recovery_symbols : ℕ
recovery_symbols = 12

-- "0123456789abcdefghjkmnpqrstvwxyz"
abbrev pub recovery_alphabet : Bytes
recovery_alphabet =
    b'0' ∷ b'1' ∷ b'2' ∷ b'3' ∷ b'4' ∷ b'5' ∷ b'6' ∷ b'7' ∷ b'8' ∷ b'9' ∷ b'a' ∷ b'b' ∷ b'c' ∷ b'd'
    ∷ b'e' ∷ b'f' ∷ b'g' ∷ b'h' ∷ b'j' ∷ b'k' ∷ b'm' ∷ b'n' ∷ b'p' ∷ b'q' ∷ b'r' ∷ b's' ∷ b't'
    ∷ b'v' ∷ b'w' ∷ b'x' ∷ b'y' ∷ b'z' ∷ []

abbrev index : Bytes → ℕ → ℕ
index [] i = 0
index (b ∷ bs) zero = b
index (b ∷ bs) (suc i) = index bs i

-- recoveryAlphabet[b&31]
unfoldable pub symbol : ℕ → ℕ
symbol b = index recovery_alphabet (b % 32)

-- The loop of `NewRecoveryCodes` over the random bytes of one code, from position `j`.
write_from : ℕ → Bytes → Bytes
write_from j [] = []
write_from j (b ∷ raw) =
    let rest = symbol b ∷ write_from (j + 1) raw in
    if ltb 0 j && (j % 4 == 0) then b'-' ∷ rest else rest

unfoldable pub write_code : Bytes → Bytes
unfolding write_from
write_code raw = write_from 0 raw

-- unicode.ToLower, as far as it can make a symbol, a hyphen or a space: the ASCII capitals, and the
-- two other code points whose lower case is an ASCII letter, U+0130 (i) and U+212A (k). Every other
-- code point is left as it is, and is no symbol before or after.
unfoldable pub to_lower : ℕ → ℕ
to_lower c =
    if leb b'A' c && leb c b'Z'
    then c + 32
    else if c == 0x130
    then b'i'
    else if c == 0x212a
    then b'k'
    else c

-- The function that `recoveryHash` maps over the lower-cased text; `none` drops the code point.
unfoldable pub read_symbol : ℕ → Option ℕ
unfolding to_lower
read_symbol r =
    let c = to_lower r in
    if (c == b'-') || (c == b' ')
    then none
    else if c == b'o'
    then some b'0'
    else if (c == b'i') || (c == b'l')
    then some b'1'
    else some c

-- strings.Map
unfoldable pub symbols_of : Bytes → Bytes
symbols_of [] = []
symbols_of (r ∷ rs) = elim (read_symbol r) [ none ↦ symbols_of rs | some c ↦ c ∷ symbols_of rs ]

member : Bytes → ℕ → Bool
member [] c = false
member (b ∷ bs) c = (b == c) || member bs c

-- Whether a code point is in the alphabet; strings.Trim leaves nothing exactly when all are.
unfoldable pub is_symbol : ℕ → Bool
unfolding member
is_symbol c = member recovery_alphabet c

unfoldable pub recovery_hash : Crypto → Bytes → Option Bytes
recovery_hash c typed =
    let symbols = symbols_of typed in
    if (length symbols == recovery_symbols) && all is_symbol symbols
    then some (c.sha256 symbols)
    else none

-- The account's text and the hash are joined with nothing between: the text has a fixed length.
unfoldable pub bound_recovery_hash : Crypto → ℕ → Bytes → Bytes
bound_recovery_hash c account hash = c.sha256 (c.id_text account ++ hash)

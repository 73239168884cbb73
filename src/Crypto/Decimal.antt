-- ===== src/Crypto/Decimal.antt =====
-- Numbers written in decimal with a fixed width (`fmt.Sprintf("%0*d")`), and the reading of a typed
-- code: spaces dropped, digits only.
use marketplace.Base.{
  ℕ, zero, suc, ◌+◌, ◌/◌, ◌%◌, ◌≡◌, refl, Bool, true, ◌&&◌, [], ◌∷◌, ◌++◌, arith, leb, ◌==◌,
  if◌then◌else◌, Bytes, length, length-append, all,
}

-- The last `width` decimal digits of a number, zeros in front: all of `%0*d` for a number below
-- 10 ^ width.
unfoldable pub padded : ℕ → ℕ → Bytes
padded zero n = []
padded (suc width) n = padded width (n / 10) ++ (b'0' + n % 10) ∷ []

abbrev pub is_digit : ℕ → Bool
is_digit c = leb b'0' c && leb c b'9'

-- strings.ReplaceAll(typed, " ", "")
unfoldable pub without_spaces : Bytes → Bytes
without_spaces [] = []
without_spaces (c ∷ cs) = let rest = without_spaces cs in if c == b' ' then rest else c ∷ rest

-- `strings.Trim(code, "0123456789")` is empty exactly when every byte is a digit.
abbrev pub is_code : ℕ → Bytes → Bool
is_code width code = (length code == width) && all is_digit code

pub length-padded : (width n : ℕ) → length (padded width n) ≡ width
unfolding padded
length-padded zero n = refl
length-padded (suc width) n = omega (
  arith,
  length-padded width (n / 10),
  length-append (padded width (n / 10)) ((b'0' + n % 10) ∷ []),
)

all-append_digit :
    (cs : Bytes) (d : ℕ)
    → all is_digit cs ≡ true
    → is_digit d ≡ true
    → all is_digit (cs ++ d ∷ []) ≡ true
all-append_digit [] d h k = ground arith
all-append_digit (c ∷ cs) d h k = ground (arith, all-append_digit cs d)

digit_of : (n : ℕ) → is_digit (b'0' + n % 10) ≡ true
digit_of n = ground arith

padded_digits : (width n : ℕ) → all is_digit (padded width n) ≡ true
unfolding padded
padded_digits zero n = refl
padded_digits (suc width) n =
    all-append_digit (padded width (n / 10)) (b'0' + n % 10) (padded_digits width (n / 10))
      (digit_of n)

-- A number written at a width is a code of that width.
pub padded-is_code : (width n : ℕ) → is_code width (padded width n) ≡ true
padded-is_code width n = rw (padded_digits width n) (ground (arith, length-padded width n))

without_spaces_of_digits : (code : Bytes) → all is_digit code ≡ true → without_spaces code ≡ code
unfolding without_spaces
without_spaces_of_digits [] h = refl
without_spaces_of_digits (c ∷ cs) h = ground (arith, without_spaces_of_digits cs)

pub without_spaces-padded : (width n : ℕ) → without_spaces (padded width n) ≡ padded width n
without_spaces-padded width n = without_spaces_of_digits (padded width n) (padded_digits width n)

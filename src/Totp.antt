-- ===== src/Totp.antt =====
-- internal/identity/totp.go: codes of an authenticator app. Times are in nanoseconds since 1970.
pub mod Window
use marketplace.Base.{
  ℕ, zero, suc, ◌+◌, ◌-◌, ◌*◌, ◌/◌, ◌%◌, ◌^◌, Option, none, some, List, [], ◌∷◌, leb, if◌then◌else◌,
  Bytes, same_bytes,
}
use marketplace.Crypto.{Crypto, padded, without_spaces, is_code}

abbrev pub second : ℕ
second = 1_000_000_000

abbrev pub totp_digits : ℕ
totp_digits = 6

abbrev pub totp_period : ℕ
totp_period = 30

abbrev pub totp_drift : ℕ
totp_drift = 1

unfoldable pub totp_step : ℕ → ℕ
totp_step at = at / second / totp_period

byte_at : Bytes → ℕ → ℕ
byte_at [] i = 0
byte_at (b ∷ bs) zero = b
byte_at (b ∷ bs) (suc i) = byte_at bs i

last_byte : Bytes → ℕ
last_byte [] = 0
last_byte (b ∷ []) = b
last_byte (b ∷ c ∷ bs) = last_byte (c ∷ bs)

-- binary.BigEndian.PutUint64
be64 : ℕ → Bytes
be64 n =
    n / 2 ^ 56 % 256
    ∷ n / 2 ^ 48 % 256
    ∷ n / 2 ^ 40 % 256
    ∷ n / 2 ^ 32 % 256
    ∷ n / 2 ^ 24 % 256
    ∷ n / 2 ^ 16 % 256
    ∷ n / 2 ^ 8 % 256
    ∷ n % 256
    ∷ []

-- binary.BigEndian.Uint32(sum[i : i+4])
be32_at : Bytes → ℕ → ℕ
be32_at sum i =
    byte_at sum i * 2 ^ 24
    + byte_at sum (i + 1) * 2 ^ 16
    + byte_at sum (i + 2) * 2 ^ 8
    + byte_at sum (i + 3)

-- `for range digits { modulus *= 10 }` on a uint32
modulus_of : ℕ → ℕ
modulus_of zero = 1
modulus_of (suc digits) = modulus_of digits * 10 % 2 ^ 32

unfoldable pub hotp : Crypto → Bytes → ℕ → ℕ → Bytes
unfolding byte_at last_byte be64 be32_at modulus_of
hotp c secret counter digits =
    let sum = c.hmac_sha1 secret (be64 counter) in
    let offset = last_byte sum % 16 in
    let value = be32_at sum offset % 2 ^ 31 in padded digits (value % modulus_of digits)

unfoldable pub totp_code : Crypto → Bytes → ℕ → Bytes
totp_code c secret step = hotp c secret step totp_digits

-- The loop of `matchTOTP`, from a step and with a number of rounds left.
try_steps : Crypto → Bytes → Bytes → ℕ → ℕ → ℕ → Option ℕ
try_steps c secret code last zero step = none
try_steps c secret code last (suc rounds) step =
    let rest = try_steps c secret code last rounds (step + 1) in
    if leb step last
    then rest
    else if same_bytes (totp_code c secret step) code
    then some step
    else rest

-- A step before 1970 is never after `last`, so the loop begins at step 0 at the earliest.
unfoldable pub match_totp : Crypto → Bytes → Bytes → ℕ → ℕ → Option ℕ
unfolding try_steps
match_totp c secret typed now last =
    let code = without_spaces typed in
    let current = totp_step now in
    let first = current - totp_drift in
    if is_code totp_digits code
    then try_steps c secret code last (current + totp_drift + 1 - first) first
    else none

-- ===== src/Credentials.antt =====
-- internal/identity/policy.go, with CheckLabel of factors.go and checkNew of identity.go: the rules
-- on passwords, names, labels and addresses. A text is the list of its code points; a string that is
-- not valid UTF-8 is outside the model.
pub mod Rules
use marketplace.Base.{
  ℕ, ◌+◌, ◌*◌, ◌≤◌, ◌<◌, Bool, true, false, not, ◌&&◌, ◌||◌, Option, none, some, List, [], ◌∷◌,
  ◌++◌, ◌==◌, ltb, leb, if◌then◌else◌, Bytes, same_bytes, length, Outcome, ok, err,
}
use marketplace.Service.{Service}
use marketplace.Tx.{
  Error, password_short, password_long, password_breached, email_invalid, name_missing,
  name_invalid, label_invalid,
}

abbrev pub min_password_length : ℕ
min_password_length = 12

abbrev pub max_password_length : ℕ
max_password_length = 128

abbrev pub max_password_bytes : ℕ
max_password_bytes = 16 * max_password_length

abbrev pub max_name_length : ℕ
max_name_length = 100

abbrev pub max_email_length : ℕ
max_email_length = 254

abbrev pub max_label_length : ℕ
max_label_length = 60

-- utf8.RuneLen
abbrev pub rune_len : ℕ → ℕ
rune_len r = if ltb r 0x80 then 1 else if ltb r 0x800 then 2 else if ltb r 0x10000 then 3 else 4

-- len of the string of a text
unfoldable pub byte_len : Bytes → ℕ
byte_len [] = 0
byte_len (r ∷ rs) = rune_len r + byte_len rs

-- `none` is no error.
unfoldable pub check_password : Service → Bytes → Option Error
check_password s password =
    let n = length (s.normalise password) in
    if ltb max_password_bytes (byte_len password)
    then some password_long
    else if ltb n min_password_length
    then some password_short
    else if ltb max_password_length n
    then some password_long
    else none

-- checkNew: a check that could not run lets the password pass.
unfoldable pub check_new : Service → Bytes → Option Error
check_new s password = elim (check_password s password) [
  | some e ↦ some e
  | none ↦ elim (s.breached (s.normalise password)) [
    | none ↦ none
    | some found ↦ if found then some password_breached else none
  ]
]

-- unicode.IsSpace
abbrev pub is_space : ℕ → Bool
is_space r =
    (leb 0x9 r && leb r 0xd)
    || r == 0x20
    || r == 0x85
    || r == 0xa0
    || r == 0x1680
    || (leb 0x2000 r && leb r 0x200a)
    || r == 0x2028
    || r == 0x2029
    || r == 0x202f
    || r == 0x205f
    || r == 0x3000

unfoldable pub trim_left : Bytes → Bytes
trim_left [] = []
trim_left (r ∷ rs) = if is_space r then trim_left rs else r ∷ rs

abbrev only_space : Bytes → Bool
only_space [] = true
only_space (r ∷ rs) = is_space r && only_space rs

unfoldable pub trim_right : Bytes → Bytes
trim_right [] = []
trim_right (r ∷ rs) = if only_space (r ∷ rs) then [] else r ∷ trim_right rs

-- strings.TrimSpace
unfoldable pub trim_space : Bytes → Bytes
trim_space text = trim_right (trim_left text)

-- unicode.IsControl
abbrev pub is_control : ℕ → Bool
is_control r = ltb r 0x20 || (leb 0x7f r && leb r 0x9f)

-- unicode.Cf, the format characters
abbrev pub is_format : ℕ → Bool
is_format r =
    r == 0xad
    || (leb 0x600 r && leb r 0x605)
    || r == 0x61c
    || r == 0x6dd
    || r == 0x70f
    || (leb 0x890 r && leb r 0x891)
    || r == 0x8e2
    || r == 0x180e
    || (leb 0x200b r && leb r 0x200f)
    || (leb 0x202a r && leb r 0x202e)
    || (leb 0x2060 r && leb r 0x2064)
    || (leb 0x2066 r && leb r 0x206f)
    || r == 0xfeff
    || (leb 0xfff9 r && leb r 0xfffb)
    || r == 0x110bd
    || r == 0x110cd
    || (leb 0x13430 r && leb r 0x1343f)
    || (leb 0x1bca0 r && leb r 0x1bca3)
    || (leb 0x1d173 r && leb r 0x1d17a)
    || r == 0xe0001
    || (leb 0xe0020 r && leb r 0xe007f)

-- The loop that looks for a control or format character.
unfoldable pub is_plain : Bytes → Bool
is_plain [] = true
is_plain (r ∷ rs) = not (is_control r || is_format r) && is_plain rs

abbrev pub is_nil : Bytes → Bool
is_nil [] = true
is_nil (_ ∷ _) = false

unfoldable pub check_name : Bytes → Outcome Error Bytes
check_name text =
    let name = trim_space text in
    if is_nil name
    then err name_missing
    else if ltb max_name_length (length name)
    then err name_invalid
    else if is_plain name
    then ok name
    else err name_invalid

unfoldable pub check_label : Bytes → Outcome Error Bytes
check_label text =
    let label = trim_space text in
    if ltb max_label_length (length label)
    then err label_invalid
    else if is_plain label
    then ok label
    else err label_invalid

-- strings.ToLower
unfoldable pub lower : Service → Bytes → Bytes
lower s [] = []
lower s (r ∷ rs) =
    (if leb b'A' r && leb r b'Z' then r + 32 else if ltb r 0x80 then r else s.lower_other r)
    ∷ lower s rs

-- The comparison with what mail.ParseAddress read.
bare : Bytes → Option (Bytes × Bytes) → Bool
bare address none = false
bare address (some (name, parsed)) = same_bytes parsed address && is_nil name

unfoldable pub normalise_email : Service → Bytes → Outcome Error Bytes
unfolding bare
normalise_email s text =
    let address = trim_space text in
    if ltb max_email_length (byte_len address)
    then err email_invalid
    else if bare address (s.parse_address address)
    then ok (lower s address)
    else err email_invalid

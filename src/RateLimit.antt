-- ===== src/RateLimit.antt =====
-- internal/platform/ratelimit: the limit of the database (database.go), a fixed window counted in a
-- table that all instances share. A moment and a duration are in nanoseconds, a moment since the
-- zero time; a statement on the database succeeds. The windows are whole seconds, so the table's
-- microseconds keep a window's start as it is.
pub mod Subjects
pub mod Rows
pub mod History
use marketplace.Base.{
  ℕ, ◌+◌, ◌-◌, ◌*◌, ◌%◌, Bool, true, false, ◌&&◌, ◌||◌, Option, none, some, List, [], ◌∷◌, ◌++◌,
  ◌==◌, ltb, leb, if◌then◌else◌, Bytes, same_bytes, all, find, insert, update, delete,
}

-- `none` is allowed; `some` is refused, with the time to wait.
abbrev pub Decision : Type 0
Decision = Option ℕ

abbrev pub second : ℕ
second = 1_000_000_000

-- (time.Duration).Round(time.Second) of a duration that is not negative.
unfoldable pub round_seconds : ℕ → ℕ
round_seconds d = let r = d % second in if ltb (r + r) second then d - r else d + second - r

-- (time.Time).Truncate
unfoldable pub truncate : ℕ → ℕ → ℕ
truncate now window = if window == 0 then now else now - now % window

pub record Limiter : Type 0 where
  pub name : Bytes
  pub limit : ℕ
  pub window : ℕ

-- A row of the table rate_limit.
pub record Hits : Type 0 where
  pub subject : Bytes
  pub window_start : ℕ
  pub hits : ℕ

abbrev is_lower : ℕ → Bool
is_lower c = leb b'a' c && leb c b'z'

abbrev pub is_name_byte : ℕ → Bool
is_name_byte c = is_lower c || (leb b'0' c && leb c b'9') || c == b'-'

-- validName: ^[a-z][a-z0-9-]*$
unfoldable pub valid_name : Bytes → Bool
valid_name [] = false
valid_name (c ∷ cs) = is_lower c && all is_name_byte cs

-- NewDatabase: `none` is its panic.
unfoldable pub new_database : Bytes → ℕ → ℕ → Option Limiter
new_database name limit window =
    if valid_name name then some (record { name = name; limit = limit; window = window }) else none

abbrev pub subject_of : Bytes → Bytes → Bytes
subject_of name key = name ++ b':' ∷ key

abbrev pub is_row : Bytes → ℕ → Hits → Bool
is_row subject start r = same_bytes r.subject subject && r.window_start == start

-- INSERT … ON CONFLICT (subject, window_start) DO UPDATE … RETURNING hits: what was found in the
-- way decides.
unfoldable pub upsert : Bytes → ℕ → Option Hits → List Hits → ℕ × List Hits
upsert subject start none rows =
    (1, insert (record { subject = subject; window_start = start; hits = 1 }) rows)
upsert subject start (some r) rows =
    (r.hits + 1, update (is_row subject start) (λ r. record r { hits = r.hits + 1 }) rows)

-- strings of the pattern `prefix%`
unfoldable pub starts_with : Bytes → Bytes → Bool
starts_with [] text = true
starts_with (c ∷ cs) [] = false
starts_with (c ∷ cs) (d ∷ ds) = c == d && starts_with cs ds

-- The rows that the limiter's sweep forgets. A limiter's name holds no wildcard.
abbrev pub is_past : Limiter → ℕ → Hits → Bool
is_past d start r =
    starts_with (d.name ++ b':' ∷ []) r.subject && ltb r.window_start (start - d.window)

-- (*Database).Allow
unfoldable pub allow : Limiter → Bytes → ℕ → List Hits → Decision × List Hits
unfolding upsert
allow d key now rows =
    let start = truncate now d.window in
    let subject = subject_of d.name key in
    let (hits, counted) = upsert subject start (find (is_row subject start) rows) rows in
    (
      if ltb d.limit hits then some (round_seconds (start + d.window - now) + second) else none,
      if hits == 1 then delete (is_past d start) counted else counted,
    )

-- ===== src/Tests/Limits.antt =====
-- The theorems on the rate limits and the tokens of a page at concrete inputs.
use marketplace.Base.{
  ℕ, ◌+◌, ◌*◌, ◌≤◌, ◌≡◌, ◌||◌, refl, true, false, not, some, List, [], ◌∷◌, Bytes, arith, is_set,
  leb, count, find, delete, insert, update, same_bytes, all, ◌==◌, ◌++◌, ◌-◌, ltb, if◌then◌else◌,
  map, ap, ◌∙◌,
}
use marketplace.RateLimit.{
  Limiter, second, truncate, valid_name, allow, round_seconds, upsert, starts_with,
}
use marketplace.RateLimit.History.{Attempt, table_after, IsEarlier, is_in, allow-history}
use marketplace.Csrf.{Primitives, Request, post, mint_csrf, csrf, safe_method}
use marketplace.Csrf.Tokens.{IsEncoding, csrf-mint_csrf}

abbrev sign_ins : Limiter
sign_ins = record { name = b's' ∷ []; limit = 2; window = 60 * second }

abbrev others : Limiter
others = record { name = b'o' ∷ []; limit = 5; window = second }

abbrev a_key : Bytes
a_key = b'k' ∷ []

-- An attempt at a whole second.
abbrev at_second : ℕ → Limiter → Attempt
at_second n d = record { limiter = d; key = a_key; at = n * second }

abbrev attempts : List Attempt
attempts =
    at_second 95 sign_ins ∷ at_second 99 others ∷ at_second 70 sign_ins ∷ at_second 50 sign_ins ∷ []

at_second-IsEarlier :
    (n : ℕ) → n * second ≤ 100 * second → IsEarlier sign_ins (100 * second) (at_second n sign_ins)
unfolding valid_name
at_second-IsEarlier n h = record { valid = refl; same_window = λ e. refl; not_ahead = λ e. h }

others-IsEarlier : IsEarlier sign_ins (100 * second) (at_second 99 others)
unfolding valid_name same_bytes
others-IsEarlier = record {
  valid = refl;
  same_window = λ e. (let k : false ≡ true = e in cc);
  not_ahead = λ e. omega arith;
}

-- Two attempts in the open window, and two that do not count.
allow-history_example :
    is_set (allow sign_ins a_key (100 * second) (table_after attempts)).0
    ≡ leb 2 (count (is_in (b's' ∷ []) a_key (truncate (100 * second) (60 * second))) attempts)
unfolding valid_name
allow-history_example = allow-history sign_ins a_key (100 * second) attempts refl (
  at_second-IsEarlier 95 (omega arith),
  (
    others-IsEarlier,
    (at_second-IsEarlier 70 (omega arith), (at_second-IsEarlier 50 (omega arith), tt)),
  ),
)

refused_for : (allow sign_ins a_key (100 * second) (table_after attempts)).0 ≡ some (21 * second)
unfolding allow table_after truncate upsert find delete insert starts_with same_bytes update
    round_seconds
refused_for = refl

-- An encoding of bytes that leaves out the dot.
abbrev past_dot : ℕ → ℕ
past_dot c = if ltb c b'.' then c else c + 1

abbrev before_dot : ℕ → ℕ
before_dot c = if ltb c b'.' then c else c - 1

abbrev some_primitives : Primitives
some_primitives = record {
  hmac_sha256 = λ secret seed. secret;
  encode = map past_dot;
  decode = λ text. some (map before_dot text);
}

map-before_dot : (x : Bytes) → map before_dot (map past_dot x) ≡ x
map-before_dot [] = refl
map-before_dot (c ∷ cs) =
    ap (λ d. d ∷ map before_dot (map past_dot cs)) (ground arith)
    ∙ ap (λ ds. c ∷ ds) (map-before_dot cs)

map-no_dot : (x : Bytes) → all (λ c. not (c == b'.')) (map past_dot x) ≡ true
map-no_dot [] = refl
map-no_dot (c ∷ cs) =
    let h : not (past_dot c == b'.') ≡ true = ground arith in rw (h, map-no_dot cs) refl

some_primitives-IsEncoding : IsEncoding some_primitives
some_primitives-IsEncoding = record {
  decode-encode = λ x. ap some (map-before_dot x);
  no_dot = map-no_dot;
}

abbrev a_seed : Bytes
a_seed = 1 ∷ 2 ∷ 3 ∷ 4 ∷ 5 ∷ 6 ∷ 7 ∷ 46 ∷ 9 ∷ 10 ∷ 11 ∷ 12 ∷ 13 ∷ 14 ∷ 15 ∷ 16 ∷ []

abbrev her_secret : Bytes
her_secret = a_seed ++ a_seed

abbrev his_secret : Bytes
his_secret = 9 ∷ her_secret

-- A form that another browser's page was sent with.
abbrev posted : Request
posted = record {
  method = post;
  cookie = some (some_primitives.encode her_secret);
  header = [];
  form_field = some (mint_csrf some_primitives his_secret a_seed);
}

csrf-mint_csrf_example :
    is_set (csrf some_primitives [] a_seed posted)
    ≡ (safe_method post || same_bytes his_secret her_secret)
csrf-mint_csrf_example =
    csrf-mint_csrf some_primitives posted his_secret her_secret a_seed [] a_seed
      some_primitives-IsEncoding refl refl refl refl

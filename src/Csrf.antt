-- ===== src/Csrf.antt =====
-- internal/platform/httpx/csrf.go: a request that changes state proves that it came from a page of
-- this deployment. HMAC-SHA256 and base64 without padding are parameters; a fresh secret and a
-- token's seed are arguments.
pub mod Tokens
use marketplace.Base.{
  ℕ, Bool, true, false, not, ◌&&◌, ◌||◌, Option, none, some, List, [], ◌∷◌, ◌++◌, ◌==◌,
  if◌then◌else◌, Bytes, same_bytes, length,
}

-- The key and the message of hmac.New(sha256.New, …), and base64.RawURLEncoding.
pub record Primitives : Type 0 where
  pub hmac_sha256 : Bytes → Bytes → Bytes
  pub encode : Bytes → Bytes
  pub decode : Bytes → Option Bytes

-- http.Method…
pub data Method : Type 0 where
  get head options trace post put patch delete : Method

-- What the middleware reads of a request: the cookie of the scheme it came in on, the header
-- X-CSRF-Token, empty where it is absent, and the field csrf_token of a form that was read.
pub record Request : Type 0 where
  pub method : Method
  pub cookie : Option Bytes
  pub header : Bytes
  pub form_field : Option Bytes

abbrev pub secret_bytes : ℕ
secret_bytes = 32

abbrev pub token_bytes : ℕ
token_bytes = 16

-- safeMethod
unfoldable pub safe_method : Method → Bool
safe_method get = true
safe_method head = true
safe_method options = true
safe_method trace = true
safe_method _ = false

abbrev is_blank : Bytes → Bool
is_blank [] = true
is_blank (_ ∷ _) = false

abbrev dot : ℕ
dot = b'.'

-- strings.Cut(token, "."), `none` where there is no dot
abbrev pub with_byte : ℕ → Option (Bytes × Bytes) → Option (Bytes × Bytes)
with_byte c none = none
with_byte c (some (before, after)) = some (c ∷ before, after)

unfoldable pub cut_dot : Bytes → Option (Bytes × Bytes)
cut_dot [] = none
cut_dot (c ∷ cs) = let rest = with_byte c (cut_dot cs) in if c == dot then some ([], cs) else rest

module _ (p : Primitives) where
  abbrev pub own_secret : Option Bytes → Option Bytes
  own_secret none = none
  own_secret (some secret) = if length secret == secret_bytes then some secret else none

  abbrev pub read_cookie : Option Bytes → Option Bytes
  read_cookie none = none
  read_cookie (some value) = own_secret (p.decode value)

  abbrev pub or_fresh : Bytes → Option Bytes → Bytes
  or_fresh fresh none = fresh
  or_fresh fresh (some secret) = secret

  -- csrfSecret: the browser's secret, or the fresh one that is set.
  unfoldable pub csrf_secret : Bytes → Request → Bytes
  csrf_secret fresh r = or_fresh fresh (read_cookie r.cookie)

  -- mintCSRF
  unfoldable pub mint_csrf : Bytes → Bytes → Bytes
  mint_csrf secret seed = p.encode seed ++ dot ∷ p.encode (p.hmac_sha256 secret seed)

  abbrev pub field_or : Option Bytes → Bytes
  field_or none = []
  field_or (some value) = value

  abbrev pub token_of : Request → Bytes
  token_of r = if is_blank r.header then field_or r.form_field else r.header

  abbrev pub check_sum : Bytes → Bytes → Option Bytes → Bool
  check_sum secret seed none = false
  check_sum secret seed (some sum) = same_bytes sum (p.hmac_sha256 secret seed)

  abbrev pub check_seed : Bytes → Bytes → Option Bytes → Bool
  check_seed secret sum none = false
  check_seed secret sum (some seed) =
      if length seed == token_bytes then check_sum secret seed (p.decode sum) else false

  abbrev pub check_parts : Bytes → Option (Bytes × Bytes) → Bool
  check_parts secret none = false
  check_parts secret (some (seed, sum)) = check_seed secret sum (p.decode seed)

  -- validCSRF
  unfoldable pub valid_csrf : Request → Bytes → Bool
  valid_csrf r secret = check_parts secret (cut_dot (token_of r))

  -- CSRF: `none` is the forbidden page; otherwise the request goes on, with the token of its page.
  unfoldable pub csrf : Bytes → Bytes → Request → Option Bytes
  csrf fresh seed r =
      let secret = csrf_secret fresh r in
      if not (safe_method r.method) && not (valid_csrf r secret)
      then none
      else some (mint_csrf secret seed)

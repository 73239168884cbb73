-- ===== src/Pipeline.antt =====
-- internal/platform/httpx/httpx.go, security.go, pages.go and origin.go, and ratelimit/middleware.go:
-- what a request passes through before it reaches a handler. Of a response the model has the status
-- and which headers are set; the texts of the headers and the pages, and the cookie
-- of a fresh secret, are left out. The limiter is a
-- parameter, and so are strings.EqualFold on the scheme and the nonce that is drawn.
pub mod Guarded
use marketplace.Base.{
  ℕ, ◌/◌, Bool, true, false, not, ◌&&◌, ◌||◌, Option, none, some, List, [], ◌∷◌, ◌++◌, ◌==◌,
  if◌then◌else◌, Bytes, same_bytes, Outcome, ok, err,
}
use marketplace.Csrf as Csrf
use marketplace.Origin.{Addresses, client_ip}
use marketplace.RateLimit.{Decision, second}

-- What the middleware reads of a request; `https` is whether it reached the front end over TLS.
pub record Request : Type 0 where
  pub path : Bytes
  pub remote : Bytes
  pub forwarded : List Bytes
  pub https : Bool
  pub fields : Csrf.Request

-- What the middleware puts into the context: the origin's address, the nonce and the page's token.
pub record Context : Type 0 where
  pub ip : Option Bytes
  pub nonce : Option Bytes
  pub token : Option Bytes

-- The headers of a response: the security policy with its nonce, the type options, the referrer's and
-- the permissions' policies, Strict-Transport-Security, X-Robots-Tag and Retry-After in seconds.
pub record Headers : Type 0 where
  pub policy : Option Bytes
  pub nosniff : Bool
  pub referrer : Bool
  pub permissions : Bool
  pub hsts : Bool
  pub noindex : Bool
  pub retry_after : Option ℕ

abbrev pub no_headers : Headers
no_headers = record {
  policy = none;
  nosniff = false;
  referrer = false;
  permissions = false;
  hsts = false;
  noindex = false;
  retry_after = none;
}

pub record Reply : Type 0 where
  pub status : ℕ
  pub headers : Headers

-- http.Handler: it is given the headers that are set so far.
abbrev pub Handler : Type 0 → Type 0
Handler S = Context → Request → Headers → S → Reply × S

-- (Pages).forbidden
abbrev pub forbidden : Headers → Reply
forbidden headers = record { status = 403; headers = headers }

-- RetryAfter and (Pages).Refused
abbrev pub refused : ℕ → Headers → Reply
refused wait headers = record {
  status = 429;
  headers = record headers {
    retry_after = if wait == 0 then headers.retry_after else some (wait / second);
  };
}

-- TasksPath and HealthPath
abbrev pub tasks_path : Bytes
tasks_path =
    b'/' ∷ b'i' ∷ b'n' ∷ b't' ∷ b'e' ∷ b'r' ∷ b'n' ∷ b'a' ∷ b'l' ∷ b'/' ∷ b't' ∷ b'a' ∷ b's' ∷ b'k'
    ∷ b's' ∷ []

abbrev pub health_path : Bytes
health_path = b'/' ∷ b'h' ∷ b'e' ∷ b'a' ∷ b'l' ∷ b't' ∷ b'h' ∷ []

-- "general:"
abbrev pub general : Bytes
general = b'g' ∷ b'e' ∷ b'n' ∷ b'e' ∷ b'r' ∷ b'a' ∷ b'l' ∷ b':' ∷ []

-- Pipeline, with what is drawn for the request: the nonce, a fresh secret and a seed. A limiter that
-- cannot decide answers with an error.
pub record Pipeline (S : Type 0) : Type 0 where
  pub indexable : Bool
  pub hops : ℕ
  pub general : Option (Bytes → S → Outcome (Unit {0}) Decision × S)
  pub callbacks : List Bytes
  pub addresses : Addresses
  pub primitives : Csrf.Primitives
  pub nonce : Bytes
  pub fresh : Bytes
  pub seed : Bytes

-- The loop of exempt.
unfoldable pub is_one_of : Bytes → List Bytes → Bool
is_one_of path [] = false
is_one_of path (p ∷ paths) = if same_bytes path p then true else is_one_of path paths

abbrev pub ip_or : Option Bytes → Bytes
ip_or none = []
ip_or (some ip) = ip

module _ {S : Type 0} where
  -- exempt
  unfoldable pub exempt : (Handler S → Handler S) → List Bytes → Handler S → Handler S
  exempt middleware paths next c r h s =
      if is_one_of r.path paths then next c r h s else middleware next c r h s

  abbrev pub token_or_forbidden : Option Bytes → Handler S → Handler S
  token_or_forbidden none next c r h s = (forbidden h, s)
  token_or_forbidden (some token) next c r h s = next (record c { token = some token }) r h s

  abbrev pub decided :
      Outcome (Unit {0}) Decision × S → Handler S → Context → Request → Headers → Reply × S
  decided (err _, s) next c r h = (refused 0 h, s)
  decided (ok (some wait), s) next c r h = (refused wait h, s)
  decided (ok none, s) next c r h = next c r h s

  -- Limit, by the address of the origin
  unfoldable pub limited : (Bytes → S → Outcome (Unit {0}) Decision × S) → Handler S → Handler S
  limited allow next c r h s = decided (allow (general ++ ip_or c.ip) s) next c r h

  abbrev pub limited_by :
      Option (Bytes → S → Outcome (Unit {0}) Decision × S) → Handler S → Handler S
  limited_by none next = next
  limited_by (some allow) next = exempt (limited allow) (health_path ∷ tasks_path ∷ []) next

module _ {S : Type 0} (p : Pipeline S) where
  -- CSRF
  unfoldable pub protected : Handler S → Handler S
  protected next c r h s =
      token_or_forbidden (Csrf.csrf p.primitives p.fresh p.seed r.fields) next c r h s

  -- Secure
  unfoldable pub secured : Handler S → Handler S
  secured next c r h s =
      next (record c { nonce = some p.nonce }) r
        (record h {
          policy = some p.nonce;
          nosniff = true;
          referrer = true;
          permissions = true;
          hsts = r.https || h.hsts;
          noindex = not p.indexable || h.noindex;
        })
        s

  -- Origins
  unfoldable pub with_origin : Handler S → Handler S
  with_origin next c r h s =
      next (record c { ip = some (client_ip p.addresses p.hops r.remote r.forwarded) }) r h s

  -- (Pipeline).Wrap
  unfoldable pub wrap : Handler S → Handler S
  wrap handler =
      with_origin
        (secured (limited_by p.general (exempt protected (tasks_path ∷ p.callbacks) handler)))

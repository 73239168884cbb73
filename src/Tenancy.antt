-- ===== src/Tenancy.antt =====
-- internal/tenancy/tenancy.go and middleware.go: which marketplace a host is, and what is served on
-- it. net.SplitHostPort and strings.ToLower are parameters, and so is what the repository reads.
pub mod Seed
pub mod Declared
pub mod Fresh
pub mod Refinement
use marketplace.Base.{
  ℕ, ◌+◌, ◌-◌, ◌*◌, Bool, true, false, ◌&&◌, Option, none, some, List, [], ◌∷◌, ◌==◌, ltb,
  if◌then◌else◌, Bytes, same_bytes, Outcome, ok, err,
}
use marketplace.Credentials.{trim_space}

-- SplitHostPort, `none` where it fails, and ToLower.
pub record Hosts : Type 0 where
  pub split_host_port : Bytes → Option (Bytes × Bytes)
  pub to_lower : Bytes → Bytes

abbrev host_or : Bytes → Option (Bytes × Bytes) → Bytes
host_or host none = host
host_or host (some (name, port)) = name

-- strings.TrimSuffix(host, ".")
unfoldable pub trim_dot : Bytes → Bytes
trim_dot [] = []
trim_dot (c ∷ []) = if c == b'.' then [] else c ∷ []
trim_dot (c ∷ d ∷ cs) = c ∷ trim_dot (d ∷ cs)

abbrev pub is_blank : Bytes → Bool
is_blank [] = true
is_blank (_ ∷ _) = false

-- Normalise
unfoldable pub normalise : Hosts → Bytes → Bytes
normalise n host =
    let trimmed = trim_space host in
    if is_blank trimmed
    then []
    else n.to_lower (trim_dot (host_or trimmed (n.split_host_port trimmed)))

-- A marketplace of the host map: its identifier, and whether it is active.
pub record Marketplace : Type 0 where
  pub id : ℕ
  pub active : Bool

-- Kind and Resolution
pub data Resolution : Type 0 where
  unknown platform_host console_host : Resolution
  marketplace_host : Marketplace → Resolution

abbrev pub HostMap : Type 0
HostMap = List (Bytes × Marketplace)

abbrev pub look_up : Bytes → HostMap → Option Marketplace
look_up name [] = none
look_up name ((host, m) ∷ hosts) = if same_bytes host name then some m else look_up name hosts

-- defaultTTL, in nanoseconds
abbrev pub ttl : ℕ
ttl = 30 * 1_000_000_000

-- Resolver: the configuration, and the map that is held with the moment at which it was read.
pub record Resolver : Type 0 where
  pub platform : Bytes
  pub console : Bytes
  pub hosts : Option (HostMap × ℕ)

-- NewResolver and WithConsoleHost
unfoldable pub new_resolver : Hosts → Bytes → Bytes → Resolver
new_resolver n platform console = record {
  platform = normalise n platform;
  console = normalise n console;
  hosts = none;
}

-- Invalidate
unfoldable pub invalidate : Resolver → Resolver
invalidate r = record r { hosts = none }

abbrev pub is_fresh : ℕ → Option (HostMap × ℕ) → Bool
is_fresh now none = false
is_fresh now (some (hosts, loaded)) = ltb (now - loaded) ttl

abbrev pub held : Option (HostMap × ℕ) → HostMap
held none = []
held (some (hosts, loaded)) = hosts

-- load: what the repository answers with is read only if the map is not held or too old. The clock is
-- read again once it has answered.
unfoldable pub load : ℕ → ℕ → Option HostMap → Resolver → Outcome (Unit {0}) HostMap × Resolver
load now after answer r = if is_fresh now r.hosts then (ok (held r.hosts), r) else elim answer [
  | none ↦ (err tt, r)
  | some hosts ↦ (ok hosts, record r { hosts = some (hosts, after) })
]

abbrev pub resolution : Option Marketplace → Resolution
resolution none = unknown
resolution (some m) = marketplace_host m

abbrev pub answered :
    Bytes → Outcome (Unit {0}) HostMap × Resolver → Outcome (Unit {0}) Resolution × Resolver
answered name (ok hosts, r) = (ok (resolution (look_up name hosts)), r)
answered name (err e, r) = (err e, r)

-- (*Resolver).Resolve
unfoldable pub resolve :
    Hosts → ℕ → ℕ → Option HostMap → Bytes → Resolver → Outcome (Unit {0}) Resolution × Resolver
resolve n now after answer host r =
    let name = normalise n host in
    if is_blank name
    then (ok unknown, r)
    else if same_bytes name r.platform
    then (ok platform_host, r)
    else if same_bytes name r.console
    then (ok console_host, r)
    else answered name (load now after answer r)

-- What the middleware of Resolve does with a request.
pub data Page : Type 0 where
  passed unavailable unknown_host : Page
  in_preparation : Marketplace → Page
  served : Resolution → Page

abbrev pub page_of : Outcome (Unit {0}) Resolution → Page
page_of (err _) = unavailable
page_of (ok unknown) = unknown_host
page_of (ok platform_host) = served platform_host
page_of (ok console_host) = served console_host
page_of (ok (marketplace_host m)) =
    if m.active then served (marketplace_host m) else in_preparation m

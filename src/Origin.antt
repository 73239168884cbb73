-- ===== src/Origin.antt =====
-- internal/platform/httpx/origin.go: the address of a client, counted from the right of
-- X-Forwarded-For. net.ParseIP with String, and net.SplitHostPort, are parameters. A number of hops
-- below 0 does what 0 does.
pub mod Spoofing
use marketplace.Base.{
  ℕ, zero, suc, ◌-◌, Bool, true, false, ◌&&◌, Option, none, some, List, [], ◌∷◌, ◌++◌, ltb, leb,
  length, if◌then◌else◌, Bytes,
}
use marketplace.Credentials.{trim_space}
use marketplace.Text.{split_on}

pub record Addresses : Type 0 where
  pub parse : Bytes → Option Bytes
  pub split_host_port : Bytes → Option (Bytes × Bytes)

abbrev pub comma : ℕ
comma = b','

-- An entry is kept where it is not blank.
abbrev pub entry_before : Bytes → List Bytes → List Bytes
entry_before [] rest = rest
entry_before (c ∷ cs) rest = (c ∷ cs) ∷ rest

-- The loop over the parts of a value.
unfoldable pub entries : List Bytes → List Bytes
entries [] = []
entries (part ∷ parts) = entry_before (trim_space part) (entries parts)

-- The loop over the values of the header.
unfoldable pub chain_of : List Bytes → List Bytes
chain_of [] = []
chain_of (value ∷ values) = entries (split_on comma value) ++ chain_of values

-- chain[index]
unfoldable pub get_elem? : List Bytes → ℕ → Option Bytes
get_elem? [] n = none
get_elem? (x ∷ xs) zero = some x
get_elem? (x ∷ xs) (suc n) = get_elem? xs n

module _ (n : Addresses) where
  abbrev pub parse_host : Option (Bytes × Bytes) → Option Bytes
  parse_host none = none
  parse_host (some (host, port)) = n.parse host

  -- parseIP; `none` is the empty string.
  abbrev pub parse_or : Option Bytes → Bytes → Option Bytes
  parse_or (some ip) entry = some ip
  parse_or none entry = parse_host (n.split_host_port entry)

  unfoldable pub parse_ip : Bytes → Option Bytes
  parse_ip entry = parse_or (n.parse entry) entry

  abbrev pub host_or : Bytes → Option (Bytes × Bytes) → Bytes
  host_or remote none = remote
  host_or remote (some (host, port)) = host

  -- The peer of the connection, where no entry is an address.
  abbrev pub or_peer : Bytes → Option Bytes → Bytes
  or_peer remote (some ip) = ip
  or_peer remote none = host_or remote (n.split_host_port remote)

  abbrev pub parse_entry : Option Bytes → Option Bytes
  parse_entry none = none
  parse_entry (some entry) = parse_ip entry

  -- The address that a chain says.
  unfoldable pub chosen : ℕ → List Bytes → Option Bytes
  chosen hops chain =
      if ltb 0 hops && leb hops (length chain)
      then parse_entry (get_elem? chain (length chain - hops))
      else none

  -- ClientIP
  unfoldable pub client_ip : ℕ → Bytes → List Bytes → Bytes
  client_ip hops remote forwarded = or_peer remote (chosen hops (chain_of forwarded))

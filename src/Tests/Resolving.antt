-- ===== src/Tests/Resolving.antt =====
-- The theorem on the host map that is held, at a concrete history.
use marketplace.Base.{ℕ, ◌+◌, true, List, [], ◌∷◌, arith, Bytes, ltb, if◌then◌else◌}
use marketplace.Tenancy.{HostMap, Marketplace, new_resolver}
use marketplace.Tenancy.Fresh.{Request, Happening, asked, forgotten, ask, happened, IsCurrent}
use marketplace.Tenancy.Refinement.{resolve-IsCurrent}
use marketplace.Tests.Hosts.{some_hosts}

abbrev shop : Bytes
shop = b's' ∷ []

abbrev a_marketplace : Marketplace
a_marketplace = record { id = 3; active = true }

-- The repository has the host from the moment 100.
abbrev rows : ℕ → HostMap
rows t = if ltb t 100 then [] else (shop, a_marketplace) ∷ []

abbrev at_moment : ℕ → Request
at_moment t = record { host = shop; now = t; seen = t + 1; after = t + 2; reachable = true }

abbrev past : List Happening
past = asked (at_moment 10) ∷ forgotten 50 ∷ asked (at_moment 60) ∷ asked (at_moment 70) ∷ []

resolve-IsCurrent_example :
    IsCurrent some_hosts rows 1 50
      (new_resolver some_hosts (b'p' ∷ []) (b'c' ∷ []))
      (at_moment 200)
      (ask some_hosts rows 1
        (at_moment 200)
        (happened some_hosts rows 1 past (new_resolver some_hosts (b'p' ∷ []) (b'c' ∷ [])))).0
resolve-IsCurrent_example =
    resolve-IsCurrent some_hosts rows 1 (b'p' ∷ []) (b'c' ∷ []) past (at_moment 200)
      (
        (omega arith, omega arith, omega arith, omega arith),
        (
          omega arith,
          (
            (omega arith, omega arith, omega arith, omega arith),
            ((omega arith, omega arith, omega arith, omega arith), tt),
          ),
        ),
      )
      (omega arith, omega arith, omega arith, omega arith)

-- ===== src/Audit/Verify.antt =====
-- internal/platform/audit/log.go from Verify on, with audit_chains() and audit_records() of
-- migrations/00008_audit_log.sql: every chain is walked in batches and its hashes are computed again.
use marketplace.Base.{
  ℕ, zero, suc, ◌+◌, Bool, Option, none, some, List, [], ◌∷◌, ◌++◌, ltb, leb, if◌then◌else◌, Bytes,
  same_bytes, length, map, select,
}
use marketplace.Crypto.{Crypto}
use marketplace.Audit.{Record, genesis, digest}
use marketplace.Audit.Keys.{Chain, Tables}

-- The two ways in which a record is broken.
pub data Why : Type 0 where
  unchained altered : Why

pub record Break : Type 0 where
  pub marketplace : Bytes
  pub sequence : ℕ
  pub why : Why

pub record Report : Type 0 where
  pub chains : ℕ
  pub records : ℕ
  pub breaks : List Break

-- The switch in the loop over a batch: `none` is a record that verifies.
unfoldable pub fault : Crypto → Bytes → Record → Option Why
fault c previous r =
    if same_bytes r.previous_hash previous
    then if same_bytes (digest c previous r) r.hash then none else some altered
    else some unchained

abbrev pub reported : Bytes → Record → Option Why → List Break → List Break
reported chain r none rest = rest
reported chain r (some why) rest =
    record { marketplace = chain; sequence = r.sequence; why = why } ∷ rest

-- The loop over the records of a batch: the breaks that it finds.
unfoldable pub walk : Crypto → Bytes → Bytes → List Record → List Break
walk c chain previous [] = []
walk c chain previous (r ∷ rs) = reported chain r (fault c previous r) (walk c chain r.hash rs)

-- What the loop leaves in `previous` and in `after`.
unfoldable pub last_hash : Bytes → List Record → Bytes
last_hash previous [] = previous
last_hash previous (r ∷ rs) = last_hash r.hash rs

unfoldable pub last_sequence : ℕ → List Record → ℕ
last_sequence after [] = after
last_sequence after (r ∷ rs) = last_sequence r.sequence rs

-- ORDER BY sequence
unfoldable pub insert_sorted : Record → List Record → List Record
insert_sorted r [] = r ∷ []
insert_sorted r (s ∷ rest) =
    let further = insert_sorted r rest in
    if leb r.sequence s.sequence then r ∷ s ∷ rest else s ∷ further

unfoldable pub sort : List Record → List Record
sort [] = []
sort (r ∷ rs) = insert_sorted r (sort rs)

unfoldable pub take : ℕ → List Record → List Record
take zero rs = []
take (suc n) [] = []
take (suc n) (r ∷ rs) = r ∷ take n rs

abbrev pub is_of : Bytes → Record → Bool
is_of chain r = same_bytes r.marketplace chain

-- The records of a chain, in order: what audit_records() selects from.
unfoldable pub chain_records : Tables → Bytes → List Record
chain_records t chain = sort (select (is_of chain) (map (λ r. r.entry) t.audit_log))

-- audit_records(chain, after, take) over those records
unfoldable pub audit_records : List Record → ℕ → ℕ → List Record
audit_records rs after n = take n (select (λ r. ltb after r.sequence) rs)

abbrev pub verify_batch : ℕ
verify_batch = 500

-- A batch and what the loop finds after it; an empty batch ends the loop.
abbrev pub with_batch : Crypto → Bytes → Bytes → List Record → ℕ × List Break → ℕ × List Break
with_batch c chain previous [] rest = (0, [])
with_batch c chain previous (r ∷ more) rest =
    (length (r ∷ more) + rest.0, walk c chain previous (r ∷ more) ++ rest.1)

-- The loop over a chain's batches, each of them `size` records long, on fuel: the records that were
-- read, and the breaks.
unfoldable pub batches : Crypto → ℕ → List Record → Bytes → ℕ → Bytes → ℕ → ℕ × List Break
batches c size rs chain zero previous after = (0, [])
batches c size rs chain (suc fuel) previous after =
    let batch = audit_records rs after size in
    let rest =
      batches c size rs chain fuel (last_hash previous batch) (last_sequence after batch) in
    with_batch c chain previous batch rest

-- A chain's part of the report. A round of the loop reads a record at least, but for the last.
unfoldable pub verify_chain : Crypto → Tables → Bytes → ℕ × List Break
verify_chain c t chain =
    let rs = chain_records t chain in batches c verify_batch rs chain (suc (length rs)) genesis 0

-- The loop over the chains, in the order of the table.
unfoldable pub verify_chains : Crypto → Tables → List Chain → ℕ × List Break
verify_chains c t [] = (0, [])
verify_chains c t (chain ∷ chains) =
    let (n, breaks) = verify_chain c t chain.marketplace in
    let (m, more) = verify_chains c t chains in (n + m, breaks ++ more)

-- (*Log).Verify
unfoldable pub verify : Crypto → Tables → Report
verify c t =
    let (n, breaks) = verify_chains c t t.audit_chains in
    record { chains = length t.audit_chains; records = n; breaks = breaks }

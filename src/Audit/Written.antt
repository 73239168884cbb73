-- ===== src/Audit/Written.antt =====
-- internal/platform/audit/log.go: a log that Append alone has written verifies.
use marketplace.Base.{
  ℕ, suc, ◌+◌, ◌≤◌, ◌≡◌, ◌≢◌, refl, ◌∙◌, List, [], ◌∷◌, arith, Bytes, length, All, select, Outcome,
  ok, err, find,
}
use marketplace.Crypto.{Crypto}
use marketplace.Audit.{Entry, Record, Refusal}
use marketplace.Audit.Keys.{UserKey, Tables, Row, Chain, Vault}
use marketplace.Audit.Log.{Draws, append}
use marketplace.Audit.Verify.{walk, last_hash, verify, verify_chain, verify_chains, chain_records}
use marketplace.Audit.Sorted.{HasSequences, Ascending, verify_chain-walk, sort-id}
use marketplace.Audit.Whole.{IsWhole, IsLinked, records_of, Numbered}
use marketplace.Audit.Appending.{append-IsWhole}

-- What an appending leaves: one that is refused keeps nothing.
unfoldable pub kept : Tables → Outcome Refusal (Unit {0} × Tables) → Tables
kept t (ok (_, t')) = t'
kept t (err _) = t

-- The tables after a list of appendings, the last one first.
unfoldable pub appended : Crypto → Vault → List (Draws × Entry) → Tables → Tables
unfolding kept
appended c v [] t = t
appended c v ((d, e) ∷ earlier) t = let t' = appended c v earlier t in kept t' (append c v d e t')

-- Tables that hold keys and no record.
abbrev pub empty_log : List UserKey → Tables
empty_log keys = record { user_keys = keys; audit_log = []; audit_chains = [] }

kept-IsWhole :
    (c : Crypto) (v : Vault) (d : Draws) (e : Entry) (t : Tables)
    → IsWhole c t
    → (r : Outcome Refusal (Unit {0} × Tables)) → append c v d e t ≡ r
    → IsWhole c (kept t r)
unfolding kept
kept-IsWhole c v d e t whole (ok (_, t')) h = append-IsWhole c v d e t t' h whole
kept-IsWhole c v d e t whole (err _) h = whole

appended-IsWhole :
    (c : Crypto) (v : Vault) (entries : List (Draws × Entry)) (keys : List UserKey)
    → IsWhole c (appended c v entries (empty_log keys))
unfolding appended
appended-IsWhole c v [] keys = λ m.
    unfold walk last_hash select find in
    record { numbered = tt; linked = refl; last = refl; count = refl }
appended-IsWhole c v ((d, e) ∷ earlier) keys =
    kept-IsWhole c v d e (appended c v earlier (empty_log keys)) (appended-IsWhole c v earlier keys)
      (append c v d e (appended c v earlier (empty_log keys))) refl

Numbered-above : (n m : ℕ) (rs : List Record) → m ≤ n → Numbered n rs → All (λ s. s.sequence ≢ m) rs
Numbered-above n m [] le h = tt
Numbered-above n m (r ∷ rs) le h = (omega arith, Numbered-above (suc n) m rs (omega arith) h.1)

Numbered-HasSequences : (n : ℕ) (rs : List Record) → Numbered n rs → HasSequences rs
Numbered-HasSequences n [] h = tt
Numbered-HasSequences n (r ∷ rs) h = (
  omega arith,
  Numbered-above (suc n) r.sequence rs (omega arith) h.1,
  Numbered-HasSequences (suc n) rs h.1,
)

Numbered-Ascending : (n m : ℕ) (rs : List Record) → m ≤ n → Numbered n rs → Ascending m rs
Numbered-Ascending n m [] le h = tt
Numbered-Ascending n m (r ∷ rs) le h =
    (omega arith, Numbered-Ascending (suc n) r.sequence rs (omega arith) h.1)

-- Verifying a whole chain reads each of its records and finds no break.
verify_chain-IsLinked :
    (c : Crypto) (t : Tables) (m : Bytes)
    → IsLinked c m t.audit_log t.audit_chains
    → verify_chain c t m ≡ (length (records_of m t.audit_log), [])
verify_chain-IsLinked c t m l =
    let rs = records_of m t.audit_log in
    let same : chain_records t m ≡ rs =
      unfold chain_records in sort-id 0 rs (Numbered-Ascending 0 0 rs (omega arith) l.numbered) in
    verify_chain-walk c t m (Numbered-HasSequences 0 rs l.numbered) ∙ rw (same, l.linked) refl

-- The records of the chains that are in the table.
unfoldable pub records_in : List Row → List Chain → ℕ
records_in log [] = 0
records_in log (chain ∷ chains) = length (records_of chain.marketplace log) + records_in log chains

verify_chains-IsWhole :
    (c : Crypto) (t : Tables) (chains : List Chain)
    → IsWhole c t
    → verify_chains c t chains ≡ (records_in t.audit_log chains, [])
unfolding verify_chains records_in
verify_chains-IsWhole c t [] whole = refl
verify_chains-IsWhole c t (chain ∷ chains) whole =
    rw
      (
        verify_chain-IsLinked c t chain.marketplace (whole chain.marketplace),
        verify_chains-IsWhole c t chains whole,
      )
      refl

-- Whatever entries were appended, in whatever marketplaces and with whatever draws and clocks, and
-- some of them refused: a log that Append alone has written is verified without a break, and of every
-- chain in the table every record is read.
pub verify-appended :
    (c : Crypto) (v : Vault) (entries : List (Draws × Entry)) (keys : List UserKey)
    → verify c (appended c v entries (empty_log keys)) ≡ record {
      chains = length (appended c v entries (empty_log keys)).audit_chains;
      records =
          records_in
            (appended c v entries (empty_log keys)).audit_log
            (appended c v entries (empty_log keys)).audit_chains;
      breaks = [];
    }
unfolding verify
verify-appended c v entries keys =
    rw
      (verify_chains-IsWhole c (appended c v entries (empty_log keys))
        (appended c v entries (empty_log keys)).audit_chains (appended-IsWhole c v entries keys))
      refl

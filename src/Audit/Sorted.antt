-- ===== src/Audit/Sorted.antt =====
-- internal/platform/audit/log.go: reading a chain in batches is one walk over its records.
use marketplace.Base.{
  ℕ, zero, suc, ◌≤◌, ◌<◌, ◌≡◌, ◌≢◌, refl, sym, ap, ◌∙◌, Bool, List, [], ◌∷◌, ◌++◌, arith, ltb, leb,
  Bool-cases, inl, inr, Bytes, length, length-append, lt→leb, All, select, map,
}
use marketplace.Crypto.{Crypto}
use marketplace.Audit.{Record, genesis}
use marketplace.Audit.Keys.{Tables}
use marketplace.Audit.Tampering.{walk-append}
use marketplace.Audit.Verify.{
  is_of, walk, last_hash, last_sequence, insert_sorted, sort, take, chain_records, audit_records,
  with_batch, batches, verify_chain,
}

-- Every sequence comes after the one before it, the first after the number.
abbrev pub Ascending : ℕ → List Record → Type 0
Ascending after [] = Unit {0}
Ascending after (r ∷ rs) = (after < r.sequence) × Ascending r.sequence rs

-- Positive sequences, no two of them alike.
abbrev pub HasSequences : List Record → Type 0
HasSequences [] = Unit {0}
HasSequences (r ∷ rs) = (0 < r.sequence) × All (λ s. s.sequence ≢ r.sequence) rs × HasSequences rs

All-insert_sorted {κ} :
    (P : Record → Type κ) (r : Record) (rs : List Record)
    → P r
    → All P rs
    → All P (insert_sorted r rs)
unfolding insert_sorted
All-insert_sorted P r [] p h = (p, tt)
All-insert_sorted P r (s ∷ rs) p h = elim (Bool-cases (leb r.sequence s.sequence)) [
  | inl before ↦ rw before (p, h)
  | inr after ↦ rw after (h.0, All-insert_sorted P r rs p h.1)
]

All-sort {κ} : (P : Record → Type κ) (rs : List Record) → All P rs → All P (sort rs)
unfolding sort
All-sort P [] h = tt
All-sort P (r ∷ rs) h = All-insert_sorted P r (sort rs) h.0 (All-sort P rs h.1)

insert_sorted-Ascending :
    (after : ℕ) (r : Record) (rs : List Record)
    → after < r.sequence
    → All (λ s. s.sequence ≢ r.sequence) rs
    → Ascending after rs
    → Ascending after (insert_sorted r rs)
unfolding insert_sorted
insert_sorted-Ascending after r [] p other h = (p, tt)
insert_sorted-Ascending after r (s ∷ rs) p other h = elim (Bool-cases (leb r.sequence s.sequence)) [
  | inl before ↦ rw before (p, (ground arith, h.1))
  | inr later ↦ rw later (h.0, insert_sorted-Ascending s.sequence r rs (ground arith) other.1 h.1)
]

pub sort-Ascending : (rs : List Record) → HasSequences rs → Ascending 0 (sort rs)
unfolding sort
sort-Ascending [] h = tt
sort-Ascending (r ∷ rs) h =
    insert_sorted-Ascending 0 r (sort rs) h.0 (All-sort _ rs h.1) (sort-Ascending rs h.2)

-- Records in order stay as they are.
pub sort-id : (after : ℕ) (rs : List Record) → Ascending after rs → sort rs ≡ rs
unfolding sort insert_sorted
sort-id after [] h = refl
sort-id after (r ∷ []) h = refl
sort-id after (r ∷ s ∷ rs) h =
    rw (sort-id r.sequence (s ∷ rs) h.1) (rw (lt→leb r.sequence s.sequence h.1.0) refl)

drop : ℕ → List Record → List Record
drop zero rs = rs
drop (suc n) [] = []
drop (suc n) (r ∷ rs) = drop n rs

take-drop : (n : ℕ) (rs : List Record) → take n rs ++ drop n rs ≡ rs
unfolding take drop
take-drop zero rs = refl
take-drop (suc n) [] = refl
take-drop (suc n) (r ∷ rs) = ap (λ s. r ∷ s) (take-drop n rs)

abbrev later : ℕ → Record → Bool
later after r = ltb after r.sequence

select-later :
    (after : ℕ) (rs : List Record)
    → Ascending after rs
    → (a : ℕ) → a ≤ after
    → select (later a) rs ≡ rs
unfolding select
select-later after [] h a le = refl
select-later after (r ∷ rs) h a le = ground (arith, select-later r.sequence rs h.1 a)

select-select :
    (a b : ℕ) (rs : List Record)
    → a ≤ b
    → select (later b) (select (later a) rs) ≡ select (later b) rs
unfolding select
select-select a b [] h = refl
select-select a b (r ∷ rs) h = ground (arith, select-select a b rs h)

last_sequence-le :
    (after : ℕ) (n : ℕ) (rs : List Record)
    → Ascending after rs
    → after ≤ last_sequence after (take n rs)
unfolding last_sequence take
last_sequence-le after zero rs h = omega arith
last_sequence-le after (suc n) [] h = omega arith
last_sequence-le after (suc n) (r ∷ rs) h = omega (arith, last_sequence-le r.sequence n rs h.1, h.0)

-- What comes after the batch that was read.
select-last_sequence :
    (after n : ℕ) (rs : List Record)
    → Ascending after rs
    → select (later (last_sequence after (take n rs))) rs ≡ drop n rs
unfolding last_sequence take drop select
select-last_sequence after zero rs h = select-later after rs h after (omega arith)
select-last_sequence after (suc n) [] h = refl
select-last_sequence after (suc n) (r ∷ rs) h =
    ground (arith, last_sequence-le r.sequence n rs h.1, select-last_sequence r.sequence n rs h.1)

Ascending-drop :
    (after n : ℕ) (rs : List Record)
    → Ascending after rs
    → Ascending (last_sequence after (take n rs)) (drop n rs)
unfolding last_sequence take drop
Ascending-drop after zero rs h = h
Ascending-drop after (suc n) [] h = tt
Ascending-drop after (suc n) (r ∷ rs) h = Ascending-drop r.sequence n rs h.1

length-drop :
    (k : ℕ) (r : Record) (rs : List Record) → length (drop (suc k) (r ∷ rs)) < length (r ∷ rs)
unfolding take drop
length-drop k r rs =
    omega (arith, ap length (take-drop k rs), length-append (take k rs) (drop k rs))

with_batch-walk :
    (c : Crypto) (chain previous : Bytes) (k : ℕ) (r : Record) (rs : List Record)
    → with_batch c chain previous (take (suc k) (r ∷ rs)) (
      length (drop (suc k) (r ∷ rs)),
      walk c chain (last_hash previous (take (suc k) (r ∷ rs))) (drop (suc k) (r ∷ rs)),
    )
      ≡ (length (r ∷ rs), walk c chain previous (r ∷ rs))
unfolding take drop
with_batch-walk c chain previous k r rs =
    let parts : (r ∷ take k rs) ++ drop k rs ≡ r ∷ rs = ap (λ s. r ∷ s) (take-drop k rs) in
    let count = sym (length-append (r ∷ take k rs) (drop k rs)) ∙ ap length parts in
    let breaks =
      sym (walk-append c chain previous (r ∷ take k rs) (drop k rs))
      ∙ ap (walk c chain previous) parts in
    λ i. (count i, breaks i)

-- The loop from a hash and a sequence on, for the records that are left.
batches-walk :
    (c : Crypto) (k : ℕ) (all : List Record) (chain : Bytes) (fuel : ℕ) (previous : Bytes)
    (after : ℕ) (rs : List Record)
    → length rs < fuel
    → Ascending after rs
    → select (later after) all ≡ rs
    → batches c (suc k) all chain fuel previous after ≡ (length rs, walk c chain previous rs)
unfolding batches audit_records
batches-walk c k all chain zero previous after rs enough h e = absurd (omega arith)
batches-walk c k all chain (suc fuel) previous after [] enough h e = rw e (unfold take walk in refl)
batches-walk c k all chain (suc fuel) previous after (r ∷ rs) enough h e =
    let next = last_sequence after (take (suc k) (r ∷ rs)) in
    let left = drop (suc k) (r ∷ rs) in
    let further =
      sym (select-select after next all (last_sequence-le after (suc k) (r ∷ rs) h))
      ∙ ap (select (later next)) e
      ∙ select-last_sequence after (suc k) (r ∷ rs) h in
    let ih =
      batches-walk c k all chain fuel (last_hash previous (take (suc k) (r ∷ rs))) next left
        (omega (arith, length-drop k r rs)) (Ascending-drop after (suc k) (r ∷ rs) h) further in
    rw (e, ih) (with_batch-walk c chain previous k r rs)

-- Reading a chain in batches of five hundred finds what one walk over its records in order finds, and
-- counts each record once: where the chain's sequences are positive and no two are alike.
pub verify_chain-walk :
    (c : Crypto) (t : Tables) (chain : Bytes)
    → HasSequences (select (is_of chain) (map (λ r. r.entry) t.audit_log))
    → verify_chain c t chain
      ≡ (length (chain_records t chain), walk c chain genesis (chain_records t chain))
unfolding verify_chain chain_records
verify_chain-walk c t chain h =
    let rs = sort (select (is_of chain) (map (λ r. r.entry) t.audit_log)) in
    let up = sort-Ascending _ h in
    batches-walk c 499 rs chain (suc (length rs)) genesis 0 rs (omega arith) up
      (select-later 0 rs up 0 (omega arith))

-- ===== src/Audit/Whole.antt =====
-- internal/platform/audit/log.go: appending keeps every chain whole, and a whole log verifies.
use marketplace.Base.{
  ℕ, suc, ◌+◌, ◌≡◌, refl, sym, ap, subst, ◌∙◌, Bool, true, false, Option, none, some, List, [], ◌∷◌,
  ◌++◌, arith, Bool-cases, inl, inr, Bytes, length, length-append, select, map, insert, find,
  update, if◌then◌else◌, same_bytes, same_bytes_sound, same_bytes_refl, same_bytes-other,
  find-insert, find-update, find-update_other,
}
use mathlib.Core.List.{map-append, append-nil}
use marketplace.Crypto.{Crypto}
use marketplace.Audit.{Record, genesis}
use marketplace.Audit.Keys.{Tables, Row, Chain}
use marketplace.Audit.Log.{is_chain, new_chain}
use marketplace.Audit.Verify.{is_of, walk, last_hash, fault}
use marketplace.Audit.Tampering.{walk-append}

-- The records of a chain as they stand in the table.
abbrev pub records_of : Bytes → List Row → List Record
records_of m log = select (is_of m) (map (λ r. r.entry) log)

abbrev chain_or : Bytes → Option Chain → Chain
chain_or m none = new_chain m
chain_or m (some chain) = chain

-- The chain's row, or the one that would be inserted.
abbrev pub head_of : Bytes → List Chain → Chain
head_of m chains = chain_or m (find (is_chain m) chains)

-- The sequences count on from a number.
abbrev pub Numbered : ℕ → List Record → Type 0
Numbered n [] = Unit {0}
Numbered n (r ∷ rs) = (r.sequence ≡ suc n) × Numbered (suc n) rs

-- A chain: its records count from one, each follows from the one before it, and its row holds the
-- last hash and their number.
pub record IsLinked (c : Crypto) (m : Bytes) (log : List Row) (chains : List Chain) : Type 0 where
  pub numbered : Numbered 0 (records_of m log)
  pub linked : walk c m genesis (records_of m log) ≡ []
  pub last : (head_of m chains).last_hash ≡ last_hash genesis (records_of m log)
  pub count : (head_of m chains).length ≡ length (records_of m log)

abbrev pub IsWhole : Crypto → Tables → Type 0
IsWhole c t = (m : Bytes) → IsLinked c m t.audit_log t.audit_chains

select-append {ℓ} :
    {R : Type ℓ} (p : R → Bool) (rs : List R) (r : R)
    → select p (rs ++ r ∷ []) ≡ select p rs ++ (if p r then r ∷ [] else [])
unfolding select
select-append p [] r = ground arith
select-append p (s ∷ rs) r = ground (arith, select-append p rs r)

records_of-insert :
    (m : Bytes) (log : List Row) (r : Row)
    → records_of m (insert r log)
      ≡ records_of m log ++ (if is_of m r.entry then r.entry ∷ [] else [])
unfolding insert
records_of-insert m log r =
    ap (select (is_of m)) (map-append (λ (r : Row). r.entry) log (r ∷ []))
    ∙ select-append (is_of m) (map (λ r. r.entry) log) r.entry

Numbered-append :
    (n : ℕ) (rs : List Record) (r : Record)
    → Numbered n rs
    → r.sequence ≡ suc (n + length rs)
    → Numbered n (rs ++ r ∷ [])
Numbered-append n [] r h e = (omega arith, tt)
Numbered-append n (s ∷ rs) r h e = (h.0, Numbered-append (suc n) rs r h.1 (omega arith))

last_hash-append : (p : Bytes) (rs : List Record) (r : Record) → last_hash p (rs ++ r ∷ []) ≡ r.hash
unfolding last_hash
last_hash-append p [] r = refl
last_hash-append p (s ∷ rs) r = last_hash-append s.hash rs r

-- The row of the chain that a record was appended to, and of any other.
unfoldable pub opened : Bytes → List Chain → List Chain
opened m chains = elim (find (is_chain m) chains) [
  | none ↦ insert (new_chain m) chains
  | some _ ↦ chains
]

unfoldable pub advanced : Record → List Chain → List Chain
advanced r chains =
    update (is_chain r.marketplace)
      (λ chain. record chain { last_hash = r.hash; length = r.sequence }) chains

find-opened :
    (m : Bytes) (chains : List Chain)
    → find (is_chain m) (opened m chains) ≡ some (head_of m chains)
unfolding opened
find-opened m chains =
    ground (arith, find-insert (is_chain m) (new_chain m) chains, same_bytes_refl m)

head_of-advanced :
    (r : Record) (chains : List Chain)
    → head_of r.marketplace (advanced r (opened r.marketplace chains))
      ≡ record (head_of r.marketplace chains) { last_hash = r.hash; length = r.sequence }
unfolding advanced
head_of-advanced r chains = ground (
  arith,
  find-opened r.marketplace chains,
  find-update (is_chain r.marketplace)
      (λ chain. record chain { last_hash = r.hash; length = r.sequence })
      (opened r.marketplace chains) (λ chain. refl),
)

head_of-advanced_other :
    (m : Bytes) (r : Record) (chains : List Chain)
    → same_bytes r.marketplace m ≡ false
    → head_of m (advanced r (opened r.marketplace chains)) ≡ head_of m chains
unfolding advanced opened
head_of-advanced_other m r chains other =
    let apart : (x : Chain)
        → is_chain r.marketplace x ≡ true
        → (is_chain m x ≡ false) × (is_chain m x ≡ false) =
      (λ x h. (
        same_bytes-other r.marketplace m x.marketplace other h,
        same_bytes-other r.marketplace m x.marketplace other h,
      )) in
    ground (
      arith,
      find-insert (is_chain m) (new_chain r.marketplace) chains,
      find-update_other (is_chain m) (is_chain r.marketplace)
          (λ chain. record chain { last_hash = r.hash; length = r.sequence })
          (opened r.marketplace chains) apart,
    )

-- What a record is that may follow: it counts on, it is chained to the last hash, and its own is right.
pub record IsNext (c : Crypto) (chains : List Chain) (r : Record) : Type 0 where
  pub next : r.sequence ≡ suc (head_of r.marketplace chains).length
  pub fits : fault c (head_of r.marketplace chains).last_hash r ≡ none

module _ (c : Crypto) (log : List Row) (chains : List Chain) (row : Row) where
  -- The chain that such a record is added to.
  own-IsLinked :
      IsNext c chains row.entry
      → IsLinked c row.entry.marketplace log chains
      → IsLinked c row.entry.marketplace
          (insert row log)
          (advanced row.entry (opened row.entry.marketplace chains))
  unfolding walk
  own-IsLinked n l =
      let m = row.entry.marketplace in
      let rs = records_of m log in
      let e : records_of m (insert row log) ≡ rs ++ row.entry ∷ [] =
        rw records_of-insert (rw (same_bytes_refl m) refl) in
      let h = head_of-advanced row.entry chains in
      let fits : fault c (last_hash genesis rs) row.entry ≡ none = rw (← l.last) n.fits in
      record {
        numbered =
            rw e (Numbered-append 0 rs row.entry l.numbered (omega (arith, n.next, l.count)));
        linked = rw e (walk-append c m genesis rs (row.entry ∷ []) ∙ rw (l.linked, fits) refl);
        last =
            ap (λ (x : Chain). x.last_hash) h ∙ rw e (sym (last_hash-append genesis rs row.entry));
        count =
            ap (λ (x : Chain). x.length) h
            ∙ rw e (omega (arith, n.next, l.count, length-append rs (row.entry ∷ [])));
      }

  -- Any other chain.
  other-IsLinked :
      (m : Bytes)
      → same_bytes row.entry.marketplace m ≡ false
      → IsLinked c m log chains
      → IsLinked c m (insert row log) (advanced row.entry (opened row.entry.marketplace chains))
  other-IsLinked m other l =
      let e : records_of m (insert row log) ≡ records_of m log =
        rw records_of-insert (rw other (append-nil (records_of m log))) in
      let h = head_of-advanced_other m row.entry chains other in
      record {
        numbered = rw e l.numbered;
        linked = rw e l.linked;
        last = rw (e, h) l.last;
        count = rw (e, h) l.count;
      }

  pub insert-IsLinked :
      IsNext c chains row.entry
      → ((m : Bytes) → IsLinked c m log chains)
      → (m : Bytes)
      → IsLinked c m (insert row log) (advanced row.entry (opened row.entry.marketplace chains))
  insert-IsLinked n whole m = elim (Bool-cases (same_bytes row.entry.marketplace m)) [
    | inr other ↦ other-IsLinked m other (whole m)
    | inl mine ↦
        subst
          (λ k.
            IsLinked c k (insert row log)
              (advanced row.entry (opened row.entry.marketplace chains)))
          (same_bytes_sound _ _ mine) (own-IsLinked n (whole row.entry.marketplace))
  ]

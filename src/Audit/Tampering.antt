-- ===== src/Audit/Tampering.antt =====
-- internal/platform/audit/log.go: what a walk over a chain that finds no break shows, and what it
-- reports of a record that was altered.
use marketplace.Base.{
  ◌^◌, ◌<◌, ◌≡◌, ◌≢◌, refl, sym, ap, ◌∙◌, ◌⊎◌, inl, inr, true, none, some, List, [], ◌∷◌, ◌++◌,
  arith, Bool-cases, Bytes, length, same_bytes, same_bytes_sound, same_bytes_refl, All,
}
use marketplace.Crypto.{Crypto}
use marketplace.Audit.{Record, digest, digest_input}
use marketplace.Audit.Digest.{IsSized, unlinked, digest_input-injective}
use marketplace.Audit.Verify.{altered, fault, walk, last_hash}

-- Two texts that SHA-256 hashes to one value.
abbrev pub Collision : Crypto → Type 0
Collision c = (x : Bytes) × (y : Bytes) × (x ≢ y) × (c.sha256 x ≡ c.sha256 y)

pub fault-none :
    (c : Crypto) (previous : Bytes) (r : Record)
    → fault c previous r ≡ none
    → (r.previous_hash ≡ previous) × (digest c previous r ≡ r.hash)
unfolding fault
fault-none c previous r h =
    (same_bytes_sound _ _ (ground arith), same_bytes_sound _ _ (ground arith))

pub walk-cons :
    (c : Crypto) (chain previous : Bytes) (r : Record) (rs : List Record)
    → walk c chain previous (r ∷ rs) ≡ []
    → (fault c previous r ≡ none) × (walk c chain r.hash rs ≡ [])
unfolding walk
walk-cons c chain previous r rs h = ground arith

-- Two records that verify, each after a hash of its own, with one hash.
same_record :
    (c : Crypto) (p q : Bytes) (r s : Record)
    → length p < 256 ^ 8
    → length q < 256 ^ 8
    → IsSized r
    → IsSized s
    → fault c p r ≡ none
    → fault c q s ≡ none
    → r.hash ≡ s.hash
    → ((p ≡ q) × (r ≡ s)) ⊎ Collision c
unfolding digest
same_record c p q r s bp bq br bs h k e =
    let (h0, h1) = fault-none c p r h in
    let (k0, k1) = fault-none c q s k in
    elim (Bool-cases (same_bytes (digest_input p r) (digest_input q s))) [
      | inr other ↦ inr (
        digest_input p r,
        digest_input q s,
        (λ same.
            let t : same_bytes (digest_input p r) (digest_input q s) ≡ true =
              ap (same_bytes (digest_input p r)) (sym same) ∙ same_bytes_refl (digest_input p r) in
            cc),
        h1 ∙ e ∙ sym k1,
      )
      | inl same ↦
          let (pq, rs) = digest_input-injective p q r s bp bq br bs (same_bytes_sound _ _ same) in
          inl (pq, λ i. record (rs i) { previous_hash = (h0 ∙ pq ∙ sym k0) i; hash = e i })
    ]

-- A hash that a record or a chain's start may have.
abbrev pub IsHash : Bytes → Type 0
IsHash p = length p < 256 ^ 8

-- A record's sizes, and its hash's.
abbrev pub IsStored : Record → Type 0
IsStored r = IsSized r × IsHash r.hash

-- The records of a chain are determined by its last hash and its length, unless SHA-256 collides:
-- two lists of as many records that are both walked without a break, each from a hash of its own, and
-- that end in one hash are the same records after the same hash.
pub walk-last_hash :
    (c : Crypto) (chain p q : Bytes) (rs ss : List Record)
    → IsHash p
    → IsHash q
    → All IsStored rs
    → All IsStored ss
    → length rs ≡ length ss
    → walk c chain p rs ≡ []
    → walk c chain q ss ≡ []
    → last_hash p rs ≡ last_hash q ss
    → ((p ≡ q) × (rs ≡ ss)) ⊎ Collision c
unfolding last_hash
walk-last_hash c chain p q [] [] bp bq br bs l h k e = inl (e, refl)
walk-last_hash c chain p q [] (s ∷ ss) bp bq br bs l h k e = absurd (omega arith)
walk-last_hash c chain p q (r ∷ rs) [] bp bq br bs l h k e = absurd (omega arith)
walk-last_hash c chain p q (r ∷ rs) (s ∷ ss) bp bq br bs l h k e =
    let (h0, h1) = walk-cons c chain p r rs h in
    let (k0, k1) = walk-cons c chain q s ss k in
    elim (walk-last_hash c chain r.hash s.hash rs ss br.0.1 bs.0.1 br.1 bs.1 (omega arith) h1 k1
      e) [
        | inr collision ↦ inr collision
        | inl (same, rest) ↦ elim (same_record c p q r s bp bq br.0.0 bs.0.0 h0 k0 same) [
          | inr collision ↦ inr collision
          | inl (pq, first) ↦ inl (pq, λ i. first i ∷ rest i)
        ]
      ]

pub walk-append :
    (c : Crypto) (chain p : Bytes) (rs ss : List Record)
    → walk c chain p (rs ++ ss) ≡ walk c chain p rs ++ walk c chain (last_hash p rs) ss
unfolding walk last_hash
walk-append c chain p [] ss = refl
walk-append c chain p (r ∷ rs) ss = ground (arith, walk-append c chain r.hash rs ss)

-- A record in the place of one that verifies, with the links of that one and other content, is
-- reported as altered, unless SHA-256 collides.
fault-altered :
    (c : Crypto) (p : Bytes) (r s : Record)
    → IsHash p
    → IsSized r
    → IsSized s
    → fault c p r ≡ none
    → s.previous_hash ≡ r.previous_hash
    → s.hash ≡ r.hash
    → unlinked s ≢ unlinked r
    → (fault c p s ≡ some altered) ⊎ Collision c
unfolding fault
fault-altered c p r s bp br bs h same kept changed =
    let (h0, h1) = fault-none c p r h in
    let chained : same_bytes s.previous_hash p ≡ true =
      (ap (λ x. same_bytes x p) (same ∙ h0) ∙ same_bytes_refl p) in
    elim (Bool-cases (same_bytes (digest c p s) s.hash)) [
      | inr broken ↦ inl (rw (chained, broken))
      | inl verifies ↦ elim (same_record c p p s r bp bp bs br (rw (chained, verifies)) h kept) [
        | inl (_, e) ↦ absurd (changed (ap unlinked e))
        | inr collision ↦ inr collision
      ]
    ]

-- One altered record is one break: where a chain is walked without a break and one of its records
-- gets other content and keeps its hashes, the walk reports that record as altered and nothing else,
-- unless SHA-256 collides.
pub walk-altered :
    (c : Crypto) (chain p : Bytes) (rs : List Record) (r s : Record) (ss : List Record)
    → IsHash p
    → All IsStored rs
    → IsStored r
    → IsStored s
    → walk c chain p (rs ++ r ∷ ss) ≡ []
    → s.previous_hash ≡ r.previous_hash
    → s.hash ≡ r.hash
    → unlinked s ≢ unlinked r
    → (walk c chain p (rs ++ s ∷ ss)
        ≡ (record { marketplace = chain; sequence = s.sequence; why = altered }) ∷ [])
      ⊎ Collision c
unfolding walk
walk-altered c chain p [] r s ss bp brs br bs h same kept changed =
    let (h0, h1) = walk-cons c chain p r ss h in
    elim (fault-altered c p r s bp br.0 bs.0 h0 same kept changed) [
      | inl found ↦ inl (rw (found, kept, h1))
      | inr collision ↦ inr collision
    ]
walk-altered c chain p (x ∷ rs) r s ss bp brs br bs h same kept changed =
    let (h0, h1) = walk-cons c chain p x (rs ++ r ∷ ss) h in
    elim (walk-altered c chain x.hash rs r s ss brs.0.1 brs.1 br bs h1 same kept changed) [
      | inl found ↦ inl (rw (h0, found))
      | inr collision ↦ inr collision
    ]

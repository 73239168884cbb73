-- ===== src/RateLimit/Rows.antt =====
-- internal/platform/ratelimit/database.go: what the statements on the table rate_limit do to the
-- count of one subject and window.
use marketplace.Base.{
  ℕ, suc, ◌+◌, ◌≡◌, refl, sym, ap, ◌∙◌, Bool, true, false, ◌&&◌, Option, none, some, List, arith,
  ◌==◌, Bool-cases, inl, inr, Bytes, same_bytes, same_bytes_sound, same_bytes_refl, find, delete,
  find-insert, find-update, find-update_other, find-delete,
}
use marketplace.RateLimit.{Hits, is_row, upsert}

abbrev pub hits_or : Option Hits → ℕ
hits_or none = 0
hits_or (some r) = r.hits

-- The count of a subject in the window that starts then.
abbrev pub hits_in : Bytes → ℕ → List Hits → ℕ
hits_in subject start rows = hits_or (find (is_row subject start) rows)

abbrev pub counted : Bytes → ℕ → List Hits → ℕ × List Hits
counted subject start rows = upsert subject start (find (is_row subject start) rows) rows

pub counted-hits :
    (subject : Bytes) (start : ℕ) (rows : List Hits)
    → (counted subject start rows).0 ≡ suc (hits_in subject start rows)
unfolding upsert
counted-hits subject start rows = ground arith

-- Counting an attempt adds one to its own count.
pub hits_in-counted :
    (subject : Bytes) (start : ℕ) (rows : List Hits)
    → hits_in subject start (counted subject start rows).1 ≡ suc (hits_in subject start rows)
unfolding upsert
hits_in-counted subject start rows = ground (
  arith,
  same_bytes_refl subject,
  find-insert (is_row subject start) (record { subject = subject; window_start = start; hits = 1 })
      rows,
  find-update (is_row subject start) (λ r. record r { hits = r.hits + 1 }) rows (λ r. refl),
)

is_row-other :
    (s t : Bytes) (i j : ℕ) (r : Hits)
    → (same_bytes s t && i == j) ≡ false
    → is_row s i r ≡ true
    → is_row t j r ≡ false
is_row-other s t i j r other h = elim (Bool-cases (is_row t j r)) [
  | inr miss ↦ miss
  | inl hit ↦
      let e : r.subject ≡ s = same_bytes_sound _ _ (ground arith) in
      let f : r.subject ≡ t = same_bytes_sound _ _ (ground arith) in
      let k : s ≡ t = (sym e ∙ f) in
      let same : same_bytes s t ≡ true = ap (same_bytes s) (sym k) ∙ same_bytes_refl s in
      ground arith
]

-- Counting an attempt changes no other count.
pub hits_in-counted_other :
    (s t : Bytes) (i j : ℕ) (rows : List Hits)
    → (same_bytes s t && i == j) ≡ false
    → hits_in t j (counted s i rows).1 ≡ hits_in t j rows
unfolding upsert
hits_in-counted_other s t i j rows other =
    let apart : (r : Hits) → is_row s i r ≡ true → (is_row t j r ≡ false) × (is_row t j r ≡ false) =
      (λ r h. (is_row-other s t i j r other h, is_row-other s t i j r other h)) in
    ground (
      arith,
      is_row-other s t i j (record { subject = s; window_start = i; hits = 1 }) other,
      same_bytes_refl s,
      find-insert (is_row t j) (record { subject = s; window_start = i; hits = 1 }) rows,
      find-update_other (is_row t j) (is_row s i) (λ r. record r { hits = r.hits + 1 }) rows apart,
    )

-- A sweep that takes no row of a subject and window leaves their count.
pub hits_in-delete :
    (s : Bytes) (i : ℕ) (q : Hits → Bool) (rows : List Hits)
    → ((r : Hits) → r.subject ≡ s → r.window_start ≡ i → q r ≡ false)
    → hits_in s i (delete q rows) ≡ hits_in s i rows
hits_in-delete s i q rows keep = ap hits_or (
    find-delete (is_row s i) q rows
      λ r h. keep r (same_bytes_sound _ _ (ground arith)) (ground arith))

-- ===== src/RateLimit/History.antt =====
-- internal/platform/ratelimit/database.go: the answers of limiters that share the table, against
-- the list of the attempts that were made.
use marketplace.Base.{
  ℕ, ◌+◌, ◌-◌, ◌≤◌, ◌<◌, ◌*◌, ◌≡◌, refl, ap, ◌∙◌, Bool, true, ◌&&◌, some, List, [], ◌∷◌, arith,
  ◌==◌, leb, if◌then◌else◌, Bool-cases, inl, inr, Bytes, same_bytes, same_bytes_sound, is_set,
  count, All, delete, find, ◌++◌,
}
use native.Mathlib.Nat.{mod-lt}
use marketplace.RateLimit.{
  Hits, Limiter, truncate, valid_name, is_past, subject_of, round_seconds, second, allow,
  starts_with,
}
use marketplace.RateLimit.Subjects.{valid_name-all, same_bytes-subject_of, starts_with-subject_of}
use marketplace.RateLimit.Rows.{
  hits_in, counted, counted-hits, hits_in-counted, hits_in-counted_other, hits_in-delete,
}

pub record Attempt : Type 0 where
  pub limiter : Limiter
  pub key : Bytes
  pub at : ℕ

-- The table after the attempts, the last one first, from an empty one.
unfoldable pub table_after : List Attempt → List Hits
table_after [] = []
table_after (a ∷ earlier) = (allow a.limiter a.key a.at (table_after earlier)).1

abbrev pub start_of : Attempt → ℕ
start_of a = truncate a.at a.limiter.window

-- An attempt of a limiter's name at a key, in the window that starts then.
abbrev pub is_in : Bytes → Bytes → ℕ → Attempt → Bool
is_in name key start a =
    (same_bytes a.limiter.name name && same_bytes a.key key) && start_of a == start

-- What an attempt must be for a window of a limiter's name to keep its count: its name is valid,
-- and where it is that name, its window has that length and starts no later than the next one.
pub record IsBefore (name : Bytes) (window start : ℕ) (a : Attempt) : Type 0 where
  pub valid : valid_name a.limiter.name ≡ true
  pub same_window : same_bytes a.limiter.name name ≡ true → a.limiter.window ≡ window
  pub not_past : same_bytes a.limiter.name name ≡ true → start_of a ≤ start + window

module _ (name : Bytes) (valid : valid_name name ≡ true) (key : Bytes) (window start : ℕ) where
  -- A sweep leaves a window that is open, or that ended one window ago at most.
  hits_in-sweep :
      (a : Attempt) (rows : List Hits)
      → IsBefore name window start a
      → hits_in (subject_of name key) start (delete (is_past a.limiter (start_of a)) rows)
        ≡ hits_in (subject_of name key) start rows
  hits_in-sweep a rows b = hits_in-delete _ _ _ rows λ r e f.
      let mine : starts_with (a.limiter.name ++ b':' ∷ []) r.subject
          ≡ same_bytes a.limiter.name name =
        ap (starts_with (a.limiter.name ++ b':' ∷ [])) e
        ∙ starts_with-subject_of a.limiter.name name key (valid_name-all _ b.valid)
            (valid_name-all _ valid) in
      ground arith

  hits_in-attempt :
      (a : Attempt) (rows : List Hits)
      → IsBefore name window start a
      → hits_in
          (subject_of name key)
          start
          (counted (subject_of a.limiter.name a.key) (start_of a) rows).1
        ≡ (if is_in name key start a then 1 else 0) + hits_in (subject_of name key) start rows
  hits_in-attempt a rows b =
      let one =
        same_bytes-subject_of a.limiter.name name a.key key (valid_name-all _ b.valid)
          (valid_name-all _ valid) in
      elim (Bool-cases (is_in name key start a)) [
        | inl mine ↦
            let e : subject_of a.limiter.name a.key ≡ subject_of name key =
              same_bytes_sound _ _ (ground arith) in
            let f : start_of a ≡ start = ground arith in
            rw (mine, e, f) (omega (arith, hits_in-counted (subject_of name key) start rows))
        | inr other ↦ rw other (
            omega (
              arith,
              hits_in-counted_other (subject_of a.limiter.name a.key) (subject_of name key)
                  (start_of a) start rows (ground arith),
            ))
      ]

  hits_in-step :
      (a : Attempt) (rows : List Hits)
      → IsBefore name window start a
      → hits_in (subject_of name key) start (allow a.limiter a.key a.at rows).1
        ≡ (if is_in name key start a then 1 else 0) + hits_in (subject_of name key) start rows
  unfolding allow
  hits_in-step a rows b =
      elim (Bool-cases ((counted (subject_of a.limiter.name a.key) (start_of a) rows).0 == 1)) [
        | inl first ↦ rw first (hits_in-sweep a _ b ∙ hits_in-attempt a rows b)
        | inr later ↦ rw later (hits_in-attempt a rows b)
      ]

  -- The table holds the count of the attempts.
  pub hits_in-table_after :
      (earlier : List Attempt)
      → All (IsBefore name window start) earlier
      → hits_in (subject_of name key) start (table_after earlier)
        ≡ count (is_in name key start) earlier
  unfolding table_after count find
  hits_in-table_after [] h = refl
  hits_in-table_after (a ∷ earlier) h =
      hits_in-step a (table_after earlier) h.0
      ∙ ap (λ n. (if is_in name key start a then 1 else 0) + n) (hits_in-table_after earlier h.1)

-- An earlier attempt, for one that comes now: its limiter's name is valid, and where it is the same
-- name, the window is as long and the attempt's clock was not ahead.
pub record IsEarlier (d : Limiter) (now : ℕ) (a : Attempt) : Type 0 where
  pub valid : valid_name a.limiter.name ≡ true
  pub same_window : same_bytes a.limiter.name d.name ≡ true → a.limiter.window ≡ d.window
  pub not_ahead : same_bytes a.limiter.name d.name ≡ true → a.at ≤ now

truncate-le : (now window : ℕ) → truncate now window ≤ now
unfolding truncate
truncate-le now window = ground arith

le-truncate : (now window : ℕ) → now ≤ truncate now window + window
unfolding truncate
le-truncate now window = elim (Bool-cases (window == 0)) [
  | inl none_yet ↦ rw none_yet (omega arith)
  | inr some_window ↦
      rw some_window (let h : 0 < window = ground arith in omega (arith, mod-lt now h))
]

IsEarlier-IsBefore :
    (d : Limiter) (now : ℕ) (a : Attempt)
    → IsEarlier d now a
    → IsBefore d.name d.window (truncate now d.window) a
IsEarlier-IsBefore d now a e = record {
  valid = e.valid;
  same_window = e.same_window;
  not_past = λ h.
      omega (arith, truncate-le a.at a.limiter.window, le-truncate now d.window, e.not_ahead h);
}

All-IsBefore :
    (d : Limiter) (now : ℕ) (earlier : List Attempt)
    → All (IsEarlier d now) earlier
    → All (IsBefore d.name d.window (truncate now d.window)) earlier
All-IsBefore d now [] h = tt
All-IsBefore d now (a ∷ earlier) h =
    (IsEarlier-IsBefore d now a h.0, All-IsBefore d now earlier h.1)

-- Whichever limiters share the table and in whatever order their attempts come, an attempt is
-- refused exactly when the attempts of its limiter's name and key in its window, all of them
-- counted, have come to the limit: where every limiter's name is valid, limiters of one name have
-- one window, and no earlier attempt's clock was ahead of this one's.
pub allow-history :
    (d : Limiter) (key : Bytes) (now : ℕ) (earlier : List Attempt)
    → valid_name d.name ≡ true
    → All (IsEarlier d now) earlier
    → is_set (allow d key now (table_after earlier)).0
      ≡ leb d.limit (count (is_in d.name key (truncate now d.window)) earlier)
unfolding allow
allow-history d key now earlier valid h =
    let n =
      hits_in-table_after d.name valid key d.window (truncate now d.window) earlier
        (All-IsBefore d now earlier h) in
    let k = counted-hits (subject_of d.name key) (truncate now d.window) (table_after earlier) in
    ground arith

round_seconds_bounds :
    (d : ℕ) → (2 * d < 2 * round_seconds d + second) × (2 * round_seconds d ≤ 2 * d + second)
unfolding round_seconds
round_seconds_bounds d = ground arith

-- A refused client is told to wait until its window is over, and no longer than a second and a half
-- more.
pub allow-retry :
    (d : Limiter) (key : Bytes) (now : ℕ) (rows : List Hits) {wait : ℕ}
    → (allow d key now rows).0 ≡ some wait
    → (truncate now d.window + d.window < now + wait)
      × (2 * (now + wait) ≤ 2 * (truncate now d.window + d.window) + 3 * second)
unfolding allow
allow-retry d key now rows h =
    ground (
      arith,
      le-truncate now d.window,
      round_seconds_bounds (truncate now d.window + d.window - now),
    )

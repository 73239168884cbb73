-- ===== src/Base/Table.antt =====
-- A database table as a list of rows, with the statements that the SQL of the source makes.
use Prim.Native.Nat.{ℕ, ◌+◌}
use mathlib.Core.Path.{◌≡◌, refl, ap}
use mathlib.Core.Logic.{◌⊎◌, inl, inr}
use mathlib.Core.Bool.{Bool, true, false}
use mathlib.Core.Option.{Option, none, some}
use mathlib.Core.List.{List, [], ◌∷◌, ◌++◌}
use native.Mathlib.Omega.{arith}
use marketplace.Base.Tests.{if◌then◌else◌, Bool-cases, is_set}

module _ {ℓ} {R : Type ℓ} where
  -- SELECT … WHERE p LIMIT 1
  unfoldable pub find : (R → Bool) → List R → Option R
  find p [] = none
  find p (r ∷ rs) = if p r then some r else find p rs

  -- SELECT … WHERE p
  unfoldable pub select : (R → Bool) → List R → List R
  select p [] = []
  select p (r ∷ rs) = let rest = select p rs in if p r then r ∷ rest else rest

  -- SELECT count(*) … WHERE p
  unfoldable pub count : (R → Bool) → List R → ℕ
  count p [] = 0
  count p (r ∷ rs) = (if p r then 1 else 0) + count p rs

  -- UPDATE … SET f WHERE p
  unfoldable pub update : (R → Bool) → (R → R) → List R → List R
  update p f [] = []
  update p f (r ∷ rs) = (if p r then f r else r) ∷ update p f rs

  -- DELETE … WHERE p
  unfoldable pub delete : (R → Bool) → List R → List R
  delete p [] = []
  delete p (r ∷ rs) = let rest = delete p rs in if p r then rest else r ∷ rest

  -- INSERT: the new row comes last
  unfoldable pub insert : R → List R → List R
  insert r rs = rs ++ r ∷ []

module _ {ℓ} {R : Type ℓ} where
  -- A row of a table.
  abbrev pub IsRow : R → List R → Type ℓ
  IsRow r rows = (before after : List R) × (rows ≡ before ++ r ∷ after)

  pub IsRow-later : (r s : R) (rows : List R) → IsRow r rows → IsRow r (s ∷ rows)
  IsRow-later r s rows (before, after, e) = (s ∷ before, after, ap (λ rs. s ∷ rs) e)

  -- What is selected is rows of the table that are selected for.
  pub select-IsRow :
      (p : R → Bool) (r : R) (rows : List R) → IsRow r (select p rows) → IsRow r rows × (p r ≡ true)
  unfolding select
  select-IsRow p r [] (before, after, e) = absurd (append-row before after e)
    where
      append-row : (before after : List R) → [] ≡ before ++ r ∷ after → ⊥
      append-row [] after e = cc
      append-row (b ∷ before) after e = cc
  select-IsRow p r (s ∷ rows) (before, after, e) = elim (Bool-cases (p s)) [
    | inr miss ↦
        let (there, hit) = select-IsRow p r rows (before, after, (rw miss at e)) in
        (IsRow-later r s rows there, hit)
    | inl hit ↦ go before (rw hit at e) hit λ before e. select-IsRow p r rows (before, after, e)
  ]
    where
      go :
          (before : List R)
          → s ∷ select p rows ≡ before ++ r ∷ after
          → p s ≡ true
          → ((before : List R) → select p rows ≡ before ++ r ∷ after → IsRow r rows × (p r ≡ true))
          → IsRow r (s ∷ rows) × (p r ≡ true)
      go [] e hit rest = (([], rows, cc), cc)
      go (b ∷ before) e hit rest =
          let (there, own) = rest before cc in (IsRow-later r s rows there, own)

module _ {ℓ κ} {R : Type ℓ} (P : R → Type κ) where
  -- What holds of every row.
  abbrev pub All : List R → Type κ
  All [] = Unit
  All (r ∷ rs) = P r × All rs

  pub All-insert : (r : R) (rs : List R) → P r → All rs → All (insert r rs)
  unfolding insert
  All-insert r [] p h = (p, tt)
  All-insert r (s ∷ rs) p h = (h.0, All-insert r rs p h.1)

  pub All-delete : (q : R → Bool) (rs : List R) → All rs → All (delete q rs)
  unfolding delete
  All-delete q [] h = tt
  All-delete q (r ∷ rs) h = ground (arith, All-delete q rs h.1)

  pub All-update :
      (q : R → Bool) (f : R → R) (rs : List R)
      → ((r : R) → P r → q r ≡ true → P (f r))
      → All rs
      → All (update q f rs)
  unfolding update
  All-update q f [] keep h = tt
  All-update q f (r ∷ rs) keep h = (ground (arith, keep r h.0), All-update q f rs keep h.1)

  pub All-find :
      (q : R → Bool) (rs : List R) {r : R} → All rs → find q rs ≡ some r → P r × (q r ≡ true)
  unfolding find
  All-find q [] h e = cc
  All-find q (s ∷ rs) {r} h e = elim (Bool-cases (q s)) [
    | inl hit ↦ ground (arith, h.0)
    | inr miss ↦ All-find q rs h.1 (ground arith)
  ]

module _ {ℓ} {R : Type ℓ} (p : R → Bool) where
  -- What is found is what was looked for.
  pub find-true : (rs : List R) {r : R} → find p rs ≡ some r → p r ≡ true
  unfolding find
  find-true [] e = cc
  find-true (s ∷ rs) {r} e = elim (Bool-cases (p s)) [
    | inl hit ↦ ground arith
    | inr miss ↦ find-true rs (ground arith)
  ]

  pub find-insert :
      (r : R) (rs : List R)
      → find p (insert r rs)
        ≡ elim (find p rs) [ none ↦ if p r then some r else none | some s ↦ some s ]
  unfolding find insert
  find-insert r [] = refl
  find-insert r (s ∷ rs) = ground (arith, find-insert r rs)

  -- A row is found once it is added, and every row that was found still is.
  pub is_set-insert :
      (r : R) (rs : List R)
      → (is_set (find p rs) ≡ true) ⊎ (p r ≡ true)
      → is_set (find p (insert r rs)) ≡ true
  unfolding find insert
  is_set-insert r [] (inl h) = absurd cc
  is_set-insert r [] (inr h) = rw h refl
  is_set-insert r (s ∷ rs) (inl h) = elim (Bool-cases (p s)) [
    | inl hit ↦ rw hit refl
    | inr miss ↦ rw miss (is_set-insert r rs (inl (ground arith)))
  ]
  is_set-insert r (s ∷ rs) (inr h) = elim (Bool-cases (p s)) [
    | inl hit ↦ rw hit refl
    | inr miss ↦ rw miss (is_set-insert r rs (inr h))
  ]

  -- An update that keeps what it looks for.
  pub find-update :
      (f : R → R) (rs : List R)
      → ((r : R) → p (f r) ≡ p r)
      → find p (update p f rs) ≡ elim (find p rs) [ none ↦ none | some r ↦ some (f r) ]
  unfolding find update
  find-update f [] keep = refl
  find-update f (r ∷ rs) keep = ground (arith, keep r, find-update f rs keep)

  -- An update after which what was looked for still is.
  pub find-update_hit :
      (f : R → R) (rs : List R)
      → ((r : R) → p r ≡ true → p (f r) ≡ true)
      → find p (update p f rs) ≡ elim (find p rs) [ none ↦ none | some r ↦ some (f r) ]
  unfolding find update
  find-update_hit f [] keep = refl
  find-update_hit f (r ∷ rs) keep = ground (arith, keep r, find-update_hit f rs keep)

  -- An update of other rows than those looked for, which keeps what it looks for.
  pub find-update_any :
      (q : R → Bool) (f : R → R) (rs : List R)
      → ((r : R) → p (f r) ≡ p r)
      → find p (update q f rs)
        ≡ elim (find p rs) [ none ↦ none | some r ↦ some (if q r then f r else r) ]
  unfolding find update
  find-update_any q f [] keep = refl
  find-update_any q f (r ∷ rs) keep = ground (arith, keep r, find-update_any q f rs keep)

  -- An update of rows that are not looked for, before or after.
  pub find-update_other :
      (q : R → Bool) (f : R → R) (rs : List R)
      → ((r : R) → q r ≡ true → (p r ≡ false) × (p (f r) ≡ false))
      → find p (update q f rs) ≡ find p rs
  unfolding find update
  find-update_other q f [] other = refl
  find-update_other q f (r ∷ rs) other = elim (Bool-cases (q r)) [
    | inl hit ↦ rw (hit, (other r hit).0, (other r hit).1) (find-update_other q f rs other)
    | inr miss ↦ rw miss (ground (arith, find-update_other q f rs other))
  ]

  -- An update of rows that there are none of.
  pub update-none : (f : R → R) (rs : List R) → count p rs ≡ 0 → update p f rs ≡ rs
  unfolding update count
  update-none f [] e = refl
  update-none f (r ∷ rs) e = elim (Bool-cases (p r)) [
    | inl hit ↦ absurd (ground arith)
    | inr miss ↦ rw (miss, update-none f rs (ground arith)) refl
  ]

  -- A deletion of rows that are not looked for.
  pub find-delete :
      (q : R → Bool) (rs : List R)
      → ((r : R) → p r ≡ true → q r ≡ false)
      → find p (delete q rs) ≡ find p rs
  unfolding find delete
  find-delete q [] keep = refl
  find-delete q (r ∷ rs) keep = ground (arith, keep r, find-delete q rs keep)

-- ===== src/Tx/Scope.antt =====
-- A flow's transaction is one scope's.
use marketplace.Base.{
  ℕ, ◌≡◌, ◌≢◌, refl, ◌⊎◌, inl, inr, Bool, true, false, not, arith, ◌==◌, if◌then◌else◌, Bool-cases,
  Outcome, ok, err, ap, sym, ◌∙◌,
}
use marketplace.Store.{Db}
use marketplace.Tx.{Tx, Visit, World, Error, visit_scope, marketplace_missing, commit, within}

-- The world with one scope's tables replaced.
abbrev pub put : World → ℕ → Db → World
put w scope db = record w { scopes = λ s. if s == scope then db else w.scopes s }

pub put-same : (w : World) (scope : ℕ) (db : Db) → (put w scope db).scopes scope ≡ db
put-same w scope db = ground arith

-- A visit that may open a transaction: the platform's names no marketplace, any other names one.
abbrev pub is_allowed : Visit → Bool
is_allowed v = if v.platform then v.marketplace == 0 else not (v.marketplace == 0)

within_allowed :
    {A : Type 0} (v : Visit) (f : Tx A) (w : World)
    → is_allowed v ≡ true
    → within v f w ≡ commit v.marketplace w (f (w.scopes v.marketplace))
unfolding within
within_allowed v f w h = elim (Bool-cases v.platform) [
  | inl platform ↦ let e : v.marketplace ≡ 0 = ground arith in rw (platform, e)
  | inr tenant ↦ let e : (v.marketplace == 0) ≡ false = ground arith in rw (tenant, e)
]

within_refused :
    {A : Type 0} (v : Visit) (f : Tx A) (w : World)
    → is_allowed v ≡ false
    → (e : Error) × (within v f w ≡ (err e, w))
unfolding within
within_refused v f w h = (if v.platform then visit_scope else marketplace_missing, ground arith)

-- Either the flow fails and the world is as it was, or its transaction committed in the visit's scope.
pub within-cases :
    {A : Type 0} (v : Visit) (f : Tx A) (w : World)
    → ((e : Error) × (within v f w ≡ (err e, w)))
      ⊎ ((a : A) × (db : Db) × (f (w.scopes v.marketplace) ≡ ok (a, db))
          × (within v f w ≡ (ok a, put w v.marketplace db)))
unfolding commit
within-cases {A} v f w = elim (Bool-cases (is_allowed v)) [
  | inr refused ↦ inl (within_refused v f w refused)
  | inl allowed ↦ go (f (w.scopes v.marketplace)) refl (within_allowed v f w allowed)
]
  where
    go :
        (r : Outcome Error (A × Db))
        → f (w.scopes v.marketplace) ≡ r
        → within v f w ≡ commit v.marketplace w (f (w.scopes v.marketplace))
        → ((e : Error) × (within v f w ≡ (err e, w)))
          ⊎ ((a : A) × (db : Db) × (f (w.scopes v.marketplace) ≡ ok (a, db))
              × (within v f w ≡ (ok a, put w v.marketplace db)))
    go (ok (a, db)) e k = inr (a, db, e, k ∙ ap (commit v.marketplace w) e)
    go (err x) e k = inl (x, k ∙ ap (commit v.marketplace w) e)

-- Whether there is a result.
abbrev pub is_result : {A : Type 0} → Outcome Error A → Bool
is_result (ok _) = true
is_result (err _) = false

-- Two transactions of which each goes on where the other does.
pub within-result :
    {A B : Type 0} (v : Visit) (f : Tx A) (g : Tx B) (w : World)
    → ((db : Db) → is_result (f db) ≡ true → is_result (g db) ≡ true)
    → ((db : Db) → is_result (g db) ≡ true → is_result (f db) ≡ true)
    → is_result (within v f w).0 ≡ is_result (within v g w).0
unfolding commit
within-result {A} {B} v f g w there back = elim (Bool-cases (is_allowed v)) [
  | inr refused ↦
      let (e, stopped) = within_refused v f w refused in
      let (e', stopped') = within_refused v g w refused in rw (stopped, stopped') refl
  | inl allowed ↦
      let db = w.scopes v.marketplace in
      rw (within_allowed v f w allowed, within_allowed v g w allowed)
        (go (f db) (g db) (there db) (back db))
]
  where
    go :
        (r : Outcome Error (A × Db)) (r' : Outcome Error (B × Db))
        → (is_result r ≡ true → is_result r' ≡ true)
        → (is_result r' ≡ true → is_result r ≡ true)
        → is_result (commit v.marketplace w r).0 ≡ is_result (commit v.marketplace w r').0
    go (ok a) (ok b) there back = refl
    go (err e) (err e') there back = refl
    go (ok a) (err e) there back = let h = there refl in cc
    go (err e) (ok b) there back = let h = back refl in cc

-- A flow that always fails where an earlier one of the visit committed.
pub within_after :
    {A B : Type 0} (v : Visit) (f : Tx A) (g : Tx B) (w : World) (a : A) (e : Error)
    → (within v f w).0 ≡ ok a
    → ((db db' : Db) (a : A) → f db ≡ ok (a, db') → g db' ≡ err e)
    → (within v g (within v f w).1).0 ≡ err e
unfolding commit
within_after v f g w a e h fails = elim (within-cases v f w) [
  | inl (x, failed) ↦ let k : err x ≡ ok a = (ap (λ r. r.0) (sym failed) ∙ h) in cc k
  | inr (a', db, ran, kept) ↦ elim (Bool-cases (is_allowed v)) [
    | inl allowed ↦
        let w' = put w v.marketplace db in
        let there = put-same w v.marketplace db in
        let out = within_allowed v g w' allowed in
        rw kept (rw (out, there, fails (w.scopes v.marketplace) db a' ran))
    | inr refused ↦
        let (x, stopped) = within_refused v f w refused in
        let k : err x ≡ ok a = (ap (λ r. r.0) (sym stopped) ∙ h) in cc k
  ]
]

-- A flow's transaction changes no table of a scope other than the visit's.
pub within_others :
    {A : Type 0} (v : Visit) (f : Tx A) (w : World) (scope : ℕ)
    → scope ≢ v.marketplace
    → (within v f w).1.scopes scope ≡ w.scopes scope
within_others v f w scope other = elim (within-cases v f w) [
  | inl (e, failed) ↦ rw failed
  | inr (a, db, ran, kept) ↦ rw kept (ground arith)
]

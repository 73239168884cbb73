-- ===== src/Tx/After.antt =====
-- What holds of the tables after a transaction, where it commits.
use marketplace.Base.{◌≡◌, subst, Outcome, ok, err}
use marketplace.Store.{Db}
use marketplace.Tx.{Error, Tx, ◌>>=◌}

module _ {A : Type 0} where
  -- A predicate of what a transaction returns and leaves, where it does not fail.
  abbrev pub After : (A → Db → Type 0) → Outcome Error (A × Db) → Type 0
  After P (ok (a, db)) = P a db
  After P (err e) = Unit {0}

  pub After-map :
      (P Q : A → Db → Type 0) (r : Outcome Error (A × Db))
      → After P r
      → ((a : A) (db : Db) → P a db → Q a db)
      → After Q r
  After-map P Q (ok (a, db)) h step = step a db h
  After-map P Q (err e) h step = tt

  pub After-ok :
      (P : A → Db → Type 0) (r : Outcome Error (A × Db)) {a : A} {db : Db}
      → After P r
      → r ≡ ok (a, db)
      → P a db
  After-ok P r h e = subst (After P) e h

pub After-bind :
    {A B : Type 0} (P : A → Db → Type 0) (Q : B → Db → Type 0) (m : Tx A) (f : A → Tx B) (db : Db)
    → After P (m db)
    → ((a : A) (mid : Db) → P a mid → After Q (f a mid))
    → After Q ((m >>= f) db)
After-bind {A} {B} P Q m f db h next = go (m db) h
  where
    go :
        (r : Outcome Error (A × Db))
        → After P r
        → After Q (elim r [ ok (a, mid) ↦ f a mid | err e ↦ err e ])
    go (ok (a, mid)) h = next a mid h
    go (err x) h = tt

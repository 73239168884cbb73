-- ===== src/Tx/Flows.antt =====
-- What holds of the world after a flow that is one transaction: nothing changes where it fails.
use marketplace.Base.{◌≡◌, refl, Outcome, ok, err, inl, inr}
use marketplace.Tx.{Error, Tx, Visit, World, within}
use marketplace.Tx.Scope.{put, within-cases}
use marketplace.Tx.After.{After, After-ok}

-- A predicate of what a flow returns and leaves; where it fails the world is as it was.
abbrev pub Ends : {A : Type 0} → (A → World → Type 0) → World → Outcome Error A × World → Type 0
Ends P w (ok a, w') = P a w'
Ends P w (err e, w') = w' ≡ w

pub Ends-map :
    {A : Type 0} (P Q : A → World → Type 0) (w : World) (out : Outcome Error A × World)
    → Ends P w out
    → ((a : A) (w' : World) → P a w' → Q a w')
    → Ends Q w out
Ends-map P Q w (ok a, w') h step = step a w' h
Ends-map P Q w (err e, w') h step = h

pub within-Ends :
    {A : Type 0} (P : A → World → Type 0) (v : Visit) (f : Tx A) (w : World)
    → After (λ a db. P a (put w v.marketplace db)) (f (w.scopes v.marketplace))
    → Ends P w (within v f w)
within-Ends P v f w h = elim (within-cases v f w) [
  | inl (e, failed) ↦ rw failed refl
  | inr (a, db, ran, kept) ↦
      rw kept (After-ok (λ a db. P a (put w v.marketplace db)) (f (w.scopes v.marketplace)) h ran)
]

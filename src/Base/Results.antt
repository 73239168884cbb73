-- ===== src/Base/Results.antt =====
-- What a fallible flow returns, generic in the error.

pub data Outcome {ℓ κ} (E : Type ℓ) (A : Type κ) : Type (ℓ ⊔ κ) where
  ok : A → Outcome E A
  err : E → Outcome E A

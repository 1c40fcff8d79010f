-- ===== src/Base/Results.antt =====
-- A call that returns a value or throws.
pub data Outcome {ℓ κ} (E : Type ℓ) (A : Type κ) : Type (ℓ ⊔ κ) where
  ok : A → Outcome E A
  thrown : E → Outcome E A

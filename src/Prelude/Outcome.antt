-- ===== src/Prelude/Outcome.antt =====
-- How a Python call ends: it returns a value, or an exception leaves it. Where the call can change
-- state before it raises, the state stands beside the outcome.
pub data Outcome {ℓ} (A : Type ℓ) : Type ℓ where
  returned : A → Outcome A
  raised : Outcome A

-- ===== src/Base/Outcome.antt =====
-- The outcome of a promise: what it resolves to, or the message of the error that it is rejected
-- with.
use Prim.Native.String.{String}

pub data Outcome {ℓ} (A : Type ℓ) : Type ℓ where
  resolved : A → Outcome A
  thrown : String → Outcome A

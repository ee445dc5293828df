-- ===== src/Prelude/Results.antt =====
-- The two results of a Go function that returns a value and an error: `err` holds the error's text.
use Prim.Native.String.{String}

pub data Result {ℓ} (A : Type ℓ) : Type ℓ where
  ok : A → Result A
  err : String → Result A

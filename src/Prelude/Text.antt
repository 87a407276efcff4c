-- ===== src/Prelude/Text.antt =====
-- The slice `s[:n]` of a text, by characters.
use Prim.Native.Nat.{ℕ, zero, suc}
use Prim.Native.String.{String}

unfoldable pub clip : ℕ → String → String
clip zero s = String.[]
clip (suc n) String.[] = String.[]
clip (suc n) (String.◌∷◌ c s) = String.◌∷◌ c (clip n s)

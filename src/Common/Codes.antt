-- ===== src/Common/Codes.antt =====
-- The bytes of an ASCII text.
use Prim.Native.Nat.{ℕ}
use Prim.Native.String.{String}
use Prim.Native.Char.{code}
use mathlib.Core.List.{List, [], ◌∷◌}

abbrev pub codes : String → List ℕ
codes String.[] = []
codes (String.◌∷◌ c s) = code c ∷ codes s

-- ===== src/Base/Text.antt =====
-- The bytes of an ASCII literal. `String` has its own `[]` and `∷`.
use Prim.Native.Char.{code}
use Prim.Native.String.{String}
use mathlib.Core.List.{[], ◌∷◌}
use libspaznet.Base.Lists.{Bytes}

abbrev pub text : String → Bytes
text String.[] = []
text (String.◌∷◌ c s) = code c ∷ text s

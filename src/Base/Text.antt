-- ===== src/Base/Text.antt =====
-- Texts as the list of their characters' codes, as C has them without the closing NUL.
use Prim.Native.Nat.{ℕ}
use Prim.Native.Char.{code}
use Prim.Native.String.{String}
use mathlib.Core.List.{List}

abbrev pub chars : String → List ℕ
chars String.[] = List.[]
chars (String.◌∷◌ c s) = List.◌∷◌ (code c) (chars s)

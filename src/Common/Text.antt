-- ===== src/Common/Text.antt =====
-- Texts of the sources as lists of characters.
use Prim.Native.Char.{code}
use Prim.Native.String.{String}
use mathlib.Core.List.{List, [], ◌∷◌}
use mathlib.Core.Bool.{Bool, true, false, ◌&&◌}
use Prim.Native.Nat.{ℕ}
use jpgsync.Common.Tests.{◌==◌}

-- The codes of a text.
abbrev pub chars : String → List ℕ
chars String.[] = []
chars (String.◌∷◌ c rest) = code c ∷ chars rest

abbrev pub same : List ℕ → List ℕ → Bool
same [] [] = true
same [] (y ∷ ys) = false
same (x ∷ xs) [] = false
same (x ∷ xs) (y ∷ ys) = (x == y) && same xs ys

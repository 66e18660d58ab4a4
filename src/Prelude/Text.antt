-- ===== src/Prelude/Text.antt =====
-- Texts: a Python f-string is the concatenation of its parts.
use Prim.Native.String
use Prim.Native.String.{String}
use mathlib.Core.Bool.{Bool, false, ◌||◌}
use mathlib.Core.List.{List, [], ◌∷◌}
use text.Mathlib.Text.{◌==◌}

abbrev pub f_string : List String → String
f_string [] = ""
f_string (s ∷ ss) = String.◌++◌ s (f_string ss)

-- `s in {…}`
abbrev pub is_one_of : String → List String → Bool
is_one_of s [] = false
is_one_of s (t ∷ ts) = s == t || is_one_of s ts

-- ===== src/Prelude/Text.antt =====
-- Go's `strings.TrimSpace` and `unicode`. A text is its characters; a Go string that is not UTF-8 is not
-- represented.
use Prim.Native.Nat.{ℕ}
use mathlib.Core.Bool.{Bool, false, ◌&&◌, ◌||◌}
use flow_routine.Prelude.{ltb, leb, ◌==◌, if◌then◌else◌}
use Prim.Native.String.{String, [], ◌∷◌}
use Prim.Native.Char.{Char, code}

-- `unicode.IsSpace`, by the code of the character.
unfoldable pub is_space : ℕ → Bool
is_space c =
    leb 9 c && leb c 13
    || c == 32
    || c == 0x85
    || c == 0xa0
    || c == 0x1680
    || leb 0x2000 c && leb c 0x200a
    || c == 0x2028
    || c == 0x2029
    || c == 0x202f
    || c == 0x205f
    || c == 0x3000

-- `unicode.IsControl`.
unfoldable pub is_control : ℕ → Bool
is_control c = ltb c 32 || leb 0x7f c && leb c 0x9f

-- `strings.TrimSpace`: the spaces before the text, then those after it.
unfoldable pub trim_left : String → String
unfolding is_space
trim_left [] = []
trim_left (c ∷ rest) =
    let shorter = trim_left rest in if is_space (code c) then shorter else c ∷ rest

abbrev pub put : Char → String → String
put c [] = if is_space (code c) then [] else c ∷ []
put c (d ∷ rest) = c ∷ d ∷ rest

unfoldable pub trim_right : String → String
trim_right [] = []
trim_right (c ∷ rest) = put c (trim_right rest)

unfoldable pub trim_space : String → String
unfolding trim_left trim_right
trim_space s = trim_right (trim_left s)

-- `for _, character := range value`.
unfoldable pub any_control : String → Bool
unfolding is_control
any_control [] = false
any_control (c ∷ rest) = is_control (code c) || any_control rest

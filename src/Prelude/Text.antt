-- ===== src/Prelude/Text.antt =====
-- What Python's `str` methods say of a text.
use Prim.Native.Nat.{ℕ}
use Prim.Native.Char.{code}
use Prim.Native.String.{String}
use mathlib.Core.Bool.{Bool, true, false, ◌&&◌, ◌||◌}
use contractplane.Prelude.Tests.{leb, same_number}

-- The characters that `str.strip` removes: those with `str.isspace`.
unfoldable pub is_space : ℕ → Bool
is_space c =
    (leb 9 c && leb c 13)
    || (leb 28 c && leb c 32)
    || same_number c 0x85
    || same_number c 0xa0
    || same_number c 0x1680
    || (leb 0x2000 c && leb c 0x200a)
    || same_number c 0x2028
    || same_number c 0x2029
    || same_number c 0x202f
    || same_number c 0x205f
    || same_number c 0x3000

-- `not text.strip()`
unfoldable pub is_blank : String → Bool
unfolding is_space
is_blank String.[] = true
is_blank (String.◌∷◌ c s) = is_space (code c) && is_blank s

-- `any(char in text for char in "\x00\r\n")`
unfoldable pub has_control : String → Bool
has_control String.[] = false
has_control (String.◌∷◌ c s) =
    same_number (code c) 0 || same_number (code c) 13 || same_number (code c) 10 || has_control s

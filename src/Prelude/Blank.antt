-- ===== src/Prelude/Blank.antt =====
-- Blank texts: those that `strings.TrimSpace` leaves empty.
use Prim.Native.Nat.{ℕ}
use Prim.Native.Char.{code}
use Prim.Native.String.{String}
use mathlib.Core.Bool.{Bool, true, ◌&&◌, ◌||◌}
use modelserver.Prelude.Tests.{leb, ◌==◌}

abbrev between : ℕ → ℕ → ℕ → Bool
between lo hi n = leb lo n && leb n hi

-- `unicode.IsSpace`
abbrev is_space : ℕ → Bool
is_space n =
    between 9 13 n
    || (n == 32)
    || (n == 133)
    || (n == 160)
    || (n == 5760)
    || between 8192 8202 n
    || (n == 8232)
    || (n == 8233)
    || (n == 8239)
    || (n == 8287)
    || (n == 12288)

-- `strings.TrimSpace(s) == ""`
unfoldable pub is_blank : String → Bool
is_blank String.[] = true
is_blank (String.◌∷◌ c s) = is_space (code c) && is_blank s

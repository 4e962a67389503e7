-- ===== src/Prelude/Strip.antt =====
-- Python's `str.strip` and the comparison of `str.upper` with ASCII letters, on code points.
use Prim.Native.Nat.{ℕ, ◌-◌}
use mathlib.Core.Bool.{Bool, ◌&&◌, ◌||◌}
use mathlib.Core.List.{List, [], ◌∷◌, reverse, map}
use dfsha_telematica.Prelude.Tests.{leb, if◌then◌else◌}
use dfsha_telematica.Prelude.Equality.{◌==◌, nat_eq}

abbrev pub between : ℕ → ℕ → ℕ → Bool
between low high c = leb low c && leb c high

-- `str.isspace` of one code point.
unfoldable pub is_space : ℕ → Bool
is_space c =
    between 9 13 c
    || between 28 32 c
    || c == 133
    || c == 160
    || c == 5760
    || between 8192 8202 c
    || between 8232 8233 c
    || c == 8239
    || c == 8287
    || c == 12288

unfoldable pub strip_left : List ℕ → List ℕ
unfolding is_space
strip_left [] = []
strip_left (c ∷ cs) = let rest = strip_left cs in if is_space c then rest else c ∷ cs

unfoldable pub strip : List ℕ → List ℕ
unfolding strip_left
strip cs = reverse (strip_left (reverse (strip_left cs)))

-- Besides a to z, the dotless i (U+0131) becomes an ASCII letter.
abbrev pub upper_code : ℕ → ℕ
upper_code c = if between 97 122 c then c - 32 else if c == 305 then 73 else c

-- Right about which texts become one of ASCII letters.
unfoldable pub upper : List ℕ → List ℕ
upper cs = map upper_code cs

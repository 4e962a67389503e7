-- ===== src/Prelude/TextOrder.antt =====
-- Python's order of texts: by code point, a prefix first.
use Prim.Native.Nat.{ℕ, Ordering, compare as compare_nat}
use Prim.Native.Char.{code}
use Prim.Native.String.compare
use Prim.Native.String.{String, [], ◌∷◌, then, compare}
use mathlib.Core.Path.{◌≡◌, refl}
use mathlib.Core.Bool.{Bool, true, false}
use native.Mathlib.Omega.{arith}
use text.Mathlib.Text.{is_le}

abbrev pub str_leb : String → String → Bool
str_leb s t = is_le (compare s t)

then_total :
    (m n : ℕ) (x y : Ordering)
    → (is_le x ≡ false → is_le y ≡ true)
    → is_le (then (compare_nat m n) x) ≡ false
    → is_le (then (compare_nat n m) y) ≡ true
then_total m n x y f h = ground arith

then_trans :
    (l m n : ℕ) (x y z : Ordering)
    → (is_le x ≡ true → is_le y ≡ true → is_le z ≡ true)
    → is_le (then (compare_nat l m) x) ≡ true
    → is_le (then (compare_nat m n) y) ≡ true
    → is_le (then (compare_nat l n) z) ≡ true
then_trans l m n x y z f h k = ground arith

pub str_leb_total : (s t : String) → str_leb s t ≡ false → str_leb t s ≡ true
str_leb_total [] [] h = refl
str_leb_total [] (d ∷ t) h = absurd (cc (compare.nil-cons d t))
str_leb_total (c ∷ s) [] h = rw (compare.nil-cons c s) refl
str_leb_total (c ∷ s) (d ∷ t) h = rw (compare.cons-cons d c t s) (
    then_total (code c) (code d) (compare s t) (compare t s) (str_leb_total s t)
      (rw (compare.cons-cons c d s t) at h))

pub str_leb_trans : (s t u : String) → str_leb s t ≡ true → str_leb t u ≡ true → str_leb s u ≡ true
str_leb_trans [] t [] h k = refl
str_leb_trans [] t (e ∷ u) h k = rw (compare.nil-cons e u) refl
str_leb_trans (c ∷ s) [] u h k = absurd (cc (compare.cons-nil c s))
str_leb_trans (c ∷ s) (d ∷ t) [] h k = absurd (cc (compare.cons-nil d t))
str_leb_trans (c ∷ s) (d ∷ t) (e ∷ u) h k = rw (compare.cons-cons c e s u) (
    then_trans (code c) (code d) (code e) (compare s t) (compare t u) (compare s u)
      (str_leb_trans s t u) (rw (compare.cons-cons c d s t) at h)
      (rw (compare.cons-cons d e t u) at k))

-- ===== src/Prelude/TextOrder.antt =====
-- The order of texts by code points, which is SQLite's BINARY order of UTF-8 text.
use Prim.Native.Nat.{compare, Ordering}
use Prim.Native.Char.{code}
use Prim.Native.String.{String, [], ◌∷◌}
use mathlib.Core.Path.{◌≡◌, refl, ap₂}
use mathlib.Core.Bool.{Bool, true, false}
use native.Mathlib.Omega.{arith}
use text.Mathlib.TextEquality.{Char-path}

-- Three-way comparison.
abbrev pub then_by : Ordering → Ordering → Ordering
then_by Ordering.eq o = o
then_by Ordering.lt _ = Ordering.lt
then_by Ordering.gt _ = Ordering.gt

unfoldable pub text_compare : String → String → Ordering
text_compare [] [] = Ordering.eq
text_compare [] (d ∷ t) = Ordering.lt
text_compare (c ∷ s) [] = Ordering.gt
text_compare (c ∷ s) (d ∷ t) = then_by (compare (code c) (code d)) (text_compare s t)

pub text_compare_refl : (s : String) → text_compare s s ≡ Ordering.eq
unfolding text_compare
text_compare_refl [] = refl
text_compare_refl (c ∷ s) = ground (arith, text_compare_refl s)

pub text_compare-eq : (s t : String) → text_compare s t ≡ Ordering.eq → s ≡ t
unfolding text_compare
text_compare-eq [] [] h = refl
text_compare-eq [] (d ∷ t) h = cc
text_compare-eq (c ∷ s) [] h = cc
text_compare-eq (c ∷ s) (d ∷ t) h =
    ap₂ (λ x y. x ∷ y) (Char-path c d (ground arith)) (text_compare-eq s t (ground arith))

abbrev flip : Ordering → Ordering
flip Ordering.lt = Ordering.gt
flip Ordering.eq = Ordering.eq
flip Ordering.gt = Ordering.lt

abbrev pub is_lt : Ordering → Bool
is_lt Ordering.lt = true
is_lt Ordering.eq = false
is_lt Ordering.gt = false

text_compare-flip : (s t : String) → text_compare t s ≡ flip (text_compare s t)
unfolding text_compare
text_compare-flip [] [] = refl
text_compare-flip [] (d ∷ t) = refl
text_compare-flip (c ∷ s) [] = refl
text_compare-flip (c ∷ s) (d ∷ t) = ground (arith, text_compare-flip s t)

text_compare_trans :
    (s t u : String)
    → text_compare s t ≡ Ordering.lt
    → text_compare t u ≡ Ordering.lt
    → text_compare s u ≡ Ordering.lt
unfolding text_compare
text_compare_trans [] (d ∷ t) (e ∷ u) h k = refl
text_compare_trans (c ∷ s) (d ∷ t) (e ∷ u) h k = ground (arith, text_compare_trans s t u)
text_compare_trans [] [] u h k = cc
text_compare_trans [] (d ∷ t) [] h k = cc
text_compare_trans (c ∷ s) [] u h k = cc
text_compare_trans (c ∷ s) (d ∷ t) [] h k = cc

unfoldable pub text_ltb : String → String → Bool
text_ltb s t = is_lt (text_compare s t)

-- A sort key of two columns, `(a, b) < (c, d)` as SQL compares row values.
abbrev pub Key : Type 0
Key = String × String

unfoldable pub key_compare : Key → Key → Ordering
key_compare (a, b) (c, d) = then_by (text_compare a c) (text_compare b d)

unfoldable pub key_ltb : Key → Key → Bool
unfolding key_compare text_compare
key_ltb k l = is_lt (key_compare k l)

pub key_ltb_irrefl : (k : Key) → key_ltb k k ≡ false
unfolding key_ltb
key_ltb_irrefl (a, b) = ground (arith, text_compare_refl a, text_compare_refl b)

pub key_ltb_trans : (k l m : Key) → key_ltb k l ≡ true → key_ltb l m ≡ true → key_ltb k m ≡ true
unfolding key_ltb
key_ltb_trans (a, b) (c, d) (e, f) h k = ground (
  arith,
  text_compare_trans a c e,
  text_compare_trans b d f,
  text_compare-eq a c,
  text_compare-eq c e,
  text_compare_refl a,
)

-- Two keys that are not ordered either way are equal.
pub key_total : (k l : Key) → key_ltb k l ≡ false → key_ltb l k ≡ false → k ≡ l
unfolding key_ltb
key_total (a, b) (c, d) h k =
    ground (
      arith,
      text_compare-flip a c,
      text_compare-flip b d,
      text_compare-eq a c,
      text_compare-eq b d,
    )

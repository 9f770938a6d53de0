-- ===== src/Prelude/Takes.antt =====
-- Laws of `take`, `drop` and the last element.
use Prim.Native.Nat.{ℕ, zero, suc, ◌-◌, ◌≤◌, ◌<◌, min}
use mathlib.Core.Path.{◌≡◌, refl, ap, sym, ◌∙◌}
use mathlib.Core.Logic.{inl, inr}
use mathlib.Core.Option.{some}
use mathlib.Core.List.{List, [], ◌∷◌, ◌++◌}
use native.Mathlib.Omega.{arith}
use slasettle_hub.Prelude.Tests.{ltb, if◌then◌else◌, Bool-cases}
use slasettle_hub.Prelude.Lists.{length, take, drop, last?}

module _ {A : Type 0} where
  pub length-take : (n : ℕ) (xs : List A) → length (take n xs) ≡ min n (length xs)
  length-take zero xs = omega arith
  length-take (suc n) [] = omega arith
  length-take (suc n) (x ∷ xs) = omega (arith, length-take n xs)

  pub length-drop : (n : ℕ) (xs : List A) → length (drop n xs) ≡ length xs - n
  length-drop zero xs = omega arith
  length-drop (suc n) [] = omega arith
  length-drop (suc n) (x ∷ xs) = omega (arith, length-drop n xs)

  pub take-append-drop : (n : ℕ) (xs : List A) → take n xs ++ drop n xs ≡ xs
  take-append-drop zero xs = refl
  take-append-drop (suc n) [] = refl
  take-append-drop (suc n) (x ∷ xs) = ap (λ ys. x ∷ ys) (take-append-drop n xs)

  pub take_all : (n : ℕ) (xs : List A) → length xs ≤ n → take n xs ≡ xs
  take_all zero [] h = refl
  take_all zero (x ∷ xs) h = absurd (omega arith)
  take_all (suc n) [] h = refl
  take_all (suc n) (x ∷ xs) h = ap (λ ys. x ∷ ys) (take_all n xs (omega arith))

  pub take-take-suc : (n : ℕ) (xs : List A) → take n (take (suc n) xs) ≡ take n xs
  take-take-suc zero xs = refl
  take-take-suc (suc n) [] = refl
  take-take-suc (suc n) (x ∷ xs) = ap (λ ys. x ∷ ys) (take-take-suc n xs)

  pub ltb-length-take : (n : ℕ) (xs : List A) → ltb n (length (take (suc n) xs)) ≡ ltb n (length xs)
  ltb-length-take n xs = ground (arith, length-take (suc n) xs)

  -- One row more than a page tells whether there is a next page, and is cut off again.
  pub cut_page :
      (n : ℕ) (xs : List A)
      → (if ltb n (length (take (suc n) xs)) then take n (take (suc n) xs) else take (suc n) xs)
        ≡ take n xs
  cut_page n xs = elim (Bool-cases (ltb n (length xs))) [
    | inl more ↦ rw (ltb-length-take n xs ∙ more) (take-take-suc n xs)
    | inr end ↦
        rw (ltb-length-take n xs ∙ end)
          (take_all (suc n) xs (ground arith) ∙ sym (take_all n xs (ground arith)))
  ]

  -- A page that is not empty has a last row.
  pub last?-take :
      (n : ℕ) (xs : List A) → 0 < n → 0 < length xs → (x : A) × (last? (take n xs) ≡ some x)
  last?-take zero xs pos h = absurd (omega arith)
  last?-take (suc n) [] pos h = absurd (omega arith)
  last?-take (suc zero) (x ∷ xs) pos h = (x, refl)
  last?-take (suc (suc n)) (x ∷ []) pos h = (x, refl)
  last?-take (suc (suc n)) (x ∷ y ∷ xs) pos h =
      last?-take (suc n) (y ∷ xs) (omega arith) (omega arith)

  pub nil_of_short : (xs : List A) → length xs ≤ 0 → xs ≡ []
  nil_of_short [] h = refl
  nil_of_short (x ∷ xs) h = absurd (omega arith)

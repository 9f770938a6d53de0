-- ===== src/Indexer/Ingest/Segments.antt =====
-- Consecutive pieces of a list.
use slasettle_hub.Prelude.{
  ℕ, zero, suc, ◌+◌, List, [], ◌∷◌, ◌++◌, ◌≡◌, refl, sym, ap, ◌∙◌, take, drop, arith,
}

suc_add : (m n : ℕ) → suc m + n ≡ suc (m + n)
suc_add m n = omega arith

module _ {A : Type 0} where
  drop-nil : (n : ℕ) → drop {A = A} n [] ≡ []
  drop-nil zero = refl
  drop-nil (suc n) = refl

  take-nil : (n : ℕ) → take {A = A} n [] ≡ []
  take-nil zero = refl
  take-nil (suc n) = refl

  drop-drop : (m n : ℕ) (xs : List A) → drop n (drop m xs) ≡ drop (m + n) xs
  drop-drop zero n xs = ap (λ k. drop k xs) (omega arith)
  drop-drop (suc m) n [] = rw (drop-nil n, suc_add m n) refl
  drop-drop (suc m) n (x ∷ xs) = rw (suc_add m n) (drop-drop m n xs)

  take-append-take : (m n : ℕ) (xs : List A) → take m xs ++ take n (drop m xs) ≡ take (m + n) xs
  take-append-take zero n xs = ap (λ k. take k xs) (omega arith)
  take-append-take (suc m) n [] = rw (take-nil n, suc_add m n) refl
  take-append-take (suc m) n (x ∷ xs) =
      rw (suc_add m n) (ap (λ ys. x ∷ ys) (take-append-take m n xs))

  -- A piece and the piece behind it are one piece.
  pub segment-append :
      (f m n : ℕ) (xs : List A)
      → take m (drop f xs) ++ take n (drop (f + m) xs) ≡ take (m + n) (drop f xs)
  segment-append f m n xs =
      ap (λ ys. take m (drop f xs) ++ take n ys) (sym (drop-drop f m xs))
      ∙ take-append-take m n (drop f xs)

-- ===== src/Indexer/Sql/Sorted.antt =====
-- `ORDER BY key DESC` over rows with distinct keys: the result is strictly descending, and the rows
-- below the last row of a page are those that follow the page.
use slasettle_hub.Prelude.{
  ℕ, zero, suc, List, [], ◌∷◌, Bool, true, false, ◌&&◌, ◌||◌, any, some, ◌≡◌, ◌≢◌, refl, sym, ◌∙◌,
  if◌then◌else◌, arith, All, take, drop, last?, keep_if, Bool-cases, inl, inr,
}
use mathlib.Core.Path.{subst}
use slasettle_hub.Prelude.TextOrder.{Key, key_ltb, key_ltb_irrefl, key_ltb_trans, key_total}
use slasettle_hub.Indexer.Sql.{insert_sorted, order_by}

module _ {A : Type 0} where
  pub keep_if-keep_if :
      (p q : A → Bool) (xs : List A) → keep_if (λ x. p x && q x) xs ≡ keep_if q (keep_if p xs)
  keep_if-keep_if p q [] = refl
  keep_if-keep_if p q (x ∷ xs) = ground (arith, keep_if-keep_if p q xs)

  pub keep_if_of_implied :
      (p q : A → Bool) (xs : List A)
      → ((x : A) → q x ≡ true → p x ≡ true)
      → keep_if q (keep_if p xs) ≡ keep_if q xs
  keep_if_of_implied p q [] h = refl
  keep_if_of_implied p q (x ∷ xs) h = ground (arith, h x, keep_if_of_implied p q xs h)

  keep_if-All : (p : A → Bool) (xs : List A) → All (λ x. p x ≡ true) xs → keep_if p xs ≡ xs
  keep_if-All p [] h = refl
  keep_if-All p (x ∷ xs) (hx, h) = ground (arith, keep_if-All p xs h)

  pub All-keep_if : (P : A → Type 0) (p : A → Bool) (xs : List A) → All P xs → All P (keep_if p xs)
  All-keep_if P p [] h = tt
  All-keep_if P p (x ∷ xs) (hx, h) = elim (Bool-cases (p x)) [
    | inl kept ↦ rw kept (hx, All-keep_if P p xs h)
    | inr gone ↦ rw gone (All-keep_if P p xs h)
  ]

  pub keep_if_holds : (p : A → Bool) (xs : List A) → All (λ x. p x ≡ true) (keep_if p xs)
  keep_if_holds p [] = tt
  keep_if_holds p (x ∷ xs) = elim (Bool-cases (p x)) [
    | inl kept ↦ rw kept (kept, keep_if_holds p xs)
    | inr gone ↦ rw gone (keep_if_holds p xs)
  ]

  pub All-imp : (P Q : A → Type 0) (xs : List A) → ((x : A) → P x → Q x) → All P xs → All Q xs
  All-imp P Q [] f h = tt
  All-imp P Q (x ∷ xs) f (hx, h) = (f x hx, All-imp P Q xs f h)

  some_inj : {x y : A} → some x ≡ some y → x ≡ y
  some_inj e = cc

  -- The last row of a page has what every row has.
  pub All-last? :
      (P : A → Type 0) (n : ℕ) (xs : List A) {x : A} → All P xs → last? (take n xs) ≡ some x → P x
  All-last? P zero xs h e = cc
  All-last? P (suc n) [] h e = cc
  All-last? P (suc zero) (x ∷ xs) (hx, h) e = subst P (some_inj e) hx
  All-last? P (suc (suc n)) (x ∷ []) (hx, h) e = subst P (some_inj e) hx
  All-last? P (suc (suc n)) (x ∷ y ∷ xs) (hx, h) e = All-last? P (suc n) (y ∷ xs) h e

module _ {A : Type 0} (key : A → Key) where
  abbrev pub newer : A → A → Bool
  newer r s = key_ltb (key s) (key r)

  -- Strictly descending keys.
  abbrev pub IsDescending : List A → Type 0
  IsDescending [] = Unit
  IsDescending (x ∷ xs) = All (λ y. key_ltb (key y) (key x) ≡ true) xs × IsDescending xs

  abbrev pub HasDistinctSortKeys : List A → Type 0
  HasDistinctSortKeys [] = Unit
  HasDistinctSortKeys (x ∷ xs) = All (λ y. key y ≢ key x) xs × HasDistinctSortKeys xs

  pub keep_if-IsDescending :
      (p : A → Bool) (xs : List A) → IsDescending xs → IsDescending (keep_if p xs)
  keep_if-IsDescending p [] h = tt
  keep_if-IsDescending p (x ∷ xs) (below, h) = elim (Bool-cases (p x)) [
    | inl kept ↦
        rw kept (
          All-keep_if (λ y. key_ltb (key y) (key x) ≡ true) p xs below,
          keep_if-IsDescending p xs h,
        )
    | inr gone ↦ rw gone (keep_if-IsDescending p xs h)
  ]

  lt_of_not_lt :
      (x y : A) → key_ltb (key x) (key y) ≡ false → key x ≢ key y → key_ltb (key y) (key x) ≡ true
  lt_of_not_lt x y h ne = elim (Bool-cases (key_ltb (key y) (key x))) [
    | inl lt ↦ lt
    | inr not_lt ↦ absurd (ne (key_total (key x) (key y) h not_lt))
  ]

  not_lt_of_lt : (x y : A) → key_ltb (key x) (key y) ≡ true → key_ltb (key y) (key x) ≡ false
  not_lt_of_lt x y h = elim (Bool-cases (key_ltb (key y) (key x))) [
    | inl lt ↦ cc (key_ltb_trans (key x) (key y) (key x) h lt, key_ltb_irrefl (key x))
    | inr not_lt ↦ not_lt
  ]

  All-insert_sorted :
      (P : A → Type 0) (r : A) (xs : List A) → P r → All P xs → All P (insert_sorted newer r xs)
  unfolding insert_sorted
  All-insert_sorted P r [] hr h = (hr, tt)
  All-insert_sorted P r (x ∷ xs) hr (hx, h) = elim (Bool-cases (newer x r)) [
    | inl after ↦ rw after (hx, All-insert_sorted P r xs hr h)
    | inr before ↦ rw before (hr, (hx, h))
  ]

  All-order_by : (P : A → Type 0) (xs : List A) → All P xs → All P (order_by newer xs)
  unfolding order_by
  All-order_by P [] h = tt
  All-order_by P (x ∷ xs) (hx, h) =
      All-insert_sorted P x (order_by newer xs) hx (All-order_by P xs h)

  -- Below a row that stands below `r`.
  below_trans :
      (r x : A) (xs : List A)
      → key_ltb (key x) (key r) ≡ true
      → All (λ y. key_ltb (key y) (key x) ≡ true) xs
      → All (λ y. key_ltb (key y) (key r) ≡ true) xs
  below_trans r x xs h all = All-imp _ _ xs (λ y lt. key_ltb_trans (key y) (key x) (key r) lt h) all

  insert_sorted-IsDescending :
      (r : A) (xs : List A)
      → All (λ y. key y ≢ key r) xs
      → IsDescending xs
      → IsDescending (insert_sorted newer r xs)
  unfolding insert_sorted
  insert_sorted-IsDescending r [] ne h = (tt, tt)
  insert_sorted-IsDescending r (x ∷ xs) (ne, nes) (below, h) = elim (Bool-cases (newer x r)) [
    | inl after ↦ rw after (
      All-insert_sorted (λ y. key_ltb (key y) (key x) ≡ true) r xs after below,
      insert_sorted-IsDescending r xs nes h,
    )
    | inr before ↦
        let lt = lt_of_not_lt r x before (λ e. ne (sym e)) in
        rw before ((lt, below_trans r x xs lt below), (below, h))
  ]

  pub order_by-IsDescending :
      (xs : List A) → HasDistinctSortKeys xs → IsDescending (order_by newer xs)
  unfolding order_by
  order_by-IsDescending [] h = tt
  order_by-IsDescending (x ∷ xs) (ne, h) =
      insert_sorted-IsDescending x (order_by newer xs) (All-order_by (λ y. key y ≢ key x) xs ne)
        (order_by-IsDescending xs h)

  keep_if_none :
      (p : A → Bool) (x : A) (xs : List A) → p x ≡ false → keep_if p (x ∷ xs) ≡ keep_if p xs
  keep_if_none p x xs h = rw h refl

  keep_if_some :
      (p : A → Bool) (x : A) (xs : List A) → p x ≡ true → keep_if p (x ∷ xs) ≡ x ∷ keep_if p xs
  keep_if_some p x xs h = rw h refl

  -- A row newer than all others is inserted in front.
  insert_sorted-head :
      (r : A) (xs : List A)
      → All (λ y. key_ltb (key y) (key r) ≡ true) xs
      → insert_sorted newer r xs ≡ r ∷ xs
  unfolding insert_sorted
  insert_sorted-head r [] h = refl
  insert_sorted-head r (x ∷ xs) (lt, h) = rw (not_lt_of_lt x r lt) refl

  keep_if-insert_sorted :
      (p : A → Bool) (r : A) (xs : List A)
      → All (λ y. key y ≢ key r) xs
      → IsDescending xs
      → keep_if p (insert_sorted newer r xs)
        ≡ (if p r then insert_sorted newer r (keep_if p xs) else keep_if p xs)
  unfolding insert_sorted
  keep_if-insert_sorted p r [] ne h = refl
  keep_if-insert_sorted p r (x ∷ xs) (ne, nes) (below, h) = elim (Bool-cases (newer x r)) [
    | inl after ↦ rw after (ground (arith, after, keep_if-insert_sorted p r xs nes h))
    | inr before ↦
        let lt = lt_of_not_lt r x before (λ e. ne (sym e)) in
        rw before (
          ground (
            arith,
            insert_sorted-head r (keep_if p (x ∷ xs)) (
                All-keep_if (λ y. key_ltb (key y) (key r) ≡ true) p (x ∷ xs)
                  (lt, below_trans r x xs lt below)),
          ))
  ]

  -- Selecting and sorting commute.
  pub keep_if-order_by :
      (p : A → Bool) (xs : List A)
      → HasDistinctSortKeys xs
      → keep_if p (order_by newer xs) ≡ order_by newer (keep_if p xs)
  unfolding order_by
  keep_if-order_by p [] h = refl
  keep_if-order_by p (x ∷ xs) (ne, h) =
      keep_if-insert_sorted p x (order_by newer xs) (All-order_by (λ y. key y ≢ key x) xs ne)
        (order_by-IsDescending xs h)
      ∙ ground (arith, keep_if-order_by p xs h)

  -- The rows below the last row of a page are the rows behind the page.
  pub keep_if-below_last :
      (n : ℕ) (xs : List A) (x : A)
      → IsDescending xs
      → last? (take n xs) ≡ some x
      → keep_if (λ y. key_ltb (key y) (key x)) xs ≡ drop n xs
  keep_if-below_last zero xs x h e = cc
  keep_if-below_last (suc n) [] x h e = cc
  keep_if-below_last (suc zero) (z ∷ zs) x (below, h) e =
      subst (λ w. keep_if (λ y. key_ltb (key y) (key w)) (z ∷ zs) ≡ zs) (some_inj e)
        (keep_if_none (λ y. key_ltb (key y) (key z)) z zs (key_ltb_irrefl (key z))
          ∙ keep_if-All _ zs below)
  keep_if-below_last (suc (suc n)) (z ∷ []) x (below, h) e =
      subst (λ w. keep_if (λ y. key_ltb (key y) (key w)) (z ∷ []) ≡ []) (some_inj e)
        (keep_if_none (λ y. key_ltb (key y) (key z)) z [] (key_ltb_irrefl (key z)))
  keep_if-below_last (suc (suc n)) (z ∷ y ∷ zs) x (below, h) e =
      keep_if_none (λ w. key_ltb (key w) (key x)) z (y ∷ zs)
        (not_lt_of_lt x z
          (All-last? (λ w. key_ltb (key w) (key z) ≡ true) (suc n) (y ∷ zs) below e))
      ∙ keep_if-below_last (suc n) (y ∷ zs) x h e

-- An order keeps the rows.
module _ {A : Type 0} (p : A → Bool) (before : A → A → Bool) where
  any-insert_sorted :
      (r : A) (rows : List A) → any p (insert_sorted before r rows) ≡ (p r || any p rows)
  unfolding insert_sorted
  any-insert_sorted r [] = refl
  any-insert_sorted r (x ∷ rows) = ground (arith, any-insert_sorted r rows)

  pub any-order_by : (rows : List A) → any p (order_by before rows) ≡ any p rows
  unfolding order_by
  any-order_by [] = refl
  any-order_by (r ∷ rows) =
      ground (arith, any-insert_sorted r (order_by before rows), any-order_by rows)

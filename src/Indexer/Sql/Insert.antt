-- ===== src/Indexer/Sql/Insert.antt =====
-- Laws of `INSERT OR IGNORE`.
use slasettle_hub.Prelude.{
  String, List, [], ◌∷◌, ◌++◌, true, false, ◌||◌, some, ◌≡◌, ◌==◌, refl, ◌∙◌, inl, inr, Bool-cases,
  eq_iff, eq_refl, arith, All,
}
use slasettle_hub.Indexer.Sql.{has_key, find_row, insert_or_ignore, insert_all, HasDistinctKeys}

module _ {A : Type 0} (key : A → String) where
  pub has_key-append :
      (k : String) (xs ys : List A)
      → has_key key k (xs ++ ys) ≡ (has_key key k xs || has_key key k ys)
  unfolding has_key
  has_key-append k [] ys = refl
  has_key-append k (x ∷ xs) ys = ground (arith, has_key-append k xs ys)

  has_key-insert_or_ignore :
      (k : String) (r : A) (rows : List A)
      → has_key key k (insert_or_ignore key r rows) ≡ (has_key key k rows || key r == k)
  unfolding insert_or_ignore has_key
  has_key-insert_or_ignore k r rows =
      ground (arith, has_key-append k rows (r ∷ []), eq_iff (key r) k)

  insert_all_keeps_keys :
      (k : String) (xs rows : List A)
      → has_key key k rows ≡ true
      → has_key key k (insert_all key xs rows) ≡ true
  unfolding insert_all
  insert_all_keeps_keys k [] rows h = h
  insert_all_keeps_keys k (x ∷ xs) rows h =
      insert_all_keeps_keys k xs (insert_or_ignore key x rows)
        (ground (arith, has_key-insert_or_ignore k x rows))

  insert_all_has_keys :
      (xs rows : List A) → All (λ r. has_key key (key r) (insert_all key xs rows) ≡ true) xs
  unfolding insert_all
  insert_all_has_keys [] rows = tt
  insert_all_has_keys (x ∷ xs) rows = (
    insert_all_keeps_keys (key x) xs (insert_or_ignore key x rows)
        (ground (arith, has_key-insert_or_ignore (key x) x rows, eq_refl (key x))),
    insert_all_has_keys xs (insert_or_ignore key x rows),
  )

  insert_known :
      (x : A) (rows : List A)
      → has_key key (key x) rows ≡ true
      → (xs : List A) → insert_all key xs (insert_or_ignore key x rows) ≡ insert_all key xs rows
  unfolding insert_or_ignore
  insert_known x rows h xs = rw h refl

  insert_all_of_known :
      (xs rows : List A)
      → All (λ r. has_key key (key r) rows ≡ true) xs
      → insert_all key xs rows ≡ rows
  unfolding insert_all
  insert_all_of_known [] rows h = refl
  insert_all_of_known (x ∷ xs) rows (h, hs) =
      insert_known x rows h xs ∙ insert_all_of_known xs rows hs

  -- Running the inserts of a list a second time changes nothing.
  pub insert_all_idempotent :
      (xs rows : List A) → insert_all key xs (insert_all key xs rows) ≡ insert_all key xs rows
  insert_all_idempotent xs rows =
      insert_all_of_known xs (insert_all key xs rows) (insert_all_has_keys xs rows)

  pub insert_all-append :
      (xs ys rows : List A)
      → insert_all key (xs ++ ys) rows ≡ insert_all key ys (insert_all key xs rows)
  unfolding insert_all
  insert_all-append [] ys rows = refl
  insert_all-append (x ∷ xs) ys rows = insert_all-append xs ys (insert_or_ignore key x rows)

  pub HasDistinctKeys-concat :
      (rows : List A) (r : A)
      → HasDistinctKeys key rows
      → has_key key (key r) rows ≡ false
      → HasDistinctKeys key (rows ++ r ∷ [])
  unfolding has_key
  HasDistinctKeys-concat [] r h new = (refl, tt)
  HasDistinctKeys-concat (x ∷ rows) r (hx, h) new = (
    ground (
      arith,
      has_key-append (key x) rows (r ∷ []),
      eq_iff (key x) (key r),
      eq_iff (key r) (key x),
    ),
    HasDistinctKeys-concat rows r h (ground arith),
  )

  pub insert_all-HasDistinctKeys :
      (xs rows : List A) → HasDistinctKeys key rows → HasDistinctKeys key (insert_all key xs rows)
  unfolding insert_all insert_or_ignore
  insert_all-HasDistinctKeys [] rows h = h
  insert_all-HasDistinctKeys (x ∷ xs) rows h = elim (Bool-cases (has_key key (key x) rows)) [
    | inl taken ↦ rw taken (insert_all-HasDistinctKeys xs rows h)
    | inr new ↦
        rw new
          (insert_all-HasDistinctKeys xs (rows ++ x ∷ []) (HasDistinctKeys-concat rows x h new))
  ]

  find_row-append :
      (k : String) (xs ys : List A) {r : A}
      → find_row key k xs ≡ some r
      → find_row key k (xs ++ ys) ≡ some r
  unfolding find_row
  find_row-append k [] ys h = cc
  find_row-append k (x ∷ xs) ys {r} h = ground (arith, find_row-append k xs ys {r = r})

  -- A row that is there stays as it is.
  pub find_row-insert_all :
      (k : String) (xs rows : List A) {r : A}
      → find_row key k rows ≡ some r
      → find_row key k (insert_all key xs rows) ≡ some r
  unfolding insert_all insert_or_ignore
  find_row-insert_all k [] rows h = h
  find_row-insert_all k (x ∷ xs) rows h = elim (Bool-cases (has_key key (key x) rows)) [
    | inl taken ↦ rw taken (find_row-insert_all k xs rows h)
    | inr new ↦
        rw new (find_row-insert_all k xs (rows ++ x ∷ []) (find_row-append k rows (x ∷ []) h))
  ]

-- ===== src/Indexer/Sql/Update.antt =====
-- Laws of `UPDATE … WHERE` and of looking a row up by its key.
use slasettle_hub.Prelude.{
  String, List, [], ◌∷◌, ◌++◌, Bool, true, false, Option, none, some, ◌≡◌, ◌==◌, refl,
  if◌then◌else◌, arith, eq_iff,
}
use slasettle_hub.Indexer.Sql.{has_key, find_row, update_where}

abbrev pub map_option {ℓ κ} : {A : Type ℓ} {B : Type κ} → (A → B) → Option A → Option B
map_option f none = none
map_option f (some a) = some (f a)

abbrev pub is_some {ℓ} : {A : Type ℓ} → Option A → Bool
is_some none = false
is_some (some a) = true

module _ {A : Type 0} (key : A → String) where
  pub has_key-find_row :
      (k : String) (rows : List A) → has_key key k rows ≡ is_some (find_row key k rows)
  unfolding has_key find_row
  has_key-find_row k [] = refl
  has_key-find_row k (r ∷ rows) = ground (arith, has_key-find_row k rows)

  -- An update that keeps the keys changes the row of a key where it stands.
  pub find_row-update_where :
      (p : A → Bool) (f : A → A) (k : String) (rows : List A)
      → ((r : A) → key (f r) ≡ key r)
      → find_row key k (update_where p f rows)
        ≡ map_option (λ r. if p r then f r else r) (find_row key k rows)
  unfolding find_row update_where
  find_row-update_where p f k [] same = refl
  find_row-update_where p f k (r ∷ rows) same =
      ground (arith, same r, find_row-update_where p f k rows same)

  pub find_row-concat :
      (k : String) (rows : List A) (r : A)
      → find_row key k rows ≡ none
      → find_row key k (rows ++ r ∷ []) ≡ (if key r == k then some r else none)
  unfolding find_row
  find_row-concat k [] r h = refl
  find_row-concat k (x ∷ rows) r h = ground (arith, find_row-concat k rows r)

  -- For a key that is not the new row's, the new row changes nothing.
  pub find_row-concat_ne :
      (k : String) (rows : List A) (r : A)
      → (key r == k) ≡ false
      → find_row key k (rows ++ r ∷ []) ≡ find_row key k rows
  unfolding find_row
  find_row-concat_ne k [] r h = ground arith
  find_row-concat_ne k (x ∷ rows) r h = ground (arith, find_row-concat_ne k rows r)

  -- A row that is found has the key.
  pub key_of_found : (k : String) (rows : List A) {r : A} → find_row key k rows ≡ some r → key r ≡ k
  unfolding find_row
  key_of_found k [] h = cc
  key_of_found k (x ∷ rows) {r = r} h =
      ground (arith, eq_iff (key x) k, key_of_found k rows {r = r})

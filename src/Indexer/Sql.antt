-- ===== src/Indexer/Sql.antt =====
-- What the SQL statements of indexer/src/db do to a table, which is the list of its rows in the
-- order of insertion. The key column is a text, as every primary key of schema.sql but the
-- checkpoint's is.
pub mod Insert
pub mod Update
pub mod Sorted
use slasettle_hub.Prelude.{
  String, List, [], ◌∷◌, ◌++◌, map, Bool, true, false, ◌||◌, Option, none, some, ◌≡◌, ◌==◌,
  if◌then◌else◌,
}

module _ {ℓ} {A : Type ℓ} (key : A → String) where
  unfoldable pub has_key : String → List A → Bool
  has_key k [] = false
  has_key k (r ∷ rs) = key r == k || has_key k rs

  -- The row of a key: `SELECT … WHERE key = ?`.
  unfoldable pub find_row : String → List A → Option A
  find_row k [] = none
  find_row k (r ∷ rs) = if key r == k then some r else find_row k rs

  -- `INSERT OR IGNORE`: a row whose key is taken is dropped.
  unfoldable pub insert_or_ignore : A → List A → List A
  unfolding has_key
  insert_or_ignore r rows = if has_key (key r) rows then rows else rows ++ r ∷ []

  -- The statement run for each row of a list, in order.
  unfoldable pub insert_all : List A → List A → List A
  insert_all [] rows = rows
  insert_all (r ∷ rs) rows = insert_all rs (insert_or_ignore r rows)

  -- The primary key of the schema.
  abbrev pub HasDistinctKeys : List A → Type 0
  HasDistinctKeys [] = Unit
  HasDistinctKeys (r ∷ rs) = (has_key (key r) rs ≡ false) × HasDistinctKeys rs

-- `UPDATE … SET … WHERE …`
unfoldable pub update_where {ℓ} : {A : Type ℓ} → (A → Bool) → (A → A) → List A → List A
update_where p f rows = map (λ r. if p r then f r else r) rows

-- `ORDER BY`, by a strict test. SQL leaves open how rows that compare alike are ordered.
unfoldable pub insert_sorted {ℓ} : {A : Type ℓ} → (A → A → Bool) → A → List A → List A
insert_sorted before r [] = r ∷ []
insert_sorted before r (x ∷ xs) = if before x r then x ∷ insert_sorted before r xs else r ∷ x ∷ xs

unfoldable pub order_by {ℓ} : {A : Type ℓ} → (A → A → Bool) → List A → List A
unfolding insert_sorted
order_by before [] = []
order_by before (r ∷ rs) = insert_sorted before r (order_by before rs)

-- ===== src/Indexer/Tables/Pages.antt =====
-- Following the pages of a SLA's settlements gives every settlement once, newest first.
use slasettle_hub.Prelude.{
  ℕ, zero, suc, ◌≤◌, ◌<◌, String, List, [], ◌∷◌, ◌++◌, Bool, true, false, Option, none, some, ◌≡◌,
  ◌≢◌, refl, sym, ap, ◌∙◌, ◌==◌, if◌then◌else◌, arith, All, take, drop, last?, keep_if, length, ltb,
  Bool-cases, inl, inr, eq_iff,
}
use mathlib.Core.Path.{subst}
use native.Mathlib.Numerals.{add-one}
use native.Mathlib.Nat.{le_trans}
use slasettle_hub.Prelude.{append-nil}
use slasettle_hub.Prelude.Takes.{
  length-drop, take-append-drop, take_all, cut_page, ltb-length-take, last?-take, nil_of_short,
}
use slasettle_hub.Prelude.TextOrder.{Key, key_ltb, key_ltb_trans}
use slasettle_hub.Indexer.Rows.{SettlementRow}
use slasettle_hub.Indexer.Sql.{has_key, HasDistinctKeys, insert_sorted, order_by}
use slasettle_hub.Indexer.Sql.Sorted.{
  IsDescending, HasDistinctSortKeys, order_by-IsDescending, keep_if-order_by, keep_if-keep_if,
  keep_if_of_implied, keep_if_holds, keep_if-IsDescending, keep_if-below_last, All-keep_if, All-imp,
  All-last?,
}
use slasettle_hub.Indexer.Tables.{Tables}
use slasettle_hub.Indexer.Tables.Effects.{settlement_id}
use slasettle_hub.Indexer.Tables.D1.{
  settlement_key, newest_first, settlements_before, get_settlements_page,
}

-- The rows that a client collects who asks for the page behind the last row as long as there is one.
-- `fuel` bounds the number of pages.
unfoldable pub collect : String → ℕ → Tables → ℕ → Option Key → List SettlementRow
collect sla_id limit t zero before = []
collect sla_id limit t (suc fuel) before =
    let page = get_settlements_page sla_id limit before t in
    let rest : List SettlementRow = elim (last? page.rows) [
      | none ↦ []
      | some x ↦ collect sla_id limit t fuel (some (settlement_key x))
    ] in
    page.rows ++ (if page.has_more then rest else [])

ids_differ :
    (k : String) (rows : List SettlementRow)
    → has_key settlement_id k rows ≡ false
    → All (λ r. settlement_id r ≢ k) rows
unfolding has_key
ids_differ k [] h = tt
ids_differ k (r ∷ rows) h = (ground (arith, eq_iff r.event_id k), ids_differ k rows (ground arith))

HasDistinctSortKeys-keep_if :
    (p : SettlementRow → Bool) (rows : List SettlementRow)
    → HasDistinctKeys settlement_id rows
    → HasDistinctSortKeys settlement_key (keep_if p rows)
HasDistinctSortKeys-keep_if p [] h = tt
HasDistinctSortKeys-keep_if p (r ∷ rows) (new, h) = elim (Bool-cases (p r)) [
  | inl kept ↦ rw kept (
    All-imp (λ s. settlement_id s ≢ r.event_id) _ (keep_if p rows)
        (λ s ne e. ne (ap (λ (k : Key). k.1) e))
        (All-keep_if _ p rows (ids_differ r.event_id rows new)),
    HasDistinctSortKeys-keep_if p rows h,
  )
  | inr gone ↦ rw gone (HasDistinctSortKeys-keep_if p rows h)
]

module _ (sla_id : String) (t : Tables) (keys : HasDistinctKeys settlement_id t.settlements) where
  abbrev all_settlements : List SettlementRow
  all_settlements = settlements_before sla_id none t

  all_settlements-IsDescending : IsDescending settlement_key all_settlements
  unfolding settlements_before newest_first
  all_settlements-IsDescending =
      order_by-IsDescending settlement_key _ (HasDistinctSortKeys-keep_if _ t.settlements keys)

  -- The query behind a cursor selects the settlements below it.
  settlements_before-some :
      (before : Key)
      → settlements_before sla_id (some before) t
        ≡ keep_if (λ r. key_ltb (settlement_key r) before) all_settlements
  unfolding settlements_before newest_first
  settlements_before-some before =
      ap (order_by _) (
        keep_if-keep_if (λ r. r.sla_id == sla_id) (λ r. key_ltb (settlement_key r) before)
          t.settlements)
      ∙ sym (
          keep_if-order_by settlement_key (λ r. key_ltb (settlement_key r) before) _
            (HasDistinctSortKeys-keep_if _ t.settlements keys))

  -- The rows of one page, and whether there is a next one.
  get_settlements_page-rows :
      (limit : ℕ) (before : Option Key)
      → (get_settlements_page sla_id limit before t).rows
        ≡ take limit (settlements_before sla_id before t)
  unfolding get_settlements_page
  get_settlements_page-rows limit before =
      rw add-one (cut_page limit (settlements_before sla_id before t))

  get_settlements_page-has_more :
      (limit : ℕ) (before : Option Key)
      → (get_settlements_page sla_id limit before t).has_more
        ≡ ltb limit (length (settlements_before sla_id before t))
  unfolding get_settlements_page
  get_settlements_page-has_more limit before =
      rw add-one (ltb-length-take limit (settlements_before sla_id before t))

  settlements_before-IsDescending :
      (before : Option Key) → IsDescending settlement_key (settlements_before sla_id before t)
  settlements_before-IsDescending none = all_settlements-IsDescending
  settlements_before-IsDescending (some before) =
      rw settlements_before-some
        (keep_if-IsDescending settlement_key _ all_settlements all_settlements-IsDescending)

  -- The query behind the last row of a page selects what follows the page.
  settlements_before-last :
      (limit : ℕ) (before : Option Key) (x : SettlementRow)
      → last? (take limit (settlements_before sla_id before t)) ≡ some x
      → settlements_before sla_id (some (settlement_key x)) t
        ≡ drop limit (settlements_before sla_id before t)
  settlements_before-last limit none x e =
      settlements_before-some (settlement_key x)
      ∙ keep_if-below_last settlement_key limit all_settlements x all_settlements-IsDescending e
  settlements_before-last limit (some before) x e =
      settlements_before-some (settlement_key x)
      ∙ sym (
          keep_if_of_implied (λ r. key_ltb (settlement_key r) before)
            (λ r. key_ltb (settlement_key r) (settlement_key x)) all_settlements
            (λ r lt. key_ltb_trans _ _ _ lt (x_below_before before x e)))
      ∙ ap (keep_if (λ r. key_ltb (settlement_key r) (settlement_key x)))
          (sym (settlements_before-some before))
      ∙ keep_if-below_last settlement_key limit _ x (settlements_before-IsDescending (some before))
          e
    where
      x_below_before :
          (c : Key) (y : SettlementRow)
          → last? (take limit (settlements_before sla_id (some c) t)) ≡ some y
          → key_ltb (settlement_key y) c ≡ true
      x_below_before c y h =
          All-last? (λ r. key_ltb (settlement_key r) c ≡ true) limit
            (settlements_before sla_id (some c) t)
            (rw settlements_before-some
              (keep_if_holds (λ r. key_ltb (settlement_key r) c) all_settlements))
            h

  shorter :
      (limit fuel : ℕ) (rows : List SettlementRow)
      → 0 < limit
      → length rows ≤ suc fuel
      → length (drop limit rows) ≤ fuel
  shorter limit fuel rows pos h = omega (arith, length-drop limit rows)

  pub collect_all :
      (limit fuel : ℕ) (before : Option Key)
      → 0 < limit
      → length (settlements_before sla_id before t) ≤ fuel
      → collect sla_id limit t fuel before ≡ settlements_before sla_id before t
  unfolding collect
  collect_all limit zero before pos enough = sym (nil_of_short _ enough)
  collect_all limit (suc fuel) before pos enough =
      rw (get_settlements_page-rows limit before, get_settlements_page-has_more limit before)
        (elim (Bool-cases (ltb limit (length (settlements_before sla_id before t)))) [
          | inr end ↦ rw end (append-nil _ ∙ take_all limit _ (ground arith))
          | inl more ↦
              let (x, e) =
                last?-take limit (settlements_before sla_id before t) pos (ground arith) in
              rw (more, e)
                (ap (λ rows. take limit (settlements_before sla_id before t) ++ rows)
                    (collect_all limit fuel (some (settlement_key x)) pos (
                        subst (λ (rows : List SettlementRow). length rows ≤ fuel)
                          (sym (settlements_before-last limit before x e))
                          (shorter limit fuel _ pos enough))
                      ∙ settlements_before-last limit before x e)
                  ∙ take-append-drop limit (settlements_before sla_id before t))
        ])

length-insert_sorted :
    (r : SettlementRow) (rows : List SettlementRow) (before : SettlementRow → SettlementRow → Bool)
    → length (insert_sorted before r rows) ≡ suc (length rows)
unfolding insert_sorted
length-insert_sorted r [] before = refl
length-insert_sorted r (x ∷ rows) before = ground (arith, length-insert_sorted r rows before)

length-newest_first : (rows : List SettlementRow) → length (newest_first rows) ≡ length rows
unfolding newest_first order_by
length-newest_first [] = refl
length-newest_first (r ∷ rows) =
    length-insert_sorted r (newest_first rows)
      (λ x y. key_ltb (settlement_key y) (settlement_key x))
    ∙ ap suc (length-newest_first rows)

length-keep_if :
    (p : SettlementRow → Bool) (rows : List SettlementRow) → length (keep_if p rows) ≤ length rows
length-keep_if p [] = omega arith
length-keep_if p (r ∷ rows) = ground (arith, length-keep_if p rows)

settlements_of-length :
    (sla_id : String) (t : Tables)
    → length (settlements_before sla_id none t) ≤ length t.settlements
unfolding settlements_before
settlements_of-length sla_id t =
    rw length-newest_first (length-keep_if (λ r. r.sla_id == sla_id) t.settlements)

-- If event ids are distinct, a client that asks for pages of any positive size, each behind the last
-- row of the one before, as long as there is a next page, collects the SLA's settlements in the order
-- of one query for all of them, strictly newest first: none is skipped and none comes twice. As many
-- pages as there are settlements are enough.
pub collect_complete :
    (sla_id : String) (limit : ℕ) (t : Tables) (fuel : ℕ)
    → HasDistinctKeys settlement_id t.settlements
    → 0 < limit
    → length t.settlements ≤ fuel
    → (collect sla_id limit t fuel none
        ≡ newest_first (keep_if (λ (r : SettlementRow). r.sla_id == sla_id) t.settlements))
      × IsDescending settlement_key (collect sla_id limit t fuel none)
unfolding settlements_before
collect_complete sla_id limit t fuel keys pos enough =
    let all =
      collect_all sla_id t keys limit fuel none pos
        (le_trans (settlements_of-length sla_id t) enough) in
    (all, rw all (all_settlements-IsDescending sla_id t keys))

-- ===== src/Indexer/Tables/Keys.antt =====
-- Ingestion keeps the primary keys of the schema.
use slasettle_hub.Prelude.{
  String, List, [], ◌∷◌, map, Bool, ◌≡◌, refl, ◌∙◌, if◌then◌else◌, arith, Bool-cases, inl, inr,
}
use slasettle_hub.Indexer.Rows.{WatcherEventType, registered, removed, WatcherEvent}
use slasettle_hub.Indexer.Sql.{has_key, update_where, HasDistinctKeys}
use slasettle_hub.Indexer.Sql.Insert.{HasDistinctKeys-concat, insert_all-HasDistinctKeys}
use slasettle_hub.Indexer.Tables.{WatcherRow, Tables, upsert_watcher, remove_watcher, BatchParams}
use slasettle_hub.Indexer.Tables.Sqlite.{apply_batch}
use slasettle_hub.Indexer.Tables.Effects.{
  watcher_step, watchers_after, check_key, sla_key, settlement_id, lifecycle_key, stored_sla,
  stored_settlement, apply_batch-tables_after,
}
use slasettle_hub.Indexer.Tables.Watchers.{watcher_key}

-- The primary keys of schema.sql.
pub record IsKeyed (t : Tables) : Type 0 where
  pub watchers : HasDistinctKeys watcher_key t.watchers
  pub checks : HasDistinctKeys check_key t.checks
  pub slas : HasDistinctKeys sla_key t.slas
  pub settlements : HasDistinctKeys settlement_id t.settlements
  pub lifecycle_events : HasDistinctKeys lifecycle_key t.lifecycle_events

module _ {A : Type 0} (key : A → String) (p : A → Bool) (f : A → A)
    (same : (r : A) → key (f r) ≡ key r) where
  has_key-update_where :
      (k : String) (rows : List A) → has_key key k (update_where p f rows) ≡ has_key key k rows
  unfolding has_key update_where
  has_key-update_where k [] = refl
  has_key-update_where k (r ∷ rows) = ground (arith, same r, has_key-update_where k rows)

  key-updated : (r : A) → key (if p r then f r else r) ≡ key r
  key-updated r = ground (arith, same r)

  pub update_where-HasDistinctKeys :
      (rows : List A) → HasDistinctKeys key rows → HasDistinctKeys key (update_where p f rows)
  unfolding update_where
  update_where-HasDistinctKeys [] h = tt
  update_where-HasDistinctKeys (r ∷ rows) (new, h) = (
    rw (key-updated r) (has_key-update_where (key r) rows ∙ new),
    update_where-HasDistinctKeys rows h,
  )

watcher_step-HasDistinctKeys :
    (type : WatcherEventType) (w : WatcherEvent) (rows : List WatcherRow)
    → HasDistinctKeys watcher_key rows
    → HasDistinctKeys watcher_key (watcher_step type w rows)
unfolding upsert_watcher remove_watcher
watcher_step-HasDistinctKeys registered w rows h =
    elim (Bool-cases (has_key watcher_key w.address rows)) [
      | inl known ↦ rw known (update_where-HasDistinctKeys watcher_key _ _ (λ r. refl) rows h)
      | inr new ↦ rw new (HasDistinctKeys-concat watcher_key rows _ h new)
    ]
watcher_step-HasDistinctKeys removed w rows h =
    update_where-HasDistinctKeys watcher_key _ _ (λ r. refl) rows h

watchers_after-HasDistinctKeys :
    (ws : List WatcherEvent) (rows : List WatcherRow)
    → HasDistinctKeys watcher_key rows
    → HasDistinctKeys watcher_key (watchers_after ws rows)
unfolding watchers_after
watchers_after-HasDistinctKeys [] rows h = h
watchers_after-HasDistinctKeys (w ∷ ws) rows h =
    watchers_after-HasDistinctKeys ws (watcher_step w.type w rows)
      (watcher_step-HasDistinctKeys w.type w rows h)

-- A batch keeps every table's rows distinct by primary key.
pub apply_batch-IsKeyed : (p : BatchParams) (t : Tables) → IsKeyed t → IsKeyed (apply_batch p t)
apply_batch-IsKeyed p t k = rw apply_batch-tables_after (record {
  watchers = watchers_after-HasDistinctKeys p.batch.watcher_events t.watchers k.watchers;
  checks = insert_all-HasDistinctKeys check_key p.batch.checks t.checks k.checks;
  slas = insert_all-HasDistinctKeys sla_key (map stored_sla p.batch.slas) t.slas k.slas;
  settlements =
      insert_all-HasDistinctKeys settlement_id (map stored_settlement p.batch.settlements)
        t.settlements k.settlements;
  lifecycle_events =
      insert_all-HasDistinctKeys lifecycle_key p.batch.lifecycle_events t.lifecycle_events
        k.lifecycle_events;
})

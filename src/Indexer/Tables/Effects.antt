-- ===== src/Indexer/Tables/Effects.antt =====
-- What `applyBatch` does to each table, and that the two stores do the same.
use slasettle_hub.Prelude.{◌≡◌, refl, String, List, [], ◌∷◌, ◌++◌, map, some}
use slasettle_hub.Indexer.Rows.{
  CheckRow, SlaRow, SettlementRow, LifecycleEventRow, WatcherEventType, registered, removed,
  WatcherEvent,
}
use slasettle_hub.Indexer.Sql.{insert_all}
use slasettle_hub.Indexer.Tables.{
  WatcherRow, Tables, upsert_watcher, remove_watcher, fill_sla, fill_settlement, Statement,
  insert_check, insert_sla, insert_lifecycle_event, insert_settlement, execute, run_statements,
  BatchParams, watcher_statement,
}
use slasettle_hub.Indexer.Tables.Sqlite
use slasettle_hub.Indexer.Tables.Sqlite.{run_each}
use slasettle_hub.Indexer.Tables.D1

-- The watcher table after one event, and after a list of events.
abbrev pub watcher_step : WatcherEventType → WatcherEvent → List WatcherRow → List WatcherRow
watcher_step registered w rows = upsert_watcher w.address w.at rows
watcher_step removed w rows = remove_watcher w.at w.address rows

unfoldable pub watchers_after : List WatcherEvent → List WatcherRow → List WatcherRow
watchers_after [] rows = rows
watchers_after (w ∷ ws) rows = watchers_after ws (watcher_step w.type w rows)

abbrev pub check_key : CheckRow → String
check_key r = r.event_id

abbrev pub sla_key : SlaRow → String
sla_key r = r.sla_id

abbrev pub settlement_id : SettlementRow → String
settlement_id r = r.event_id

abbrev pub lifecycle_key : LifecycleEventRow → String
lifecycle_key r = r.event_id

-- The rows as the columns hold them.
abbrev pub stored_sla : SlaRow → SlaRow
stored_sla s = fill_sla s.quorum_threshold s

abbrev pub stored_settlement : SettlementRow → SettlementRow
stored_settlement s = fill_settlement s.quorum_threshold s

execute-watcher :
    (type : WatcherEventType) (w : WatcherEvent) (t : Tables)
    → w.type ≡ type
    → execute (watcher_statement w) t ≡ record t { watchers = watcher_step w.type w t.watchers }
unfolding watcher_statement execute
execute-watcher registered w t e = rw e refl
execute-watcher removed w t e = rw e refl

run_each-watchers :
    (ws : List WatcherEvent) (t : Tables)
    → run_each watcher_statement ws t ≡ record t { watchers = watchers_after ws t.watchers }
unfolding run_each watchers_after
run_each-watchers [] t = refl
run_each-watchers (w ∷ ws) t =
    rw (execute-watcher w.type w t refl)
      (run_each-watchers ws (record t { watchers = watcher_step w.type w t.watchers }))

run_each-checks :
    (rs : List CheckRow) (t : Tables)
    → run_each insert_check rs t ≡ record t { checks = insert_all check_key rs t.checks }
unfolding run_each execute insert_all
run_each-checks [] t = refl
run_each-checks (r ∷ rs) t = run_each-checks rs (execute (insert_check r) t)

run_each-slas :
    (rs : List SlaRow) (t : Tables)
    → run_each insert_sla rs t ≡ record t { slas = insert_all sla_key (map stored_sla rs) t.slas }
unfolding run_each execute insert_all
run_each-slas [] t = refl
run_each-slas (r ∷ rs) t = run_each-slas rs (execute (insert_sla r) t)

run_each-lifecycle :
    (rs : List LifecycleEventRow) (t : Tables)
    → run_each insert_lifecycle_event rs t
      ≡ record t { lifecycle_events = insert_all lifecycle_key rs t.lifecycle_events }
unfolding run_each execute insert_all
run_each-lifecycle [] t = refl
run_each-lifecycle (r ∷ rs) t = run_each-lifecycle rs (execute (insert_lifecycle_event r) t)

run_each-settlements :
    (rs : List SettlementRow) (t : Tables)
    → run_each insert_settlement rs t
      ≡ record t { settlements = insert_all settlement_id (map stored_settlement rs) t.settlements }
unfolding run_each execute insert_all
run_each-settlements [] t = refl
run_each-settlements (r ∷ rs) t = run_each-settlements rs (execute (insert_settlement r) t)

-- The tables after a batch, each from the rows and events of its own kind.
abbrev pub tables_after : BatchParams → Tables → Tables
tables_after p t = record {
  checkpoint = some (record { last_ledger = p.last_ledger; last_cursor = p.last_cursor });
  watchers = watchers_after p.batch.watcher_events t.watchers;
  checks = insert_all check_key p.batch.checks t.checks;
  slas = insert_all sla_key (map stored_sla p.batch.slas) t.slas;
  settlements = insert_all settlement_id (map stored_settlement p.batch.settlements) t.settlements;
  lifecycle_events = insert_all lifecycle_key p.batch.lifecycle_events t.lifecycle_events;
}

pub apply_batch-tables_after :
    (p : BatchParams) (t : Tables) → Sqlite.apply_batch p t ≡ tables_after p t
unfolding Sqlite.apply_batch execute
apply_batch-tables_after p t =
    rw (run_each-watchers, run_each-checks, run_each-slas, run_each-lifecycle, run_each-settlements)
      refl

run_statements-append :
    (xs ys : List Statement) (t : Tables)
    → run_statements (xs ++ ys) t ≡ run_statements ys (run_statements xs t)
unfolding run_statements
run_statements-append [] ys t = refl
run_statements-append (x ∷ xs) ys t = run_statements-append xs ys (execute x t)

run_statements-map :
    {A : Type 0} (statement : A → Statement) (xs : List A) (t : Tables)
    → run_statements (map statement xs) t ≡ run_each statement xs t
unfolding run_statements run_each
run_statements-map statement [] t = refl
run_statements-map statement (x ∷ xs) t = run_statements-map statement xs (execute (statement x) t)

-- The two stores are interchangeable for ingestion: on the same tables, the batch that `IndexerD1`
-- hands to D1 leaves the tables that `IndexerDb` leaves.
pub d1_eq_sqlite : (p : BatchParams) (t : Tables) → D1.apply_batch p t ≡ Sqlite.apply_batch p t
unfolding D1.apply_batch Sqlite.apply_batch run_statements
d1_eq_sqlite p t = simp (run_statements-append, run_statements-map)

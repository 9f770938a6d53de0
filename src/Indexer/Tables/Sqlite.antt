-- ===== src/Indexer/Tables/Sqlite.antt =====
-- `IndexerDb` of indexer/src/db/db.ts: the statements are run one after the other, inside one
-- better-sqlite3 transaction.
use slasettle_hub.Prelude.{String, List, [], ◌∷◌, Option, none, some, ◌==◌, take}
use slasettle_hub.Prelude.TextOrder.{text_ltb}
use slasettle_hub.Js.{Number}
use slasettle_hub.Indexer.Rows.{LifecycleEventRow, SlaRow}
use slasettle_hub.Indexer.Sql.{find_row, order_by}
use slasettle_hub.Prelude.{keep_if}
use slasettle_hub.Indexer.Tables.{
  CheckpointRow, Tables, Statement, set_checkpoint, insert_check, insert_sla,
  insert_lifecycle_event, insert_settlement, fill_slas, fill_settlements, execute, BatchParams,
  watcher_statement,
}

unfoldable pub get_checkpoint : Tables → Option CheckpointRow
get_checkpoint t = t.checkpoint

-- `for (const x of xs) statement.run(…)`
unfoldable pub run_each : {A : Type 0} → (A → Statement) → List A → Tables → Tables
run_each statement [] t = t
run_each statement (x ∷ xs) t = run_each statement xs (execute (statement x) t)

unfoldable pub apply_batch : BatchParams → Tables → Tables
unfolding run_each
apply_batch p t =
    let at_checkpoint = execute (set_checkpoint p.last_ledger p.last_cursor) t in
    let with_watchers = run_each watcher_statement p.batch.watcher_events at_checkpoint in
    let with_checks = run_each insert_check p.batch.checks with_watchers in
    let with_slas = run_each insert_sla p.batch.slas with_checks in
    let with_lifecycle = run_each insert_lifecycle_event p.batch.lifecycle_events with_slas in
    run_each insert_settlement p.batch.settlements with_lifecycle

-- `row?.quorum_threshold ?? null`
unfoldable pub threshold_of : Option SlaRow → Option Number
threshold_of none = none
threshold_of (some r) = r.quorum_threshold

unfoldable pub get_sla_quorum_threshold : String → Tables → Option Number
unfolding threshold_of
get_sla_quorum_threshold sla_id t = threshold_of (find_row (λ (r : SlaRow). r.sla_id) sla_id t.slas)

unfoldable pub set_sla_quorum_threshold : String → Number → Tables → Tables
set_sla_quorum_threshold sla_id q t =
    execute (fill_settlements q sla_id) (execute (fill_slas q sla_id) t)

-- Newest first, at most 100.
unfoldable pub get_lifecycle_events : String → Tables → List LifecycleEventRow
get_lifecycle_events sla_id t = take 100 (
    order_by (λ (r s : LifecycleEventRow). text_ltb s.ledger_close_time r.ledger_close_time)
      (keep_if (λ (r : LifecycleEventRow). r.sla_id == sla_id) t.lifecycle_events))

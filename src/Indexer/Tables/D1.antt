-- ===== src/Indexer/Tables/D1.antt =====
-- `IndexerD1` of indexer/src/db/d1.ts: the statements are collected and handed to D1 as one batch,
-- which D1 runs in order and in one transaction.
use slasettle_hub.Prelude.{
  String, ℕ, ◌+◌, List, [], ◌∷◌, ◌++◌, map, Bool, true, false, Option, none, some, ◌==◌, ◌&&◌, take,
  keep_if, length, ltb, if◌then◌else◌,
}
use slasettle_hub.Prelude.TextOrder.{text_ltb, Key, key_ltb}
use slasettle_hub.Js.{Number}
use slasettle_hub.Indexer.Rows.{
  CheckRow, CheckStatus, up, down, LifecycleEventRow, SlaRow, SettlementRow,
}
use slasettle_hub.Indexer.Sql.{find_row, order_by}
use slasettle_hub.Indexer.Tables.{
  CheckpointRow, WatcherRow, Tables, Statement, set_checkpoint, insert_check, insert_sla,
  insert_lifecycle_event, insert_settlement, fill_slas, fill_settlements, run_statements,
  is_null_text, BatchParams, watcher_statement,
}
use slasettle_hub.Indexer.Tables.Sqlite.{threshold_of}

unfoldable pub get_checkpoint : Tables → Option CheckpointRow
get_checkpoint t = t.checkpoint

-- The statements in the order in which `applyBatch` pushes them.
unfoldable pub batch_statements : BatchParams → List Statement
batch_statements p =
    set_checkpoint p.last_ledger p.last_cursor
    ∷ (map watcher_statement p.batch.watcher_events
        ++ (map insert_check p.batch.checks
            ++ (map insert_sla p.batch.slas
                ++ (map insert_lifecycle_event p.batch.lifecycle_events
                    ++ map insert_settlement p.batch.settlements))))

unfoldable pub apply_batch : BatchParams → Tables → Tables
unfolding batch_statements
apply_batch p t = run_statements (batch_statements p) t

-- `WHERE removed_at IS NULL ORDER BY registered_at`
unfoldable pub get_eligible_watchers : Tables → List WatcherRow
get_eligible_watchers t =
    order_by (λ (r s : WatcherRow). text_ltb r.registered_at s.registered_at)
      (keep_if (λ (r : WatcherRow). is_null_text r.removed_at) t.watchers)

unfoldable pub get_checked_in_for_round : String → String → Tables → List CheckRow
get_checked_in_for_round sla_id round_id t =
    keep_if (λ (c : CheckRow). c.sla_id == sla_id && c.round_id == round_id) t.checks

-- The sort key of the settlements, `(ledger_close_time, event_id)`.
abbrev pub settlement_key : SettlementRow → Key
settlement_key r = (r.ledger_close_time, r.event_id)

-- `ORDER BY ledger_close_time DESC, event_id DESC`
unfoldable pub newest_first : List SettlementRow → List SettlementRow
newest_first rows = order_by (λ r s. key_ltb (settlement_key s) (settlement_key r)) rows

-- The rows that the two queries select, before their LIMIT.
unfoldable pub settlements_before : String → Option Key → Tables → List SettlementRow
settlements_before sla_id none t =
    newest_first (keep_if (λ (r : SettlementRow). r.sla_id == sla_id) t.settlements)
settlements_before sla_id (some before) t = newest_first (
    keep_if (λ (r : SettlementRow). r.sla_id == sla_id && key_ltb (settlement_key r) before)
      t.settlements)

-- One row more than the page is asked for, to see whether there is a next page.
unfoldable pub get_settlements_page :
    String → ℕ → Option Key → Tables → record { rows : List SettlementRow; has_more : Bool }
unfolding settlements_before newest_first
get_settlements_page sla_id limit before t =
    let rows = take (limit + 1) (settlements_before sla_id before t) in
    let has_more = ltb limit (length rows) in
    record { rows = if has_more then take limit rows else rows; has_more = has_more }

unfoldable pub is_up : CheckStatus → Bool
is_up up = true
is_up down = false

unfoldable pub is_down : CheckStatus → Bool
is_down up = false
is_down down = true

-- `SUM(CASE WHEN status = … THEN 1 ELSE 0 END)` over the checks of a round, 0 for no check.
unfoldable pub get_vote_counts : String → String → Tables → record { votes_up : ℕ; votes_down : ℕ }
unfolding get_checked_in_for_round is_up is_down
get_vote_counts sla_id round_id t =
    let checks = get_checked_in_for_round sla_id round_id t in
    record {
      votes_up = length (keep_if (λ (c : CheckRow). is_up c.status) checks);
      votes_down = length (keep_if (λ (c : CheckRow). is_down c.status) checks);
    }

unfoldable pub get_sla_quorum_threshold : String → Tables → Option Number
unfolding threshold_of
get_sla_quorum_threshold sla_id t = threshold_of (find_row (λ (r : SlaRow). r.sla_id) sla_id t.slas)

unfoldable pub set_sla_quorum_threshold : String → Number → Tables → Tables
set_sla_quorum_threshold sla_id q t =
    run_statements (fill_slas q sla_id ∷ fill_settlements q sla_id ∷ []) t

-- `WHERE provider = ? ORDER BY created_at DESC`
unfoldable pub get_provider_slas : String → Tables → List SlaRow
get_provider_slas address t =
    order_by (λ (r s : SlaRow). text_ltb s.created_at r.created_at)
      (keep_if (λ (r : SlaRow). r.provider == address) t.slas)

unfoldable pub get_lifecycle_events : String → Tables → List LifecycleEventRow
get_lifecycle_events sla_id t = take 100 (
    order_by (λ (r s : LifecycleEventRow). text_ltb s.ledger_close_time r.ledger_close_time)
      (keep_if (λ (r : LifecycleEventRow). r.sla_id == sla_id) t.lifecycle_events))

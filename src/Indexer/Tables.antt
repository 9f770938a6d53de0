-- ===== src/Indexer/Tables.antt =====
-- The tables of indexer/src/db/schema.sql, the statements that ingestion runs on them, and the two
-- stores that run them: `IndexerDb` over better-sqlite3 (indexer/src/db/db.ts) and `IndexerD1` over
-- Cloudflare D1 (indexer/src/db/d1.ts). Both drivers run a batch in one transaction.
pub mod Sqlite
pub mod D1
pub mod Effects
pub mod Watchers
pub mod Replay
pub mod Pages
pub mod Keys
use slasettle_hub.Prelude.{
  ℕ, String, List, [], ◌∷◌, ◌++◌, Bool, true, false, ◌&&◌, Option, none, some, ◌==◌, if◌then◌else◌,
}
use slasettle_hub.Js.{Number, nan}
use slasettle_hub.Indexer.Rows.{
  CheckRow, SlaRow, SettlementRow, LifecycleEventRow, WatcherEventType, registered, removed,
  WatcherEvent, ClassifiedBatch,
}
use slasettle_hub.Indexer.Sql.{has_key, insert_or_ignore, update_where}

pub record CheckpointRow : Type 0 where
  pub last_ledger : ℕ
  pub last_cursor : Option String

pub record WatcherRow : Type 0 where
  pub address : String
  pub registered_at : String
  pub removed_at : Option String

pub record Tables : Type 0 where
  pub checkpoint : Option CheckpointRow
  pub watchers : List WatcherRow
  pub checks : List CheckRow
  pub slas : List SlaRow
  pub settlements : List SettlementRow
  pub lifecycle_events : List LifecycleEventRow

abbrev pub no_rows : Tables
no_rows = record {
  checkpoint = none;
  watchers = [];
  checks = [];
  slas = [];
  settlements = [];
  lifecycle_events = [];
}

-- `INSERT INTO watchers … ON CONFLICT(address) DO UPDATE SET removed_at = NULL`
unfoldable pub upsert_watcher : String → String → List WatcherRow → List WatcherRow
unfolding has_key update_where
upsert_watcher address at rows =
    if has_key (λ (r : WatcherRow). r.address) address rows
    then update_where (λ (r : WatcherRow). r.address == address)
        (λ r. record r { removed_at = none }) rows
    else rows ++ record { address = address; registered_at = at; removed_at = none } ∷ []

-- `UPDATE watchers SET removed_at = ? WHERE address = ?`
unfoldable pub remove_watcher : String → String → List WatcherRow → List WatcherRow
unfolding update_where
remove_watcher at address rows =
    update_where (λ (r : WatcherRow). r.address == address) (λ r. record r { removed_at = some at })
      rows

-- SQLite stores a NaN as NULL.
unfoldable pub bound : Option Number → Option Number
bound (some nan) = none
bound q = q

unfoldable pub fill_sla : Option Number → SlaRow → SlaRow
fill_sla q r = record r { quorum_threshold = bound q }

unfoldable pub fill_settlement : Option Number → SettlementRow → SettlementRow
fill_settlement q r = record r { quorum_threshold = bound q }

unfoldable pub is_null : Option Number → Bool
is_null none = true
is_null (some q) = false

unfoldable pub is_null_text : Option String → Bool
is_null_text none = true
is_null_text (some s) = false

-- The prepared statements, with their bound values.
pub data Statement : Type 0 where
  set_checkpoint : ℕ → Option String → Statement
  insert_watcher update_removed : String → String → Statement
  insert_check : CheckRow → Statement
  insert_sla : SlaRow → Statement
  insert_lifecycle_event : LifecycleEventRow → Statement
  insert_settlement : SettlementRow → Statement
  fill_slas fill_settlements : Number → String → Statement

unfoldable pub execute : Statement → Tables → Tables
unfolding upsert_watcher remove_watcher insert_or_ignore fill_sla fill_settlement is_null
    update_where bound
execute (set_checkpoint ledger cursor) t = record t {
  checkpoint = some (record { last_ledger = ledger; last_cursor = cursor });
}
execute (insert_watcher address at) t = record t { watchers = upsert_watcher address at t.watchers }
execute (update_removed at address) t = record t { watchers = remove_watcher at address t.watchers }
execute (insert_check c) t = record t {
  checks = insert_or_ignore (λ (r : CheckRow). r.event_id) c t.checks;
}
execute (insert_sla s) t = record t {
  slas = insert_or_ignore (λ (r : SlaRow). r.sla_id) (fill_sla s.quorum_threshold s) t.slas;
}
execute (insert_lifecycle_event l) t = record t {
  lifecycle_events = insert_or_ignore (λ (r : LifecycleEventRow). r.event_id) l t.lifecycle_events;
}
execute (insert_settlement s) t = record t {
  settlements =
      insert_or_ignore (λ (r : SettlementRow). r.event_id) (fill_settlement s.quorum_threshold s)
        t.settlements;
}
execute (fill_slas q sla_id) t = record t {
  slas = update_where (λ (r : SlaRow). r.sla_id == sla_id) (fill_sla (some q)) t.slas;
}
execute (fill_settlements q sla_id) t = record t {
  settlements =
      update_where (λ (r : SettlementRow). r.sla_id == sla_id && is_null r.quorum_threshold)
        (fill_settlement (some q)) t.settlements;
}

-- A batch of statements, in order.
unfoldable pub run_statements : List Statement → Tables → Tables
run_statements [] t = t
run_statements (s ∷ ss) t = run_statements ss (execute s t)

-- What `applyBatch` is given; the warnings of the batch are not read.
pub record BatchParams : Type 0 where
  pub last_ledger : ℕ
  pub last_cursor : Option String
  pub batch : ClassifiedBatch

-- A registration inserts or restores its watcher, a removal marks it.
unfoldable pub watcher_statement_as : WatcherEventType → WatcherEvent → Statement
watcher_statement_as registered w = insert_watcher w.address w.at
watcher_statement_as removed w = update_removed w.at w.address

unfoldable pub watcher_statement : WatcherEvent → Statement
unfolding watcher_statement_as
watcher_statement w = watcher_statement_as w.type w

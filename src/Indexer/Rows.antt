-- ===== src/Indexer/Rows.antt =====
-- The rows that ingestion writes (indexer/src/db/db.ts, and `ClassifiedBatch` of
-- indexer/src/ingest/classify.ts).
use slasettle_hub.Prelude.{String, List, [], ◌++◌, Option}
use slasettle_hub.Js.{Number}

pub data CheckStatus : Type 0 where
  up down : CheckStatus

pub record CheckRow : Type 0 where
  pub event_id : String
  pub sla_id : String
  pub round_id : String
  pub watcher : String
  pub status : CheckStatus
  pub endpoint_hash : String
  pub checked_at : String

pub record SlaRow : Type 0 where
  pub sla_id : String
  pub provider : String
  pub token : String
  pub endpoint_hash : String
  pub bond_amount_at_creation : String
  pub quorum_threshold : Option Number
  pub beneficiary : String
  pub created_at : String
  pub tx_hash : String

pub data LifecycleType : Type 0 where
  bond_topped_up sla_cancelled bond_withdrawn : LifecycleType

pub record LifecycleEventRow : Type 0 where
  pub event_id : String
  pub sla_id : String
  pub event_type : LifecycleType
  pub amount : Option String
  pub tx_hash : String
  pub ledger_close_time : String

pub record SettlementRow : Type 0 where
  pub event_id : String
  pub sla_id : String
  pub round_id : String
  pub quorum_threshold : Option Number
  pub penalty_amount : String
  pub beneficiary : String
  pub tx_hash : String
  pub ledger_close_time : String

-- One registration or removal of a watcher: the two literals of `WatcherEvent.type`.
pub data WatcherEventType : Type 0 where
  registered removed : WatcherEventType

pub record WatcherEvent : Type 0 where
  pub type : WatcherEventType
  pub address : String
  pub at : String

pub record ClassifiedBatch : Type 0 where
  pub watcher_events : List WatcherEvent
  pub checks : List CheckRow
  pub slas : List SlaRow
  pub settlements : List SettlementRow
  pub lifecycle_events : List LifecycleEventRow
  -- The event ids that were logged as skipped, in order.
  pub warned : List String

unfoldable pub empty_batch : ClassifiedBatch
empty_batch = record {
  watcher_events = [];
  checks = [];
  slas = [];
  settlements = [];
  lifecycle_events = [];
  warned = [];
}

-- The pushes of one event behind those of the events before it.
unfoldable pub push_all : ClassifiedBatch → ClassifiedBatch → ClassifiedBatch
push_all b c = record {
  watcher_events = b.watcher_events ++ c.watcher_events;
  checks = b.checks ++ c.checks;
  slas = b.slas ++ c.slas;
  settlements = b.settlements ++ c.settlements;
  lifecycle_events = b.lifecycle_events ++ c.lifecycle_events;
  warned = b.warned ++ c.warned;
}

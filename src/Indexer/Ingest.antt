-- ===== src/Indexer/Ingest.antt =====
-- The two ingestion loops: indexer/src/ingest/poller.ts and indexer/src/worker/ingest.ts. What the
-- RPC answers in a cycle, and whether the database write fails, are arguments.
pub mod Poller
pub mod Worker
pub mod Segments
pub mod History
pub mod ExactlyOnce
pub mod Progress
pub mod Scheduled
use slasettle_hub.Prelude.{ℕ, String, List, Option, Result, Error, none, some, ok, err, ◌>>=◌}
use slasettle_hub.Js.{Runtime}
use slasettle_hub.Indexer.Decode.{RawEvent}
use slasettle_hub.Indexer.Rpc.{EventsRequest}

module _ (js : Runtime) where
  -- `GetEventsResponse` of the RPC.
  pub record Page : Type 0 where
    pub events : List (RawEvent js)
    pub latest_ledger : ℕ
    pub cursor : String

  -- The client of one cycle, and how the write of the cycle fails, if it does. A transaction that
  -- fails leaves the tables as they were.
  pub record Cycle : Type 0 where
    pub get_latest_ledger : Result ℕ
    pub get_events : EventsRequest → Result Page
    pub write_failure : Option Error

-- A write that may fail.
unfoldable pub commit {ℓ} : {A : Type ℓ} → Option Error → A → Result A
commit none a = ok a
commit (some e) a = err e

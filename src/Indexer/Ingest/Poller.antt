-- ===== src/Indexer/Ingest/Poller.antt =====
-- indexer/src/ingest/poller.ts, over `IndexerDb`.
use slasettle_hub.Prelude.{
  ℕ, String, List, [], ◌∷◌, map, Bool, true, false, Option, none, some, Result, ok, err, ◌>>=◌,
  ◌==◌, if◌then◌else◌, leb, length, last?, or_else,
}
use slasettle_hub.Js.{Runtime, int, pos}
use slasettle_hub.Indexer.Rows.{empty_batch}
use slasettle_hub.Indexer.Decode.{RawEvent, DecodedEvent, decode_event}
use slasettle_hub.Indexer.Classify.{classify_events}
use slasettle_hub.Indexer.Rpc.{EventsCursor, EventsRequest, from_ledger, from_cursor}
use slasettle_hub.Indexer.Tables.{CheckpointRow, Tables}
use slasettle_hub.Indexer.Tables.Sqlite.{get_checkpoint, apply_batch}
use slasettle_hub.Indexer.Ingest.{Page, Cycle, commit}

-- The settings of indexer/src/config.ts that the poller reads.
pub record Config : Type 0 where
  pub watcher_registry_contract_id : String
  pub sla_vault_contract_id : String
  pub start_ledger : Option ℕ
  pub max_ledgers_per_request : ℕ

-- `checkpoint?.last_cursor`, if it is not empty
unfoldable pub saved_cursor : Option CheckpointRow → Option String
saved_cursor none = none
saved_cursor (some c) = elim c.last_cursor [
  | none ↦ none
  | some cursor ↦ if cursor == "" then none else some cursor
]

unfoldable pub ledger_of_last : Option DecodedEvent → ℕ → ℕ
ledger_of_last none latest = latest
ledger_of_last (some event) latest = event.ledger

-- The request of a cycle, for both contracts.
abbrev pub request_of : Config → EventsCursor → EventsRequest
request_of config cursor = record {
  contract_ids = config.watcher_registry_contract_id ∷ config.sla_vault_contract_id ∷ [];
  cursor = cursor;
  limit = config.max_ledgers_per_request;
}

module _ (js : Runtime) where
  -- Where a cycle resumes; only a database without a cursor asks for the latest ledger.
  unfoldable pub resume_at : Config → Cycle js → Option String → Result EventsCursor
  resume_at config cycle (some cursor) = ok (from_cursor cursor)
  resume_at config cycle none = do
    latest ← cycle.get_latest_ledger
    ok (from_ledger (int (pos (or_else config.start_ledger latest))))

  -- The write of a page with these events: an empty page moves the checkpoint alone.
  unfoldable pub store_events :
      Config → Cycle js → Page js → List (RawEvent js) → Tables → Result (Bool × Tables)
  store_events config cycle page [] t = do
    t' ← commit cycle.write_failure (
        apply_batch
          (record {
            last_ledger = page.latest_ledger;
            last_cursor = some page.cursor;
            batch = empty_batch;
          })
          t)
    ok (false, t')
  store_events config cycle page (raw ∷ raws) t = do
    let decoded = map (decode_event js) (raw ∷ raws)
    batch ← classify_events js decoded
    t' ← commit cycle.write_failure (
        apply_batch
          (record {
            last_ledger = ledger_of_last (last? decoded) page.latest_ledger;
            last_cursor = some page.cursor;
            batch = batch;
          })
          t)
    ok (leb config.max_ledgers_per_request (length decoded), t')

  -- One cycle; a throw leaves the tables as they were.
  unfoldable pub run_once : Config → Cycle js → Tables → Result (Bool × Tables)
  unfolding resume_at store_events saved_cursor ledger_of_last commit
  run_once config cycle t = do
    cursor ← resume_at config cycle (saved_cursor (get_checkpoint t))
    page ← cycle.get_events (request_of config cursor)
    store_events config cycle page page.events t

  -- What follows a cycle: the next one at once, or after the poll interval.
  pub data Pace : Type 0 where
    at_once after_interval : Pace

  unfoldable pub settle_cycle : Tables → Result (Bool × Tables) → Pace × Tables
  settle_cycle t (ok (true, t')) = (at_once, t')
  settle_cycle t (ok (false, t')) = (after_interval, t')
  settle_cycle t (err e) = (after_interval, t)

  -- The loop, for the cycles that run before the signal is aborted.
  unfoldable pub run_forever : Config → List (Cycle js) → Tables → List Pace × Tables
  unfolding settle_cycle
  run_forever config [] t = ([], t)
  run_forever config (cycle ∷ cycles) t =
      let (pace, t') = settle_cycle t (run_once config cycle t) in
      let (paces, end) = run_forever config cycles t' in (pace ∷ paces, end)

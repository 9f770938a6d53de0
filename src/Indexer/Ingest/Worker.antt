-- ===== src/Indexer/Ingest/Worker.antt =====
-- indexer/src/worker/ingest.ts, over `IndexerD1`.
use slasettle_hub.Prelude.{
  ℕ, zero, suc, ◌+◌, String, List, [], ◌∷◌, map, Option, none, some, Result, ok, err, ◌>>=◌, ◌==◌,
  if◌then◌else◌, length, or_else, Error, plain_error,
}
use slasettle_hub.Js.{Runtime, Number, int, pos, str}
use slasettle_hub.Indexer.Decode.{RawEvent, decode_event}
use slasettle_hub.Indexer.Classify.{classify_events}
use slasettle_hub.Indexer.Rpc.{EventsCursor, from_ledger, from_cursor, EventsRequest}
use slasettle_hub.Indexer.Tables.{CheckpointRow, Tables}
use slasettle_hub.Indexer.Tables.D1.{get_checkpoint, apply_batch}
use slasettle_hub.Indexer.Ingest.{commit}
use slasettle_hub.Indexer.Ingest.Poller.{saved_cursor}

-- DEFAULT_START_LEDGER, DEFAULT_LIMIT
abbrev pub default_start_ledger : ℕ
default_start_ledger = 4963530

abbrev pub default_limit : ℕ
default_limit = 50

-- The fields of `WorkerEnv` that ingestion reads; a contract id that is not set is none.
pub record WorkerEnv : Type 0 where
  pub watcher_registry_contract_id : Option String
  pub sla_vault_contract_id : Option String
  pub start_ledger : Option String

-- `typeof id === "string" && id.length > 0`
unfoldable pub set_ids : List (Option String) → List String
set_ids [] = []
set_ids (none ∷ ids) = set_ids ids
set_ids (some id ∷ ids) = if id == "" then set_ids ids else id ∷ set_ids ids

-- The checkpoint's ledger, if it is not 0
unfoldable pub saved_ledger : Option CheckpointRow → Option ℕ
saved_ledger none = none
saved_ledger (some c) = elim c.last_ledger [ zero ↦ none | suc n ↦ some (suc n) ]

unfoldable pub cursor_of_checkpoint : Option CheckpointRow → Option String
cursor_of_checkpoint none = none
cursor_of_checkpoint (some c) = c.last_cursor

unfoldable pub ledger_of_checkpoint : Option CheckpointRow → ℕ
ledger_of_checkpoint none = default_start_ledger
ledger_of_checkpoint (some c) = c.last_ledger

unfoldable pub first_of {ℓ} : {A : Type ℓ} → Option A → Option A → Option A
first_of none d = d
first_of (some a) d = some a

module _ (js : Runtime) where
  -- `GetEventsResponse`, each field of which the worker takes as possibly missing.
  pub record EventsResponse : Type 0 where
    pub events : Option (List (RawEvent js))
    pub latest_ledger : Option ℕ
    pub cursor : Option String

  -- What the RPC answers, and how the write fails, if it does.
  pub record WorkerCycle : Type 0 where
    pub get_events : EventsRequest → Result EventsResponse
    pub write_failure : Option Error

  pub record IngestionResult : Type 0 where
    pub events_indexed : ℕ
    pub last_ledger : ℕ
    pub cursor : Option String

  unfoldable pub configured_start : Option String → Number
  configured_start none = int (pos default_start_ledger)
  configured_start (some s) =
      if s == "" then int (pos default_start_ledger) else js.number_of (str s)

  -- The cursor, the ledger after the checkpoint's, or the configured start.
  unfoldable pub resume_worker : WorkerEnv → Option CheckpointRow → EventsCursor
  resume_worker env cp = elim (saved_cursor cp) [
    | some cursor ↦ from_cursor cursor
    | none ↦ elim (saved_ledger cp) [
      | some ledger ↦ from_ledger (int (pos (ledger + 1)))
      | none ↦ from_ledger (configured_start env.start_ledger)
    ]
  ]

  unfoldable pub run_ingestion_step :
      WorkerEnv → WorkerCycle → Tables → Result (IngestionResult × Tables)
  unfolding set_ids saved_cursor saved_ledger cursor_of_checkpoint ledger_of_checkpoint first_of
      configured_start resume_worker commit
  run_ingestion_step env cycle t =
      elim (set_ids (env.watcher_registry_contract_id ∷ env.sla_vault_contract_id ∷ [])) [
        | [] ↦ err (plain_error "No contract IDs configured for ingestion")
        | id ∷ ids ↦ do
          let cp = get_checkpoint t
          response ← cycle.get_events (record {
            contract_ids = id ∷ ids;
            cursor = resume_worker env cp;
            limit = default_limit;
          })
          let decoded = map (decode_event js) (or_else response.events [])
          batch ← classify_events js decoded
          let last_ledger = or_else response.latest_ledger (ledger_of_checkpoint cp)
          let last_cursor = first_of response.cursor (cursor_of_checkpoint cp)
          t' ← commit cycle.write_failure (
              apply_batch
                (record { last_ledger = last_ledger; last_cursor = last_cursor; batch = batch }) t)
          ok (
            record {
              events_indexed = length decoded;
              last_ledger = last_ledger;
              cursor = last_cursor;
            },
            t',
          )
      ]

  -- The scheduled handler of indexer/src/worker/index.ts.
  -- A step that fails is logged, and the tables stay as they are.
  unfoldable pub settle_step : Tables → Result (IngestionResult × Tables) → Tables
  settle_step t (ok (result, t')) = t'
  settle_step t (err e) = t

  -- The scheduled events, one step each.
  unfoldable pub run_scheduled : WorkerEnv → List WorkerCycle → Tables → Tables
  unfolding settle_step
  run_scheduled env [] t = t
  run_scheduled env (cycle ∷ cycles) t =
      run_scheduled env cycles (settle_step t (run_ingestion_step env cycle t))

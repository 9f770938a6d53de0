-- ===== src/Indexer/WorkerExamples.antt =====
-- Concrete steps of the scheduled worker, and its theorem at them.
use slasettle_hub.Prelude.{[], ◌∷◌, none, some, Result, ok, err, plain_error, ◌≡◌, refl, inl}
use slasettle_hub.Indexer.Rpc.{EventsRequest}
use slasettle_hub.Indexer.Tables.{no_rows}
use slasettle_hub.Indexer.Ingest.{Page}
use slasettle_hub.Indexer.Ingest.Worker.{WorkerEnv, EventsResponse, WorkerCycle, run_scheduled}
use slasettle_hub.Indexer.Ingest.History.{IsPieceOf, IsIngested}
use slasettle_hub.Indexer.Ingest.Scheduled.{ServesWorker, run_scheduled-Ingested}
use slasettle_hub.Indexer.Examples.{runtime, log, position, first, serve, IsPieceOf-serve}

abbrev env : WorkerEnv
env = record {
  watcher_registry_contract_id = some "registry";
  sla_vault_contract_id = some "vault";
  start_ledger = none;
}

abbrev response_of : Result (Page runtime) → Result (EventsResponse runtime)
response_of (ok p) = ok (record {
  events = some p.events;
  latest_ledger = some p.latest_ledger;
  cursor = some p.cursor;
})
response_of (err e) = err e

abbrev worker_cycle : WorkerCycle runtime
worker_cycle = record {
  get_events = λ request. response_of (serve request.cursor);
  write_failure = none;
}

abbrev worker_failing : WorkerCycle runtime
worker_failing = record worker_cycle { write_failure = some (plain_error "D1 is down") }

Serves-response_of :
    (request : EventsRequest) (answer : Result (Page runtime)) (response : EventsResponse runtime)
    → serve request.cursor ≡ answer
    → response_of answer ≡ ok response
    → (page : Page runtime) × (response ≡ record {
      events = some page.events;
      latest_ledger = some page.latest_ledger;
      cursor = some page.cursor;
    })
      × IsPieceOf runtime log position first request page
Serves-response_of request (ok page) response e h =
    (page, cc, IsPieceOf-serve request.contract_ids request.limit request.cursor page e)
Serves-response_of request (err error) response e h = cc

Serves-worker_cycle : ServesWorker runtime env log position first worker_cycle
Serves-worker_cycle request response h =
    Serves-response_of request (serve request.cursor) response refl h

Serves-worker_failing : ServesWorker runtime env log position first worker_failing
Serves-worker_failing request response h =
    Serves-response_of request (serve request.cursor) response refl h

run_scheduled-Ingested_example :
    IsIngested runtime log position first 0
      (run_scheduled runtime env (worker_failing ∷ worker_cycle ∷ worker_cycle ∷ []) no_rows)
run_scheduled-Ingested_example =
    run_scheduled-Ingested runtime env log position first
      (worker_failing ∷ worker_cycle ∷ worker_cycle ∷ []) no_rows
      (Serves-worker_failing, (Serves-worker_cycle, (Serves-worker_cycle, tt))) (inl refl)

-- ===== src/Indexer/Ingest/Scheduled.antt =====
-- The tables of the scheduled worker, too, are those of the history up to the saved cursor, ingested
-- once.
use slasettle_hub.Prelude.{
  ℕ, ◌+◌, String, List, [], ◌∷◌, false, Option, none, some, Result, ok, err, ◌>>=◌, >>=-eq-ok, ◌≡◌,
  inl, inr, refl, ap, ◌∙◌, ◌==◌, take, drop, or_else, All, Error,
}
use mathlib.Core.Path.{subst}
use slasettle_hub.Js.{Runtime, Number}
use slasettle_hub.Indexer.Rows.{ClassifiedBatch}
use slasettle_hub.Indexer.Decode.{RawEvent}
use slasettle_hub.Indexer.Rpc.{EventsCursor, EventsRequest, from_ledger, from_cursor}
use slasettle_hub.Indexer.Tables.{Tables}
use slasettle_hub.Indexer.Tables.D1
use slasettle_hub.Indexer.Tables.Sqlite
use slasettle_hub.Indexer.Tables.Effects.{d1_eq_sqlite}
use slasettle_hub.Indexer.Ingest.{Page, commit}
use slasettle_hub.Indexer.Ingest.Poller.{saved_cursor}
use slasettle_hub.Indexer.Ingest.Worker.{
  WorkerEnv, WorkerCycle, EventsResponse, IngestionResult, set_ids, configured_start, saved_ledger,
  resume_worker, default_limit, first_of, cursor_of_checkpoint, ledger_of_checkpoint,
  run_ingestion_step, settle_step, run_scheduled,
}
use slasettle_hub.Indexer.Ingest.History.{
  Stored, start_of, IsPieceOf, IngestedTo, IsIngested, Ingested-first, Ingested-next, classified,
  saved_cursor-Ingested,
}

module _ (js : Runtime) (env : WorkerEnv) where
  -- What a step that did not fail requested and wrote.
  pub record Stepped (cycle : WorkerCycle js) (t t' : Tables) : Type 0 where
    pub ids : List String
    pub response : EventsResponse js
    pub batch : ClassifiedBatch
    pub answered :
        cycle.get_events (record {
          contract_ids = ids;
          cursor = resume_worker js env (Sqlite.get_checkpoint t);
          limit = default_limit;
        })
        ≡ ok response
    pub classified_page : classified js (or_else response.events []) ≡ ok batch
    pub applied :
        t'
        ≡ Sqlite.apply_batch
            (record {
              last_ledger =
                  or_else response.latest_ledger (ledger_of_checkpoint (Sqlite.get_checkpoint t));
              last_cursor =
                  first_of response.cursor (cursor_of_checkpoint (Sqlite.get_checkpoint t));
              batch = batch;
            })
            t

  commit-eq-ok_tables :
      (failure : Option Error) (r r' : IngestionResult js) (t t' : Tables)
      → ◌>>=◌ {Next = IngestionResult js × Tables} (commit failure t) (λ u. ok (r, u)) ≡ ok (r', t')
      → t' ≡ t
  unfolding commit
  commit-eq-ok_tables none r r' t t' h = cc
  commit-eq-ok_tables (some e) r r' t t' h = cc

  no_ids_throws :
      {message : Error} {answer : IngestionResult js × Tables} → err message ≡ ok answer → ⊥
  no_ids_throws h = cc

  step_with_ids :
      (ids : List String) (cycle : WorkerCycle js) (t t' : Tables) (r : IngestionResult js)
      → set_ids (env.watcher_registry_contract_id ∷ env.sla_vault_contract_id ∷ []) ≡ ids
      → run_ingestion_step js env cycle t ≡ ok (r, t')
      → Stepped cycle t t'
  unfolding run_ingestion_step D1.get_checkpoint Sqlite.get_checkpoint
  step_with_ids [] cycle t t' r e h = absurd (no_ids_throws (rw (e, run_ingestion_step) at h))
  step_with_ids (id ∷ ids) cycle t t' r e h =
      let (response, answered, h1) =
        >>=-eq-ok
          (cycle.get_events (record {
            contract_ids = id ∷ ids;
            cursor = resume_worker js env t.checkpoint;
            limit = default_limit;
          }))
          _ (rw (e, run_ingestion_step) at h) in
      let (batch, parsed, h2) = >>=-eq-ok (classified js (or_else response.events [])) _ h1 in
      record {
        ids = id ∷ ids;
        response = response;
        batch = batch;
        answered = answered;
        classified_page = parsed;
        applied = commit-eq-ok_tables cycle.write_failure _ r _ t' h2 ∙ d1_eq_sqlite _ t;
      }

  run_ingestion_step-Stepped :
      (cycle : WorkerCycle js) (t t' : Tables) (r : IngestionResult js)
      → run_ingestion_step js env cycle t ≡ ok (r, t')
      → Stepped cycle t t'
  run_ingestion_step-Stepped cycle t t' r h = step_with_ids _ cycle t t' r refl h

  module _ (log : List (RawEvent js)) (position : String → ℕ) (first : Number → ℕ) where
    -- A cycle in which the RPC answers faithfully, and with every field, or fails.
    abbrev pub ServesWorker : WorkerCycle js → Type 0
    ServesWorker cycle =
        (request : EventsRequest) (response : EventsResponse js)
        → cycle.get_events request ≡ ok response
        → (page : Page js) × (response ≡ record {
          events = some page.events;
          latest_ledger = some page.latest_ledger;
          cursor = some page.cursor;
        })
          × IsPieceOf js log position first request page

    -- The ledger at which a worker with an empty database starts.
    abbrev pub worker_start : ℕ
    worker_start = first (configured_start js env.start_ledger)

    -- What a step writes that resumes at a known place.
    Stepped-piece :
        (cycle : WorkerCycle js) (t t' : Tables) (s : Stepped cycle t t') (cursor : EventsCursor)
        → resume_worker js env (Sqlite.get_checkpoint t) ≡ cursor
        → ServesWorker cycle
        → (page_cursor : String) × (count : ℕ) × Stored js page_cursor
            (take count (drop (start_of js log position first cursor) log))
            t
            t'
          × (position page_cursor ≡ start_of js log position first cursor + count)
          × ((page_cursor == "") ≡ false)
    unfolding first_of
    Stepped-piece cycle t t' s cursor resumed serves =
        let (page, full, p) = serves _ s.response s.answered in
        let from = ap (start_of js log position first) resumed in
        (
          page.cursor,
          p.count,
          record {
            last_ledger = page.latest_ledger;
            batch = s.batch;
            classified_page =
                subst (λ raws. classified js raws ≡ ok s.batch)
                  (p.piece ∙ ap (λ n. take p.count (drop n log)) from)
                  (subst
                    (λ (r : EventsResponse js). classified js (or_else r.events []) ≡ ok s.batch)
                    full s.classified_page);
            applied =
                subst
                  (λ (r : EventsResponse js).
                    t'
                    ≡ Sqlite.apply_batch
                        (record {
                          last_ledger =
                              or_else r.latest_ledger
                                (ledger_of_checkpoint (Sqlite.get_checkpoint t));
                          last_cursor =
                              first_of r.cursor (cursor_of_checkpoint (Sqlite.get_checkpoint t));
                          batch = s.batch;
                        })
                        t)
                  full s.applied;
          },
          p.ends ∙ ap (λ n. n + p.count) from,
          p.has_cursor,
        )

    Stepped-Ingested :
        (cycle : WorkerCycle js) (t t' : Tables)
        → ServesWorker cycle
        → IsIngested js log position first worker_start t
        → Stepped cycle t t'
        → IngestedTo js log position first worker_start t'
    unfolding resume_worker saved_cursor saved_ledger Sqlite.get_checkpoint
    Stepped-Ingested cycle t t' serves (inl fresh) s =
        let (cursor, count, stored, place, known) =
          Stepped-piece cycle t t' s (from_ledger (configured_start js env.start_ledger))
            (rw fresh refl) serves in
        Ingested-first js log position first cursor worker_start count t'
          (subst (λ u. Stored js cursor (take count (drop worker_start log)) u t') fresh stored)
          place known
    Stepped-Ingested cycle t t' serves (inr i) s =
        let (cursor, count, stored, place, known) =
          Stepped-piece cycle t t' s (from_cursor i.cursor)
            (rw (saved_cursor-Ingested js log position first worker_start t i, resume_worker) refl)
            serves in
        Ingested-next js log position first cursor worker_start count t t' i
          (subst (λ n. Stored js cursor (take count (drop n log)) t t') i.place stored)
          (place ∙ ap (λ n. n + count) i.place) known

    settle_step-Ingested :
        (cycle : WorkerCycle js) (t : Tables) (result : Result (IngestionResult js × Tables))
        → run_ingestion_step js env cycle t ≡ result
        → ServesWorker cycle
        → IsIngested js log position first worker_start t
        → IsIngested js log position first worker_start (settle_step js t result)
    unfolding settle_step
    settle_step-Ingested cycle t (ok (r, t')) e serves i =
        inr (Stepped-Ingested cycle t t' serves i (run_ingestion_step-Stepped cycle t t' r e))
    settle_step-Ingested cycle t (err error) e serves i = i

    -- Suppose the tables are empty or already ingested. After any number of scheduled events, in which
    -- the RPC serves pieces of the history or fails and in which a write may fail, the worker's tables
    -- are still empty, or they are those of one batch that holds the history from the configured
    -- start up to the saved cursor, written once into empty tables.
    pub run_scheduled-Ingested :
        (cycles : List (WorkerCycle js)) (t : Tables)
        → All ServesWorker cycles
        → IsIngested js log position first worker_start t
        → IsIngested js log position first worker_start (run_scheduled js env cycles t)
    unfolding run_scheduled
    run_scheduled-Ingested [] t serves i = i
    run_scheduled-Ingested (cycle ∷ cycles) t (serves, rest) i =
        run_scheduled-Ingested cycles _ rest
          (settle_step-Ingested cycle t (run_ingestion_step js env cycle t) refl serves i)

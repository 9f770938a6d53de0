-- ===== src/Indexer/Ingest/Progress.antt =====
-- When a cycle moves the cursor, and when the poller cannot move at all.
use slasettle_hub.Prelude.{
  String, List, [], ◌∷◌, map, Bool, false, none, some, ok, err, ◌≡◌, refl, ◌==◌, leb, length, last?,
  All, Error,
}
use slasettle_hub.Js.{Runtime}
use slasettle_hub.Indexer.Rows.{ClassifiedBatch, empty_batch}
use slasettle_hub.Indexer.Decode.{RawEvent, decode_event}
use slasettle_hub.Indexer.Classify.{classify_events, classify_from}
use slasettle_hub.Indexer.Rpc.{from_cursor}
use slasettle_hub.Indexer.Tables.{Tables, BatchParams}
use slasettle_hub.Indexer.Tables.Sqlite.{get_checkpoint, apply_batch}
use slasettle_hub.Indexer.Tables.Effects.{apply_batch-tables_after}
use slasettle_hub.Indexer.Ingest.{Page, Cycle, commit}
use slasettle_hub.Indexer.Ingest.Poller.{
  Config, request_of, saved_cursor, ledger_of_last, resume_at, store_events, run_once, settle_cycle,
  run_forever,
}
use slasettle_hub.Indexer.Ingest.History.{classified}

saved_cursor-apply_batch :
    (p : BatchParams) (t : Tables) (c : String)
    → p.last_cursor ≡ some c
    → (c == "") ≡ false
    → saved_cursor (get_checkpoint (apply_batch p t)) ≡ some c
unfolding saved_cursor get_checkpoint
saved_cursor-apply_batch p t c e known = rw apply_batch-tables_after (rw e (rw known refl))

module _ (js : Runtime) (config : Config) where
  -- A cycle that succeeds and saves this cursor.
  abbrev pub Advances : Cycle js → Tables → String → Type 0
  Advances cycle t cursor =
      (more : Bool) × (t' : Tables) × (run_once js config cycle t ≡ ok (more, t'))
      × (saved_cursor (get_checkpoint t') ≡ some cursor)

  store_events-advances :
      (cycle : Cycle js) (t : Tables) (page : Page js) (raws : List (RawEvent js))
      (batch : ClassifiedBatch)
      → classified js raws ≡ ok batch
      → cycle.write_failure ≡ none
      → (page.cursor == "") ≡ false
      → (more : Bool) × (t' : Tables) × (store_events js config cycle page raws t ≡ ok (more, t'))
        × (saved_cursor (get_checkpoint t') ≡ some page.cursor)
  unfolding store_events commit
  store_events-advances cycle t page [] batch parsed written known = (
    false,
    apply_batch
        (record {
          last_ledger = page.latest_ledger;
          last_cursor = some page.cursor;
          batch = empty_batch;
        })
        t,
    rw written refl,
    saved_cursor-apply_batch _ t page.cursor refl known,
  )
  store_events-advances cycle t page (raw ∷ raws) batch parsed written known = (
    leb config.max_ledgers_per_request (length (map (decode_event js) (raw ∷ raws))),
    apply_batch
        (record {
          last_ledger =
              ledger_of_last (last? (map (decode_event js) (raw ∷ raws))) page.latest_ledger;
          last_cursor = some page.cursor;
          batch = batch;
        })
        t,
    rw (parsed, written) refl,
    saved_cursor-apply_batch _ t page.cursor refl known,
  )

  -- If the page behind the saved cursor has a cursor that is not empty and is classified without a
  -- throw, and the write does not fail, the cycle succeeds, and the saved cursor is then the page's.
  pub run_once-Advances :
      (cycle : Cycle js) (t : Tables) (cursor : String) (page : Page js) (batch : ClassifiedBatch)
      → saved_cursor (get_checkpoint t) ≡ some cursor
      → cycle.get_events (request_of config (from_cursor cursor)) ≡ ok page
      → classified js page.events ≡ ok batch
      → cycle.write_failure ≡ none
      → (page.cursor == "") ≡ false
      → Advances cycle t page.cursor
  unfolding run_once resume_at
  run_once-Advances cycle t cursor page batch saved answered parsed written known =
      rw saved
        (rw answered (store_events-advances cycle t page page.events batch parsed written known))

  store_events-throws :
      (cycle : Cycle js) (t : Tables) (page : Page js) (raws : List (RawEvent js)) (e : Error)
      → classified js raws ≡ err e
      → store_events js config cycle page raws t ≡ err e
  unfolding store_events
  store_events-throws cycle t page [] e h = unfold classify_events classify_from in cc
  store_events-throws cycle t page (raw ∷ raws) e h = rw h refl

  -- A cycle that is answered with a page whose classification throws.
  pub record IsPoisoned (cursor : String) (cycle : Cycle js) : Type 0 where
    pub page : Page js
    pub error : Error
    pub answered : cycle.get_events (request_of config (from_cursor cursor)) ≡ ok page
    pub throws : classified js page.events ≡ err error

  run_once-poisoned :
      (cycle : Cycle js) (t : Tables) (cursor : String) (p : IsPoisoned cursor cycle)
      → saved_cursor (get_checkpoint t) ≡ some cursor
      → run_once js config cycle t ≡ err p.error
  unfolding run_once resume_at
  run_once-poisoned cycle t cursor p saved =
      rw saved (rw p.answered (store_events-throws cycle t p.page p.page.events p.error p.throws))

  -- As long as the RPC answers the saved cursor with pages that hold an event whose classification
  -- throws, the poller stores nothing, however many cycles run: one malformed amount or endpoint
  -- hash stops ingestion behind it.
  pub run_forever-poisoned :
      (cycles : List (Cycle js)) (t : Tables) (cursor : String)
      → saved_cursor (get_checkpoint t) ≡ some cursor
      → All (IsPoisoned cursor) cycles
      → (run_forever js config cycles t).1 ≡ t
  unfolding run_forever settle_cycle
  run_forever-poisoned [] t cursor saved h = refl
  run_forever-poisoned (cycle ∷ cycles) t cursor saved (p, h) =
      rw (run_once-poisoned cycle t cursor p saved) (run_forever-poisoned cycles t cursor saved h)

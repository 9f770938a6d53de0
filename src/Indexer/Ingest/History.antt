-- ===== src/Indexer/Ingest/History.antt =====
-- What it means that tables hold the history up to a cursor, ingested once.
use slasettle_hub.Prelude.{
  ℕ, ◌+◌, String, List, [], ◌∷◌, map, map-append, Bool, false, Option, none, some, Result, ok,
  ◌>>=◌, >>=-eq-ok, ◌≡◌, ◌⊎◌, refl, sym, ap, ◌∙◌, ◌==◌, take, drop, last?, arith, Error,
}
use slasettle_hub.Js.{Runtime, Number}
use slasettle_hub.Indexer.Rows.{ClassifiedBatch, empty_batch, push_all}
use slasettle_hub.Indexer.Decode.{RawEvent, decode_event}
use slasettle_hub.Indexer.Classify.{classify_events}
use slasettle_hub.Indexer.Classify.Pages.{classify_events-append}
use slasettle_hub.Indexer.Rpc.{EventsCursor, from_ledger, from_cursor, EventsRequest}
use slasettle_hub.Indexer.Tables.{Tables, no_rows}
use slasettle_hub.Indexer.Tables.Sqlite.{get_checkpoint, apply_batch}
use slasettle_hub.Indexer.Tables.Effects.{apply_batch-tables_after}
use slasettle_hub.Indexer.Tables.Replay.{apply_batch-push_all}
use slasettle_hub.Indexer.Ingest.{Page, Cycle, commit}
use slasettle_hub.Indexer.Ingest.Poller.{Config, saved_cursor, ledger_of_last, store_events}
use slasettle_hub.Indexer.Ingest.Segments.{segment-append}

-- A write that succeeds wrote what it was given.
pub commit-eq-ok :
    (failure : Option Error) (more : Bool) (t : Tables) {more' : Bool} {t' : Tables}
    → ◌>>=◌ {Next = Bool × Tables} (commit failure t) (λ u. ok (more, u)) ≡ ok (more', t')
    → t' ≡ t
unfolding commit
commit-eq-ok none more t h = ground arith
commit-eq-ok (some e) more t h = cc

module _ (js : Runtime) where
  abbrev pub classified : List (RawEvent js) → Result ClassifiedBatch
  classified raws = classify_events js (map (decode_event js) raws)

  -- What a successful write of some events amounts to.
  pub record Stored (cursor : String) (raws : List (RawEvent js)) (t t' : Tables) : Type 0 where
    pub last_ledger : ℕ
    pub batch : ClassifiedBatch
    pub classified_page : classified raws ≡ ok batch
    pub applied :
        t'
        ≡ apply_batch
            (record { last_ledger = last_ledger; last_cursor = some cursor; batch = batch })
            t

  pub store_events-Stored :
      (config : Config) (cycle : Cycle js) (page : Page js) (raws : List (RawEvent js))
      (t t' : Tables) (more : Bool)
      → store_events js config cycle page raws t ≡ ok (more, t')
      → Stored page.cursor raws t t'
  unfolding store_events
  store_events-Stored config cycle page [] t t' more h = record {
    last_ledger = page.latest_ledger;
    batch = empty_batch;
    classified_page = unfold classify_events in refl;
    applied = commit-eq-ok cycle.write_failure false _ h;
  }
  store_events-Stored config cycle page (raw ∷ raws) t t' more h =
      let (batch, parsed, written) = >>=-eq-ok (classified (raw ∷ raws)) _ h in
      record {
        last_ledger =
            ledger_of_last (last? (map (decode_event js) (raw ∷ raws))) page.latest_ledger;
        batch = batch;
        classified_page = parsed;
        applied = commit-eq-ok cycle.write_failure _ _ written;
      }

  module _ (log : List (RawEvent js)) (position : String → ℕ) (first : Number → ℕ) where
    -- The place in the history from which a request reads.
    abbrev pub start_of : EventsCursor → ℕ
    start_of (from_ledger n) = first n
    start_of (from_cursor c) = position c

    -- A page is the piece of the history behind the request's place, of any length, and its cursor
    -- stands at the end of that piece. What the RPC documents of `getEvents`.
    pub record IsPieceOf (request : EventsRequest) (page : Page js) : Type 0 where
      pub count : ℕ
      pub piece : page.events ≡ take count (drop (start_of request.cursor) log)
      pub ends : position page.cursor ≡ start_of request.cursor + count
      pub has_cursor : (page.cursor == "") ≡ false

    -- A cycle in which the RPC answers faithfully, or fails.
    abbrev pub Serves : Cycle js → Type 0
    Serves cycle =
        (request : EventsRequest) (page : Page js)
        → cycle.get_events request ≡ ok page
        → IsPieceOf request page

    -- The tables of the first `count` events behind `from`, ingested once, under a cursor that
    -- stands behind them.
    pub record IngestedTo (from : ℕ) (t : Tables) : Type 0 where
      pub count : ℕ
      pub last_ledger : ℕ
      pub cursor : String
      pub batch : ClassifiedBatch
      pub place : position cursor ≡ from + count
      pub has_cursor : (cursor == "") ≡ false
      pub history : classified (take count (drop from log)) ≡ ok batch
      pub tables :
          t
          ≡ apply_batch
              (record { last_ledger = last_ledger; last_cursor = some cursor; batch = batch })
              no_rows

    -- A database that no cycle has written yet, or one that is ingested up to its cursor.
    abbrev pub IsIngested : ℕ → Tables → Type 0
    IsIngested from t = (t ≡ no_rows) ⊎ IngestedTo from t

    -- The first page of an empty database.
    pub Ingested-first :
        (cursor : String) (from count : ℕ) (t' : Tables)
        → Stored cursor (take count (drop from log)) no_rows t'
        → position cursor ≡ from + count
        → (cursor == "") ≡ false
        → IngestedTo from t'
    Ingested-first cursor from count t' s place known = record {
      count = count;
      last_ledger = s.last_ledger;
      cursor = cursor;
      batch = s.batch;
      place = place;
      has_cursor = known;
      history = s.classified_page;
      tables = s.applied;
    }

    -- A page behind the saved cursor.
    pub Ingested-next :
        (cursor : String) (from count : ℕ) (t t' : Tables) (i : IngestedTo from t)
        → Stored cursor (take count (drop (from + i.count) log)) t t'
        → position cursor ≡ from + i.count + count
        → (cursor == "") ≡ false
        → IngestedTo from t'
    Ingested-next cursor from count t t' i s place known = record {
      count = i.count + count;
      last_ledger = s.last_ledger;
      cursor = cursor;
      batch = push_all i.batch s.batch;
      place = omega arith;
      has_cursor = known;
      history =
          rw (sym (segment-append from i.count count log))
            (rw map-append (rw classify_events-append (rw (i.history, s.classified_page) refl)));
      tables = s.applied ∙ ap (apply_batch _) i.tables ∙ apply_batch-push_all _ _ no_rows;
    }

    pub saved_cursor-Ingested :
        (from : ℕ) (t : Tables) (i : IngestedTo from t)
        → saved_cursor (get_checkpoint t) ≡ some i.cursor
    unfolding saved_cursor get_checkpoint
    saved_cursor-Ingested from t i =
        rw i.tables (rw apply_batch-tables_after (rw i.has_cursor refl))

-- ===== src/Indexer/Ingest/ExactlyOnce.antt =====
-- Whatever fails and however the history is cut into pages, the poller's tables are those of the
-- history up to the saved cursor, ingested once.
use slasettle_hub.Prelude.{
  ℕ, ◌+◌, String, List, [], ◌∷◌, Bool, true, false, none, some, Result, ok, err, >>=-eq-ok, ◌≡◌,
  inl, inr, refl, ap, ◌∙◌, ◌==◌, take, drop, arith, All,
}
use mathlib.Core.Path.{subst}
use slasettle_hub.Js.{Runtime, Number, int, pos}
use slasettle_hub.Indexer.Decode.{RawEvent}
use slasettle_hub.Indexer.Rpc.{EventsCursor, from_ledger, from_cursor}
use slasettle_hub.Indexer.Tables.{Tables}
use slasettle_hub.Indexer.Tables.Sqlite.{get_checkpoint}
use slasettle_hub.Indexer.Ingest.{Page, Cycle}
use slasettle_hub.Indexer.Ingest.Poller.{
  Config, request_of, saved_cursor, resume_at, run_once, settle_cycle, run_forever,
}
use slasettle_hub.Indexer.Ingest.History.{
  Stored, store_events-Stored, start_of, Serves, IngestedTo, IsIngested, Ingested-first,
  Ingested-next, saved_cursor-Ingested,
}

module _ (js : Runtime) (config : Config) where
  -- The parts of a cycle that did not throw.
  pub record Ran (cycle : Cycle js) (t t' : Tables) : Type 0 where
    pub cursor : EventsCursor
    pub page : Page js
    pub resumed : resume_at js config cycle (saved_cursor (get_checkpoint t)) ≡ ok cursor
    pub answered : cycle.get_events (request_of config cursor) ≡ ok page
    pub stored : Stored js page.cursor page.events t t'

  run_once-Ran :
      (cycle : Cycle js) (t t' : Tables) (more : Bool)
      → run_once js config cycle t ≡ ok (more, t')
      → Ran cycle t t'
  unfolding run_once
  run_once-Ran cycle t t' more h =
      let (cursor, resumed, rest) =
        >>=-eq-ok (resume_at js config cycle (saved_cursor (get_checkpoint t))) _ h in
      let (page, answered, stored) =
        >>=-eq-ok (cycle.get_events (request_of config cursor)) _ rest in
      record {
        cursor = cursor;
        page = page;
        resumed = resumed;
        answered = answered;
        stored = store_events-Stored js config cycle page page.events t t' more stored;
      }

  resume_at-start :
      (cycle : Cycle js) {s : ℕ} {cursor : EventsCursor}
      → config.start_ledger ≡ some s
      → resume_at js config cycle none ≡ ok cursor
      → cursor ≡ from_ledger (int (pos s))
  unfolding resume_at
  resume_at-start cycle e h = ground arith

  resume_at-cursor :
      (cycle : Cycle js) (c : String) {cursor : EventsCursor}
      → resume_at js config cycle (some c) ≡ ok cursor
      → cursor ≡ from_cursor c
  unfolding resume_at
  resume_at-cursor cycle c h = ground arith

  module _ (log : List (RawEvent js)) (position : String → ℕ) (first : Number → ℕ) where
    -- The page of a cycle that resumed at a known place.
    Stored-piece :
        (cycle : Cycle js) (t t' : Tables) (cursor : EventsCursor) (r : Ran cycle t t')
        → r.cursor ≡ cursor
        → Serves js log position first cycle
        → (count : ℕ) × Stored js r.page.cursor
            (take count (drop (start_of js log position first cursor) log))
            t
            t'
          × (position r.page.cursor ≡ start_of js log position first cursor + count)
          × ((r.page.cursor == "") ≡ false)
    Stored-piece cycle t t' cursor r e serves =
        let p = serves (request_of config r.cursor) r.page r.answered in
        (
          p.count,
          subst (λ raws. Stored js r.page.cursor raws t t')
              (p.piece ∙ ap (λ c. take p.count (drop (start_of js log position first c) log)) e)
              r.stored,
          p.ends ∙ ap (λ c. start_of js log position first c + p.count) e,
          p.has_cursor,
        )

    Ran-Ingested :
        (cycle : Cycle js) (s : ℕ) (t t' : Tables)
        → config.start_ledger ≡ some s
        → Serves js log position first cycle
        → IsIngested js log position first (first (int (pos s))) t
        → Ran cycle t t'
        → IngestedTo js log position first (first (int (pos s))) t'
    unfolding saved_cursor get_checkpoint
    Ran-Ingested cycle s t t' start serves (inl fresh) r =
        let at_start : r.cursor ≡ from_ledger (int (pos s)) = resume_at-start cycle start (
          subst (λ u. resume_at js config cycle (saved_cursor (get_checkpoint u)) ≡ ok r.cursor)
            fresh r.resumed) in
        let (count, stored, place, known) = Stored-piece cycle t t' _ r at_start serves in
        Ingested-first js log position first r.page.cursor (first (int (pos s))) count t'
          (subst (λ u. Stored js r.page.cursor (take count (drop (first (int (pos s))) log)) u t')
            fresh stored)
          place known
    Ran-Ingested cycle s t t' start serves (inr i) r =
        let at_cursor : r.cursor ≡ from_cursor i.cursor = resume_at-cursor cycle i.cursor (
          subst (λ o. resume_at js config cycle o ≡ ok r.cursor)
            (saved_cursor-Ingested js log position first (first (int (pos s))) t i) r.resumed) in
        let (count, stored, place, known) = Stored-piece cycle t t' _ r at_cursor serves in
        Ingested-next js log position first r.page.cursor (first (int (pos s))) count t t' i
          (subst (λ n. Stored js r.page.cursor (take count (drop n log)) t t') i.place stored)
          (place ∙ ap (λ n. n + count) i.place) known

    settle_cycle-Ingested :
        (cycle : Cycle js) (s : ℕ) (t : Tables) (result : Result (Bool × Tables))
        → run_once js config cycle t ≡ result
        → config.start_ledger ≡ some s
        → Serves js log position first cycle
        → IsIngested js log position first (first (int (pos s))) t
        → IsIngested js log position first (first (int (pos s))) (settle_cycle js t result).1
    unfolding settle_cycle
    settle_cycle-Ingested cycle s t (ok (true, t')) e start serves i =
        inr (Ran-Ingested cycle s t t' start serves i (run_once-Ran cycle t t' true e))
    settle_cycle-Ingested cycle s t (ok (false, t')) e start serves i =
        inr (Ran-Ingested cycle s t t' start serves i (run_once-Ran cycle t t' false e))
    settle_cycle-Ingested cycle s t (err error) e start serves i = i

    -- Suppose a start ledger is configured and the tables are empty or already ingested. After any
    -- number of cycles, in which the RPC serves pieces of the history or fails and in which a write
    -- may fail, the tables are still empty, or they are those of one batch that holds the history
    -- from the start up to the saved cursor, written once into empty tables.
    pub run_forever-Ingested :
        (s : ℕ) (cycles : List (Cycle js)) (t : Tables)
        → config.start_ledger ≡ some s
        → All (Serves js log position first) cycles
        → IsIngested js log position first (first (int (pos s))) t
        → IsIngested js log position first (first (int (pos s))) (run_forever js config cycles t).1
    unfolding run_forever
    run_forever-Ingested s [] t start serves i = i
    run_forever-Ingested s (cycle ∷ cycles) t start (serves, rest) i =
        run_forever-Ingested s cycles _ start rest
          (settle_cycle-Ingested cycle s t (run_once js config cycle t) refl start serves i)

-- ===== src/Indexer/Examples.antt =====
-- Concrete runs of the indexer, and the theorems at concrete inputs.
use slasettle_hub.Prelude.{
  ℕ, String, List, [], ◌∷◌, true, none, some, Result, ok, err, plain_error, ◌≡◌, refl, ◌==◌,
  if◌then◌else◌, Bool-cases, inl, inr, arith, keep_if, ◌++◌, ◌>>=◌, leb,
}
use mathlib.Core.Path.{subst}
use slasettle_hub.Js.{
  Runtime, Value, undefined, str, obj, field, end, num, bool, Number, nan, int, pos, property,
}
use slasettle_hub.Indexer.Rows.{
  ClassifiedBatch, WatcherEvent, registered, removed, SettlementRow, empty_batch, push_all,
}
use slasettle_hub.Indexer.Decode.{
  RawEvent, DecodedEvent, decode_event, event_type_of, amount_to_string,
}
use slasettle_hub.Indexer.Classify.{classify_events, classify_event, classify_as, type_of}
use slasettle_hub.Indexer.Rpc.{
  EventsCursor, from_ledger, from_cursor, Outcome, resolved, rejected, with_network_retry,
}
use slasettle_hub.Indexer.Tables.{watcher_statement, Tables, execute, no_rows, BatchParams}
use slasettle_hub.Indexer.Tables.D1.{newest_first, settlement_key}
use slasettle_hub.Indexer.Tables.D1
use slasettle_hub.Indexer.Sql.{has_key}
use slasettle_hub.Indexer.Tables.Sqlite
use slasettle_hub.Indexer.Tables.Effects.{d1_eq_sqlite}
use slasettle_hub.Indexer.Tables.Pages.{collect, collect_complete}
use slasettle_hub.Indexer.Tables.Replay.{SameTables, apply_batch_idempotent, apply_batch-push_all}
use slasettle_hub.Indexer.Tables.Keys.{IsKeyed, apply_batch-IsKeyed}
use slasettle_hub.Indexer.Sql.Sorted.{IsDescending}
use slasettle_hub.Indexer.Classify.Pages.{classify_events-append}
use slasettle_hub.Indexer.Rpc.Retry.{EndsAt, with_network_retry-EndsAt}
use slasettle_hub.Indexer.Ingest.{Page, Cycle}
use slasettle_hub.Indexer.Ingest.Poller.{Config, saved_cursor, run_once, settle_cycle, run_forever}
use slasettle_hub.Indexer.Ingest.History.{IsPieceOf, Serves, IsIngested, classified}
use slasettle_hub.Indexer.Ingest.ExactlyOnce.{run_forever-Ingested}
use slasettle_hub.Indexer.Ingest.Progress.{
  Advances, run_once-Advances, IsPoisoned, run_forever-poisoned,
}

-- A runtime that prints texts as they are, and whose values are sent decoded.
abbrev text_of_value : Value → String
text_of_value (str s) = s
text_of_value _ = "0"

abbrev pub runtime : Runtime
runtime = record {
  text_of = text_of_value;
  number_of = λ v. nan;
  ScVal = Value;
  sc_val_to_native = λ v. v;
  text_of_str = λ s. refl;
  text_of_bigint = λ n. refl;
}

-- Two events of one history: a registration and a settlement.
abbrev registration : RawEvent runtime
registration = record {
  id = "e1";
  ledger = 7;
  ledger_closed_at = "2026-01-01";
  tx_hash = "t1";
  contract_id = some "registry";
  topic = str "watcher_registered" ∷ str "GA" ∷ [];
  value = undefined;
}

abbrev payout : RawEvent runtime
payout = record {
  id = "e2";
  ledger = 8;
  ledger_closed_at = "2026-01-02";
  tx_hash = "t2";
  contract_id = some "vault";
  topic = str "settlement_paid" ∷ str "1" ∷ str "40" ∷ [];
  value = obj (field "payout" (str "500") (field "beneficiary" (str "GB") end));
}

abbrev pub log : List (RawEvent runtime)
log = registration ∷ payout ∷ []

abbrev pub position : String → ℕ
position c = if c == "c1" then 1 else if c == "c2" then 2 else 0

abbrev pub first : Number → ℕ
first n = 0

abbrev page_1 : Page runtime
page_1 = record { events = registration ∷ []; latest_ledger = 9; cursor = "c1" }

abbrev page_2 : Page runtime
page_2 = record { events = payout ∷ []; latest_ledger = 9; cursor = "c2" }

-- One event a page, in two pages; a request behind them fails.
abbrev pub serve : EventsCursor → Result (Page runtime)
serve (from_ledger n) = ok page_1
serve (from_cursor c) = if c == "c1" then ok page_2 else err (plain_error "down")

abbrev cycle : Cycle runtime
cycle = record {
  get_latest_ledger = ok 9;
  get_events = λ request. serve request.cursor;
  write_failure = none;
}

-- A cycle whose request is answered and whose write fails.
abbrev failing : Cycle runtime
failing = record cycle { write_failure = some (plain_error "disk is full") }

abbrev config : Config
config = record {
  watcher_registry_contract_id = "registry";
  sla_vault_contract_id = "vault";
  start_ledger = some 5;
  max_ledgers_per_request = 100;
}

pub IsPieceOf-serve :
    (ids : List String) (limit : ℕ) (cursor : EventsCursor) (page : Page runtime)
    → serve cursor ≡ ok page
    → IsPieceOf runtime log position first
        (record { contract_ids = ids; cursor = cursor; limit = limit })
        page
IsPieceOf-serve ids limit (from_ledger n) page h =
    let e : page_1 ≡ page = cc in
    subst
      (IsPieceOf runtime log position first
        (record { contract_ids = ids; cursor = from_ledger n; limit = limit }))
      e (record { count = 1; piece = refl; ends = refl; has_cursor = refl })
IsPieceOf-serve ids limit (from_cursor c) page h = elim (Bool-cases (c == "c1")) [
  | inl known ↦
      let e : page_2 ≡ page = ground arith in
      subst
        (IsPieceOf runtime log position first
          (record { contract_ids = ids; cursor = from_cursor c; limit = limit }))
        e (record { count = 1; piece = rw known refl; ends = rw known refl; has_cursor = refl })
  | inr unknown ↦ absurd (ground arith)
]

Serves-cycle : Serves runtime log position first cycle
Serves-cycle request page h =
    IsPieceOf-serve request.contract_ids request.limit request.cursor page h

Serves-failing : Serves runtime log position first failing
Serves-failing request page h =
    IsPieceOf-serve request.contract_ids request.limit request.cursor page h

run_forever-Ingested_example :
    IsIngested runtime log position first 0
      (run_forever runtime config (failing ∷ cycle ∷ failing ∷ cycle ∷ []) no_rows).1
run_forever-Ingested_example =
    run_forever-Ingested runtime config log position first 5
      (failing ∷ cycle ∷ failing ∷ cycle ∷ []) no_rows refl
      (Serves-failing, (Serves-cycle, (Serves-failing, (Serves-cycle, tt)))) (inl refl)

-- Two settlements in the same second.
abbrev settled : String → SettlementRow
settled id = record {
  event_id = id;
  sla_id = "1";
  round_id = "40";
  quorum_threshold = none;
  penalty_amount = "500";
  beneficiary = "GB";
  tx_hash = "t2";
  ledger_close_time = "2026-01-02";
}

abbrev pub paged : Tables
paged = record no_rows { settlements = settled "e2" ∷ settled "e3" ∷ [] }

collect_complete_example :
    (collect "1" 1 paged 2 none
      ≡ newest_first (keep_if (λ (r : SettlementRow). r.sla_id == "1") paged.settlements))
    × IsDescending settlement_key (collect "1" 1 paged 2 none)
unfolding has_key
collect_complete_example =
    collect_complete "1" 1 paged 2 (refl, (refl, tt)) (omega arith) (omega arith)

-- A watcher that leaves and comes back, and one that leaves.
abbrev history : List WatcherEvent
history =
    record { type = registered; address = "GA"; at = "1" }
    ∷ record { type = registered; address = "GB"; at = "2" }
    ∷ record { type = removed; address = "GA"; at = "3" }
    ∷ record { type = removed; address = "GB"; at = "4" }
    ∷ record { type = registered; address = "GA"; at = "5" }
    ∷ []

abbrev params : BatchParams
params = record {
  last_ledger = 8;
  last_cursor = some "c2";
  batch = record empty_batch { watcher_events = history; settlements = settled "e2" ∷ [] };
}

apply_batch_idempotent_example :
    SameTables
      (Sqlite.apply_batch params (Sqlite.apply_batch params no_rows))
      (Sqlite.apply_batch params no_rows)
apply_batch_idempotent_example = apply_batch_idempotent params no_rows

apply_batch-push_all_example :
    Sqlite.apply_batch params (Sqlite.apply_batch params no_rows)
    ≡ Sqlite.apply_batch (record params { batch = push_all params.batch params.batch }) no_rows
apply_batch-push_all_example = apply_batch-push_all params params no_rows

d1_eq_sqlite_example : D1.apply_batch params paged ≡ Sqlite.apply_batch params paged
d1_eq_sqlite_example = d1_eq_sqlite params paged

apply_batch-IsKeyed_example : IsKeyed (Sqlite.apply_batch params paged)
unfolding has_key
apply_batch-IsKeyed_example = apply_batch-IsKeyed params paged (record {
  watchers = tt;
  checks = tt;
  slas = tt;
  settlements = (refl, (refl, tt));
  lifecycle_events = tt;
})

abbrev decoded : List DecodedEvent
decoded = decode_event runtime registration ∷ decode_event runtime payout ∷ []

abbrev batch_of : Result ClassifiedBatch → ClassifiedBatch
batch_of (ok b) = b
batch_of (err e) = empty_batch

classify_events-append_example : classify_events runtime (decoded ++ decoded) ≡ (
    classify_events runtime decoded >>= λ b.
    classify_events runtime decoded >>= λ c. ok (push_all b c))
classify_events-append_example = classify_events-append runtime decoded decoded

-- A network failure, then an answer.
abbrev answers : ℕ → Outcome ℕ
answers n = if leb n 1 then rejected (obj (field "isAxiosError" (bool true) end)) else resolved n

with_network_retry-EndsAt_example : EndsAt answers 1 (with_network_retry answers)
with_network_retry-EndsAt_example = with_network_retry-EndsAt answers

-- The tables behind the first page.
abbrev after_page_1 : Tables
after_page_1 = (run_forever runtime config (cycle ∷ []) no_rows).1

saved_cursor-after_page_1 : saved_cursor (Sqlite.get_checkpoint after_page_1) ≡ some "c1"
unfolding run_forever run_once saved_cursor Sqlite.get_checkpoint Sqlite.apply_batch classify_events
    decode_event settle_cycle execute classify_event classify_as type_of event_type_of push_all
    watcher_statement
saved_cursor-after_page_1 = refl

classified-page_2 :
    classified runtime page_2.events ≡ ok (batch_of (classified runtime page_2.events))
unfolding classify_events decode_event classify_event classify_as type_of event_type_of property
    amount_to_string
classified-page_2 = refl

run_once-Advances_example : Advances runtime config cycle after_page_1 "c2"
run_once-Advances_example =
    run_once-Advances runtime config cycle after_page_1 "c1" page_2
      (batch_of (classified runtime page_2.events)) saved_cursor-after_page_1 refl classified-page_2
      refl refl

-- A settlement whose payout is a number throws.
abbrev malformed : RawEvent runtime
malformed = record payout { value = obj (field "payout" (num (int (pos 500))) end) }

abbrev page_bad : Page runtime
page_bad = record { events = malformed ∷ []; latest_ledger = 9; cursor = "c2" }

abbrev bad : Cycle runtime
bad = record cycle { get_events = λ request. ok page_bad }

throws-page_bad :
    classified runtime page_bad.events ≡ err (plain_error "amountToString received a JS number")
unfolding classify_events classify_event decode_event classify_as type_of event_type_of property
    amount_to_string
throws-page_bad = refl

IsPoisoned-bad : IsPoisoned runtime config "c1" bad
IsPoisoned-bad = record {
  page = page_bad;
  error = plain_error "amountToString received a JS number";
  answered = refl;
  throws = throws-page_bad;
}

run_forever-poisoned_example :
    (run_forever runtime config (bad ∷ bad ∷ []) after_page_1).1 ≡ after_page_1
run_forever-poisoned_example =
    run_forever-poisoned runtime config (bad ∷ bad ∷ []) after_page_1 "c1" saved_cursor-after_page_1
      (IsPoisoned-bad, (IsPoisoned-bad, tt))

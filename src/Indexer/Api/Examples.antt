-- ===== src/Indexer/Api/Examples.antt =====
-- Concrete requests to the API, and its theorems at concrete inputs.
use slasettle_hub.Prelude.{
  ◌+◌, ◌≤◌, false, [], ◌∷◌, map, none, some, inr, ◌≡◌, refl, Result, ok, err, plain_error, ◌>>=◌,
  ◌==◌, All, keep_if, arith,
}
use slasettle_hub.Js.{fractional, Value, str, num, obj, field, end, int, pos}
use slasettle_hub.Indexer.Rows.{up, registered, removed, empty_batch, SettlementRow}
use slasettle_hub.Indexer.Tables.{BatchParams, Tables, no_rows, is_null}
use slasettle_hub.Indexer.Tables.Sqlite
use slasettle_hub.Indexer.Tables.D1
use slasettle_hub.Indexer.Tables.Watchers.{eligible_after, last_event}
use slasettle_hub.Indexer.Sql.{has_key, order_by}
use slasettle_hub.Indexer.Sql.Sorted.{IsDescending}
use slasettle_hub.Indexer.Tables.D1.{newest_first, settlements_before, settlement_key}
use slasettle_hub.Indexer.Api.{Codec, optional_field}
use slasettle_hub.Indexer.Ingest.{commit}
use slasettle_hub.Prelude.TextOrder.{key_ltb}
use slasettle_hub.Indexer.Api.Ledger.{LedgerInfo, get_latest_ledger_info}
use slasettle_hub.Indexer.Api.Limits.{
  page_limit, requested_limit, IsAnswerTo, page_limit-IsAnswerTo,
}
use slasettle_hub.Indexer.Api.Thresholds.{LiveReads, FillState, Filled, fill_or_throw, fill_or_log}
use slasettle_hub.Indexer.Api.Thresholds.Fetches.{
  without_threshold, missing, fill_or_throw-bounds, fill_or_log_failing,
}
use slasettle_hub.Indexer.Api.Responses.{SettlementsAnswer, CurrentRound, watcher_item}
use slasettle_hub.Indexer.Api.Agreement.{
  settlements-agree, follow, follow_complete, value_once, query_once,
}
use slasettle_hub.Indexer.Api.Watchers.{
  is_listed, list_watchers-apply_batch, IsPartitioned, get_current_round-IsPartitioned,
}
use slasettle_hub.Indexer.Api.Methods.{without_body, handle_request-method}
use slasettle_hub.Indexer.Api.Node
use slasettle_hub.Indexer.Api.Worker
use slasettle_hub.Indexer.Api.Worker.{Request, handle_request}
use slasettle_hub.Indexer.Examples.{runtime, paged}

-- A codec that sends values as they are.
abbrev pub codec : Codec
codec = record {
  Json = Value;
  Encoded = Value;
  stringify = λ v. v;
  parse = λ v. ok v;
  to_base64url = λ v. v;
  of_base64url = λ v. v;
  iso_string = λ n. "2026-01-01T00:00:00.000Z";
  parse_stringify = λ v h. refl;
  of_to_base64url = λ v. refl;
}

abbrev live : LiveReads
live = record { fetch = λ n. ok (int (pos 3)); write_failure = none }

abbrev down : LiveReads
down = record { fetch = λ n. err (plain_error "down"); write_failure = none }

abbrev fresh : FillState
fresh = record { cached = none; fetches = 0; tables = paged }

abbrev filled_of : Result Filled → Filled
filled_of (ok f) = f
filled_of (err e) = record { rows = []; state = fresh }

filled-paged :
    fill_or_throw live "1" paged.settlements fresh
    ≡ ok (filled_of (fill_or_throw live "1" paged.settlements fresh))
unfolding fill_or_throw commit
filled-paged = refl

fill_or_throw-bounds_example :
    ((filled_of (fill_or_throw live "1" paged.settlements fresh)).state.fetches ≤ 1)
    × All
        (λ row. is_null row.quorum_threshold ≡ false)
        (filled_of (fill_or_throw live "1" paged.settlements fresh)).rows
    × (map without_threshold (filled_of (fill_or_throw live "1" paged.settlements fresh)).rows
        ≡ map without_threshold paged.settlements)
fill_or_throw-bounds_example =
    fill_or_throw-bounds live "1" paged.settlements paged
      (filled_of (fill_or_throw live "1" paged.settlements fresh)) filled-paged

fill_or_log_failing_example : fill_or_log down "1" paged.settlements fresh ≡ record {
  rows = paged.settlements;
  state = record { cached = none; fetches = 0 + missing paged.settlements; tables = paged };
}
fill_or_log_failing_example =
    fill_or_log_failing down "1" paged.settlements 0 paged (λ k. (plain_error "down", refl))

abbrev answer_of : Result (SettlementsAnswer codec × Tables) → SettlementsAnswer codec × Tables
answer_of (ok a) = a
answer_of (err e) = (SettlementsAnswer.invalid_limit "no answer", no_rows)

abbrev answered : SettlementsAnswer codec × Tables
answered =
    answer_of
      (Node.settlements runtime codec live "1" (value_once (some "2")) (query_once none) paged)

settlements-answered :
    Node.settlements runtime codec live "1" (value_once (some "2")) (query_once none) paged
    ≡ ok answered
unfolding Node.settlements page_limit requested_limit fill_or_throw settlements_before newest_first
    order_by key_ltb commit
settlements-answered = refl

settlements-agree_example :
    Worker.settlements runtime codec live "1" (some "2") none paged ≡ answered
settlements-agree_example =
    settlements-agree runtime codec live "1" (some "2") none paged answered settlements-answered

follow_complete_example :
    (follow codec "1" 1 paged 2 none
      ≡ newest_first (keep_if (λ (r : SettlementRow). r.sla_id == "1") paged.settlements))
    × IsDescending settlement_key (follow codec "1" 1 paged 2 none)
unfolding has_key
follow_complete_example =
    follow_complete codec "1" 1 paged 2 (refl, (refl, tt)) (omega arith) (omega arith)

page_limit-IsAnswerTo_example : IsAnswerTo (fractional (pos 2)) (page_limit (fractional (pos 2)))
page_limit-IsAnswerTo_example = page_limit-IsAnswerTo (fractional (pos 2))

abbrev raw_ledger : Value
raw_ledger = obj (field "sequence" (num (int (pos 7))) (field "closeTime" (str "125") end))

abbrev ledger : LedgerInfo
ledger = record { sequence = 7; close_time_ms = 125000 }

-- GA is removed and registered again, GB has checked in.
abbrev watched : Tables
watched = record no_rows {
  watchers =
      record { address = "GA"; registered_at = "1"; removed_at = some "2" }
      ∷ record { address = "GB"; registered_at = "2"; removed_at = none }
      ∷ [];
  checks =
      record {
        event_id = "e4";
        sla_id = "1";
        round_id = "2";
        watcher = "GB";
        status = up;
        endpoint_hash = "00";
        checked_at = "3";
      }
      ∷ [];
}

abbrev again : BatchParams
again = record {
  last_ledger = 8;
  last_cursor = some "c2";
  batch = record empty_batch {
    watcher_events =
        record { type = removed; address = "GA"; at = "4" }
        ∷ record { type = registered; address = "GA"; at = "5" }
        ∷ [];
  };
}

list_watchers-apply_batch_example :
    (is_listed "GA" (Node.list_watchers (Sqlite.apply_batch again watched))
      ≡ eligible_after
          (last_event "GA" again.batch.watcher_events)
          (is_listed "GA" (Node.list_watchers watched)))
    × (is_listed "GA" (map watcher_item (D1.get_eligible_watchers (D1.apply_batch again watched)))
        ≡ eligible_after
            (last_event "GA" again.batch.watcher_events)
            (is_listed "GA" (map watcher_item (D1.get_eligible_watchers watched))))
list_watchers-apply_batch_example = list_watchers-apply_batch "GA" again watched

abbrev round_of : Result CurrentRound → CurrentRound
round_of (ok r) = r
round_of (err e) = record {
  round_id = 0;
  round_started_at = "";
  checked_in = [];
  not_yet_checked_in = [];
}

abbrev round : CurrentRound
round = round_of (Worker.get_current_round runtime codec (ok raw_ledger) 60 "1" watched)

round-answered : Worker.get_current_round runtime codec (ok raw_ledger) 60 "1" watched ≡ ok round
unfolding Worker.get_current_round get_latest_ledger_info optional_field
round-answered = refl

get_current_round-IsPartitioned_example : IsPartitioned runtime "GB" "1" watched round
get_current_round-IsPartitioned_example =
    get_current_round-IsPartitioned runtime codec 60 "1" watched "GB" (ok raw_ledger) round
      (inr round-answered)

abbrev request : Request codec
request = record {
  method = "GET";
  path = "/v1/slas/1/settlements";
  limit = none;
  before = none;
  latest = ok raw_ledger;
  live = live;
}

handle_request-method_example :
    handle_request runtime codec 60 (record request { method = "HEAD" }) paged ≡ (
      handle_request runtime codec 60 (record request { method = "GET" }) paged >>= λ (r, t').
      ok (without_body runtime codec r, t'))
handle_request-method_example = handle_request-method runtime codec 60 request paged

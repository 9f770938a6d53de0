-- ===== src/Web/RoundExamples.antt =====
-- apps/web/lib/use-round-status.ts: a view at the boundary of two rounds.
use slasettle_hub.Prelude.{some, true, false, if◌then◌else◌, nat_eq, ◌≡◌, refl}
use slasettle_hub.Js.{pos, int, Value, num, str, obj, arr, nil, cons, field, end, lookup_field}
use slasettle_hub.Web.Reads.{got}
use slasettle_hub.Web.Client.{as_object, non_negative_int, timestamp, stellar_address}
use slasettle_hub.Web.Client.Requests.{indexer_get, check_sla_id, array_field, parse_items}
use slasettle_hub.Web.Client.Watchers.{
  get_current_round, parse_current_round, parse_checked_in, read_status, read_watcher_address,
}
use slasettle_hub.Web.Client.Endpoints.{get_clock}
use slasettle_hub.Web.RoundStatus.{
  RoundReads, RoundStatusView, round_start, fetch_round_status, round_status, label_of,
  from_round_start, tally_of, settled_of, source_of, loaded,
}
use slasettle_hub.Web.RoundStatus.Labels.{IsLabelled, fetch_round_status-IsLabelled}
use slasettle_hub.Web.Examples.{browser}

-- The clock is still in round 40, while the round that is asked for is 41.
abbrev clock_body : Value
clock_body = obj (
    field "ledger_sequence" (num (int (pos 9000))) (
      field "ledger_close_time" (str "2026-01-01T00:00:00Z")
        (field "current_round_id" (num (int (pos 40))) end)))

abbrev round_body : Value
round_body = obj (
    field "round_id" (num (int (pos 41))) (
      field "round_started_at" (str "2026-01-01T00:01:00Z") (
        field "checked_in"
          (arr (
            cons
              (obj (
                field "watcher" (str "GA") (
                  field "status" (str "up") (field "checked_at" (str "2026-01-01T00:01:05Z") end))))
              nil))
          (field "not_yet_checked_in" (arr (cons (str "GB") nil)) end))))

abbrev reads : RoundReads
reads = record {
  get_round_tally = λ id. got (record { votes_up = int (pos 1); votes_down = int (pos 0) });
  is_round_settled = λ id. if nat_eq id 41 then got false else got true;
}

abbrev view : RoundStatusView
view = fetch_round_status reads (browser clock_body) (browser round_body) (pos 1)

view_of_round :
    (view.round_id ≡ some 41)
    × (view.as_of ≡ some "2026-01-01T00:01:00Z")
    × (view.as_of_source ≡ some round_start)
    × (view.settled ≡ loaded false)
unfolding fetch_round_status round_status label_of from_round_start tally_of settled_of source_of
    get_clock get_current_round indexer_get as_object non_negative_int lookup_field timestamp
    check_sla_id parse_current_round array_field parse_items parse_checked_in read_status
    stellar_address read_watcher_address
view_of_round = (refl, refl, refl, refl)

fetch_round_status-IsLabelled_example :
    IsLabelled reads
      (get_clock (browser clock_body))
      (get_current_round (browser round_body) (pos 1))
      view
fetch_round_status-IsLabelled_example =
    fetch_round_status-IsLabelled reads (browser clock_body) (browser round_body) (pos 1)

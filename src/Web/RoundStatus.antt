-- ===== src/Web/RoundStatus.antt =====
-- apps/web/lib/use-round-status.ts: what is shown of a round. The reads of the SDK are functions of the
-- round that they are asked for; `useRoundStatus` polls `fetch_round_status`.
pub mod Labels
use slasettle_hub.Prelude.{
  ℕ, String, List, ◌++◌, map, Bool, Option, none, some, nat_eq, if◌then◌else◌,
}
use slasettle_hub.Js.{ℤ}
use slasettle_hub.Sdk.Registry.{DecodedTally}
use slasettle_hub.Web.Reads.{ReadError, plain_error, Read, thrown, got, describe_read_error}
use slasettle_hub.Web.Client.{Browser}
use slasettle_hub.Web.Client.Watchers.{
  CheckedStatus, CheckedInWatcher, CurrentRound, get_current_round,
}
use slasettle_hub.Web.Client.Endpoints.{Clock, get_clock}

-- A check, or none yet.
pub data WatcherCheckStatus : Type 0 where
  checked : CheckedStatus → WatcherCheckStatus
  pending : WatcherCheckStatus

pub record RoundWatcherView : Type 0 where
  pub address : String
  pub status : WatcherCheckStatus

pub data Source {ℓ} (A : Type ℓ) : Type ℓ where
  loaded : A → Source A
  unavailable : String → Source A

pub data AsOfSource : Type 0 where
  ledger round_start : AsOfSource

pub record RoundStatusView : Type 0 where
  pub round_id : Option ℕ
  pub as_of : Option String
  pub as_of_source : Option AsOfSource
  pub watchers : Source (List RoundWatcherView)
  pub tally : Source DecodedTally
  pub settled : Source Bool

pub record RoundReads : Type 0 where
  pub get_round_tally : ℕ → Read DecodedTally
  pub is_round_settled : ℕ → Read Bool

unfoldable pub source_of {ℓ} : {A : Type ℓ} → Read A → Source A
source_of (got a) = loaded a
source_of (thrown e) = unavailable (describe_read_error e)

unfoldable pub watcher_views : CurrentRound → List RoundWatcherView
watcher_views r =
    map (λ (w : CheckedInWatcher). record { address = w.watcher; status = checked w.status })
      r.checked_in
    ++ map (λ (a : String). record { address = a; status = pending }) r.not_yet_checked_in

unfoldable pub watchers_of : Read CurrentRound → Source (List RoundWatcherView)
unfolding watcher_views
watchers_of (got r) = loaded (watcher_views r)
watchers_of (thrown e) = unavailable (describe_read_error e)

-- The round, the time that it is shown with, and where the time is from.
pub record Label : Type 0 where
  pub round_id : Option ℕ
  pub as_of : Option String
  pub as_of_source : Option AsOfSource

abbrev no_label : Label
no_label = record { round_id = none; as_of = none; as_of_source = none }

unfoldable pub from_clock : Clock → Label
from_clock c = record {
  round_id = some c.current_round_id;
  as_of = some c.ledger_close_time;
  as_of_source = some ledger;
}

unfoldable pub from_round_start : CurrentRound → Label
from_round_start r = record {
  round_id = some r.round_id;
  as_of = some r.round_started_at;
  as_of_source = some round_start;
}

unfoldable pub label_of : Read Clock → Read CurrentRound → Label
unfolding from_clock from_round_start
label_of (got c) (got r) =
    if nat_eq c.current_round_id r.round_id
    then record {
      round_id = some r.round_id;
      as_of = some c.ledger_close_time;
      as_of_source = some ledger;
    }
    else from_round_start r
label_of (thrown e) (got r) = from_round_start r
label_of (got c) (thrown e) = from_clock c
label_of (thrown e) (thrown e') = no_label

-- Why no round is known.
unfoldable pub no_round_message : Read Clock → String
no_round_message (thrown e) = describe_read_error e
no_round_message (got c) = describe_read_error (plain_error "The current round is unknown.")

unfoldable pub tally_of : RoundReads → Read Clock → Option ℕ → Source DecodedTally
unfolding source_of no_round_message
tally_of reads clock none = unavailable (no_round_message clock)
tally_of reads clock (some id) = source_of (reads.get_round_tally id)

unfoldable pub settled_of : RoundReads → Read Clock → Option ℕ → Source Bool
unfolding source_of no_round_message
settled_of reads clock none = unavailable (no_round_message clock)
settled_of reads clock (some id) = source_of (reads.is_round_settled id)

-- The view of what the two requests to the indexer give.
unfoldable pub round_status : RoundReads → Read Clock → Read CurrentRound → RoundStatusView
unfolding label_of watchers_of tally_of settled_of
round_status reads clock current =
    let label = label_of clock current in
    record {
      round_id = label.round_id;
      as_of = label.as_of;
      as_of_source = label.as_of_source;
      watchers = watchers_of current;
      tally = tally_of reads clock label.round_id;
      settled = settled_of reads clock label.round_id;
    }

-- The browser of each of the two requests, which have their own answers.
unfoldable pub fetch_round_status : RoundReads → Browser → Browser → ℤ → RoundStatusView
unfolding round_status
fetch_round_status reads for_clock for_round sla_id =
    round_status reads (get_clock for_clock) (get_current_round for_round sla_id)

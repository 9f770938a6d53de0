-- ===== src/Web/Client/Watchers.antt =====
-- apps/web/lib/indexer.ts: the health, the watchers and the current round.
use Prim.Native.String.{◌++◌ as text_append}
use slasettle_hub.Prelude.{ℕ, String, Bool, false, Option, ◌==◌, if◌then◌else◌, List}
use slasettle_hub.Js.{ℤ, Value, str, Fields, lookup_field}
use slasettle_hub.Web.Reads.{indexer_response, Read, thrown, got, ◌>>=◌}
use slasettle_hub.Web.Client.{
  Browser, as_object, non_negative_int, nullable_non_negative_int, timestamp, stellar_address,
}
use slasettle_hub.Web.Client.Requests.{
  indexer_get, PagedResult, array_field, envelope, parse_items, element_name, check_sla_id,
}

pub record EligibleWatcher : Type 0 where
  pub address : String
  pub registered_at : String

pub data CheckedStatus : Type 0 where
  up down : CheckedStatus

pub record CheckedInWatcher : Type 0 where
  pub watcher : String
  pub status : CheckedStatus
  pub checked_at : String

pub record CurrentRound : Type 0 where
  pub round_id : ℕ
  pub round_started_at : String
  pub checked_in : List CheckedInWatcher
  pub not_yet_checked_in : List String

abbrev both_arrays : String
both_arrays = "\"checked_in\" and \"not_yet_checked_in\" must both be arrays."

unfoldable pub is_text : Value → String → Bool
is_text (str s) text = s == text
is_text _ text = false

unfoldable pub read_status : Browser → Value → String → ℕ → Read CheckedStatus
unfolding is_text
read_status browser v endpoint index =
    if is_text v "up"
    then got up
    else if is_text v "down"
    then got down
    else thrown (
        indexer_response endpoint (
          text_append (element_name browser "checked_in" index)
            ".status is not \"up\" or \"down\"."))

unfoldable pub read_watcher_address : Browser → String → ℕ → Value → Read String
read_watcher_address browser endpoint index (str address) =
    if browser.keys.is_valid_ed25519_public_key address
    then got address
    else thrown (
        indexer_response endpoint (
          text_append (element_name browser "not_yet_checked_in" index)
            " is not a watcher address."))
read_watcher_address browser endpoint index _ = thrown (
    indexer_response endpoint
      (text_append (element_name browser "not_yet_checked_in" index) " is not a watcher address."))

module _ (browser : Browser) where
  -- getHealth: the last indexed ledger
  unfoldable pub get_health : Read (Option ℕ)
  unfolding indexer_get as_object is_text nullable_non_negative_int
  get_health = do
    response ← indexer_get browser "/v1/health"
    fields ← as_object response "/v1/health" "the response"
    if is_text (lookup_field "status" fields) "ok"
        then nullable_non_negative_int fields "last_indexed_ledger" "/v1/health"
        else thrown (indexer_response "/v1/health" "\"status\" is not \"ok\".")

  unfoldable pub parse_watcher : String → Fields → Read EligibleWatcher
  parse_watcher endpoint w = do
    address ← stellar_address browser w "address" endpoint
    registered_at ← timestamp browser w "registered_at" endpoint
    got (record { address = address; registered_at = registered_at })

  unfoldable pub get_watchers : Read (PagedResult EligibleWatcher)
  get_watchers = do
    response ← indexer_get browser "/v1/watchers"
    envelope browser response "/v1/watchers" (parse_watcher "/v1/watchers")

  unfoldable pub parse_checked_in : String → ℕ → Value → Read CheckedInWatcher
  parse_checked_in endpoint index item = do
    w ← as_object item endpoint (element_name browser "checked_in" index)
    status ← read_status browser (lookup_field "status" w) endpoint index
    watcher ← stellar_address browser w "watcher" endpoint
    checked_at ← timestamp browser w "checked_at" endpoint
    got (record { watcher = watcher; status = status; checked_at = checked_at })

  unfoldable pub parse_current_round : String → Value → Read CurrentRound
  parse_current_round endpoint response = do
    fields ← as_object response endpoint "the response"
    checks ← array_field (lookup_field "checked_in" fields) endpoint both_arrays
    others ← array_field (lookup_field "not_yet_checked_in" fields) endpoint both_arrays
    round_id ← non_negative_int fields "round_id" endpoint
    round_started_at ← timestamp browser fields "round_started_at" endpoint
    checked_in ← parse_items browser (parse_checked_in endpoint) 0 checks
    not_yet ← parse_items browser (read_watcher_address browser endpoint) 0 others
    got (record {
      round_id = round_id;
      round_started_at = round_started_at;
      checked_in = checked_in;
      not_yet_checked_in = not_yet;
    })

  unfoldable pub get_current_round : ℤ → Read CurrentRound
  get_current_round sla_id = do
    id ← check_sla_id browser sla_id
    let endpoint = text_append "/v1/slas/" (text_append id "/current-round")
    response ← indexer_get browser endpoint
    parse_current_round endpoint response

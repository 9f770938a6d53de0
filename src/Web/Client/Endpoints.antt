-- ===== src/Web/Client/Endpoints.antt =====
-- apps/web/lib/indexer.ts: the endpoints, each with the checks of its answer.
pub mod Served
use Prim.Native.String.{◌++◌ as text_append}
use slasettle_hub.Prelude.{
  ℕ, String, Bool, true, false, not, ◌&&◌, ◌||◌, Option, none, some, ◌==◌, nat_eq, if◌then◌else◌,
  List, [], ◌∷◌, ◌++◌,
}
use slasettle_hub.Js.{ℤ, pos, negsuc, Number, int, Value, str, arr, Values, Fields, lookup_field}
use slasettle_hub.Web.Reads.{ReadError, indexer_response, range_error, Read, thrown, got, ◌>>=◌}
use slasettle_hub.Web.Client.{
  Browser, as_object, text_field, non_negative_int, nullable_non_negative_int, amount, timestamp,
  stellar_address, tx_hash, https_url,
}
use slasettle_hub.Web.Client.Requests.{
  indexer_get, PagedResult, array_field, envelope, parse_items, element_name, check_sla_id,
}

pub record IndexedSettlement : Type 0 where
  pub round_id : ℕ
  pub votes_up : ℕ
  pub votes_down : ℕ
  pub quorum_threshold : ℕ
  pub penalty_amount : ℕ
  pub beneficiary : String
  pub tx_hash : String
  pub ledger_close_time : String
  pub explorer_url : String

pub record ProviderSlaSummary : Type 0 where
  pub sla_id : ℕ
  pub token : String
  pub bond_amount_at_creation : ℕ
  pub beneficiary : String
  pub created_at : String
  pub tx_hash : String

pub record Clock : Type 0 where
  pub ledger_sequence : ℕ
  pub ledger_close_time : String
  pub current_round_id : ℕ

-- The page to ask for: `limit` and `before`.
pub record PageOptions : Type 0 where
  pub limit : Option Number
  pub before : Option String

module _ (browser : Browser) where
  unfoldable pub check_limit : Option Number → Read (List (String × String))
  check_limit none = got []
  check_limit (some (int (pos n))) =
      if nat_eq n 0
      then thrown (range_error "limit must be a positive integer.")
      else got (("limit", browser.text_of n) ∷ [])
  check_limit (some n) = thrown (range_error "limit must be a positive integer.")

  unfoldable pub before_param : Option String → List (String × String)
  before_param none = []
  before_param (some cursor) = ("before", cursor) ∷ []

  unfoldable pub query_string : List (String × String) → String
  query_string [] = ""
  query_string (p ∷ params) = text_append "?" (browser.query_of (p ∷ params))

  unfoldable pub parse_settlement : String → Fields → Read IndexedSettlement
  parse_settlement endpoint s = do
    round_id ← non_negative_int s "round_id" endpoint
    votes_up ← non_negative_int s "votes_up" endpoint
    votes_down ← non_negative_int s "votes_down" endpoint
    quorum_threshold ← non_negative_int s "quorum_threshold" endpoint
    penalty_amount ← amount s "penalty_amount" endpoint
    beneficiary ← stellar_address browser s "beneficiary" endpoint
    hash ← tx_hash browser s "tx_hash" endpoint
    ledger_close_time ← timestamp browser s "ledger_close_time" endpoint
    explorer_url ← https_url browser s "explorer_url" endpoint
    got (record {
      round_id = round_id;
      votes_up = votes_up;
      votes_down = votes_down;
      quorum_threshold = quorum_threshold;
      penalty_amount = penalty_amount;
      beneficiary = beneficiary;
      tx_hash = hash;
      ledger_close_time = ledger_close_time;
      explorer_url = explorer_url;
    })

  -- The endpoint of a page of settlements.
  unfoldable pub settlements_endpoint : ℤ → PageOptions → Read String
  unfolding check_limit before_param query_string check_sla_id
  settlements_endpoint sla_id options = do
    limit ← check_limit options.limit
    id ← check_sla_id browser sla_id
    got (
        text_append "/v1/slas/" (
          text_append id
            (text_append "/settlements" (query_string (limit ++ before_param options.before)))))

  unfoldable pub get_settlements : ℤ → PageOptions → Read (PagedResult IndexedSettlement)
  get_settlements sla_id options = do
    endpoint ← settlements_endpoint sla_id options
    response ← indexer_get browser endpoint
    envelope browser response endpoint (parse_settlement endpoint)

  unfoldable pub parse_provider_sla : String → Fields → Read ProviderSlaSummary
  parse_provider_sla endpoint s = do
    sla_id ← non_negative_int s "sla_id" endpoint
    token ← stellar_address browser s "token" endpoint
    bond ← amount s "bond_amount_at_creation" endpoint
    beneficiary ← stellar_address browser s "beneficiary" endpoint
    created_at ← timestamp browser s "created_at" endpoint
    hash ← tx_hash browser s "tx_hash" endpoint
    got (record {
      sla_id = sla_id;
      token = token;
      bond_amount_at_creation = bond;
      beneficiary = beneficiary;
      created_at = created_at;
      tx_hash = hash;
    })

  unfoldable pub get_provider_slas : String → Read (PagedResult ProviderSlaSummary)
  get_provider_slas address =
      if browser.keys.is_valid_ed25519_public_key address
      then (do
        let endpoint = text_append "/v1/providers/" (text_append address "/slas")
        response ← indexer_get browser endpoint
        envelope browser response endpoint (parse_provider_sla endpoint))
      else thrown (range_error "address must be a valid Stellar account address (G...).")

  unfoldable pub get_clock : Read Clock
  get_clock = do
    response ← indexer_get browser "/v1/clock"
    fields ← as_object response "/v1/clock" "the response"
    sequence ← non_negative_int fields "ledger_sequence" "/v1/clock"
    close_time ← timestamp browser fields "ledger_close_time" "/v1/clock"
    round ← non_negative_int fields "current_round_id" "/v1/clock"
    got (record {
      ledger_sequence = sequence;
      ledger_close_time = close_time;
      current_round_id = round;
    })

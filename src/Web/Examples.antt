-- ===== src/Web/Examples.antt =====
-- Concrete answers of the indexer, and what apps/web/lib/indexer.ts, apps/web/lib/use-provider-slas.ts
-- and apps/web/lib/use-settlement-history.ts make of them.
use slasettle_hub.Prelude.{
  ℕ, [], ◌∷◌, keep_if, true, false, not, none, some, ◌≡◌, refl, arith, if◌then◌else◌, nat_eq,
}
use slasettle_hub.Js.{
  int, pos, Value, null, num, str, arr, obj, nil, cons, Fields, field, end, lookup_field,
}
use slasettle_hub.Indexer.Api.Responses.{SettlementItem}
use slasettle_hub.Sdk.Examples.{sla}
use slasettle_hub.Web.Texts.{is_hash}
use slasettle_hub.Web.Reads.{ReadError, plain_error, thrown, got}
use slasettle_hub.Web.Client.{
  Browser, body, json, is_decimal, digits_value, non_negative_int, stellar_address, amount,
  timestamp, tx_hash,
}
use slasettle_hub.Web.Client.Requests.{PagedResult, indexer_get, envelope}
use slasettle_hub.Web.Client.Endpoints.{
  IndexedSettlement, PageOptions, ProviderSlaSummary, get_settlements, settlements_endpoint,
  get_provider_slas, parse_provider_sla,
}
use slasettle_hub.Web.Client.Endpoints.Served.{
  settlements_json, Shows, get_settlements-served, get_settlements-unknown_threshold,
}
use slasettle_hub.Web.ProviderSlas.{ChainReads, ProviderSlaResult, fetch_provider_slas, read_sla}
use slasettle_hub.Web.ProviderSlas.Laws.{
  readable, ids, view_ids, failure_ids, is_got, fetch_provider_slas-ids,
}

abbrev served : SettlementItem
served = record {
  round_id = int (pos 40);
  votes_up = 1;
  votes_down = 3;
  quorum_threshold = some (int (pos 3));
  penalty_amount = "500";
  beneficiary = "GB";
  tx_hash = "aaaaaaaaaaaaaaaaaaaaaaaaaaaaaaaaaaaaaaaaaaaaaaaaaaaaaaaaaaaaaaaa";
  ledger_close_time = "2026-01-02";
  explorer_url = "https://stellar.expert/tx";
}

abbrev shown : IndexedSettlement
shown = record {
  round_id = 40;
  votes_up = 1;
  votes_down = 3;
  quorum_threshold = 3;
  penalty_amount = 500;
  beneficiary = "GB";
  tx_hash = "aaaaaaaaaaaaaaaaaaaaaaaaaaaaaaaaaaaaaaaaaaaaaaaaaaaaaaaaaaaaaaaa";
  ledger_close_time = "2026-01-02";
  explorer_url = "https://stellar.expert/tx";
}

-- A browser whose indexer answers every request alike.
abbrev pub browser : Value → Browser
browser answer = record {
  indexer_url = some "https://indexer/";
  fetch = λ url. body (json answer);
  keys = record { is_valid_ed25519_public_key = λ s. true; is_valid_contract = λ s. true };
  parses_date = λ s. true;
  parse_url = λ s. some ("https:", s);
  to_lower_case = λ s. s;
  text_of = λ n. "1";
  query_of = λ ps. "limit=20";
}

abbrev options : PageOptions
options = record { limit = some (int (pos 20)); before = none }

abbrev page : Value
page = settlements_json (served ∷ []) none

Shows-served : Shows (browser page) served shown
unfolding is_hash is_decimal digits_value
Shows-served = record {
  round_id = refl;
  round_id_safe = omega arith;
  votes_up = refl;
  votes_up_safe = omega arith;
  votes_down = refl;
  votes_down_safe = omega arith;
  threshold = refl;
  threshold_safe = omega arith;
  penalty_digits = refl;
  penalty = refl;
  beneficiary = refl;
  beneficiary_set = refl;
  beneficiary_valid = refl;
  hash = refl;
  hash_set = refl;
  hash_lower = refl;
  time_set = refl;
  time_valid = refl;
  time = refl;
  url_set = refl;
  url = refl;
}

get_settlements-served_example :
    get_settlements (browser page) (pos 1) options
    ≡ got (record { items = shown ∷ []; next_cursor = none })
unfolding settlements_endpoint indexer_get settlements_json
get_settlements-served_example =
    get_settlements-served (browser page) (pos 1) options "/v1/slas/1/settlements?limit=20"
      (served ∷ []) (shown ∷ []) none refl refl (Shows-served, tt)

abbrev unknown : SettlementItem
unknown = record served { quorum_threshold = none }

abbrev page_with_unknown : Value
page_with_unknown = settlements_json (served ∷ unknown ∷ []) none

get_settlements-unknown_threshold_example :
    (e : ReadError) × (get_settlements (browser page_with_unknown) (pos 1) options ≡ thrown e)
unfolding settlements_endpoint indexer_get settlements_json
get_settlements-unknown_threshold_example =
    get_settlements-unknown_threshold (browser page_with_unknown) (pos 1) options
      "/v1/slas/1/settlements?limit=20" (served ∷ []) unknown [] none refl refl refl

abbrev summary : ℕ → ProviderSlaSummary
summary id = record {
  sla_id = id;
  token = "CA";
  bond_amount_at_creation = 1000;
  beneficiary = "GB";
  created_at = "2026-01-01";
  tx_hash = served.tx_hash;
}

-- The bond of SLA 2 cannot be read.
abbrev reads : ChainReads
reads = record {
  get_sla = λ id. got sla;
  get_bond_balance = λ id. if nat_eq id 2 then thrown (plain_error "timeout") else got (pos 1000);
  get_token_decimals = λ token. got 7;
  get_token_symbol = λ token. got "USDC";
  bond_first = λ id. false;
  symbol_first = λ token. false;
}

abbrev summaries : PagedResult ProviderSlaSummary
summaries = record { items = summary 1 ∷ summary 2 ∷ summary 3 ∷ []; next_cursor = none }

abbrev summary_json : ℕ → Fields
summary_json id = field "sla_id" (num (int (pos id))) (
    field "token" (str "CA") (
      field "bond_amount_at_creation" (str "1000") (
        field "beneficiary" (str "GB")
          (field "created_at" (str "2026-01-01") (field "tx_hash" (str served.tx_hash) end)))))

abbrev provider_page : Value
provider_page = obj (
    field "data"
      (arr (
        cons (obj (summary_json 1))
          (cons (obj (summary_json 2)) (cons (obj (summary_json 3)) nil))))
      (field "next_cursor" null end))

provider_page-read : get_provider_slas (browser provider_page) "GA" ≡ got summaries
unfolding get_provider_slas parse_provider_sla envelope indexer_get non_negative_int stellar_address
    amount timestamp tx_hash lookup_field
provider_page-read = refl

fetch_provider_slas-ids_example :
    (r : ProviderSlaResult) × (fetch_provider_slas (browser provider_page) reads "GA" ≡ got r)
    × (view_ids r.slas ≡ ids (keep_if (readable reads) summaries.items))
    × (failure_ids r.failures ≡ ids (keep_if (λ s. not (readable reads s)) summaries.items))
fetch_provider_slas-ids_example =
    fetch_provider_slas-ids reads (browser provider_page) "GA" summaries provider_page-read

-- Which SLAs the lists of the last example hold.
readable_ids : ids (keep_if (readable reads) summaries.items) ≡ 1 ∷ 3 ∷ []
unfolding read_sla is_got
readable_ids = refl

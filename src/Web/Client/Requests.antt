-- ===== src/Web/Client/Requests.antt =====
-- apps/web/lib/indexer.ts: one request to the indexer, and the envelope of its answer.
use Prim.Native.Char.{code}
use Prim.Native.String.{[] as end_of_text, ◌∷◌ as ◌::◌, ◌++◌ as text_append}
use slasettle_hub.Prelude.{
  ℕ, ◌+◌, String, ◌&&◌, Option, none, some, ◌==◌, nat_eq, if◌then◌else◌, List, [], ◌∷◌,
}
use slasettle_hub.Js.{
  ℤ, pos, negsuc, Value, null, str, arr, Values, nil, cons, Fields, lookup_field,
}
use slasettle_hub.Web.Reads.{
  missing_indexer_config, indexer_unavailable, indexer_api, indexer_response, range_error, Read,
  thrown, got, ◌>>=◌,
}
use slasettle_hub.Web.Client.{
  BodyRead, json, body_timed_out, body_aborted, body_invalid, Fetched, timed_out, unreachable,
  unreachable_unnamed, status, body, Browser, as_object,
}

-- `baseUrl.replace(/\/+$/, "")`
unfoldable pub strip_slashes : String → String
strip_slashes end_of_text = end_of_text
strip_slashes (c :: text) =
    let rest = strip_slashes text in if nat_eq (code c) 47 && rest == "" then "" else c :: rest

unfoldable pub base_url_of : Option String → Read String
unfolding strip_slashes
base_url_of none = thrown missing_indexer_config
base_url_of (some url) =
    if url == "" then thrown missing_indexer_config else got (strip_slashes url)

unfoldable pub read_body : String → BodyRead → Read Value
read_body path (json v) = got v
read_body path body_timed_out =
    thrown (indexer_unavailable path "the request timed out while reading the response body")
read_body path body_aborted =
    thrown (indexer_unavailable path "the request was aborted while reading the response body")
read_body path body_invalid = thrown (indexer_response path "the body is not valid JSON.")

unfoldable pub read_answer : String → Fetched → Read Value
unfolding read_body
read_answer path timed_out = thrown (indexer_unavailable path "no response within 10s")
read_answer path (unreachable reason) = thrown (indexer_unavailable path reason)
read_answer path unreachable_unnamed = thrown (indexer_unavailable path "network error")
read_answer path (status text) = thrown (indexer_api path text)
read_answer path (body b) = read_body path b

unfoldable pub indexer_get : Browser → String → Read Value
unfolding base_url_of read_answer
indexer_get browser path = do
  base_url ← base_url_of browser.indexer_url
  read_answer path (browser.fetch (text_append base_url path))

pub record PagedResult (T : Type 0) : Type 0 where
  pub items : List T
  pub next_cursor : Option String

unfoldable pub array_field : Value → String → String → Read Values
array_field (arr items) endpoint detail = got items
array_field _ endpoint detail = thrown (indexer_response endpoint detail)

unfoldable pub cursor_value : Value → String → Read (Option String)
cursor_value null endpoint = got none
cursor_value (str s) endpoint = got (some s)
cursor_value _ endpoint =
    thrown (indexer_response endpoint "\"next_cursor\" is neither null nor a string.")

module _ (browser : Browser) where
  -- `what[index]`
  unfoldable pub element_name : String → ℕ → String
  element_name what index =
      text_append what (text_append "[" (text_append (browser.text_of index) "]"))

  -- `items.map((item, index) => parse(item))`, from an index on: a throw stops the map.
  unfoldable pub parse_items : {T : Type 0} → (ℕ → Value → Read T) → ℕ → Values → Read (List T)
  parse_items parse index nil = got []
  parse_items parse index (cons v vs) = do
    first ← parse index v
    rest ← parse_items parse (index + 1) vs
    got (first ∷ rest)

  unfoldable pub envelope : {T : Type 0} → Value → String → (Fields → Read T) → Read (PagedResult T)
  unfolding as_object array_field cursor_value parse_items element_name
  envelope response endpoint parse_item = do
    page ← as_object response endpoint "the response"
    items ← array_field (lookup_field "data" page) endpoint "\"data\" is not an array."
    next_cursor ← cursor_value (lookup_field "next_cursor" page) endpoint
    parsed ←
        parse_items (λ index v. as_object v endpoint (element_name "data" index) >>= parse_item) 0
          items
    got (record { items = parsed; next_cursor = next_cursor })

  unfoldable pub check_sla_id : ℤ → Read String
  check_sla_id (pos n) = got (browser.text_of n)
  check_sla_id (negsuc n) = thrown (range_error "slaId must be a non-negative bigint.")

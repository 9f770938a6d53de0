-- ===== src/Web/Client.antt =====
-- apps/web/lib/indexer.ts: the checks of the fields of an answer of the indexer. What the browser and
-- the Stellar SDK compute is the parameter `Browser`; a body is a JSON value.
pub mod Requests
pub mod Accepted
pub mod Watchers
pub mod Endpoints
use Prim.Native.Char.{code}
use Prim.Native.String.{[] as end_of_text, ◌∷◌ as ◌::◌, ◌++◌ as text_append}
use slasettle_hub.Prelude.{
  ℕ, ◌+◌, ◌-◌, ◌*◌, String, Bool, true, false, not, ◌&&◌, ◌||◌, Option, none, some, ◌==◌, ltb,
  if◌then◌else◌, List, [], ◌∷◌, zero, suc,
}
use slasettle_hub.Js.{
  ℤ, pos, negsuc, Number, int, Value, undefined, null, bool, num, bigint, str, bytes, arr, obj,
  Values, nil, cons, Fields, lookup_field,
}
use slasettle_hub.Sdk.Validate.{StrKey}
use slasettle_hub.Web.Reads.{ReadError, indexer_response, Read, thrown, got, ◌>>=◌}
use slasettle_hub.Web.Texts.{is_digit, is_hash, all_chars}

pub data BodyRead : Type 0 where
  json : Value → BodyRead
  body_timed_out body_aborted body_invalid : BodyRead

-- How a request ends: no answer, with the reason that the error gives; a status that is not 2xx, with
-- its number and text, trimmed; or a body.
pub data Fetched : Type 0 where
  timed_out : Fetched
  unreachable : String → Fetched
  unreachable_unnamed : Fetched
  status : String → Fetched
  body : BodyRead → Fetched

pub record Browser : Type 0 where
  -- NEXT_PUBLIC_INDEXER_API_URL
  pub indexer_url : Option String
  -- fetch, and reading its body
  pub fetch : String → Fetched
  pub keys : StrKey
  -- Date.parse gives a number
  pub parses_date : String → Bool
  -- new URL(text): its protocol and its text, none if it throws
  pub parse_url : String → Option (String × String)
  pub to_lower_case : String → String
  -- String of a number or a bigint
  pub text_of : ℕ → String
  -- URLSearchParams.toString
  pub query_of : List (String × String) → String

abbrev pub largest_safe_integer : ℕ
largest_safe_integer = 9007199254740991

abbrev pub quoted : String → String → String
quoted key rest = text_append "\"" (text_append key (text_append "\"" rest))

unfoldable pub as_object : Value → String → String → Read Fields
as_object (obj fields) endpoint what = got fields
as_object _ endpoint what =
    thrown (indexer_response endpoint (text_append what " is not an object."))

unfoldable pub not_text : String → String → Read String
not_text key endpoint =
    thrown (indexer_response endpoint (quoted key " is not a non-empty string."))

unfoldable pub text_value : Value → String → String → Read String
unfolding not_text
text_value (str s) key endpoint = if s == "" then not_text key endpoint else got s
text_value _ key endpoint = not_text key endpoint

-- str
unfoldable pub text_field : Fields → String → String → Read String
unfolding text_value
text_field fields key endpoint = text_value (lookup_field key fields) key endpoint

unfoldable pub not_an_int : String → String → Read ℕ
not_an_int key endpoint =
    thrown (indexer_response endpoint (quoted key " is not a non-negative integer."))

unfoldable pub int_value : Value → String → String → Read ℕ
unfolding not_an_int
int_value (num (int (pos n))) key endpoint =
    if ltb largest_safe_integer n then not_an_int key endpoint else got n
int_value _ key endpoint = not_an_int key endpoint

unfoldable pub non_negative_int : Fields → String → String → Read ℕ
unfolding int_value
non_negative_int fields key endpoint = int_value (lookup_field key fields) key endpoint

unfoldable pub nullable_int_value : Value → String → String → Read (Option ℕ)
unfolding int_value
nullable_int_value null key endpoint = got none
nullable_int_value v key endpoint = do n ← int_value v key endpoint; got (some n)

unfoldable pub nullable_non_negative_int : Fields → String → String → Read (Option ℕ)
unfolding nullable_int_value
nullable_non_negative_int fields key endpoint =
    nullable_int_value (lookup_field key fields) key endpoint

-- `BigInt(digits)`, from the digits read so far
unfoldable pub digits_value : ℕ → String → ℕ
digits_value n end_of_text = n
digits_value n (c :: text) = digits_value (n * 10 + (code c - 48)) text

-- `/^\d+$/`
unfoldable pub is_decimal : String → Bool
unfolding all_chars is_digit
is_decimal text = not (text == "") && all_chars is_digit text

unfoldable pub amount_value : Value → String → String → Read ℕ
unfolding is_decimal digits_value
amount_value (str s) key endpoint =
    if is_decimal s
    then got (digits_value 0 s)
    else thrown (indexer_response endpoint (quoted key " is not a decimal string."))
amount_value _ key endpoint =
    thrown (indexer_response endpoint (quoted key " is not a decimal string."))

unfoldable pub amount : Fields → String → String → Read ℕ
unfolding amount_value
amount fields key endpoint = amount_value (lookup_field key fields) key endpoint

module _ (browser : Browser) where
  unfoldable pub timestamp : Fields → String → String → Read String
  unfolding text_field
  timestamp fields key endpoint = do
    value ← text_field fields key endpoint
    if browser.parses_date value
        then got value
        else thrown (indexer_response endpoint (quoted key " is not a timestamp."))

  unfoldable pub stellar_address : Fields → String → String → Read String
  unfolding text_field
  stellar_address fields key endpoint = do
    value ← text_field fields key endpoint
    if browser.keys.is_valid_ed25519_public_key value || browser.keys.is_valid_contract value
        then got value
        else thrown (indexer_response endpoint (quoted key " is not a Stellar address."))

  unfoldable pub tx_hash : Fields → String → String → Read String
  unfolding text_field is_hash
  tx_hash fields key endpoint = do
    value ← text_field fields key endpoint
    if is_hash value
        then got (browser.to_lower_case value)
        else thrown
            (indexer_response endpoint (quoted key " is not a 64-character transaction hash."))

  unfoldable pub checked_url : Option (String × String) → String → String → Read String
  checked_url none key endpoint = thrown (indexer_response endpoint (quoted key " is not a URL."))
  checked_url (some (protocol, text)) key endpoint =
      if protocol == "https:"
      then got text
      else thrown (indexer_response endpoint (quoted key " is not an https URL."))

  unfoldable pub https_url : Fields → String → String → Read String
  unfolding text_field checked_url
  https_url fields key endpoint = do
    value ← text_field fields key endpoint
    checked_url (browser.parse_url value) key endpoint

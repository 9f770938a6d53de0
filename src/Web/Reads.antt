-- ===== src/Web/Reads.antt =====
-- What a read of the front end throws, and the message that it shows: the error classes of
-- packages/sdk/src and of apps/web/lib/indexer.ts, and apps/web/lib/read-error.ts.
use Prim.Native.String.{[], ◌∷◌, ◌++◌ as text_append}
use slasettle_hub.Prelude.{String, Bool, ◌&&◌, ◌||◌, ◌==◌, ◌≡◌, refl, ◌⊎◌, inl, inr, if◌then◌else◌}
use slasettle_hub.Sdk.Hash.{starts_with}

-- A class and what its message is built from. `plain_error` is another Error.
pub data ReadError : Type 0 where
  missing_sdk_config : String → ReadError
  invalid_sdk_config : String → ReadError
  missing_indexer_config : ReadError
  soroban_simulation : String → String → String → ReadError
  restore_required : String → String → String → ReadError
  invalid_input : String → ReadError
  indexer_unavailable : String → String → ReadError
  indexer_api : String → String → ReadError
  indexer_response : String → String → ReadError
  type_error : String → ReadError
  range_error : String → ReadError
  plain_error : String → ReadError
  unknown_value : ReadError

pub data Read {ℓ} (A : Type ℓ) : Type ℓ where
  thrown : ReadError → Read A
  got : A → Read A

infixl 5 ◌>>=◌
abbrev pub ◌>>=◌ {ℓ κ} : {A : Type ℓ} {B : Type κ} → Read A → (A → Read B) → Read B
thrown e >>= next = thrown e
got a >>= next = next a

pub Read-cases {ℓ} :
    {A : Type ℓ} (r : Read A) → ((a : A) × (r ≡ got a)) ⊎ ((e : ReadError) × (r ≡ thrown e))
Read-cases (thrown e) = inr (e, refl)
Read-cases (got a) = inl (a, refl)

-- `part` stands somewhere in `text`.
unfoldable pub has_part : String → String → Bool
unfolding starts_with
has_part part [] = starts_with [] part
has_part part (c ∷ text) = starts_with (c ∷ text) part || has_part part text

abbrev pub not_found_message : String
not_found_message =
    "No SLA with this ID exists on this network (the contract reported SlaNotFound)."

unfoldable pub unavailable_message : String → String → String
unavailable_message endpoint reason =
    text_append "The indexer could not be reached for "
      (text_append endpoint (text_append ": " reason))

unfoldable pub api_message : String → String → String
api_message endpoint status =
    text_append "Indexer request to " (text_append endpoint (text_append " failed: " status))

unfoldable pub response_message : String → String → String
response_message endpoint detail =
    text_append "The indexer returned an unexpected response for "
      (text_append endpoint (text_append ": " detail))

abbrev pub missing_indexer_message : String
missing_indexer_message =
    "NEXT_PUBLIC_INDEXER_API_URL is not set. The indexer base URL is supplied per deployment and has no built-in default."

unfoldable pub restore_message : String → String → String
restore_message contract method = text_append "Simulating \"" (
    text_append method (
      text_append "\" on contract " (
        text_append contract
          " requires restoring archived ledger entries before this call can succeed. Submit a restoreFootprint transaction for the reported transaction data, then retry.")))

unfoldable pub describe_read_error : ReadError → String
unfolding has_part unavailable_message api_message response_message restore_message
describe_read_error (missing_sdk_config message) =
    text_append "This deployment is not configured correctly. " message
describe_read_error (invalid_sdk_config message) =
    text_append "This deployment is not configured correctly. " message
describe_read_error missing_indexer_config = missing_indexer_message
describe_read_error (soroban_simulation contract method message) =
    if method == "get_sla" && has_part "Error(Contract, #9)" message
    then not_found_message
    else text_append "The contract rejected the read: " message
describe_read_error (restore_required contract method fee) =
    text_append "Soroban RPC request failed: " (restore_message contract method)
describe_read_error (invalid_input message) = message
describe_read_error (indexer_unavailable endpoint reason) = unavailable_message endpoint reason
describe_read_error (indexer_api endpoint status) = api_message endpoint status
describe_read_error (indexer_response endpoint detail) = response_message endpoint detail
describe_read_error (type_error message) =
    text_append "The contract returned data this app does not recognize. " message
describe_read_error (range_error message) =
    text_append "The contract returned data this app does not recognize. " message
describe_read_error (plain_error message) = text_append "Soroban RPC request failed: " message
describe_read_error unknown_value = "The request failed for an unknown reason."

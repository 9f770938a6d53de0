-- ===== src/Web/Form.antt =====
-- apps/web/lib/create-sla-validation.ts, and what apps/web/components/dashboard/create-sla-form.tsx does
-- with it: the submission of the form, and the call that the confirmation builds. The reads of the
-- token's contract are a parameter.
pub mod Amounts
pub mod Accepted
pub mod Submit
pub mod Buildable
pub mod Reviewed
use Prim.Native.Char.{code}
use Prim.Native.String.{[] as end_of_text, ◌∷◌ as text_cons, ◌++◌ as text_append}
use slasettle_hub.Prelude.{
  ℕ, String, List, [], ◌∷◌, Bool, true, false, not, ◌&&◌, ◌||◌, Option, none, some, ◌==◌, Result,
  ok, err, nat_eq, ltb, if◌then◌else◌,
}
use slasettle_hub.Js.{ℤ, pos, int}
use slasettle_hub.Sdk.Validate.{StrKey, max_i128, max_u32, max_bps}
use slasettle_hub.Sdk.Hash.{Platform, trim_endpoint_input, starts_with, compute_endpoint_hash}
use slasettle_hub.Sdk.Vault.{CreateSla}
use slasettle_hub.Web.Reads.{has_part}
use slasettle_hub.Web.Texts.{is_digit, all_chars}
use slasettle_hub.Web.Format.{
  is_space, ParsedAmount, amount, not_valid, too_precise, value_from, parse_token_amount,
  format_token_amount,
}

-- `text.trim()`
unfoldable pub trim_left : String → String
unfolding is_space
trim_left end_of_text = end_of_text
trim_left (text_cons c s) =
    let rest = trim_left s in if is_space (code c) then rest else text_cons c s

unfoldable pub trim_right : String → String
unfolding is_space
trim_right end_of_text = end_of_text
trim_right (text_cons c s) =
    let rest = trim_right s in if is_space (code c) && rest == "" then "" else text_cons c rest

unfoldable pub trimmed : String → String
unfolding trim_left trim_right
trimmed text = trim_right (trim_left text)

-- The codes of a text's characters.
unfoldable pub codes : String → List ℕ
codes end_of_text = []
codes (text_cons c s) = code c ∷ codes s

pub record CreateSlaFormValues : Type 0 where
  pub endpoint : String
  pub token : String
  pub bond_amount : String
  pub uptime_target_percent : String
  pub quorum_threshold : String
  pub penalty_per_breach : String
  pub beneficiary : String

-- A message, or one of the two that are built from numbers.
pub data Message : Type 0 where
  says : String → Message
  -- "This token supports at most … decimal places."
  at_most_decimals : ℕ → Message
  -- "The penalty cannot exceed the bond (… …)."
  exceeds_bond : List ℕ → String → Message

pub record CreateSlaFieldErrors : Type 0 where
  pub endpoint : Option Message
  pub token : Option Message
  pub bond_amount : Option Message
  pub uptime_target_percent : Option Message
  pub quorum_threshold : Option Message
  pub penalty_per_breach : Option Message
  pub beneficiary : Option Message

-- What the check of a field gives: its message or its value.
pub data Checked {ℓ} (A : Type ℓ) : Type ℓ where
  wrong : Message → Checked A
  right : A → Checked A

unfoldable pub error_of {ℓ} : {A : Type ℓ} → Checked A → Option Message
error_of (wrong message) = some message
error_of (right a) = none

unfoldable pub value_of {ℓ} : {A : Type ℓ} → Checked A → Option A
value_of (wrong message) = none
value_of (right a) = some a

-- The message tells which assertion of `validateEndpointUrl` was not met.
unfoldable pub endpoint_outcome : String → Result (List ℕ) → Checked (List ℕ)
endpoint_outcome endpoint (ok hash) = right hash
endpoint_outcome endpoint (err e) =
    if endpoint == ""
    then wrong (says "Enter the service endpoint.")
    else if not (starts_with endpoint "http://") && not (starts_with endpoint "https://")
    then wrong (says "Use an absolute HTTP or HTTPS URL.")
    else wrong (says "Enter a valid absolute URL, including http:// or https://.")

unfoldable pub check_endpoint : Platform → String → Checked (List ℕ)
unfolding endpoint_outcome
check_endpoint platform endpoint =
    endpoint_outcome (trim_endpoint_input endpoint)
      (compute_endpoint_hash platform endpoint "endpoint")

unfoldable pub token_error : StrKey → String → Option Message
token_error keys token =
    if token == ""
    then some (says "Enter the token contract ID.")
    else if not (keys.is_valid_contract token)
    then some (says "Not a valid token contract ID. It should start with C and be 56 characters.")
    else none

unfoldable pub beneficiary_error : StrKey → String → Option Message
beneficiary_error keys beneficiary =
    if beneficiary == ""
    then some (says "Enter the beneficiary address.")
    else if not (keys.is_valid_ed25519_public_key beneficiary)
        && not (keys.is_valid_contract beneficiary)
    then some (says "Not a valid Stellar address. It should start with G (or C for a contract).")
    else none

unfoldable pub quorum_outcome : ℕ → Checked ℕ
quorum_outcome parsed =
    if ltb parsed 1
    then wrong (says "At least 1 Down vote is required.")
    else if ltb max_u32 parsed
    then wrong (says "That number is too large.")
    else right parsed

unfoldable pub check_quorum : String → Checked ℕ
unfolding quorum_outcome codes
check_quorum quorum =
    if quorum == ""
    then wrong (says "Enter the number of Down votes required.")
    else if not (all_chars is_digit quorum)
    then wrong (says "Use a whole number, for example 3.")
    else quorum_outcome (value_from 0 (codes quorum))

-- The message of `InvalidTokenAmountError` starts with the text of the field, and is searched for
-- "decimal places".
unfoldable pub uptime_outcome : String → ParsedAmount → Checked ℕ
unfolding has_part
uptime_outcome uptime (amount bps) =
    if ltb bps 1
    then wrong (says "The uptime target must be greater than 0%.")
    else if ltb max_bps bps
    then wrong (says "The target cannot be more than 100%.")
    else right bps
uptime_outcome uptime too_precise = wrong (says "Use at most 2 decimal places.")
uptime_outcome uptime not_valid =
    if has_part "decimal places" uptime
    then wrong (says "Use at most 2 decimal places.")
    else wrong (says "Use a number such as 99.90.")

unfoldable pub check_uptime : String → Checked ℕ
unfolding uptime_outcome codes
check_uptime uptime =
    if uptime == ""
    then wrong (says "Enter an uptime target, for example 99.90.")
    else uptime_outcome uptime (parse_token_amount (codes uptime) 2)

pub record StaticFieldsResult : Type 0 where
  pub errors : CreateSlaFieldErrors
  pub endpoint : String
  pub endpoint_hash : Option (List ℕ)
  pub quorum_threshold : Option ℕ
  pub uptime_target_bps : Option ℕ

unfoldable pub validate_static_fields : StrKey → Platform → CreateSlaFormValues → StaticFieldsResult
unfolding check_endpoint check_quorum check_uptime token_error beneficiary_error trimmed error_of
    value_of
validate_static_fields keys platform values =
    let hash = check_endpoint platform values.endpoint in
    let quorum = check_quorum (trimmed values.quorum_threshold) in
    let uptime = check_uptime (trimmed values.uptime_target_percent) in
    record {
      errors = record {
        endpoint = error_of hash;
        token = token_error keys (trimmed values.token);
        bond_amount = none;
        uptime_target_percent = error_of uptime;
        quorum_threshold = error_of quorum;
        penalty_per_breach = none;
        beneficiary = beneficiary_error keys (trimmed values.beneficiary);
      };
      endpoint = trim_endpoint_input values.endpoint;
      endpoint_hash = value_of hash;
      quorum_threshold = value_of quorum;
      uptime_target_bps = value_of uptime;
    }

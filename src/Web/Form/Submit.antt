-- ===== src/Web/Form/Submit.antt =====
-- apps/web/components/dashboard/create-sla-form.tsx: the submission of the form, and the call that the
-- confirmation builds. Whether a wallet is connected, whether the form is busy, and the decimals and the
-- symbol of the token's contract are arguments.
use slasettle_hub.Prelude.{
  ℕ, String, List, Bool, true, false, not, ◌||◌, Option, none, some, if◌then◌else◌,
}
use slasettle_hub.Js.{pos, int}
use slasettle_hub.Sdk.Validate.{StrKey}
use slasettle_hub.Sdk.Hash.{Platform}
use slasettle_hub.Sdk.Vault.{CreateSla}
use slasettle_hub.Web.Form.{
  trimmed, CreateSlaFormValues, says, CreateSlaFieldErrors, StaticFieldsResult,
  validate_static_fields,
}
use slasettle_hub.Web.Form.Amounts.{AmountFieldsResult, validate_amounts}

pub record CreateSlaReview : Type 0 where
  pub endpoint_hash : List ℕ
  pub token : String
  pub bond_amount : ℕ
  pub uptime_target_bps : ℕ
  pub quorum_threshold : ℕ
  pub penalty_per_breach : ℕ
  pub beneficiary : String
  pub token_decimals : ℕ
  pub token_symbol : String

-- How a submission ends. `undefined_value` is a review with a value that is `undefined` in spite of the
-- `!` that says it is not.
pub data Submission : Type 0 where
  ignored undefined_value : Submission
  refused : CreateSlaFieldErrors → Submission
  reviewed : CreateSlaReview → Submission

unfoldable pub is_some {ℓ} : {A : Type ℓ} → Option A → Bool
is_some none = false
is_some (some a) = true

-- `Object.keys(errors).length > 0`
unfoldable pub has_error : CreateSlaFieldErrors → Bool
unfolding is_some
has_error e =
    is_some e.endpoint
    || is_some e.token
    || is_some e.bond_amount
    || is_some e.uptime_target_percent
    || is_some e.quorum_threshold
    || is_some e.penalty_per_breach
    || is_some e.beneficiary

unfoldable pub no_token : CreateSlaFieldErrors
no_token = record {
  endpoint = none;
  token = some (
      says
        "Could not read decimals() and symbol() from this contract. Check that it is a SEP-41 token on this network.");
  bond_amount = none;
  uptime_target_percent = none;
  quorum_threshold = none;
  penalty_per_breach = none;
  beneficiary = none;
}

-- The review of the values that the two validations give.
unfoldable pub review_of :
    CreateSlaFormValues
    → ℕ
    → String
    → Option (List ℕ)
    → Option ℕ
    → Option ℕ
    → Option ℕ
    → Option ℕ
    → Submission
unfolding trimmed
review_of values decimals symbol (some hash) (some bond) (some uptime) (some quorum)
      (some penalty) =
    reviewed (record {
      endpoint_hash = hash;
      token = trimmed values.token;
      bond_amount = bond;
      uptime_target_bps = uptime;
      quorum_threshold = quorum;
      penalty_per_breach = penalty;
      beneficiary = trimmed values.beneficiary;
      token_decimals = decimals;
      token_symbol = symbol;
    })
review_of values decimals symbol _ _ _ _ _ = undefined_value

unfoldable pub after_amounts :
    CreateSlaFormValues → ℕ → String → StaticFieldsResult → AmountFieldsResult → Submission
unfolding review_of has_error
after_amounts values decimals symbol fields amounts =
    if has_error amounts.errors
    then refused amounts.errors
    else review_of values decimals symbol fields.endpoint_hash amounts.bond_amount
        fields.uptime_target_bps fields.quorum_threshold amounts.penalty_per_breach

unfoldable pub after_token :
    CreateSlaFormValues → StaticFieldsResult → Option (ℕ × String) → Submission
unfolding no_token after_amounts
after_token values fields none = refused no_token
after_token values fields (some (decimals, symbol)) =
    after_amounts values decimals symbol fields (validate_amounts values decimals symbol)

unfoldable pub after_static :
    (String → Option (ℕ × String)) → CreateSlaFormValues → StaticFieldsResult → Submission
unfolding has_error after_token trimmed
after_static token_reads values fields =
    if has_error fields.errors
    then refused fields.errors
    else after_token values fields (token_reads (trimmed values.token))

unfoldable pub handle_submit :
    StrKey
    → Platform
    → (String → Option (ℕ × String))
    → Bool
    → Bool
    → CreateSlaFormValues
    → Submission
unfolding after_static
handle_submit keys platform token_reads connected busy values =
    if not connected || busy
    then ignored
    else after_static token_reads values (validate_static_fields keys platform values)

-- What `confirmCreate` calls `buildCreateSlaTx` with.
unfoldable pub create_sla_call : String → CreateSlaReview → CreateSla
create_sla_call address review = record {
  provider = address;
  token = review.token;
  endpoint_url = none;
  endpoint_hash = some review.endpoint_hash;
  bond_amount = pos review.bond_amount;
  uptime_target_bps = int (pos review.uptime_target_bps);
  quorum_threshold = int (pos review.quorum_threshold);
  penalty_per_breach = pos review.penalty_per_breach;
  beneficiary = review.beneficiary;
}

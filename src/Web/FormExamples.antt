-- ===== src/Web/FormExamples.antt =====
-- apps/web/lib/create-sla-validation.ts and the form: a submission.
use slasettle_hub.Prelude.{
  ℕ, ◌≤◌, String, length, true, false, Option, some, ok, ◌==◌, ◌||◌, ◌≡◌, ◌⊎◌, refl,
}
use slasettle_hub.Sdk.Validate.{StrKey, assert_address}
use slasettle_hub.Sdk.Hash.{
  Platform, compute_endpoint_hash, validate_endpoint_url, check_host, starts_with,
  trim_endpoint_input, trim_start, trim_end, is_ascii_whitespace,
}
use slasettle_hub.Sdk.Vault.{build_create_sla_tx}
use slasettle_hub.Web.Reads.{has_part}
use slasettle_hub.Web.Texts.{is_digit, all_chars}
use slasettle_hub.Web.Format.{
  power_of_ten, zeros, pad_end, is_empty, trim as trim_codes, trim_start as trim_codes_start,
  trim_end as trim_codes_end, is_space, leading_digits, value_from, amount_of_parts, parse_rest,
  parse_trimmed, parse_token_amount,
}
use slasettle_hub.Web.Form.{
  CreateSlaFormValues, CreateSlaFieldErrors, trim_left, trim_right, trimmed, codes, check_endpoint,
  endpoint_outcome, token_error, beneficiary_error, check_quorum, quorum_outcome, check_uptime,
  uptime_outcome, wrong, at_most_decimals, error_of, value_of, validate_static_fields,
}
use slasettle_hub.Web.Form.Amounts.{
  positive_outcome, decimals_message, parse_positive_amount, penalty_error, validate_amounts,
}
use slasettle_hub.Web.Form.Submit.{
  CreateSlaReview, refused, reviewed, is_some, has_error, review_of, after_amounts, after_token,
  after_static, handle_submit, create_sla_call,
}
use slasettle_hub.Web.Form.Buildable.{create_sla_invocation}
use slasettle_hub.Web.Form.Reviewed.{handle_submit-build_create_sla_tx}

abbrev keys : StrKey
keys = record {
  is_valid_ed25519_public_key = λ text. text == "GA" || text == "GB";
  is_valid_contract = λ text. text == "CA";
}

abbrev platform : Platform
platform = record { url_host = λ text. some "example.com"; sha256_utf8 = λ text. zeros 32 }

abbrev token_reads : String → Option (ℕ × String)
token_reads token = some (2, "USDC")

abbrev values : CreateSlaFormValues
values = record {
  endpoint = " https://example.com/health ";
  token = " CA ";
  bond_amount = "100.5";
  uptime_target_percent = "99.90";
  quorum_threshold = "3";
  penalty_per_breach = "10";
  beneficiary = "GB ";
}

-- The review of these values.
reviewed_values :
    handle_submit keys platform token_reads true false values
    ≡ reviewed (record {
      endpoint_hash = zeros 32;
      token = "CA";
      bond_amount = 10050;
      uptime_target_bps = 9990;
      quorum_threshold = 3;
      penalty_per_breach = 1000;
      beneficiary = "GB";
      token_decimals = 2;
      token_symbol = "USDC";
    })
unfolding handle_submit after_static after_token after_amounts has_error is_some review_of
    validate_static_fields validate_amounts check_endpoint endpoint_outcome token_error
    beneficiary_error check_quorum quorum_outcome check_uptime uptime_outcome parse_positive_amount
    positive_outcome penalty_error error_of value_of trimmed trim_left trim_right codes
    compute_endpoint_hash validate_endpoint_url check_host starts_with trim_endpoint_input
    trim_start trim_end is_ascii_whitespace is_digit all_chars power_of_ten zeros pad_end is_empty
    trim_codes trim_codes_start trim_codes_end is_space leading_digits value_from amount_of_parts
    parse_rest parse_trimmed parse_token_amount
reviewed_values = refl

-- A text that holds the words of the other message gets that message.
words_in_amount :
    parse_positive_amount "ten decimal places" 2 "bond amount" ≡ wrong (at_most_decimals 2)
unfolding parse_positive_amount positive_outcome decimals_message has_part starts_with trimmed
    trim_left trim_right codes parse_token_amount parse_trimmed parse_rest leading_digits trim_codes
    trim_codes_start trim_codes_end is_space is_empty is_digit
words_in_amount = refl

provider_address : assert_address keys "GA" "provider" ≡ ok tt
unfolding assert_address
provider_address = refl

hash_length : (text : String) → length (platform.sha256_utf8 text) ≡ 32
unfolding zeros
hash_length text = refl

handle_submit-build_create_sla_tx_example :
    ((e : CreateSlaFieldErrors) × (handle_submit keys platform token_reads true false values
        ≡ refused e)
      × (has_error e ≡ true))
    ⊎ ((r : CreateSlaReview) × (handle_submit keys platform token_reads true false values
          ≡ reviewed r)
        × (build_create_sla_tx keys platform (ok "CV") (create_sla_call "GA" r)
            ≡ ok (create_sla_invocation "GA" "CV" r))
        × (r.penalty_per_breach ≤ r.bond_amount))
handle_submit-build_create_sla_tx_example =
    handle_submit-build_create_sla_tx keys platform hash_length token_reads values "GA" "CV"
      provider_address

-- ===== src/Web/Form/Amounts.antt =====
-- apps/web/lib/create-sla-validation.ts: the amounts of the form.
use Prim.Native.String.{◌++◌ as text_append}
use slasettle_hub.Prelude.{ℕ, String, Option, none, some, ◌==◌, nat_eq, ltb, if◌then◌else◌}
use slasettle_hub.Js.{pos}
use slasettle_hub.Sdk.Validate.{max_i128}
use slasettle_hub.Web.Reads.{has_part}
use slasettle_hub.Web.Format.{
  ParsedAmount, amount, not_valid, too_precise, parse_token_amount, format_token_amount,
}
use slasettle_hub.Web.Form.{
  CreateSlaFormValues, Message, says, at_most_decimals, exceeds_bond, CreateSlaFieldErrors, Checked,
  wrong, right, error_of, value_of, trimmed, codes,
}

unfoldable pub decimals_message : ℕ → Message
decimals_message decimals =
    if nat_eq decimals 0
    then says "This token has no decimal places. Use a whole number."
    else at_most_decimals decimals

unfoldable pub positive_outcome : String → ℕ → ParsedAmount → Checked ℕ
unfolding decimals_message has_part
positive_outcome input decimals (amount value) =
    if nat_eq value 0
    then wrong (says "The amount must be greater than zero.")
    else if ltb max_i128 value
    then wrong (says "That amount is larger than the contract can store.")
    else right value
positive_outcome input decimals too_precise = wrong (decimals_message decimals)
positive_outcome input decimals not_valid =
    if has_part "decimal places" input
    then wrong (decimals_message decimals)
    else wrong (says "Use a plain number such as 1000.50.")

unfoldable pub parse_positive_amount : String → ℕ → String → Checked ℕ
unfolding positive_outcome trimmed codes
parse_positive_amount input decimals label =
    if trimmed input == ""
    then wrong (says (text_append "Enter the " (text_append label ".")))
    else positive_outcome input decimals (parse_token_amount (codes input) decimals)

pub record AmountFieldsResult : Type 0 where
  pub errors : CreateSlaFieldErrors
  pub bond_amount : Option ℕ
  pub penalty_per_breach : Option ℕ

-- The message of the penalty.
unfoldable pub penalty_error : Checked ℕ → Checked ℕ → ℕ → String → Option Message
penalty_error bond (wrong message) decimals symbol = some message
penalty_error (wrong _) (right penalty) decimals symbol = none
penalty_error (right bond) (right penalty) decimals symbol =
    if ltb bond penalty
    then some (exceeds_bond (format_token_amount (pos bond) decimals) symbol)
    else none

unfoldable pub validate_amounts : CreateSlaFormValues → ℕ → String → AmountFieldsResult
unfolding parse_positive_amount penalty_error error_of value_of
validate_amounts values decimals symbol =
    let bond = parse_positive_amount values.bond_amount decimals "bond amount" in
    let penalty = parse_positive_amount values.penalty_per_breach decimals "penalty per breach" in
    record {
      errors = record {
        endpoint = none;
        token = none;
        bond_amount = error_of bond;
        uptime_target_percent = none;
        quorum_threshold = none;
        penalty_per_breach = penalty_error bond penalty decimals symbol;
        beneficiary = none;
      };
      bond_amount = value_of bond;
      penalty_per_breach = value_of penalty;
    }

-- ===== src/Web/Form/Reviewed.antt =====
-- The reviews that apps/web/components/dashboard/create-sla-form.tsx makes of checked values.
use slasettle_hub.Prelude.{
  ℕ, ◌≤◌, String, List, length, true, false, Option, none, some, ok, ◌≡◌, refl, ◌⊎◌, arith,
  Bool-cases, inl, inr,
}
use slasettle_hub.Sdk.Validate.{
  StrKey, max_i128, max_u32, max_bps, assert_address, assert_contract_id,
}
use slasettle_hub.Sdk.Hash.{Platform}
use slasettle_hub.Sdk.Vault.{build_create_sla_tx}
use slasettle_hub.Web.Form.{
  Checked, right, value_of, trimmed, check_endpoint, check_quorum, check_uptime,
  CreateSlaFormValues, CreateSlaFieldErrors, validate_static_fields, StaticFieldsResult,
}
use slasettle_hub.Web.Form.Amounts.{parse_positive_amount, validate_amounts, AmountFieldsResult}
use slasettle_hub.Web.Form.Submit.{
  CreateSlaReview, Submission, refused, reviewed, is_some, has_error, no_token, review_of,
  after_amounts, after_token, after_static, handle_submit, create_sla_call,
}
use slasettle_hub.Web.Form.Accepted.{
  error_of-none, check_endpoint-right, token_error-none, beneficiary_error-none, check_quorum-right,
  check_uptime-right, parse_positive_amount-right, penalty_error-none,
}
use slasettle_hub.Web.Form.Buildable.{IsBuildable, create_sla_invocation, IsBuildable-builds}

is_some-none {ℓ} : {A : Type ℓ} (o : Option A) → is_some o ≡ false → o ≡ none
unfolding is_some
is_some-none none h = refl
is_some-none (some a) h = cc

-- No field has a message.
record NoError (e : CreateSlaFieldErrors) : Type 0 where
  endpoint : e.endpoint ≡ none
  token : e.token ≡ none
  bond_amount : e.bond_amount ≡ none
  uptime_target_percent : e.uptime_target_percent ≡ none
  quorum_threshold : e.quorum_threshold ≡ none
  penalty_per_breach : e.penalty_per_breach ≡ none
  beneficiary : e.beneficiary ≡ none

has_error-NoError : (e : CreateSlaFieldErrors) → has_error e ≡ false → NoError e
unfolding has_error
has_error-NoError e h = record {
  endpoint = is_some-none e.endpoint (ground arith);
  token = is_some-none e.token (ground arith);
  bond_amount = is_some-none e.bond_amount (ground arith);
  uptime_target_percent = is_some-none e.uptime_target_percent (ground arith);
  quorum_threshold = is_some-none e.quorum_threshold (ground arith);
  penalty_per_breach = is_some-none e.penalty_per_breach (ground arith);
  beneficiary = is_some-none e.beneficiary (ground arith);
}

-- A submission that shows messages, or a review.
abbrev Ended : StrKey → Submission → Type 0
Ended keys s =
    ((e : CreateSlaFieldErrors) × (s ≡ refused e) × (has_error e ≡ true))
    ⊎ ((r : CreateSlaReview) × (s ≡ reviewed r) × IsBuildable keys r)

abbrev review : CreateSlaFormValues → ℕ → String → List ℕ → ℕ → ℕ → ℕ → ℕ → CreateSlaReview
review values decimals symbol hash bond uptime quorum penalty = record {
  endpoint_hash = hash;
  token = trimmed values.token;
  bond_amount = bond;
  uptime_target_bps = uptime;
  quorum_threshold = quorum;
  penalty_per_breach = penalty;
  beneficiary = trimmed values.beneficiary;
  token_decimals = decimals;
  token_symbol = symbol;
}

-- What is known of the fields that have no message.
record AreFields (keys : StrKey) (values : CreateSlaFormValues) (f : StaticFieldsResult)
    : Type 0 where
  hash : (h : List ℕ) × (f.endpoint_hash ≡ some h) × (length h ≡ 32)
  quorum : (n : ℕ) × (f.quorum_threshold ≡ some n) × ((1 ≤ n) × (n ≤ max_u32))
  uptime : (n : ℕ) × (f.uptime_target_bps ≡ some n) × ((1 ≤ n) × (n ≤ max_bps))
  token : assert_contract_id keys (trimmed values.token) "token" ≡ ok tt
  beneficiary : assert_address keys (trimmed values.beneficiary) "beneficiary" ≡ ok tt

value_of-right : {A : Type 0} (c : Checked A) (a : A) → c ≡ right a → value_of c ≡ some a
unfolding value_of
value_of-right c a h = rw h refl

validate_static_fields-AreFields :
    (keys : StrKey) (platform : Platform)
    → ((t : String) → length (platform.sha256_utf8 t) ≡ 32)
    → (values : CreateSlaFormValues)
    → NoError ((validate_static_fields keys platform values).errors)
    → AreFields keys values (validate_static_fields keys platform values)
unfolding validate_static_fields
validate_static_fields-AreFields keys platform bytes values fine =
    let hash_check = check_endpoint platform values.endpoint in
    let quorum_check = check_quorum (trimmed values.quorum_threshold) in
    let uptime_check = check_uptime (trimmed values.uptime_target_percent) in
    let (hash, is_hash) = error_of-none hash_check fine.endpoint in
    let (quorum, is_quorum) = error_of-none quorum_check fine.quorum_threshold in
    let (uptime, is_uptime) = error_of-none uptime_check fine.uptime_target_percent in
    record {
      hash = (
        hash,
        value_of-right hash_check hash is_hash,
        check_endpoint-right platform bytes values.endpoint hash is_hash,
      );
      quorum = (
        quorum,
        value_of-right quorum_check quorum is_quorum,
        check_quorum-right (trimmed values.quorum_threshold) quorum is_quorum,
      );
      uptime = (
        uptime,
        value_of-right uptime_check uptime is_uptime,
        check_uptime-right (trimmed values.uptime_target_percent) uptime is_uptime,
      );
      token = token_error-none keys (trimmed values.token) fine.token;
      beneficiary = beneficiary_error-none keys (trimmed values.beneficiary) fine.beneficiary;
    }

-- What is known of amounts that have no message.
abbrev AreAmounts : AmountFieldsResult → Type 0
AreAmounts a =
    (b : ℕ) × (p : ℕ) × (a.bond_amount ≡ some b)
    × (a.penalty_per_breach ≡ some p)
    × ((1 ≤ b) × (b ≤ max_i128))
    × ((1 ≤ p) × (p ≤ max_i128))
    × (p ≤ b)

validate_amounts-AreAmounts :
    (values : CreateSlaFormValues) (decimals : ℕ) (symbol : String)
    → NoError ((validate_amounts values decimals symbol).errors)
    → AreAmounts (validate_amounts values decimals symbol)
unfolding validate_amounts
validate_amounts-AreAmounts values decimals symbol fine =
    let bond = parse_positive_amount values.bond_amount decimals "bond amount" in
    let penalty = parse_positive_amount values.penalty_per_breach decimals "penalty per breach" in
    let (b, p, is_bond, is_penalty, within) =
      penalty_error-none bond penalty decimals symbol fine.bond_amount fine.penalty_per_breach in
    (
      b,
      p,
      value_of-right bond b is_bond,
      value_of-right penalty p is_penalty,
      parse_positive_amount-right values.bond_amount decimals "bond amount" b is_bond,
      parse_positive_amount-right values.penalty_per_breach decimals "penalty per breach" p
          is_penalty,
      within,
    )

after_amounts-Ended :
    (keys : StrKey) (values : CreateSlaFormValues) (decimals : ℕ) (symbol : String)
    (fields : StaticFieldsResult) (amounts : AmountFieldsResult)
    → AreFields keys values fields
    → (has_error amounts.errors ≡ false → AreAmounts amounts)
    → Ended keys (after_amounts values decimals symbol fields amounts)
unfolding after_amounts review_of
after_amounts-Ended keys values decimals symbol fields amounts f a =
    elim (Bool-cases (has_error amounts.errors)) [
      | inl bad ↦ inl (amounts.errors, simp bad, bad)
      | inr good ↦
          let (bond, penalty, is_bond, is_penalty, bond_fits, penalty_fits, within) = a good in
          let (hash, is_hash, is_32) = f.hash in
          let (quorum, is_quorum, quorum_fits) = f.quorum in
          let (uptime, is_uptime, uptime_fits) = f.uptime in
          inr (
            review values decimals symbol hash bond uptime quorum penalty,
            simp (good, is_bond, is_penalty, is_hash, is_quorum, is_uptime),
            record {
              hash = is_32;
              token = f.token;
              bond = bond_fits;
              uptime = uptime_fits;
              quorum = quorum_fits;
              penalty = penalty_fits;
              within = within;
              beneficiary = f.beneficiary;
            },
          )
    ]

after_token-Ended :
    (keys : StrKey) (values : CreateSlaFormValues) (fields : StaticFieldsResult)
    (read : Option (ℕ × String))
    → AreFields keys values fields
    → Ended keys (after_token values fields read)
unfolding after_token has_error no_token is_some
after_token-Ended keys values fields none f = inl (no_token, refl, refl)
after_token-Ended keys values fields (some (decimals, symbol)) f =
    after_amounts-Ended keys values decimals symbol fields (validate_amounts values decimals symbol)
      f (λ good. validate_amounts-AreAmounts values decimals symbol (has_error-NoError _ good))

after_static-Ended :
    (keys : StrKey) (token_reads : String → Option (ℕ × String)) (values : CreateSlaFormValues)
    (fields : StaticFieldsResult)
    → (has_error fields.errors ≡ false → AreFields keys values fields)
    → Ended keys (after_static token_reads values fields)
unfolding after_static
after_static-Ended keys token_reads values fields known =
    elim (Bool-cases (has_error fields.errors)) [
      | inl bad ↦ inl (fields.errors, simp bad, bad)
      | inr good ↦
          rw good
            (after_token-Ended keys values fields (token_reads (trimmed values.token)) (known good))
    ]

-- While a wallet is connected and nothing is busy, a submission of the form, whatever its values, shows
-- at least one message or gives a review. The `create_sla` call of a review passes every check of the
-- SDK, if the wallet's address is one, the vault's contract is configured and a SHA-256 has 32 bytes: the
-- transaction is built with the values of the review. Its penalty is at most its bond.
pub handle_submit-build_create_sla_tx :
    (keys : StrKey) (platform : Platform)
    → ((t : String) → length (platform.sha256_utf8 t) ≡ 32)
    → (token_reads : String → Option (ℕ × String)) (values : CreateSlaFormValues)
      (provider vault : String)
    → assert_address keys provider "provider" ≡ ok tt
    → ((e : CreateSlaFieldErrors) × (handle_submit keys platform token_reads true false values
          ≡ refused e)
        × (has_error e ≡ true))
      ⊎ ((r : CreateSlaReview) × (handle_submit keys platform token_reads true false values
            ≡ reviewed r)
          × (build_create_sla_tx keys platform (ok vault) (create_sla_call provider r)
              ≡ ok (create_sla_invocation provider vault r))
          × (r.penalty_per_breach ≤ r.bond_amount))
unfolding handle_submit
handle_submit-build_create_sla_tx keys platform bytes token_reads values provider vault address_ok =
    elim (after_static-Ended keys token_reads values (validate_static_fields keys platform values)
      (λ good.
        validate_static_fields-AreFields keys platform bytes values (has_error-NoError _ good))) [
          | inl shown ↦ inl shown
          | inr (r, e, b) ↦
              inr (r, e, IsBuildable-builds keys platform provider vault r address_ok b, b.within)
        ]

-- ===== src/Web/Form/Accepted.antt =====
-- apps/web/lib/create-sla-validation.ts: what is known of a field whose check gives a value.
use Prim.Native.String.{◌++◌ as text_append}
use slasettle_hub.Prelude.{
  ℕ, ◌≤◌, String, List, length, none, Result, ok, err, ◌≡◌, refl, arith, >>=-eq-ok,
}
use slasettle_hub.Sdk.Validate.{
  StrKey, max_i128, max_u32, max_bps, assert_address, assert_contract_id,
}
use slasettle_hub.Sdk.Hash.{
  Platform, trim_endpoint_input, compute_endpoint_hash, validate_endpoint_url,
  endpoint_hash_domain_prefix,
}
use slasettle_hub.Web.Format.{
  ParsedAmount, amount, not_valid, too_precise, value_from, parse_token_amount,
}
use slasettle_hub.Web.Form.{
  Checked, wrong, right, error_of, codes, endpoint_outcome, check_endpoint, token_error,
  beneficiary_error, quorum_outcome, check_quorum, uptime_outcome, check_uptime,
}
use slasettle_hub.Web.Form.Amounts.{positive_outcome, parse_positive_amount, penalty_error}

pub error_of-none {ℓ} : {A : Type ℓ} (c : Checked A) → error_of c ≡ none → (a : A) × (c ≡ right a)
unfolding error_of
error_of-none (wrong message) h = cc
error_of-none (right a) h = (a, refl)

-- A commitment is a hash.
pub endpoint_outcome-right :
    (endpoint : String) (r : Result (List ℕ)) (hash : List ℕ)
    → endpoint_outcome endpoint r ≡ right hash
    → r ≡ ok hash
unfolding endpoint_outcome
endpoint_outcome-right endpoint (ok h) hash e = cc
endpoint_outcome-right endpoint (err x) hash e = ground arith

module _ (platform : Platform) (bytes : (t : String) → length (platform.sha256_utf8 t) ≡ 32) where
  pub compute_endpoint_hash-length :
      (endpoint name : String) (hash : List ℕ)
      → compute_endpoint_hash platform endpoint name ≡ ok hash
      → length hash ≡ 32
  unfolding compute_endpoint_hash
  compute_endpoint_hash-length endpoint name hash h =
      let (checked, valid, e) =
        >>=-eq-ok (validate_endpoint_url platform (trim_endpoint_input endpoint) name) _ h in
      let same = bytes (text_append endpoint_hash_domain_prefix (trim_endpoint_input endpoint)) in
      cc

  pub check_endpoint-right :
      (endpoint : String) (hash : List ℕ)
      → check_endpoint platform endpoint ≡ right hash
      → length hash ≡ 32
  unfolding check_endpoint
  check_endpoint-right endpoint hash h =
      compute_endpoint_hash-length endpoint "endpoint" hash
        (endpoint_outcome-right (trim_endpoint_input endpoint) _ hash h)

pub token_error-none :
    (keys : StrKey) (token : String)
    → token_error keys token ≡ none
    → assert_contract_id keys token "token" ≡ ok tt
unfolding token_error assert_contract_id
token_error-none keys token h = ground arith

pub beneficiary_error-none :
    (keys : StrKey) (beneficiary : String)
    → beneficiary_error keys beneficiary ≡ none
    → assert_address keys beneficiary "beneficiary" ≡ ok tt
unfolding beneficiary_error assert_address
beneficiary_error-none keys beneficiary h = ground arith

quorum_outcome-right : (parsed n : ℕ) → quorum_outcome parsed ≡ right n → (1 ≤ n) × (n ≤ max_u32)
unfolding quorum_outcome
quorum_outcome-right parsed n h = ground arith

pub check_quorum-right :
    (quorum : String) (n : ℕ) → check_quorum quorum ≡ right n → (1 ≤ n) × (n ≤ max_u32)
unfolding check_quorum
check_quorum-right quorum n h = quorum_outcome-right (value_from 0 (codes quorum)) n (ground arith)

uptime_outcome-right :
    (uptime : String) (p : ParsedAmount) (n : ℕ)
    → uptime_outcome uptime p ≡ right n
    → (1 ≤ n) × (n ≤ max_bps)
unfolding uptime_outcome
uptime_outcome-right uptime (amount bps) n h = ground arith
uptime_outcome-right uptime too_precise n h = cc
uptime_outcome-right uptime not_valid n h = ground arith

pub check_uptime-right :
    (uptime : String) (n : ℕ) → check_uptime uptime ≡ right n → (1 ≤ n) × (n ≤ max_bps)
unfolding check_uptime
check_uptime-right uptime n h =
    uptime_outcome-right uptime (parse_token_amount (codes uptime) 2) n (ground arith)

positive_outcome-right :
    (input : String) (decimals : ℕ) (p : ParsedAmount) (n : ℕ)
    → positive_outcome input decimals p ≡ right n
    → (1 ≤ n) × (n ≤ max_i128)
unfolding positive_outcome
positive_outcome-right input decimals (amount value) n h = ground arith
positive_outcome-right input decimals too_precise n h = cc
positive_outcome-right input decimals not_valid n h = ground arith

pub parse_positive_amount-right :
    (input : String) (decimals : ℕ) (label : String) (n : ℕ)
    → parse_positive_amount input decimals label ≡ right n
    → (1 ≤ n) × (n ≤ max_i128)
unfolding parse_positive_amount
parse_positive_amount-right input decimals label n h =
    positive_outcome-right input decimals (parse_token_amount (codes input) decimals) n
      (ground arith)

pub penalty_error-none :
    (bond : Checked ℕ) (penalty : Checked ℕ) (decimals : ℕ) (symbol : String)
    → error_of bond ≡ none
    → penalty_error bond penalty decimals symbol ≡ none
    → (b : ℕ) × (p : ℕ) × (bond ≡ right b) × (penalty ≡ right p) × (p ≤ b)
unfolding error_of penalty_error
penalty_error-none bond (wrong message) decimals symbol h e = cc
penalty_error-none (wrong message) (right p) decimals symbol h e = cc
penalty_error-none (right b) (right p) decimals symbol h e = (b, p, refl, refl, ground arith)

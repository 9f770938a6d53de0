-- ===== src/Sdk/Vault.antt =====
-- packages/sdk/src/sla-vault.ts: the decoded SLA, and the calls of the vault with their checked
-- arguments. Building and simulating a transaction is the Stellar SDK's: a call is its contract,
-- function and arguments, and what a simulated read gives is an argument.
pub mod Laws
use slasettle_hub.Prelude.{
  ℕ, String, List, [], ◌∷◌, Bool, true, false, Option, none, some, Result, ok, err, ◌>>=◌,
  type_error, invalid_input, ◌==◌, if◌then◌else◌, nat_eq, length,
}
use slasettle_hub.Js.{
  ℤ, Number, Value, str, num, bigint, bytes, bool, arr, obj, cons, nil, Fields, lookup_field,
  has_field,
}
use slasettle_hub.Sdk.Validate.{
  StrKey, max_u32, max_bps, assert_address, assert_contract_id, assert_positive_amount, assert_u64,
  assert_u32,
}
use slasettle_hub.Sdk.Hash.{Platform, compute_endpoint_hash}

-- SLA_STATUS_VARIANTS
pub data SlaStatus : Type 0 where
  active cancelled : SlaStatus

pub record SlaConfig : Type 0 where
  pub provider : String
  pub token : String
  pub endpoint_hash : List ℕ
  pub bond_amount : ℤ
  pub uptime_target_bps : Number
  pub quorum_threshold : Number
  pub penalty_per_breach : ℤ
  pub beneficiary : String
  pub status : SlaStatus

unfoldable pub expect_endpoint_hash : String → Value → Result (List ℕ)
expect_endpoint_hash name (bytes b) = if nat_eq (length b) 32 then ok b else err (type_error name)
expect_endpoint_hash name _ = err (type_error name)

-- `raw[key]`, if `key in raw`
unfoldable pub required : Fields → String → Result Value
required raw key = if has_field key raw then ok (lookup_field key raw) else err (type_error key)

unfoldable pub status_of_tag : String → Result SlaStatus
status_of_tag tag =
    if tag == "Active"
    then ok active
    else if tag == "Cancelled"
    then ok cancelled
    else err (type_error "SLAConfig.status")

-- `decodeContractEnum` at SLA_STATUS_VARIANTS: the first element of a list is the variant's symbol.
unfoldable pub decode_status : Value → Result SlaStatus
unfolding status_of_tag
decode_status (arr (cons (str tag) vs)) = status_of_tag tag
decode_status _ = err (type_error "SLAConfig.status")

unfoldable pub expect_string : String → Value → Result String
expect_string name (str s) = ok s
expect_string name _ = err (type_error name)

unfoldable pub expect_bigint : String → Value → Result ℤ
expect_bigint name (bigint z) = ok z
expect_bigint name _ = err (type_error name)

unfoldable pub expect_number : String → Value → Result Number
expect_number name (num n) = ok n
expect_number name _ = err (type_error name)

unfoldable pub decode_fields : Fields → Result SlaConfig
unfolding required expect_string expect_bigint expect_number expect_endpoint_hash decode_status
decode_fields raw = do
  provider ← required raw "provider" >>= expect_string "provider"
  token ← required raw "token" >>= expect_string "token"
  endpoint_hash ← required raw "endpoint_hash" >>= expect_endpoint_hash "endpoint_hash"
  bond_amount ← required raw "bond_amount" >>= expect_bigint "bond_amount"
  uptime_target_bps ← required raw "uptime_target_bps" >>= expect_number "uptime_target_bps"
  quorum_threshold ← required raw "quorum_threshold" >>= expect_number "quorum_threshold"
  penalty_per_breach ← required raw "penalty_per_breach" >>= expect_bigint "penalty_per_breach"
  beneficiary ← required raw "beneficiary" >>= expect_string "beneficiary"
  status ← required raw "status" >>= decode_status
  ok (record {
    provider = provider;
    token = token;
    endpoint_hash = endpoint_hash;
    bond_amount = bond_amount;
    uptime_target_bps = uptime_target_bps;
    quorum_threshold = quorum_threshold;
    penalty_per_breach = penalty_per_breach;
    beneficiary = beneficiary;
    status = status;
  })

-- A list or a byte array is an object without the struct's fields.
unfoldable pub decode_sla_config : Value → Result SlaConfig
unfolding decode_fields
decode_sla_config (obj raw) = decode_fields raw
decode_sla_config (arr vs) = err (type_error "provider")
decode_sla_config (bytes b) = err (type_error "provider")
decode_sla_config _ = err (type_error "get_sla")

-- `nativeToScVal(value, { type })`
pub data ScArg : Type 0 where
  address : String → ScArg
  bytes_arg : List ℕ → ScArg
  i128 u64 : ℤ → ScArg
  u32 : Number → ScArg

-- What `buildInvokeTx` is called with.
pub record Invocation : Type 0 where
  pub source : String
  pub contract_id : String
  pub function : String
  pub args : List ScArg

pub record CreateSla : Type 0 where
  pub provider : String
  pub token : String
  pub endpoint_url : Option String
  pub endpoint_hash : Option (List ℕ)
  pub bond_amount : ℤ
  pub uptime_target_bps : Number
  pub quorum_threshold : Number
  pub penalty_per_breach : ℤ
  pub beneficiary : String

-- Exactly one of a URL and a hash.
unfoldable pub resolve_endpoint_hash : Platform → Option String → Option (List ℕ) → Result (List ℕ)
resolve_endpoint_hash platform (some url) none = compute_endpoint_hash platform url "endpointUrl"
resolve_endpoint_hash platform none (some hash) =
    if nat_eq (length hash) 32 then ok hash else err (invalid_input "endpointHash")
resolve_endpoint_hash platform none none = err (invalid_input "endpointUrl/endpointHash")
resolve_endpoint_hash platform (some url) (some hash) =
    err (invalid_input "endpointUrl/endpointHash")

-- `vault` is `getSdkConfig().slaVaultContractId`.
module _ (keys : StrKey) (platform : Platform) (vault : Result String) where
  unfoldable pub build_create_sla_tx : CreateSla → Result Invocation
  unfolding resolve_endpoint_hash
  build_create_sla_tx p = do
    c1 ← assert_address keys p.provider "provider"
    c2 ← assert_contract_id keys p.token "token"
    c3 ← assert_address keys p.beneficiary "beneficiary"
    c4 ← assert_positive_amount p.bond_amount "bondAmount"
    c5 ← assert_positive_amount p.penalty_per_breach "penaltyPerBreach"
    c6 ← assert_u32 p.uptime_target_bps "uptimeTargetBps" 1 max_bps
    c7 ← assert_u32 p.quorum_threshold "quorumThreshold" 1 max_u32
    endpoint_hash ← resolve_endpoint_hash platform p.endpoint_url p.endpoint_hash
    contract_id ← vault
    ok (record {
      source = p.provider;
      contract_id = contract_id;
      function = "create_sla";
      args =
          address p.provider
          ∷ address p.token
          ∷ bytes_arg endpoint_hash
          ∷ i128 p.bond_amount
          ∷ u32 p.uptime_target_bps
          ∷ u32 p.quorum_threshold
          ∷ i128 p.penalty_per_breach
          ∷ address p.beneficiary
          ∷ [];
    })

  unfoldable pub build_top_up_bond_tx : String → ℤ → ℤ → Result Invocation
  build_top_up_bond_tx caller sla_id amount = do
    c1 ← assert_address keys caller "caller"
    c2 ← assert_u64 sla_id "slaId"
    c3 ← assert_positive_amount amount "amount"
    contract_id ← vault
    ok (record {
      source = caller;
      contract_id = contract_id;
      function = "top_up_bond";
      args = address caller ∷ u64 sla_id ∷ i128 amount ∷ [];
    })

  unfoldable pub build_trigger_settlement_tx : String → ℤ → ℤ → Result Invocation
  build_trigger_settlement_tx caller sla_id round_id = do
    c1 ← assert_address keys caller "caller"
    c2 ← assert_u64 sla_id "slaId"
    c3 ← assert_u64 round_id "roundId"
    contract_id ← vault
    ok (record {
      source = caller;
      contract_id = contract_id;
      function = "trigger_settlement";
      args = address caller ∷ u64 sla_id ∷ u64 round_id ∷ [];
    })

  -- A call of an account on one SLA.
  unfoldable pub build_sla_call : String → String → ℤ → Result Invocation
  build_sla_call function caller sla_id = do
    c1 ← assert_address keys caller "caller"
    c2 ← assert_u64 sla_id "slaId"
    contract_id ← vault
    ok (record {
      source = caller;
      contract_id = contract_id;
      function = function;
      args = address caller ∷ u64 sla_id ∷ [];
    })

  unfoldable pub build_cancel_sla_tx : String → ℤ → Result Invocation
  unfolding build_sla_call
  build_cancel_sla_tx caller sla_id = build_sla_call "cancel_sla" caller sla_id

  unfoldable pub build_withdraw_bond_tx : String → ℤ → Result Invocation
  unfolding build_sla_call
  build_withdraw_bond_tx caller sla_id = build_sla_call "withdraw_remaining_bond" caller sla_id

  unfoldable pub build_extend_sla_vault_ttl_tx : String → Result Invocation
  build_extend_sla_vault_ttl_tx caller = do
    c1 ← assert_address keys caller "caller"
    contract_id ← vault
    ok (record {
      source = caller;
      contract_id = contract_id;
      function = "extend_contract_ttl";
      args = [];
    })

-- What `simulateReadCall` gives is `result`.
unfoldable pub get_sla : ℤ → Result Value → Result SlaConfig
get_sla sla_id result = do c1 ← assert_u64 sla_id "slaId"; raw ← result; decode_sla_config raw

unfoldable pub get_bond_balance : Result Value → Result ℤ
get_bond_balance result = do raw ← result; expect_bigint "get_bond_balance" raw

unfoldable pub expect_boolean : String → Value → Result Bool
expect_boolean name (bool b) = ok b
expect_boolean name _ = err (type_error name)

unfoldable pub is_round_settled : Result Value → Result Bool
unfolding expect_boolean
is_round_settled result = do raw ← result; expect_boolean "is_round_settled" raw

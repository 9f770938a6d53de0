-- ===== src/Sdk/Vault/Laws.antt =====
-- The decoded SLA is the one that the contract encodes, and a built call is in the contract's ranges.
use slasettle_hub.Prelude.{String, ◌≡◌, refl, Result, ok, >>=-eq-ok, length}
use slasettle_hub.Js.{
  ℤ, Value, str, num, bigint, bytes, arr, obj, cons, nil, field, end, lookup_field, has_field, int,
}
use slasettle_hub.Sdk.Validate.{
  StrKey, IsBetween, max_i128, max_u32, max_bps, assert_address, assert_contract_id,
  assert_positive_amount, assert_u32, assert_positive_amount-IsBetween, assert_u32-IsBetween,
}
use slasettle_hub.Sdk.Hash.{Platform}
use slasettle_hub.Sdk.Vault.{
  SlaStatus, active, cancelled, SlaConfig, decode_sla_config, expect_endpoint_hash, decode_status,
  required, CreateSla, Invocation, build_create_sla_tx,
}

-- The symbol of a status, and the contract's encoding of an SLA as the SDK decodes it to a value.
abbrev pub status_symbol : SlaStatus → String
status_symbol active = "Active"
status_symbol cancelled = "Cancelled"

abbrev pub sla_object : SlaConfig → Value
sla_object c = obj (
    field "beneficiary" (str c.beneficiary) (
      field "bond_amount" (bigint c.bond_amount) (
        field "endpoint_hash" (bytes c.endpoint_hash) (
          field "penalty_per_breach" (bigint c.penalty_per_breach) (
            field "provider" (str c.provider) (
              field "quorum_threshold" (num c.quorum_threshold) (
                field "status" (arr (cons (str (status_symbol c.status)) nil)) (
                  field "token" (str c.token)
                    (field "uptime_target_bps" (num c.uptime_target_bps) end)))))))))

decode_status-status_symbol :
    (s : SlaStatus) → decode_status (arr (cons (str (status_symbol s)) nil)) ≡ ok s
unfolding decode_status
decode_status-status_symbol active = refl
decode_status-status_symbol cancelled = refl

-- An SLA whose endpoint commitment has 32 bytes is decoded from the contract's struct as it is.
pub decode_sla_config-sla_object :
    (c : SlaConfig) → length c.endpoint_hash ≡ 32 → decode_sla_config (sla_object c) ≡ ok c
unfolding decode_sla_config required lookup_field has_field expect_endpoint_hash
decode_sla_config-sla_object c h = rw (h, decode_status-status_symbol c.status) refl

-- The numbers of a call that is in the contract's ranges.
pub record IsInRange (p : CreateSla) : Type 0 where
  pub bond_amount : IsBetween 1 max_i128 p.bond_amount
  pub penalty_per_breach : IsBetween 1 max_i128 p.penalty_per_breach
  pub uptime_target_bps : (z : ℤ) × (p.uptime_target_bps ≡ int z) × IsBetween 1 max_bps z
  pub quorum_threshold : (z : ℤ) × (p.quorum_threshold ≡ int z) × IsBetween 1 max_u32 z

unit_eq : (u : Unit {0}) → u ≡ tt
unit_eq u = refl

-- A `create_sla` transaction is only built if the bond and the penalty are positive and fit an i128,
-- the uptime target is a whole number of 1 to 10000 basis points, and the quorum is a whole number
-- that fits a u32 and is at least 1.
pub build_create_sla_tx-IsInRange :
    (keys : StrKey) (platform : Platform) (vault : Result String) (p : CreateSla) (i : Invocation)
    → build_create_sla_tx keys platform vault p ≡ ok i
    → IsInRange p
unfolding build_create_sla_tx
build_create_sla_tx-IsInRange keys platform vault p i h =
    let (c1, e1, h1) = >>=-eq-ok (assert_address keys p.provider "provider") _ h in
    let (c2, e2, h2) = >>=-eq-ok (assert_contract_id keys p.token "token") _ h1 in
    let (c3, e3, h3) = >>=-eq-ok (assert_address keys p.beneficiary "beneficiary") _ h2 in
    let (c4, e4, h4) = >>=-eq-ok (assert_positive_amount p.bond_amount "bondAmount") _ h3 in
    let (c5, e5, h5) =
      >>=-eq-ok (assert_positive_amount p.penalty_per_breach "penaltyPerBreach") _ h4 in
    let (c6, e6, h6) =
      >>=-eq-ok (assert_u32 p.uptime_target_bps "uptimeTargetBps" 1 max_bps) _ h5 in
    let (c7, e7, h7) = >>=-eq-ok (assert_u32 p.quorum_threshold "quorumThreshold" 1 max_u32) _ h6 in
    record {
      bond_amount = assert_positive_amount-IsBetween p.bond_amount "bondAmount" e4;
      penalty_per_breach =
          assert_positive_amount-IsBetween p.penalty_per_breach "penaltyPerBreach" e5;
      uptime_target_bps = assert_u32-IsBetween p.uptime_target_bps "uptimeTargetBps" 1 max_bps e6;
      quorum_threshold = assert_u32-IsBetween p.quorum_threshold "quorumThreshold" 1 max_u32 e7;
    }

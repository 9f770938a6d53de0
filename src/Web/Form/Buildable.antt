-- ===== src/Web/Form/Buildable.antt =====
-- packages/sdk/src/sla-vault.ts: the reviews of the form that `buildCreateSlaTx` accepts.
use slasettle_hub.Prelude.{ℕ, ◌≤◌, String, List, length, none, some, ok, [], ◌∷◌, ◌≡◌, refl, arith}
use slasettle_hub.Js.{pos, int}
use slasettle_hub.Sdk.Validate.{
  StrKey, max_i128, max_u32, max_bps, assert_address, assert_contract_id, assert_positive_amount,
  assert_u32,
}
use slasettle_hub.Sdk.Hash.{Platform}
use slasettle_hub.Sdk.Vault.{
  Invocation, address, bytes_arg, i128, u32, resolve_endpoint_hash, build_create_sla_tx,
}
use slasettle_hub.Web.Form.Submit.{CreateSlaReview, create_sla_call}

positive_passes :
    (n : ℕ) (name : String) → 1 ≤ n → n ≤ max_i128 → assert_positive_amount (pos n) name ≡ ok tt
unfolding assert_positive_amount
positive_passes n name h k = ground arith

u32_passes :
    (n max : ℕ) (name : String) → 1 ≤ n → n ≤ max → assert_u32 (int (pos n)) name 1 max ≡ ok tt
unfolding assert_u32
u32_passes n max name h k = ground arith

-- What the checks of the SDK ask of a review.
pub record IsBuildable (keys : StrKey) (r : CreateSlaReview) : Type 0 where
  pub hash : length r.endpoint_hash ≡ 32
  pub token : assert_contract_id keys r.token "token" ≡ ok tt
  pub bond : (1 ≤ r.bond_amount) × (r.bond_amount ≤ max_i128)
  pub uptime : (1 ≤ r.uptime_target_bps) × (r.uptime_target_bps ≤ max_bps)
  pub quorum : (1 ≤ r.quorum_threshold) × (r.quorum_threshold ≤ max_u32)
  pub penalty : (1 ≤ r.penalty_per_breach) × (r.penalty_per_breach ≤ max_i128)
  pub within : r.penalty_per_breach ≤ r.bond_amount
  pub beneficiary : assert_address keys r.beneficiary "beneficiary" ≡ ok tt

resolved :
    (platform : Platform) (hash : List ℕ)
    → length hash ≡ 32
    → resolve_endpoint_hash platform none (some hash) ≡ ok hash
unfolding resolve_endpoint_hash
resolved platform hash h = rw h refl

-- The call that a review stands for.
abbrev pub create_sla_invocation : String → String → CreateSlaReview → Invocation
create_sla_invocation provider vault r = record {
  source = provider;
  contract_id = vault;
  function = "create_sla";
  args =
      address provider
      ∷ address r.token
      ∷ bytes_arg r.endpoint_hash
      ∷ i128 (pos r.bond_amount)
      ∷ u32 (int (pos r.uptime_target_bps))
      ∷ u32 (int (pos r.quorum_threshold))
      ∷ i128 (pos r.penalty_per_breach)
      ∷ address r.beneficiary
      ∷ [];
}

-- A review is built.
pub IsBuildable-builds :
    (keys : StrKey) (platform : Platform) (provider vault : String) (r : CreateSlaReview)
    → assert_address keys provider "provider" ≡ ok tt
    → IsBuildable keys r
    → build_create_sla_tx keys platform (ok vault) (create_sla_call provider r)
      ≡ ok (create_sla_invocation provider vault r)
unfolding build_create_sla_tx create_sla_call
IsBuildable-builds keys platform provider vault r h b = rw h (
    rw b.token (
      rw b.beneficiary (
        rw (positive_passes r.bond_amount "bondAmount" b.bond.0 b.bond.1) (
          rw (positive_passes r.penalty_per_breach "penaltyPerBreach" b.penalty.0 b.penalty.1) (
            rw (u32_passes r.uptime_target_bps max_bps "uptimeTargetBps" b.uptime.0 b.uptime.1) (
              rw (u32_passes r.quorum_threshold max_u32 "quorumThreshold" b.quorum.0 b.quorum.1)
                (rw (resolved platform r.endpoint_hash b.hash) refl)))))))

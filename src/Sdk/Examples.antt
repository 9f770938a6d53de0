-- ===== src/Sdk/Examples.antt =====
-- Concrete calls of the SDK, and its theorems at concrete inputs.
use slasettle_hub.Prelude.{
  zero, suc, ℕ, ◌≤◌, List, [], ◌∷◌, true, none, some, ◌≡◌, ◌↔◌, refl, Result, ok, err,
}
use slasettle_hub.Js.{int, pos}
use slasettle_hub.Sdk.Validate.{
  StrKey, assert_address, assert_contract_id, assert_positive_amount, assert_u32,
}
use slasettle_hub.Sdk.Hash.{
  Platform, trim_endpoint_input, compute_endpoint_hash, compute_endpoint_hash-trim_endpoint_input,
}
use slasettle_hub.Sdk.Quorum.{RoundTally, derive_quorum, more_down, derive_quorum-remaining}
use slasettle_hub.Sdk.Vault.{
  SlaConfig, active, decode_sla_config, CreateSla, Invocation, build_create_sla_tx,
}
use slasettle_hub.Sdk.Vault.Laws.{
  sla_object, decode_sla_config-sla_object, IsInRange, build_create_sla_tx-IsInRange,
}

abbrev keys : StrKey
keys = record { is_valid_ed25519_public_key = λ s. true; is_valid_contract = λ s. true }

abbrev pub zeros : ℕ → List ℕ
zeros zero = []
zeros (suc n) = 0 ∷ zeros n

abbrev platform : Platform
platform = record { url_host = λ s. some "example.com"; sha256_utf8 = λ s. zeros 32 }

compute_endpoint_hash-trim_endpoint_input_example :
    compute_endpoint_hash platform (trim_endpoint_input " https://example.com ") "endpoint"
    ≡ compute_endpoint_hash platform " https://example.com " "endpoint"
compute_endpoint_hash-trim_endpoint_input_example =
    compute_endpoint_hash-trim_endpoint_input platform " https://example.com " "endpoint"

abbrev tally : RoundTally
tally = record { votes_up = 4; votes_down = 1 }

derive_quorum-remaining_example :
    ((derive_quorum (more_down 2 tally) 3).reached ≡ true) ↔ ((derive_quorum tally 3).remaining ≤ 2)
derive_quorum-remaining_example = derive_quorum-remaining tally 3 2

abbrev pub sla : SlaConfig
sla = record {
  provider = "GA";
  token = "CA";
  endpoint_hash = zeros 32;
  bond_amount = pos 1000;
  uptime_target_bps = int (pos 9990);
  quorum_threshold = int (pos 3);
  penalty_per_breach = pos 10;
  beneficiary = "GB";
  status = active;
}

decode_sla_config-sla_object_example : decode_sla_config (sla_object sla) ≡ ok sla
decode_sla_config-sla_object_example = decode_sla_config-sla_object sla refl

abbrev create : CreateSla
create = record {
  provider = "GA";
  token = "CA";
  endpoint_url = none;
  endpoint_hash = some (zeros 32);
  bond_amount = pos 1000;
  uptime_target_bps = int (pos 9990);
  quorum_threshold = int (pos 3);
  penalty_per_breach = pos 10;
  beneficiary = "GB";
}

abbrev invocation_of : Result Invocation → Invocation
invocation_of (ok i) = i
invocation_of (err e) = record { source = ""; contract_id = ""; function = ""; args = [] }

abbrev created : Invocation
created = invocation_of (build_create_sla_tx keys platform (ok "CV") create)

create-built : build_create_sla_tx keys platform (ok "CV") create ≡ ok created
unfolding build_create_sla_tx assert_address assert_contract_id assert_positive_amount assert_u32
create-built = refl

build_create_sla_tx-IsInRange_example : IsInRange create
build_create_sla_tx-IsInRange_example =
    build_create_sla_tx-IsInRange keys platform (ok "CV") create created create-built

-- ===== src/Sdk/Registry.antt =====
-- packages/sdk/src/watcher-registry.ts: the tally of a round and the other reads of the registry, over
-- what `simulateReadCall` gives.
use slasettle_hub.Prelude.{
  ℕ, String, List, [], Bool, not, ◌||◌, Result, ok, err, ◌>>=◌, type_error, if◌then◌else◌, nat_eq,
  length,
}
use slasettle_hub.Js.{ℤ, Number, Value, obj, num, lookup_field, has_field}
use slasettle_hub.Sdk.Validate.{StrKey, assert_address, assert_u64}
use slasettle_hub.Sdk.Vault.{Invocation, expect_bigint, expect_boolean, expect_number}

-- `RoundTally` as it is read, its counts still numbers of JavaScript.
pub record DecodedTally : Type 0 where
  pub votes_up : Number
  pub votes_down : Number

unfoldable pub tally_of_fields : Value → Value → Result DecodedTally
tally_of_fields (num up) (num down) = ok (record { votes_up = up; votes_down = down })
tally_of_fields _ _ = err (type_error "votes")

unfoldable pub decode_round_tally : Value → Result DecodedTally
unfolding tally_of_fields
decode_round_tally (obj raw) =
    if not (has_field "votes_up" raw) || not (has_field "votes_down" raw)
    then err (type_error "get_round_tally")
    else tally_of_fields (lookup_field "votes_up" raw) (lookup_field "votes_down" raw)
decode_round_tally _ = err (type_error "get_round_tally")

unfoldable pub get_round_tally : ℤ → ℤ → List ℕ → Result Value → Result DecodedTally
get_round_tally sla_id round_id endpoint_hash result = do
  c1 ← assert_u64 sla_id "slaId"
  c2 ← assert_u64 round_id "roundId"
  if not (nat_eq (length endpoint_hash) 32)
      then err (type_error "endpointHash")
      else (result >>= decode_round_tally)

module _ (keys : StrKey) where
  unfoldable pub has_watcher_voted : ℤ → ℤ → String → Result Value → Result Bool
  has_watcher_voted sla_id round_id watcher result = do
    c1 ← assert_u64 sla_id "slaId"
    c2 ← assert_u64 round_id "roundId"
    c3 ← assert_address keys watcher "watcher"
    raw ← result
    expect_boolean "has_watcher_voted" raw

  unfoldable pub is_watcher : String → Result Value → Result Bool
  is_watcher watcher result = do
    c1 ← assert_address keys watcher "watcher"
    raw ← result
    expect_boolean "is_watcher" raw

  unfoldable pub build_extend_watcher_registry_ttl_tx : Result String → String → Result Invocation
  build_extend_watcher_registry_ttl_tx registry caller = do
    c1 ← assert_address keys caller "caller"
    contract_id ← registry
    ok (record {
      source = caller;
      contract_id = contract_id;
      function = "extend_contract_ttl";
      args = [];
    })

unfoldable pub get_current_round : Result Value → Result ℤ
get_current_round result = do raw ← result; expect_bigint "get_current_round" raw

unfoldable pub get_watcher_count : Result Value → Result Number
get_watcher_count result = do raw ← result; expect_number "get_watcher_count" raw

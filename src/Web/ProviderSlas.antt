-- ===== src/Web/ProviderSlas.antt =====
-- apps/web/lib/use-provider-slas.ts: the SLAs of a provider, with what each read of the chain gives,
-- and the retries after a creation. A read is its answer, so that the map of pending token reads,
-- which shares one read between the SLAs of a token, is not seen.
pub mod Laws
use slasettle_hub.Prelude.{
  ℕ, zero, suc, ◌+◌, String, List, [], ◌∷◌, map, Bool, true, false, Option, none, some, ltb, leb,
  if◌then◌else◌, ◌||◌,
}
use slasettle_hub.Js.{ℤ}
use slasettle_hub.Sdk.Vault.{SlaConfig}
use slasettle_hub.Web.Reads.{ReadError, Read, thrown, got, ◌>>=◌, describe_read_error}
use slasettle_hub.Web.Client.{Browser}
use slasettle_hub.Web.Client.Requests.{PagedResult}
use slasettle_hub.Web.Client.Endpoints.{ProviderSlaSummary, get_provider_slas}

pub record ProviderSlaView : Type 0 where
  pub sla_id : ℕ
  pub config : SlaConfig
  pub bond_balance : ℤ
  pub token_decimals : ℕ
  pub token_symbol : String

pub record ProviderSlaFailure : Type 0 where
  pub sla_id : ℕ
  pub message : String

pub record ProviderSlaResult : Type 0 where
  pub slas : List ProviderSlaView
  pub failures : List ProviderSlaFailure

-- The reads of the SDK, and which of two reads that run together is settled first.
pub record ChainReads : Type 0 where
  pub get_sla : ℕ → Read SlaConfig
  pub get_bond_balance : ℕ → Read ℤ
  pub get_token_decimals : String → Read ℕ
  pub get_token_symbol : String → Read String
  pub bond_first : ℕ → Bool
  pub symbol_first : String → Bool

-- `Promise.all([a, b])`: it is rejected with the rejection that comes first.
unfoldable pub promise_all {ℓ κ} : {A : Type ℓ} {B : Type κ} → Bool → Read A → Read B → Read (A × B)
promise_all second_first (got a) (got b) = got (a, b)
promise_all second_first (got a) (thrown e) = thrown e
promise_all second_first (thrown e) (got b) = thrown e
promise_all second_first (thrown d) (thrown e) = thrown (if second_first then e else d)

pub data SlaOutcome : Type 0 where
  sla : ProviderSlaView → SlaOutcome
  failure : ProviderSlaFailure → SlaOutcome

module _ (reads : ChainReads) where
  -- The try block of the callback.
  unfoldable pub read_sla : ℕ → Read ProviderSlaView
  unfolding promise_all
  read_sla id = do
    first ← promise_all (reads.bond_first id) (reads.get_sla id) (reads.get_bond_balance id)
    let token = first.0.token
    metadata ←
        promise_all (reads.symbol_first token) (reads.get_token_decimals token)
          (reads.get_token_symbol token)
    got (record {
      sla_id = id;
      config = first.0;
      bond_balance = first.1;
      token_decimals = metadata.0;
      token_symbol = metadata.1;
    })

  -- and its catch block
  unfoldable pub outcome_of : ℕ → Read ProviderSlaView → SlaOutcome
  unfolding describe_read_error
  outcome_of id (got view) = sla view
  outcome_of id (thrown e) = failure (record { sla_id = id; message = describe_read_error e })

  unfoldable pub read_summary : ProviderSlaSummary → SlaOutcome
  unfolding read_sla outcome_of
  read_summary summary = outcome_of summary.sla_id (read_sla summary.sla_id)

unfoldable pub add_outcome : SlaOutcome → ProviderSlaResult → ProviderSlaResult
add_outcome (sla view) r = record r { slas = view ∷ r.slas }
add_outcome (failure f) r = record r { failures = f ∷ r.failures }

-- The loop over the outcomes.
unfoldable pub split_outcomes : List SlaOutcome → ProviderSlaResult
unfolding add_outcome
split_outcomes [] = record { slas = []; failures = [] }
split_outcomes (o ∷ os) = add_outcome o (split_outcomes os)

-- `mapWithLimit` gives the outcomes in the order of the summaries.
unfoldable pub fetch_provider_slas : Browser → ChainReads → String → Read ProviderSlaResult
unfolding get_provider_slas split_outcomes read_summary
fetch_provider_slas browser reads address = do
  page ← get_provider_slas browser address
  got (split_outcomes (map (read_summary reads) page.items))

abbrev pub indexing_retry_limit : ℕ
indexing_retry_limit = 18

-- The effect that waits for more than `base` SLAs, where the read after `n` retries shows `counts n`:
-- the retries that it has made when it stops.
unfoldable pub retries_from : ℕ → (ℕ → ℕ) → ℕ → ℕ → ℕ
retries_from base counts zero retries = retries
retries_from base counts (suc fuel) retries =
    let later = retries_from base counts fuel (retries + 1) in
    if ltb base (counts retries) || leb indexing_retry_limit retries then retries else later

-- refreshAfterCreate
unfoldable pub refresh_after_create : ℕ → (ℕ → ℕ) → ℕ
unfolding retries_from
refresh_after_create base counts = retries_from base counts indexing_retry_limit 0

-- ===== src/Indexer/Rpc.antt =====
-- indexer/src/rpc/client.ts: requests to the Soroban RPC, retried when the network fails. What the
-- server answers at each attempt is an argument.
pub mod Retry
use slasettle_hub.Prelude.{
  ℕ, zero, suc, ◌+◌, ◌*◌, String, List, [], ◌∷◌, Bool, true, false, ◌&&◌, ◌||◌, not, length, ltb,
  nat_eq, if◌then◌else◌,
}
use slasettle_hub.Js.{Number, Value, undefined, obj, bool, Fields, lookup_field, has_field}

-- A promise that is settled: its value, or what it was rejected with.
pub data Outcome {ℓ} (A : Type ℓ) : Type ℓ where
  resolved : A → Outcome A
  rejected : Value → Outcome A

unfoldable pub is_true : Value → Bool
is_true (bool true) = true
is_true _ = false

unfoldable pub is_undefined : Value → Bool
is_undefined undefined = true
is_undefined _ = false

-- An AxiosError without a response.
unfoldable pub is_transient_network_error : Value → Bool
unfolding is_true is_undefined lookup_field has_field
is_transient_network_error (obj fs) =
    has_field "isAxiosError" fs
    && is_true (lookup_field "isAxiosError" fs)
    && is_undefined (lookup_field "response" fs)
is_transient_network_error _ = false

-- RETRY_ATTEMPTS, RETRY_BASE_DELAY_MS
abbrev pub retry_attempts : ℕ
retry_attempts = 3

abbrev pub retry_base_delay_ms : ℕ
retry_base_delay_ms = 250

-- How a retried call ends, and the pauses it made before.
pub record Retried {ℓ} (A : Type ℓ) : Type ℓ where
  pub outcome : Outcome A
  pub pauses : List ℕ

unfoldable pub after_pause {ℓ} : {A : Type ℓ} → ℕ → Retried A → Retried A
after_pause ms r = record r { pauses = ms ∷ r.pauses }

-- The loop from `attempt` on, `left` rounds of which remain; behind its last round stands the
-- source's `throw new Error("unreachable")`.
unfoldable pub retry_from {ℓ} : {A : Type ℓ} → ℕ → ℕ → (ℕ → Outcome A) → Retried A
unfolding after_pause
retry_from zero attempt fn = record { outcome = rejected (Value.str "unreachable"); pauses = [] }
retry_from (suc left) attempt fn = elim (fn attempt) [
  | resolved a ↦ record { outcome = resolved a; pauses = [] }
  | rejected e ↦
      let again = after_pause (retry_base_delay_ms * attempt) (retry_from left (attempt + 1) fn) in
      if not (is_transient_network_error e) || nat_eq attempt retry_attempts
      then record { outcome = rejected e; pauses = [] }
      else again
]

unfoldable pub with_network_retry {ℓ} : {A : Type ℓ} → (ℕ → Outcome A) → Retried A
unfolding retry_from
with_network_retry fn = retry_from retry_attempts 1 fn

-- Either the first ledger or a cursor, never both.
pub data EventsCursor : Type 0 where
  from_ledger : Number → EventsCursor
  from_cursor : String → EventsCursor

-- The request that is sent: one contract filter, no topics.
pub record EventsRequest : Type 0 where
  pub contract_ids : List String
  pub cursor : EventsCursor
  pub limit : ℕ

-- A filter takes at most five contracts.
unfoldable pub get_events {ℓ} :
    {Page : Type ℓ} → (EventsRequest → ℕ → Outcome Page) → EventsRequest → Retried Page
unfolding with_network_retry
get_events server request =
    let sent = with_network_retry (server request) in
    if ltb 5 (length request.contract_ids)
    then record {
      outcome = rejected (Value.str "getEvents called with too many contract IDs");
      pauses = [];
    }
    else sent

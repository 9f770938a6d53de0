-- ===== src/Indexer/Classify.antt =====
-- indexer/src/ingest/classify.ts: a page of decoded events becomes rows. The source pushes into the
-- arrays of one batch; here each event gives what it pushes, and `classify_from` appends it.
pub mod Pages
pub mod Accounting
use slasettle_hub.Prelude.{
  ℕ, String, List, [], ◌∷◌, Option, none, some, Result, ok, err, ◌>>=◌, ◌==◌, if◌then◌else◌,
  get_elem?, or_else,
}
use slasettle_hub.Js.{nan, Number, Value, Values, undefined, arr, str, nil, cons, Runtime, property}
use slasettle_hub.Indexer.Rows.{
  CheckStatus, up, down, WatcherEventType, registered, removed, LifecycleType, ClassifiedBatch,
  empty_batch, push_all,
}
use slasettle_hub.Indexer.Rows
use slasettle_hub.Indexer.Decode.{
  EventType, watcher_registered, watcher_removed, check_submitted, sla_created, bond_topped_up,
  settlement_paid, sla_cancelled, bond_withdrawn, event_type_of, DecodedEvent, amount_to_string,
  bytes_to_hex,
}

-- Exactly `["Up"]` or `["Down"]`; anything else is `null`.
unfoldable pub parse_check_status : Value → Option CheckStatus
parse_check_status (arr (cons (str s) nil)) =
    if s == "Up" then some up else if s == "Down" then some down else none
parse_check_status _ = none

unfoldable pub type_of : Option String → Option EventType
type_of none = none
type_of (some s) = event_type_of s

abbrev skip_with_warning : DecodedEvent → ClassifiedBatch
skip_with_warning event = record empty_batch { warned = event.event_id ∷ [] }

module _ (js : Runtime) where
  -- `String(event.topics[i])`, where a missing topic is undefined
  unfoldable pub topic_text : DecodedEvent → ℕ → String
  topic_text event i = js.text_of (or_else (get_elem? event.topics i) undefined)

  -- `String(data.k)`
  unfoldable pub field_text : String → Value → Result String
  field_text k d = do v ← property k d; ok (js.text_of v)

  unfoldable pub field_amount : String → Value → Result String
  field_amount k d = do v ← property k d; amount_to_string js v

  unfoldable pub field_hash : String → Value → Result String
  field_hash k d = do v ← property k d; bytes_to_hex v

  unfoldable pub watcher_push : WatcherEventType → DecodedEvent → ClassifiedBatch
  watcher_push t event = record empty_batch {
    watcher_events =
        record { type = t; address = topic_text event 1; at = event.ledger_close_time } ∷ [];
  }

  -- A malformed status is quarantined; the other conversions throw.
  unfoldable pub check_push : Option CheckStatus → DecodedEvent → Result ClassifiedBatch
  check_push none event = ok (skip_with_warning event)
  check_push (some status) event = do
    round_id ← field_text "round_id" event.data_value
    endpoint_hash ← field_hash "endpoint_hash" event.data_value
    ok (record empty_batch {
      checks =
          record {
            event_id = event.event_id;
            sla_id = topic_text event 1;
            round_id = round_id;
            watcher = topic_text event 2;
            status = status;
            endpoint_hash = endpoint_hash;
            checked_at = event.ledger_close_time;
          }
          ∷ [];
    })

  unfoldable pub sla_push : DecodedEvent → Result ClassifiedBatch
  sla_push event = do
    token ← field_text "token" event.data_value
    endpoint_hash ← field_hash "endpoint_hash" event.data_value
    bond ← field_amount "bond_amount" event.data_value
    quorum ← property "quorum_threshold" event.data_value
    beneficiary ← field_text "beneficiary" event.data_value
    ok (record empty_batch {
      slas =
          record {
            sla_id = topic_text event 1;
            provider = topic_text event 2;
            token = token;
            endpoint_hash = endpoint_hash;
            bond_amount_at_creation = bond;
            quorum_threshold = some (js.number_of quorum);
            beneficiary = beneficiary;
            created_at = event.ledger_close_time;
            tx_hash = event.tx_hash;
          }
          ∷ [];
    })

  unfoldable pub settlement_push : DecodedEvent → Result ClassifiedBatch
  settlement_push event = do
    payout ← field_amount "payout" event.data_value
    beneficiary ← field_text "beneficiary" event.data_value
    ok (record empty_batch {
      settlements =
          record {
            event_id = event.event_id;
            sla_id = topic_text event 1;
            round_id = topic_text event 2;
            quorum_threshold = none;
            penalty_amount = payout;
            beneficiary = beneficiary;
            tx_hash = event.tx_hash;
            ledger_close_time = event.ledger_close_time;
          }
          ∷ [];
    })

  unfoldable pub lifecycle_push : LifecycleType → Option String → DecodedEvent → ClassifiedBatch
  lifecycle_push t amount event = record empty_batch {
    lifecycle_events =
        record {
          event_id = event.event_id;
          sla_id = topic_text event 1;
          event_type = t;
          amount = amount;
          tx_hash = event.tx_hash;
          ledger_close_time = event.ledger_close_time;
        }
        ∷ [];
  }

  -- The cases of the switch; `none` is its default.
  unfoldable pub classify_as : Option EventType → DecodedEvent → Result ClassifiedBatch
  unfolding watcher_push check_push sla_push settlement_push lifecycle_push topic_text field_text
      field_amount field_hash empty_batch parse_check_status
  classify_as (some watcher_registered) event = ok (watcher_push registered event)
  classify_as (some watcher_removed) event = ok (watcher_push removed event)
  classify_as (some check_submitted) event = do
    raw ← property "status" event.data_value
    check_push (parse_check_status raw) event
  classify_as (some sla_created) event = sla_push event
  classify_as (some settlement_paid) event = settlement_push event
  classify_as (some bond_topped_up) event = do
    amount ← field_amount "amount" event.data_value
    ok (lifecycle_push LifecycleType.bond_topped_up (some amount) event)
  classify_as (some sla_cancelled) event =
      ok (lifecycle_push LifecycleType.sla_cancelled none event)
  classify_as (some bond_withdrawn) event = do
    amount ← field_amount "amount" event.data_value
    ok (lifecycle_push LifecycleType.bond_withdrawn (some amount) event)
  classify_as none event = ok (skip_with_warning event)

  -- The topic of an event selects the case; an event with no text topic takes the default.
  unfoldable pub classify_event : DecodedEvent → Result ClassifiedBatch
  classify_event event = classify_as (type_of event.topic_symbol) event

  -- The loop over the page: the first throw ends it.
  unfoldable pub classify_from : ClassifiedBatch → List DecodedEvent → Result ClassifiedBatch
  classify_from batch [] = ok batch
  classify_from batch (event ∷ events) = do
    pushed ← classify_event event
    classify_from (push_all batch pushed) events

  unfoldable pub classify_events : List DecodedEvent → Result ClassifiedBatch
  unfolding classify_from empty_batch
  classify_events events = classify_from empty_batch events

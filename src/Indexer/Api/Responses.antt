-- ===== src/Indexer/Api/Responses.antt =====
-- The bodies of the API's answers, as both servers build them from rows.
use Prim.Native.String.{◌++◌ as text_append}
use slasettle_hub.Prelude.{
  ℕ, String, List, map, Bool, Option, none, some, ◌==◌, ◌||◌, false, not, [], ◌∷◌, keep_if, last?,
  if◌then◌else◌, ◌*◌,
}
use slasettle_hub.Js.{Number, Runtime, str}
use slasettle_hub.Indexer.Rows.{
  CheckRow, CheckStatus, SlaRow, SettlementRow, LifecycleType, LifecycleEventRow,
}
use slasettle_hub.Indexer.Tables.{Tables, WatcherRow, CheckpointRow}
use slasettle_hub.Indexer.Tables.D1.{get_vote_counts}
use slasettle_hub.Indexer.Api.{Codec}
use slasettle_hub.Indexer.Api.Pagination.{encode_cursor}
use slasettle_hub.Indexer.Api.Ledger.{LedgerInfo, current_round_id}

-- `cp?.last_ledger ?? null`
unfoldable pub last_indexed_ledger : Option CheckpointRow → Option ℕ
last_indexed_ledger none = none
last_indexed_ledger (some c) = some c.last_ledger

pub record WatcherItem : Type 0 where
  pub address : String
  pub registered_at : String

unfoldable pub watcher_item : WatcherRow → WatcherItem
watcher_item r = record { address = r.address; registered_at = r.registered_at }

pub record CheckItem : Type 0 where
  pub watcher : String
  pub status : CheckStatus
  pub checked_at : String

unfoldable pub check_item : CheckRow → CheckItem
check_item c = record { watcher = c.watcher; status = c.status; checked_at = c.checked_at }

-- `Set.prototype.has`, on the watchers of the checks.
unfoldable pub has_text : String → List String → Bool
has_text s [] = false
has_text s (x ∷ xs) = x == s || has_text s xs

-- The addresses without a check in the round.
unfoldable pub not_yet_checked_in : List WatcherRow → List CheckRow → List String
unfolding has_text
not_yet_checked_in watchers checked_in =
    keep_if (λ (a : String). not (has_text a (map (λ (c : CheckRow). c.watcher) checked_in)))
      (map (λ (w : WatcherRow). w.address) watchers)

pub record CurrentRound : Type 0 where
  pub round_id : ℕ
  pub round_started_at : String
  pub checked_in : List CheckItem
  pub not_yet_checked_in : List String

unfoldable pub current_round : Codec → ℕ → ℕ → List WatcherRow → List CheckRow → CurrentRound
unfolding check_item not_yet_checked_in
current_round codec round_id round_length watchers checked_in = record {
  round_id = round_id;
  round_started_at = codec.iso_string (round_id * round_length * 1000);
  checked_in = map check_item checked_in;
  not_yet_checked_in = not_yet_checked_in watchers checked_in;
}

pub record SettlementItem : Type 0 where
  pub round_id : Number
  pub votes_up : ℕ
  pub votes_down : ℕ
  pub quorum_threshold : Option Number
  pub penalty_amount : String
  pub beneficiary : String
  pub tx_hash : String
  pub ledger_close_time : String
  pub explorer_url : String

-- The votes are counted for the row's own round.
unfoldable pub settlement_item : Runtime → Tables → SettlementRow → SettlementItem
settlement_item js t r =
    let votes = get_vote_counts r.sla_id r.round_id t in
    record {
      round_id = js.number_of (str r.round_id);
      votes_up = votes.votes_up;
      votes_down = votes.votes_down;
      quorum_threshold = r.quorum_threshold;
      penalty_amount = r.penalty_amount;
      beneficiary = r.beneficiary;
      tx_hash = r.tx_hash;
      ledger_close_time = r.ledger_close_time;
      explorer_url = text_append "https://stellar.expert/explorer/testnet/tx/" r.tx_hash;
    }

pub record LifecycleItem : Type 0 where
  pub event_type : LifecycleType
  pub amount : Option String
  pub tx_hash : String
  pub ledger_close_time : String

unfoldable pub lifecycle_item : LifecycleEventRow → LifecycleItem
lifecycle_item r = record {
  event_type = r.event_type;
  amount = r.amount;
  tx_hash = r.tx_hash;
  ledger_close_time = r.ledger_close_time;
}

pub record SlaItem : Type 0 where
  pub sla_id : Number
  pub token : String
  pub endpoint_hash : String
  pub bond_amount_at_creation : String
  pub beneficiary : String
  pub created_at : String
  pub tx_hash : String

unfoldable pub sla_item : Runtime → SlaRow → SlaItem
sla_item js r = record {
  sla_id = js.number_of (str r.sla_id);
  token = r.token;
  endpoint_hash = r.endpoint_hash;
  bond_amount_at_creation = r.bond_amount_at_creation;
  beneficiary = r.beneficiary;
  created_at = r.created_at;
  tx_hash = r.tx_hash;
}

pub record Clock : Type 0 where
  pub ledger_sequence : ℕ
  pub ledger_close_time : String
  pub current_round_id : ℕ

unfoldable pub clock_of : Codec → LedgerInfo → ℕ → Clock
clock_of codec ledger round_length = record {
  ledger_sequence = ledger.sequence;
  ledger_close_time = codec.iso_string ledger.close_time_ms;
  current_round_id = current_round_id ledger round_length;
}

module _ (codec : Codec) where
  pub record SettlementsPage : Type 0 where
    pub items : List SettlementItem
    pub next_cursor : Option (codec.Encoded)

  -- `hasMore && last ? encodeCursor(…) : null`
  unfoldable pub cursor_behind : Option SettlementRow → Option (codec.Encoded)
  cursor_behind none = none
  cursor_behind (some last) = some (
      encode_cursor codec
        (record { ledger_close_time = last.ledger_close_time; event_id = last.event_id }))

  unfoldable pub next_cursor : Bool → List SettlementRow → Option (codec.Encoded)
  unfolding cursor_behind
  next_cursor has_more rows = if has_more then cursor_behind (last? rows) else none

  -- The answer of a settlements request: the status 400 with its message, or a page.
  pub data SettlementsAnswer : Type 0 where
    invalid_limit : String → SettlementsAnswer
    page : SettlementsPage → SettlementsAnswer

  -- The page that is sent, of rows that are filled.
  unfoldable pub page_of : Runtime → Bool → List SettlementRow → Tables → SettlementsPage
  unfolding settlement_item next_cursor
  page_of js has_more rows t = record {
    items = map (settlement_item js t) rows;
    next_cursor = next_cursor has_more rows;
  }

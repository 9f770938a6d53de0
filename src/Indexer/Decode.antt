-- ===== src/Indexer/Decode.antt =====
-- indexer/src/rpc/decode.ts: the topics, the decoded event, and the checked conversions.
use slasettle_hub.Prelude.{
  ℕ, ◌/◌, ◌%◌, String, List, [], ◌∷◌, map, Option, none, some, Result, ok, err, plain_error, ◌==◌,
  if◌then◌else◌, get_elem?, head?, or_else,
}
use Prim.Native.String.{◌++◌ as text_append}
use slasettle_hub.Js.{Value, num, bigint, str, bytes, Runtime}

-- EVENT_TYPE_TOPIC
pub data EventType : Type 0 where
  watcher_registered watcher_removed check_submitted sla_created : EventType
  bond_topped_up settlement_paid sla_cancelled bond_withdrawn : EventType

unfoldable pub event_type_of : String → Option EventType
event_type_of s =
    if s == "watcher_registered"
    then some watcher_registered
    else if s == "watcher_removed"
    then some watcher_removed
    else if s == "check_submitted"
    then some check_submitted
    else if s == "sla_created"
    then some sla_created
    else if s == "bond_topped_up"
    then some bond_topped_up
    else if s == "settlement_paid"
    then some settlement_paid
    else if s == "sla_cancelled"
    then some sla_cancelled
    else if s == "bond_withdrawn"
    then some bond_withdrawn
    else none

pub record DecodedEvent : Type 0 where
  pub event_id : String
  pub ledger : ℕ
  pub ledger_close_time : String
  pub tx_hash : String
  pub contract_id : String
  pub topic_symbol : Option String
  pub topics : List Value
  pub data_value : Value

module _ (js : Runtime) where
  -- One entry of `getEvents`, as the RPC client hands it over.
  pub record RawEvent : Type 0 where
    pub id : String
    pub ledger : ℕ
    pub ledger_closed_at : String
    pub tx_hash : String
    pub contract_id : Option String
    pub topic : List (js.ScVal)
    pub value : js.ScVal

-- `typeof topics[0] === "string" ? topics[0] : undefined`
unfoldable pub symbol_of : Option Value → Option String
symbol_of (some (str s)) = some s
symbol_of _ = none

module _ (js : Runtime) where
  unfoldable pub decode_event : RawEvent js → DecodedEvent
  unfolding symbol_of
  decode_event raw =
      let topics = map js.sc_val_to_native raw.topic in
      record {
        event_id = raw.id;
        ledger = raw.ledger;
        ledger_close_time = raw.ledger_closed_at;
        tx_hash = raw.tx_hash;
        contract_id = or_else raw.contract_id "";
        topic_symbol = symbol_of (head? topics);
        topics = topics;
        data_value = js.sc_val_to_native raw.value;
      }

  -- A bigint is printed, a text is taken as it is, and every other value throws.
  unfoldable pub amount_to_string : Value → Result String
  amount_to_string (bigint n) = ok (js.text_of (bigint n))
  amount_to_string (str s) = ok s
  amount_to_string (num n) = err (plain_error "amountToString received a JS number")
  amount_to_string _ = err (plain_error "amountToString received an unexpected type")

abbrev hex_digits : List String
hex_digits =
    "0" ∷ "1" ∷ "2" ∷ "3" ∷ "4" ∷ "5" ∷ "6" ∷ "7" ∷ "8" ∷ "9" ∷ "a" ∷ "b" ∷ "c" ∷ "d" ∷ "e" ∷ "f"
    ∷ []

-- One hexadecimal digit, lower case.
hex_digit : ℕ → String
hex_digit n = or_else (get_elem? hex_digits n) "0"

-- `Buffer.from(value).toString("hex")`
unfoldable pub hex_of_bytes : List ℕ → String
unfolding hex_digit
hex_of_bytes [] = ""
hex_of_bytes (b ∷ bs) =
    text_append (hex_digit (b / 16)) (text_append (hex_digit (b % 16)) (hex_of_bytes bs))

unfoldable pub bytes_to_hex : Value → Result String
unfolding hex_of_bytes
bytes_to_hex (bytes b) = ok (hex_of_bytes b)
bytes_to_hex _ = err (plain_error "bytesToHex received a non-byte-array value")

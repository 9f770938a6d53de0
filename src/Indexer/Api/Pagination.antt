-- ===== src/Indexer/Api/Pagination.antt =====
-- indexer/src/api/pagination.ts: the cursor of the settlements, base64url over JSON.
use slasettle_hub.Prelude.{String, Option, none, some, Result, ok, err, ◌≡◌, refl}
use slasettle_hub.Prelude.TextOrder.{Key}
use slasettle_hub.Js.{Value, str, obj, field, end, has_field}
use slasettle_hub.Indexer.Api.{Codec, optional_field, IsJson}

pub record SettlementsCursor : Type 0 where
  pub ledger_close_time : String
  pub event_id : String

-- The two bound values of the query behind a cursor.
abbrev pub key_of_cursor : SettlementsCursor → Key
key_of_cursor c = (c.ledger_close_time, c.event_id)

-- The object that is encoded.
abbrev pub cursor_object : SettlementsCursor → Value
cursor_object c =
    obj (field "ledgerCloseTime" (str c.ledger_close_time) (field "eventId" (str c.event_id) end))

-- Both properties must be texts.
unfoldable pub cursor_of_fields : Value → Value → Option SettlementsCursor
cursor_of_fields (str time) (str id) = some (record { ledger_close_time = time; event_id = id })
cursor_of_fields _ _ = none

-- A text that is no JSON is no cursor.
unfoldable pub cursor_of_parsed : Result Value → Option SettlementsCursor
unfolding cursor_of_fields optional_field
cursor_of_parsed (err e) = none
cursor_of_parsed (ok parsed) =
    cursor_of_fields (optional_field "ledgerCloseTime" parsed) (optional_field "eventId" parsed)

module _ (codec : Codec) where
  unfoldable pub encode_cursor : SettlementsCursor → codec.Encoded
  encode_cursor c = codec.to_base64url (codec.stringify (cursor_object c))

  unfoldable pub decode_cursor : codec.Encoded → Option SettlementsCursor
  unfolding cursor_of_parsed
  decode_cursor value = cursor_of_parsed (codec.parse (codec.of_base64url value))

  IsJson-cursor_object : (c : SettlementsCursor) → IsJson (cursor_object c)
  unfolding has_field IsJson
  IsJson-cursor_object c = (refl, tt, (refl, tt, tt))

  -- A cursor that the API hands out is read back as it was.
  pub decode_cursor-encode_cursor :
      (c : SettlementsCursor) → decode_cursor (encode_cursor c) ≡ some c
  unfolding decode_cursor encode_cursor
  decode_cursor-encode_cursor c =
      rw (codec.of_to_base64url (codec.stringify (cursor_object c)))
        (rw (codec.parse_stringify (cursor_object c) (IsJson-cursor_object c)) refl)

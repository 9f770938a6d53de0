-- ===== src/Indexer/Api/Node.antt =====
-- indexer/src/api/routes.ts: the handlers of the node server, over `IndexerDb`. A handler whose
-- promise is rejected is `err`. `round_length` is ROUND_LENGTH_SECONDS, a positive integer.
use slasettle_hub.Prelude.{
  ℕ, ◌+◌, String, List, map, Option, none, some, Result, ok, ◌>>=◌, ◌==◌, ◌&&◌, take, keep_if,
  length, ltb, if◌then◌else◌,
}
use slasettle_hub.Prelude.TextOrder.{Key, text_ltb}
use slasettle_hub.Js.{Value, Runtime, num, int, pos}
use slasettle_hub.Indexer.Rows.{CheckRow, SlaRow}
use slasettle_hub.Indexer.Sql.{order_by}
use slasettle_hub.Indexer.Tables.{Tables, WatcherRow, is_null_text}
use slasettle_hub.Indexer.Tables.Sqlite.{get_checkpoint, get_lifecycle_events}
use slasettle_hub.Indexer.Tables.D1.{settlements_before}
use slasettle_hub.Indexer.Api.{Codec}
use slasettle_hub.Indexer.Api.Pagination.{key_of_cursor, decode_cursor}
use slasettle_hub.Indexer.Api.Ledger.{get_latest_ledger_info, current_round_id}
use slasettle_hub.Indexer.Api.Limits.{
  PageLimit, not_negative, not_integer, rows, page_limit, requested_limit,
}
use slasettle_hub.Indexer.Api.Thresholds.{LiveReads, fill_or_throw}
use slasettle_hub.Indexer.Api.Responses.{
  last_indexed_ledger, WatcherItem, watcher_item, CurrentRound, current_round, LifecycleItem,
  lifecycle_item, SlaItem, sla_item, Clock, clock_of, SettlementsAnswer, invalid_limit, page,
  page_of,
}

-- GET /v1/health
unfoldable pub health : Tables → Option ℕ
unfolding last_indexed_ledger
health t = last_indexed_ledger (get_checkpoint t)

-- GET /v1/watchers
unfoldable pub list_watchers : Tables → List WatcherItem
unfolding watcher_item
list_watchers t = map watcher_item (
    order_by (λ (r s : WatcherRow). text_ltb r.registered_at s.registered_at)
      (keep_if (λ (r : WatcherRow). is_null_text r.removed_at) t.watchers))

-- GET /v1/slas/:slaId/lifecycle
unfoldable pub lifecycle : String → Tables → List LifecycleItem
unfolding lifecycle_item
lifecycle sla_id t = map lifecycle_item (get_lifecycle_events sla_id t)

module _ (js : Runtime) where
  -- GET /v1/providers/:address/slas
  unfoldable pub provider_slas : String → Tables → List SlaItem
  unfolding sla_item
  provider_slas address t = map (sla_item js) (
      order_by (λ (r s : SlaRow). text_ltb s.created_at r.created_at)
        (keep_if (λ (r : SlaRow). r.provider == address) t.slas))

-- What Express gives for a query parameter: nothing, its text, or an array or object of several.
pub data Query (T : Type 0) : Type 0 where
  missing several : Query T
  once : T → Query T

-- The place that a cursor stands for: a cursor that cannot be read is no cursor.
unfoldable pub place_of : (codec : Codec) → Option (codec.Encoded) → Option Key
place_of codec none = none
place_of codec (some before) = elim (decode_cursor codec before) [
  | none ↦ none
  | some cursor ↦ some (key_of_cursor cursor)
]

-- `typeof req.query.before === "string" ? decodeCursor(req.query.before) : undefined`
unfoldable pub place_of_query : (codec : Codec) → Query (codec.Encoded) → Option Key
unfolding place_of
place_of_query codec (once before) = place_of codec (some before)
place_of_query codec _ = none

module _ (js : Runtime) (codec : Codec) where
  -- GET /v1/slas/:slaId/current-round; its watchers come in the order of the table.
  unfoldable pub get_current_round : Result Value → ℕ → String → Tables → Result CurrentRound
  unfolding current_round
  get_current_round latest round_length sla_id t = do
    ledger ← get_latest_ledger_info latest
    let round_id = current_round_id ledger round_length
    let watchers = keep_if (λ (r : WatcherRow). is_null_text r.removed_at) t.watchers
    let round_text = js.text_of (num (int (pos round_id)))
    let checked_in =
        keep_if (λ (c : CheckRow). c.sla_id == sla_id && c.round_id == round_text) t.checks
    ok (current_round codec round_id round_length watchers checked_in)

  -- GET /v1/clock
  unfoldable pub get_clock : Result Value → ℕ → Result Clock
  unfolding clock_of
  get_clock latest round_length = do
    ledger ← get_latest_ledger_info latest
    ok (clock_of codec ledger round_length)

  -- A page of at most `limit` rows; one row more is queried.
  unfoldable pub settlements_page :
      LiveReads → String → ℕ → Option Key → Tables → Result (SettlementsAnswer codec × Tables)
  unfolding page_of
  settlements_page live sla_id limit before t =
      let queried = take (limit + 1) (settlements_before sla_id before t) in
      let has_more = ltb limit (length queried) in
      let shown = if has_more then take limit queried else queried in
      do
        filled ← fill_or_throw live sla_id shown (record { cached = none; fetches = 0; tables = t })
        ok (page (page_of codec js has_more filled.rows filled.state.tables), filled.state.tables)

  unfoldable pub settlements_as :
      PageLimit
      → LiveReads
      → String
      → Option Key
      → Tables
      → Result (SettlementsAnswer codec × Tables)
  unfolding settlements_page
  settlements_as not_negative live sla_id before t =
      ok (invalid_limit "limit must not be negative", t)
  settlements_as not_integer live sla_id before t = ok (invalid_limit "limit must be an integer", t)
  settlements_as (rows limit) live sla_id before t = settlements_page live sla_id limit before t

  -- GET /v1/slas/:slaId/settlements, of `req.params.slaId`, `req.query.limit` and `req.query.before`
  unfoldable pub settlements :
      LiveReads
      → String
      → Value
      → Query (codec.Encoded)
      → Tables
      → Result (SettlementsAnswer codec × Tables)
  unfolding settlements_as place_of_query
  settlements live sla_id limit before t =
      settlements_as (page_limit (requested_limit js limit)) live sla_id
        (place_of_query codec before) t

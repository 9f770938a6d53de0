-- ===== src/Indexer/Api/Worker.antt =====
-- indexer/src/worker/routes.ts: `handleRequest`, over `IndexerD1`. A request whose promise is
-- rejected is `err`. `round_length` is ROUND_LENGTH_SECONDS, a positive integer, 60 when it is not
-- set; the CORS headers of an answer are left out.
use Prim.Native.Char.{Char, code}
use Prim.Native.String.{[] as end_of_text, ◌∷◌ as ◌::◌}
use slasettle_hub.Prelude.{
  ℕ, String, Bool, not, ◌&&◌, ◌||◌, List, [], ◌∷◌, map, Option, none, some, Result, ok, ◌>>=◌, ◌==◌,
  nat_eq, if◌then◌else◌,
}
use slasettle_hub.Prelude.TextOrder.{Key}
use slasettle_hub.Js.{Value, null, str, Runtime, num, int, pos}
use slasettle_hub.Indexer.Tables.{Tables}
use slasettle_hub.Indexer.Tables.D1.{
  get_checkpoint, get_eligible_watchers, get_checked_in_for_round, get_settlements_page,
  get_provider_slas, get_lifecycle_events,
}
use slasettle_hub.Indexer.Api.{Codec}
use slasettle_hub.Indexer.Api.Ledger.{get_latest_ledger_info, current_round_id}
use slasettle_hub.Indexer.Api.Limits.{
  PageLimit, not_negative, not_integer, rows, page_limit, requested_limit,
}
use slasettle_hub.Indexer.Api.Thresholds.{LiveReads, fill_or_log}
use slasettle_hub.Indexer.Api.Responses.{
  last_indexed_ledger, WatcherItem, watcher_item, CurrentRound, current_round, LifecycleItem,
  lifecycle_item, SlaItem, sla_item, Clock, clock_of, SettlementsPage, SettlementsAnswer,
  invalid_limit, page, page_of,
}
use slasettle_hub.Indexer.Api.Node.{place_of}

-- A path's parts between its slashes.
abbrev push_char : Char → List String → List String
push_char c [] = []
push_char c (s ∷ parts) = (c :: s) ∷ parts

unfoldable pub segments : String → List String
segments end_of_text = "" ∷ []
segments (c :: s) = if nat_eq (code c) 47 then "" ∷ segments s else push_char c (segments s)

-- What `path` matches, with the part that a pattern captures.
pub data Route : Type 0 where
  health watchers clock : Route
  round_of settlements_of lifecycle_of slas_of : String → Route
  unknown : Route

unfoldable pub sla_route : String → String → Route
sla_route sla_id last =
    if last == "current-round"
    then round_of sla_id
    else if last == "settlements"
    then settlements_of sla_id
    else if last == "lifecycle"
    then lifecycle_of sla_id
    else unknown

unfoldable pub route_of_segments : List String → Route
unfolding sla_route
route_of_segments (root ∷ v ∷ last ∷ []) =
    if not (root == "" && v == "v1")
    then unknown
    else if last == "health"
    then health
    else if last == "watchers"
    then watchers
    else if last == "clock"
    then clock
    else unknown
route_of_segments (root ∷ v ∷ kind ∷ name ∷ last ∷ []) =
    if not (root == "" && v == "v1") || name == ""
    then unknown
    else if kind == "slas"
    then sla_route name last
    else if kind == "providers" && last == "slas"
    then slas_of name
    else unknown
route_of_segments _ = unknown

-- The bodies of the answers with status 200 or 400, and of the answer 404.
pub data Body (codec : Codec) : Type 0 where
  health_body : Option ℕ → Body codec
  watchers_body : List WatcherItem → Body codec
  clock_body : Clock → Body codec
  round_body : CurrentRound → Body codec
  settlements_body : SettlementsPage codec → Body codec
  error_body : String → Body codec
  lifecycle_body : List LifecycleItem → Body codec
  slas_body : List SlaItem → Body codec

-- An answer without the headers; a HEAD request is answered without a body.
pub record Reply (codec : Codec) : Type 0 where
  pub status : ℕ
  pub body : Option (Body codec)

-- What a request is answered from: the latest ledger as the node gives it, the live reads, and what
-- `url.searchParams.get` gives for the parameters of the query. An empty `before` is not decoded; it
-- would decode to nothing.
pub record Request (codec : Codec) : Type 0 where
  pub method : String
  pub path : String
  pub limit : Option String
  pub before : Option (codec.Encoded)
  pub latest : Result Value
  pub live : LiveReads

module _ (codec : Codec) where
  unfoldable pub reply_of : Bool → ℕ → Body codec → Reply codec
  reply_of is_head status body = record {
    status = status;
    body = if is_head then none else some body;
  }

  -- The status and the body of a settlements answer.
  unfoldable pub status_of : SettlementsAnswer codec → ℕ × Body codec
  status_of (invalid_limit message) = (400, error_body message)
  status_of (page p) = (200, settlements_body p)

-- `url.searchParams.get(key)`, null when it is missing
unfoldable pub param_value : Option String → Value
param_value none = null
param_value (some text) = str text

module _ (js : Runtime) (codec : Codec) where
  unfoldable pub settlements_page :
      LiveReads → String → ℕ → Option Key → Tables → SettlementsAnswer codec × Tables
  unfolding page_of
  settlements_page live sla_id limit before t =
      let queried = get_settlements_page sla_id limit before t in
      let filled =
        fill_or_log live sla_id queried.rows (record { cached = none; fetches = 0; tables = t }) in
      (
        page (page_of codec js queried.has_more filled.rows filled.state.tables),
        filled.state.tables,
      )

  unfoldable pub settlements_as :
      PageLimit → LiveReads → String → Option Key → Tables → SettlementsAnswer codec × Tables
  unfolding settlements_page
  settlements_as not_negative live sla_id before t = (invalid_limit "limit must not be negative", t)
  settlements_as not_integer live sla_id before t = (invalid_limit "limit must be an integer", t)
  settlements_as (rows limit) live sla_id before t = settlements_page live sla_id limit before t

  unfoldable pub settlements :
      LiveReads
      → String
      → Option String
      → Option (codec.Encoded)
      → Tables
      → SettlementsAnswer codec × Tables
  unfolding settlements_as place_of param_value
  settlements live sla_id limit before t =
      settlements_as (page_limit (requested_limit js (param_value limit))) live sla_id
        (place_of codec before) t

  unfoldable pub get_current_round : Result Value → ℕ → String → Tables → Result CurrentRound
  unfolding current_round
  get_current_round latest round_length sla_id t = do
    ledger ← get_latest_ledger_info latest
    let round_id = current_round_id ledger round_length
    let eligible = get_eligible_watchers t
    let checked_in = get_checked_in_for_round sla_id (js.text_of (num (int (pos round_id)))) t
    ok (current_round codec round_id round_length eligible checked_in)

  -- The status, the body and the tables of a GET or HEAD request.
  unfoldable pub respond : Route → ℕ → Request codec → Tables → Result ((ℕ × Body codec) × Tables)
  unfolding status_of settlements get_current_round last_indexed_ledger watcher_item lifecycle_item
      sla_item clock_of
  respond health round_length request t =
      ok ((200, health_body (last_indexed_ledger (get_checkpoint t))), t)
  respond watchers round_length request t =
      ok ((200, watchers_body (map watcher_item (get_eligible_watchers t))), t)
  respond clock round_length request t = do
    ledger ← get_latest_ledger_info request.latest
    ok ((200, clock_body (clock_of codec ledger round_length)), t)
  respond (round_of sla_id) round_length request t = do
    round ← get_current_round request.latest round_length sla_id t
    ok ((200, round_body round), t)
  respond (settlements_of sla_id) round_length request t =
      let (answer, t') = settlements request.live sla_id request.limit request.before t in
      ok (status_of codec answer, t')
  respond (slas_of address) round_length request t =
      ok ((200, slas_body (map (sla_item js) (get_provider_slas address t))), t)
  respond (lifecycle_of sla_id) round_length request t =
      ok ((200, lifecycle_body (map lifecycle_item (get_lifecycle_events sla_id t))), t)
  respond unknown round_length request t = ok ((404, error_body "not_found"), t)

  -- Another method finds nothing, and the answer 404 always has its body.
  unfoldable pub handle_request : ℕ → Request codec → Tables → Result (Reply codec × Tables)
  unfolding route_of_segments segments reply_of respond
  handle_request round_length request t =
      let is_head = request.method == "HEAD" in
      let is_get_or_head = request.method == "GET" || is_head in
      let route = if is_get_or_head then route_of_segments (segments request.path) else unknown in
      do
        ((status, body), t') ← respond route round_length request t
        ok (reply_of codec (is_head && not (nat_eq status 404)) status body, t')

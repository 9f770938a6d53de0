-- ===== src/Indexer/Api/Agreement.antt =====
-- What the two servers answer alike, and what following the API's cursors gives.
use slasettle_hub.Prelude.{
  ℕ, zero, suc, ◌≤◌, ◌<◌, String, List, [], ◌++◌, Option, none, some, ◌≡◌, refl, ap, ◌∙◌, ok,
  >>=-eq-ok, ◌==◌, last?, keep_if, length, Bool-cases, Option-cases, inl, inr,
}
use slasettle_hub.Prelude.TextOrder.{Key}
use slasettle_hub.Js.{Value, undefined, str, Runtime}
use slasettle_hub.Indexer.Rows.{SettlementRow}
use slasettle_hub.Indexer.Sql.{HasDistinctKeys}
use slasettle_hub.Indexer.Sql.Sorted.{IsDescending}
use slasettle_hub.Indexer.Tables.{Tables}
use slasettle_hub.Indexer.Tables.Effects.{settlement_id}
use slasettle_hub.Indexer.Tables.D1.{get_settlements_page, newest_first, settlement_key}
use slasettle_hub.Indexer.Tables.Pages.{collect, collect_complete}
use slasettle_hub.Indexer.Api.{Codec}
use slasettle_hub.Indexer.Api.Pagination.{encode_cursor, decode_cursor-encode_cursor}
use slasettle_hub.Indexer.Api.Limits.{
  PageLimit, not_negative, not_integer, rows, page_limit, requested_limit,
}
use slasettle_hub.Indexer.Api.Thresholds.{LiveReads, fill_or_throw}
use slasettle_hub.Indexer.Api.Thresholds.Fetches.{fill_or_log-fill_or_throw}
use slasettle_hub.Indexer.Api.Responses.{SettlementsAnswer, next_cursor, cursor_behind}
use slasettle_hub.Indexer.Api.Node.{Query, missing, once, place_of, place_of_query}
use slasettle_hub.Indexer.Api.Node
use slasettle_hub.Indexer.Api.Worker
use slasettle_hub.Indexer.Api.Worker.{param_value}

-- What Express gives for a parameter that a query holds at most once.
abbrev pub value_once : Option String → Value
value_once none = undefined
value_once (some text) = str text

abbrev pub query_once : {T : Type 0} → Option T → Query T
query_once none = missing
query_once (some text) = once text

module _ (js : Runtime) (codec : Codec) where
  settlements_page-agree :
      (live : LiveReads) (sla_id : String) (limit : ℕ) (before : Option Key) (t : Tables)
      {answer : SettlementsAnswer codec × Tables}
      → Node.settlements_page js codec live sla_id limit before t ≡ ok answer
      → Worker.settlements_page js codec live sla_id limit before t ≡ answer
  unfolding Node.settlements_page Worker.settlements_page get_settlements_page
  settlements_page-agree live sla_id limit before t h =
      let (filled, e, same) =
        >>=-eq-ok
          (fill_or_throw live sla_id (get_settlements_page sla_id limit before t).rows
            (record { cached = none; fetches = 0; tables = t }))
          _ h in
      rw (fill_or_log-fill_or_throw live sla_id _ _ filled e) cc

  settlements_as-agree :
      (limit : PageLimit) (live : LiveReads) (sla_id : String) (before : Option Key) (t : Tables)
      {answer : SettlementsAnswer codec × Tables}
      → Node.settlements_as js codec limit live sla_id before t ≡ ok answer
      → Worker.settlements_as js codec limit live sla_id before t ≡ answer
  unfolding Node.settlements_as Worker.settlements_as
  settlements_as-agree not_negative live sla_id before t h = cc
  settlements_as-agree not_integer live sla_id before t h = cc
  settlements_as-agree (rows limit) live sla_id before t h =
      settlements_page-agree live sla_id limit before t h

  requested_limit-once :
      (limit : Option String)
      → requested_limit js (value_once limit) ≡ requested_limit js (param_value limit)
  unfolding requested_limit param_value
  requested_limit-once none = refl
  requested_limit-once (some text) = refl

  place_of_query-once :
      (before : Option (codec.Encoded))
      → place_of_query codec (query_once before) ≡ place_of codec before
  unfolding place_of_query place_of
  place_of_query-once none = refl
  place_of_query-once (some cursor) = refl

  -- Let a settlements request give `limit` and `before` at most once each, so that Express and the URL
  -- parser read the same texts, and let both servers read the same SLA id. Whenever the node server
  -- answers it, the worker gives the same answer and leaves the same tables: a refused limit, the rows
  -- with their thresholds and votes, and the next cursor.
  pub settlements-agree :
      (live : LiveReads) (sla_id : String) (limit : Option String) (before : Option (codec.Encoded))
      (t : Tables) (answer : SettlementsAnswer codec × Tables)
      → Node.settlements js codec live sla_id (value_once limit) (query_once before) t ≡ ok answer
      → Worker.settlements js codec live sla_id limit before t ≡ answer
  unfolding Node.settlements Worker.settlements
  settlements-agree live sla_id limit before t answer h =
      settlements_as-agree (page_limit (requested_limit js (param_value limit))) live sla_id
        (place_of codec before) t
        (let h' = rw (requested_limit-once limit, place_of_query-once before) at h in h')

module _ (codec : Codec) where
  -- The rows that a client collects who sends back each `next_cursor` until there is none.
  unfoldable pub follow : String → ℕ → Tables → ℕ → Option (codec.Encoded) → List SettlementRow
  follow sla_id limit t zero before = []
  follow sla_id limit t (suc fuel) before =
      let page = get_settlements_page sla_id limit (place_of codec before) t in
      let rest : List SettlementRow = elim (next_cursor codec page.has_more page.rows) [
        | none ↦ []
        | some cursor ↦ follow sla_id limit t fuel (some cursor)
      ] in
      page.rows ++ rest

  place_of-cursor :
      (x : SettlementRow)
      → place_of codec (
          some (
            encode_cursor codec
              (record { ledger_close_time = x.ledger_close_time; event_id = x.event_id })))
        ≡ some (settlement_key x)
  unfolding place_of
  place_of-cursor x =
      rw
        (
          decode_cursor-encode_cursor codec
              (record { ledger_close_time = x.ledger_close_time; event_id = x.event_id }),
          place_of,
        )
        refl

  follow-collect :
      (sla_id : String) (limit : ℕ) (t : Tables) (fuel : ℕ) (before : Option (codec.Encoded))
      → follow sla_id limit t fuel before ≡ collect sla_id limit t fuel (place_of codec before)
  unfolding follow collect next_cursor cursor_behind
  follow-collect sla_id limit t zero before = refl
  follow-collect sla_id limit t (suc fuel) before =
      let p = get_settlements_page sla_id limit (place_of codec before) t in
      elim (Bool-cases p.has_more) [
        | inr end ↦ rw end refl
        | inl more ↦ elim (Option-cases (last? p.rows)) [
          | inl empty ↦ rw (more, empty) refl
          | inr (x, last) ↦
              rw (more, last)
                (ap (λ rest. p.rows ++ rest)
                  (follow-collect sla_id limit t fuel _
                    ∙ ap (collect sla_id limit t fuel) (place_of-cursor x)))
        ]
      ]

  -- If event ids are distinct, a client that sends back each `next_cursor` until there is none
  -- collects every settlement of the SLA once, strictly newest first, for any positive page size; as
  -- many requests as there are settlements are enough.
  pub follow_complete :
      (sla_id : String) (limit : ℕ) (t : Tables) (fuel : ℕ)
      → HasDistinctKeys settlement_id t.settlements
      → 0 < limit
      → length t.settlements ≤ fuel
      → (follow sla_id limit t fuel none
          ≡ newest_first (keep_if (λ (r : SettlementRow). r.sla_id == sla_id) t.settlements))
        × IsDescending settlement_key (follow sla_id limit t fuel none)
  follow_complete sla_id limit t fuel keys positive enough =
      rw (follow-collect sla_id limit t fuel none)
        (unfold place_of in collect_complete sla_id limit t fuel keys positive enough)

-- ===== src/Web/HistoryExamples.antt =====
-- A table of two settlements, loaded one by one by apps/web/lib/use-settlement-history.ts.
use mathlib.Core.Option
use mathlib.Core.Path.{subst}
use slasettle_hub.Prelude.{
  String, map, keep_if, Option, none, some, ◌≡◌, refl, ◌==◌, arith, ◌⊎◌, inl, inr, ◌∙◌, sym, ap,
}
use slasettle_hub.Prelude.TextOrder.{key_ltb}
use slasettle_hub.Indexer.Rows.{SettlementRow}
use slasettle_hub.Indexer.Sql.{has_key, order_by}
use slasettle_hub.Indexer.Tables.D1.{get_settlements_page, newest_first, settlements_before}
use slasettle_hub.Indexer.Api.Node.{place_of}
use slasettle_hub.Indexer.Api.Pagination.{encode_cursor, decode_cursor}
use slasettle_hub.Indexer.Api.Responses.{next_cursor}
use slasettle_hub.Indexer.Examples.{paged}
use slasettle_hub.Indexer.Api.Examples.{codec}
use slasettle_hub.Js.{Value}
use slasettle_hub.Web.Reads.{Read, got}
use slasettle_hub.Web.Client.Requests.{PagedResult}
use slasettle_hub.Web.History.{first_load, load_more_times}
use slasettle_hub.Web.History.Complete.{page_at, IsIssued, start, behind, Gives, history_complete}

abbrev event_id : SettlementRow → String
event_id r = r.event_id

-- The cursor that the page behind a place gives.
abbrev cursor_at : Option Value → Option Value
cursor_at place =
    let page = get_settlements_page "1" 1 (place_of codec place) paged in
    next_cursor codec page.has_more page.rows

-- The only cursor of the pages of one row: behind the newer settlement.
abbrev second : Option Value
second = cursor_at none

abbrev get : Option String → Read (PagedResult String)
get none = got (page_at codec "1" 1 paged event_id (λ c. "cursor") none)
get (some text) = got (page_at codec "1" 1 paged event_id (λ c. "cursor") second)

no_third : cursor_at second ≡ none
unfolding get_settlements_page settlements_before newest_first order_by key_ltb next_cursor place_of
    decode_cursor encode_cursor
no_third = refl

issued_second :
    (before : Option Value)
    → IsIssued codec "1" 1 paged event_id (λ c. "cursor") before
    → (before ≡ none) ⊎ (before ≡ second)
issued_second _ (start before h) = inl h
issued_second _ (behind before place cursor issued more e) = elim (issued_second place issued) [
  | inl p ↦ inr (e ∙ sym (subst (λ q. cursor_at q ≡ some cursor) p more))
  | inr p ↦
      let third : cursor_at second ≡ some cursor = subst (λ q. cursor_at q ≡ some cursor) p more in
      let none_left = no_third in cc
]

second-some : (c : Value) × (second ≡ some c)
unfolding get_settlements_page settlements_before newest_first order_by key_ltb next_cursor place_of
    decode_cursor encode_cursor
second-some = (_, refl)

get-Gives : Gives codec "1" 1 paged event_id (λ c. "cursor") get
get-Gives = record {
  page = λ before issued. elim (issued_second before issued) [
    | inl p ↦ rw p refl
    | inr p ↦
        subst
          (λ b.
            get (Option.map (λ (c : Value). "cursor") b)
            ≡ got (page_at codec "1" 1 paged event_id (λ c. "cursor") b))
          (sym p) (ap (λ b. get (Option.map (λ (c : Value). "cursor") b)) second-some.1)
  ];
  cursor_set = λ c. refl;
}

history_complete_example :
    (load_more_times get 2 (first_load get)).settlements
    ≡ map event_id
        (newest_first (keep_if (λ (r : SettlementRow). r.sla_id == "1") paged.settlements))
unfolding has_key
history_complete_example =
    history_complete codec "1" 1 paged event_id (λ c. "cursor") get get-Gives 2 (refl, (refl, tt))
      (omega arith) (omega arith)

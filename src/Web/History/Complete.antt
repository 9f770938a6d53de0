-- ===== src/Web/History/Complete.antt =====
-- apps/web/lib/use-settlement-history.ts over the pages that the indexer serves.
use mathlib.Core.Option
use slasettle_hub.Prelude.{
  ℕ, zero, suc, ◌≤◌, ◌<◌, String, List, [], ◌++◌, map, map-append, append_assoc, append-nil, false,
  Option, none, some, ◌==◌, ◌≡◌, refl, ap, ◌∙◌, sym, length, keep_if, Option-cases, inl, inr, arith,
}
use slasettle_hub.Indexer.Rows.{SettlementRow}
use slasettle_hub.Indexer.Sql.{HasDistinctKeys}
use slasettle_hub.Indexer.Tables.{Tables}
use slasettle_hub.Indexer.Tables.Effects.{settlement_id}
use slasettle_hub.Indexer.Tables.D1.{get_settlements_page, newest_first}
use slasettle_hub.Indexer.Api.{Codec}
use slasettle_hub.Indexer.Api.Responses.{next_cursor}
use slasettle_hub.Indexer.Api.Agreement.{follow, follow_complete}
use slasettle_hub.Indexer.Api.Node.{place_of}
use slasettle_hub.Web.Reads.{Read, got}
use slasettle_hub.Web.Client.Requests.{PagedResult}
use slasettle_hub.Web.History.{
  page_state, more_cursor, more_started, more_settled, more_at, initial, load_started, load_settled,
  first_load, load_more, load_more_times,
}

module _ {T : Type 0} (codec : Codec) (sla_id : String) (limit : ℕ) (t : Tables)
    (shown : SettlementRow → T) (cursor_text : codec.Encoded → String) where
  -- The answer that stands for a page of the table: its rows as the client shows them.
  abbrev pub page_at : Option (codec.Encoded) → PagedResult T
  page_at before =
      let page = get_settlements_page sla_id limit (place_of codec before) t in
      record {
        items = map shown page.rows;
        next_cursor = Option.map cursor_text (next_cursor codec page.has_more page.rows);
      }

  -- The start of the list, and the cursors that the pages of the table give.
  pub data IsIssued : Option (codec.Encoded) → Type 0 where
    start : (before : Option (codec.Encoded)) → before ≡ none → IsIssued before
    behind :
        (before place : Option (codec.Encoded)) (cursor : codec.Encoded)
        → IsIssued place
        → next_cursor codec
            (get_settlements_page sla_id limit (place_of codec place) t).has_more
            (get_settlements_page sla_id limit (place_of codec place) t).rows
          ≡ some cursor
        → before ≡ some cursor
        → IsIssued before

  -- The client's requests give the pages of one table, and a cursor's text is not empty.
  pub record Gives (get : Option String → Read (PagedResult T)) : Type 0 where
    pub page :
        (before : Option (codec.Encoded))
        → IsIssued before
        → get (Option.map cursor_text before) ≡ got (page_at before)
    pub cursor_set : (cursor : codec.Encoded) → (cursor_text cursor == "") ≡ false

  -- The rows from a cursor on, none where there is no cursor.
  abbrev rows_from : ℕ → Option (codec.Encoded) → List SettlementRow
  rows_from n none = []
  rows_from n (some cursor) = follow codec sla_id limit t n (some cursor)

  follow-rows_from :
      (n : ℕ) (before : Option (codec.Encoded))
      → follow codec sla_id limit t (suc n) before
        ≡ (get_settlements_page sla_id limit (place_of codec before) t).rows
          ++ rows_from n (
              next_cursor codec
                (get_settlements_page sla_id limit (place_of codec before) t).has_more
                (get_settlements_page sla_id limit (place_of codec before) t).rows)
  unfolding follow
  follow-rows_from n before =
      let p = get_settlements_page sla_id limit (place_of codec before) t in
      elim (Option-cases (next_cursor codec p.has_more p.rows)) [
        | inl end ↦ rw end refl
        | inr (c, more) ↦ rw more refl
      ]

  -- What a page gives is issued; none at all stands for the start.
  issued_behind :
      (place : Option (codec.Encoded))
      → IsIssued place
      → IsIssued (
          next_cursor codec
            (get_settlements_page sla_id limit (place_of codec place) t).has_more
            (get_settlements_page sla_id limit (place_of codec place) t).rows)
  issued_behind place issued =
      elim (Option-cases (
        next_cursor codec (get_settlements_page sla_id limit (place_of codec place) t).has_more
          (get_settlements_page sla_id limit (place_of codec place) t).rows)) [
            | inl end ↦ start _ end
            | inr (cursor, more) ↦ behind _ place cursor issued more more
          ]

  regroup :
      (settlements : List T) (rows rest : List SettlementRow)
      → (settlements ++ map shown rows) ++ map shown rest ≡ settlements ++ map shown (rows ++ rest)
  regroup settlements rows rest = simp (append_assoc, map-append)

  module _ (get : Option String → Read (PagedResult T)) (gives : Gives get) where
    asks_with :
        (settlements : List T) (cursor : codec.Encoded)
        → more_cursor (page_state settlements (some (cursor_text cursor)))
          ≡ some (cursor_text cursor)
    unfolding more_cursor page_state
    asks_with settlements cursor = rw (gives.cursor_set cursor) refl

    load_more-some :
        (settlements : List T) (cursor : codec.Encoded)
        → IsIssued (some cursor)
        → load_more get (page_state settlements (some (cursor_text cursor)))
          ≡ page_state
              (settlements ++ (page_at (some cursor)).items)
              (page_at (some cursor)).next_cursor
    unfolding load_more page_state
    load_more-some settlements cursor issued =
        ap (λ c. more_at get c (page_state settlements (some (cursor_text cursor))))
          (asks_with settlements cursor)
        ∙ ap
            (λ answer.
              more_settled answer
                (more_started (page_state settlements (some (cursor_text cursor)))))
            (gives.page (some cursor) issued)

    load_more_times-rows :
        (n : ℕ) (settlements : List T) (before : Option (codec.Encoded))
        → IsIssued before
        → (load_more_times get n
            (page_state settlements (Option.map cursor_text before))).settlements
          ≡ settlements ++ map shown (rows_from n before)
    unfolding load_more_times page_state load_more follow
    load_more_times-rows zero settlements none issued = sym (append-nil settlements)
    load_more_times-rows zero settlements (some cursor) issued = sym (append-nil settlements)
    load_more_times-rows (suc n) settlements none issued =
        load_more_times-rows n settlements none issued
    load_more_times-rows (suc n) settlements (some cursor) issued =
        let p = get_settlements_page sla_id limit (place_of codec (some cursor)) t in
        ap (λ s. (load_more_times get n s).settlements) (load_more-some settlements cursor issued)
        ∙ (load_more_times-rows n (settlements ++ map shown p.rows)
              (next_cursor codec p.has_more p.rows) (issued_behind (some cursor) issued)
            ∙ regroup settlements p.rows (rows_from n (next_cursor codec p.has_more p.rows))
            ∙ ap (λ rows. settlements ++ map shown rows) (sym (follow-rows_from n (some cursor))))

    -- After the first page, `n` times loadMore show what following the cursors for `n + 1` requests
    -- collects.
    first_load-rows :
        (n : ℕ)
        → (load_more_times get n (first_load get)).settlements
          ≡ map shown (follow codec sla_id limit t (suc n) none)
    unfolding first_load page_state
    first_load-rows n =
        let p = get_settlements_page sla_id limit (place_of codec none) t in
        ap
          (λ answer.
            (load_more_times get n (load_settled false answer (load_started initial))).settlements)
          (gives.page none (start none refl))
        ∙ load_more_times-rows n (map shown p.rows) (next_cursor codec p.has_more p.rows)
            (issued_behind none (start none refl))
        ∙ sym (map-append shown p.rows (rows_from n (next_cursor codec p.has_more p.rows)))
        ∙ ap (map shown) (sym (follow-rows_from n none))

    -- If event ids are distinct and the page size is positive, a user who loads more as often as
    -- there are settlements, while the table stays as it is, is shown every settlement of the SLA
    -- once, newest first.
    pub history_complete :
        (n : ℕ)
        → HasDistinctKeys settlement_id t.settlements
        → 0 < limit
        → length t.settlements ≤ n
        → (load_more_times get n (first_load get)).settlements
          ≡ map shown
              (newest_first (keep_if (λ (r : SettlementRow). r.sla_id == sla_id) t.settlements))
    history_complete n keys positive enough =
        first_load-rows n
        ∙ ap (map shown)
            (follow_complete codec sla_id limit t (suc n) keys positive (omega arith)).0

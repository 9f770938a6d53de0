-- ===== src/Indexer/Tables/Watchers.antt =====
-- What registrations and removals, applied in the order of the chain, make of the row of a watcher:
-- the last event decides whether it is eligible.
use slasettle_hub.Prelude.{
  String, List, [], ◌∷◌, Bool, true, false, Option, none, some, ◌≡◌, ◌==◌, refl, ◌∙◌, ap,
  if◌then◌else◌, arith, any, any-append, ◌&&◌, eq_iff, inl, inr, Bool-cases, Option-cases,
}
use slasettle_hub.Indexer.Rows.{WatcherEventType, registered, removed, WatcherEvent}
use slasettle_hub.Indexer.Sql.{has_key, find_row, update_where}
use slasettle_hub.Indexer.Sql.Update.{
  map_option, has_key-find_row, find_row-update_where, find_row-concat, find_row-concat_ne,
  key_of_found,
}
use slasettle_hub.Indexer.Tables.{WatcherRow, upsert_watcher, remove_watcher, is_null_text}
use slasettle_hub.Indexer.Tables.Effects.{watcher_step, watchers_after}

abbrev pub watcher_key : WatcherRow → String
watcher_key r = r.address

-- The row of one watcher.
abbrev pub watcher_at : String → List WatcherRow → Option WatcherRow
watcher_at a rows = find_row watcher_key a rows

-- What one event makes of the row of its own watcher.
abbrev pub row_step : WatcherEventType → WatcherEvent → Option WatcherRow → Option WatcherRow
row_step registered w none =
    some (record { address = w.address; registered_at = w.at; removed_at = none })
row_step registered w (some r) = some (record r { removed_at = none })
row_step removed w none = none
row_step removed w (some r) = some (record r { removed_at = some w.at })

abbrev mark : Option String → WatcherRow → WatcherRow
mark v r = record r { removed_at = v }

-- An update of one address changes the row of that address alone.
watcher_at-update :
    (a b : String) (v : Option String) (rows : List WatcherRow)
    → watcher_at a (update_where (λ r. r.address == b) (mark v) rows)
      ≡ (if b == a then map_option (mark v) (watcher_at a rows) else watcher_at a rows)
watcher_at-update a b v rows =
    rw (find_row-update_where watcher_key (λ r. r.address == b) (mark v) a rows (λ r. refl))
      (elim (Option-cases (watcher_at a rows)) [
        | inl missing ↦ rw missing (ground arith)
        | inr (r, found) ↦
            rw found (
              ground (arith, key_of_found watcher_key a rows found, eq_iff r.address b, eq_iff b a))
      ])

watcher_at-upsert_watcher :
    (a b at : String) (rows : List WatcherRow)
    → watcher_at a (upsert_watcher b at rows) ≡ (
        if b == a
        then row_step registered
            (record { type = registered; address = b; at = at })
            (watcher_at a rows)
        else watcher_at a rows)
unfolding upsert_watcher
watcher_at-upsert_watcher a b at rows = elim (Bool-cases (has_key watcher_key b rows)) [
  | inl known ↦
      rw (known, watcher_at-update a b none rows)
        (ground (arith, eq_iff b a, has_key-find_row watcher_key b rows))
  | inr new ↦ rw new (elim (Bool-cases (b == a)) [
    | inl same ↦ rw same (
        ground (
          arith,
          eq_iff b a,
          has_key-find_row watcher_key b rows,
          find_row-concat watcher_key a rows
              (record { address = b; registered_at = at; removed_at = none }),
        ))
    | inr other ↦ rw other (find_row-concat_ne watcher_key a rows _ other)
  ])
]

watcher_at-remove_watcher :
    (a b at : String) (rows : List WatcherRow)
    → watcher_at a (remove_watcher at b rows) ≡ (
        if b == a
        then row_step removed (record { type = removed; address = b; at = at }) (watcher_at a rows)
        else watcher_at a rows)
unfolding remove_watcher
watcher_at-remove_watcher a b at rows = rw (watcher_at-update a b (some at) rows) (ground arith)

-- The row of one watcher after a list of events.
unfoldable pub row_after : String → List WatcherEvent → Option WatcherRow → Option WatcherRow
row_after a [] row = row
row_after a (w ∷ ws) row = row_after a ws (if w.address == a then row_step w.type w row else row)

watcher_at-step :
    (a : String) (type : WatcherEventType) (w : WatcherEvent) (rows : List WatcherRow)
    → watcher_at a (watcher_step type w rows)
      ≡ (if w.address == a then row_step type w (watcher_at a rows) else watcher_at a rows)
watcher_at-step a registered w rows =
    ground (arith, watcher_at-upsert_watcher a w.address w.at rows)
watcher_at-step a removed w rows = ground (arith, watcher_at-remove_watcher a w.address w.at rows)

pub watcher_at-watchers_after :
    (a : String) (ws : List WatcherEvent) (rows : List WatcherRow)
    → watcher_at a (watchers_after ws rows) ≡ row_after a ws (watcher_at a rows)
unfolding watchers_after row_after
watcher_at-watchers_after a [] rows = refl
watcher_at-watchers_after a (w ∷ ws) rows =
    watcher_at-watchers_after a ws (watcher_step w.type w rows)
    ∙ ap (row_after a ws) (watcher_at-step a w.type w rows)

-- The last event of a watcher in a list.
unfoldable pub last_event : String → List WatcherEvent → Option WatcherEventType
last_event a [] = none
last_event a (w ∷ ws) =
    let later = last_event a ws in
    elim later [ some e ↦ some e | none ↦ if w.address == a then some w.type else none ]

-- A watcher has a row that is not marked as removed.
abbrev pub is_eligible : String → List WatcherRow → Bool
is_eligible a rows = any (λ (r : WatcherRow). is_null_text r.removed_at && r.address == a) rows

abbrev pub eligible_after : Option WatcherEventType → Bool → Bool
eligible_after none before = before
eligible_after (some registered) before = true
eligible_after (some removed) before = false

is_eligible-update :
    (a b : String) (v : Option String) (rows : List WatcherRow)
    → is_eligible a (update_where (λ r. r.address == b) (mark v) rows)
      ≡ (if b == a then is_null_text v && has_key watcher_key a rows else is_eligible a rows)
unfolding update_where has_key
is_eligible-update a b v [] = ground arith
is_eligible-update a b v (r ∷ rows) =
    ground
      (arith, is_eligible-update a b v rows, eq_iff r.address b, eq_iff b a, eq_iff r.address a)

is_eligible-upsert_watcher :
    (a b at : String) (rows : List WatcherRow)
    → is_eligible a (upsert_watcher b at rows) ≡ (if b == a then true else is_eligible a rows)
unfolding upsert_watcher is_null_text
is_eligible-upsert_watcher a b at rows = elim (Bool-cases (has_key watcher_key b rows)) [
  | inl known ↦ rw (known, is_eligible-update a b none rows) (ground (arith, eq_iff b a))
  | inr new ↦
      rw
        (
          new,
          any-append (λ (r : WatcherRow). is_null_text r.removed_at && r.address == a) rows
              (record { address = b; registered_at = at; removed_at = none } ∷ []),
        )
        (ground arith)
]

is_eligible-step :
    (a : String) (type : WatcherEventType) (w : WatcherEvent) (rows : List WatcherRow)
    → is_eligible a (watcher_step type w rows)
      ≡ (if w.address == a then eligible_after (some type) false else is_eligible a rows)
unfolding remove_watcher is_null_text
is_eligible-step a registered w rows = is_eligible-upsert_watcher a w.address w.at rows
is_eligible-step a removed w rows = is_eligible-update a w.address (some w.at) rows

pub is_eligible-watchers_after :
    (a : String) (ws : List WatcherEvent) (rows : List WatcherRow)
    → is_eligible a (watchers_after ws rows) ≡ eligible_after (last_event a ws) (is_eligible a rows)
unfolding watchers_after last_event
is_eligible-watchers_after a [] rows = refl
is_eligible-watchers_after a (w ∷ ws) rows =
    is_eligible-watchers_after a ws (watcher_step w.type w rows)
    ∙ ground (arith, is_eligible-step a w.type w rows)

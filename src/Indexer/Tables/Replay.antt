-- ===== src/Indexer/Tables/Replay.antt =====
-- Ingesting a page a second time changes nothing, and ingesting two pages is ingesting their events
-- at once.
use slasettle_hub.Prelude.{
  String, List, [], ◌∷◌, ◌++◌, map, map-append, Option, none, some, ◌≡◌, ◌⊎◌, inl, inr, ◌==◌, refl,
  sym, ◌∙◌, ap, if◌then◌else◌, Bool-cases,
}
use slasettle_hub.Indexer.Rows.{WatcherEventType, registered, removed, WatcherEvent, push_all}
use slasettle_hub.Indexer.Sql.Insert.{insert_all_idempotent, insert_all-append}
use slasettle_hub.Indexer.Tables.{WatcherRow, Tables, BatchParams}
use slasettle_hub.Indexer.Tables.Sqlite.{apply_batch}
use slasettle_hub.Indexer.Tables.Effects.{
  watchers_after, watcher_step, check_key, sla_key, settlement_id, lifecycle_key, stored_sla,
  stored_settlement, tables_after, apply_batch-tables_after,
}
use slasettle_hub.Indexer.Tables.Watchers.{
  watcher_at, row_step, row_after, watcher_at-watchers_after,
}

abbrev mark_of : WatcherEventType → WatcherEvent → Option String
mark_of registered w = none
mark_of removed w = some w.at

-- The removal mark of a watcher that has a row, after a list of events.
abbrev mark_after : String → List WatcherEvent → Option String → Option String
mark_after a [] v = v
mark_after a (w ∷ ws) v = mark_after a ws (if w.address == a then mark_of w.type w else v)

-- A watcher with a row keeps it, with a new mark.
row_after-some :
    (a : String) (ws : List WatcherEvent) (r : WatcherRow)
    → row_after a ws (some r) ≡ some (record r { removed_at = mark_after a ws r.removed_at })
unfolding row_after
row_after-some a [] r = refl
row_after-some a (w ∷ ws) r = elim (Bool-cases (w.address == a)) [
  | inl own ↦ rw own (
      ap (row_after a ws) (row_step-some w.type w r)
      ∙ row_after-some a ws (record r { removed_at = mark_of w.type w }))
  | inr other ↦ rw other (row_after-some a ws r)
]
  where
    row_step-some :
        (type : WatcherEventType) (v : WatcherEvent) (s : WatcherRow)
        → row_step type v (some s) ≡ some (record s { removed_at = mark_of type v })
    row_step-some registered v s = refl
    row_step-some removed v s = refl

-- Either the events leave every mark alone, or they end in one mark, whatever it was before.
mark_after-cases :
    (a : String) (ws : List WatcherEvent)
    → ((v : Option String) → mark_after a ws v ≡ v)
      ⊎ ((u : Option String) × ((v : Option String) → mark_after a ws v ≡ u))
mark_after-cases a [] = inl (λ v. refl)
mark_after-cases a (w ∷ ws) = elim (Bool-cases (w.address == a)) [
  | inl own ↦ inr (mark_after a ws (mark_of w.type w), λ v. rw own refl)
  | inr other ↦ elim (mark_after-cases a ws) [
    | inl same ↦ inl (λ v. rw other (same v))
    | inr (u, all) ↦ inr (u, λ v. rw other (all v))
  ]
]

mark_after_idempotent :
    (a : String) (ws : List WatcherEvent) (v : Option String)
    → mark_after a ws (mark_after a ws v) ≡ mark_after a ws v
mark_after_idempotent a ws v = elim (mark_after-cases a ws) [
  | inl same ↦ same (mark_after a ws v)
  | inr (u, all) ↦ all (mark_after a ws v) ∙ sym (all v)
]

-- A watcher that had no row has none afterwards, or one whose mark the same events give back.
abbrev Settles : String → List WatcherEvent → Type 0
Settles a ws =
    (row_after a ws none ≡ none)
    ⊎ ((r : WatcherRow) × (row_after a ws none ≡ some r)
        × ((v : Option String) → mark_after a ws v ≡ r.removed_at))

abbrev new_row : WatcherEvent → WatcherRow
new_row w = record { address = w.address; registered_at = w.at; removed_at = none }

Settles-own :
    (a : String) (type : WatcherEventType) (w : WatcherEvent) (ws : List WatcherEvent)
    → Settles a ws
    → (row_after a ws (row_step type w none) ≡ none)
      ⊎ ((r : WatcherRow) × (row_after a ws (row_step type w none) ≡ some r)
          × (Option String → mark_after a ws (mark_of type w) ≡ r.removed_at))
Settles-own a registered w ws h = inr (
  record (new_row w) { removed_at = mark_after a ws none },
  row_after-some a ws (new_row w),
  λ v. refl,
)
Settles-own a removed w ws (inl e) = inl e
Settles-own a removed w ws (inr (r, e, all)) = inr (r, e, λ v. all (some w.at))

row_after-none : (a : String) (ws : List WatcherEvent) → Settles a ws
unfolding row_after
row_after-none a [] = inl refl
row_after-none a (w ∷ ws) = elim (Bool-cases (w.address == a)) [
  | inl own ↦ rw own (Settles-own a w.type w ws (row_after-none a ws))
  | inr other ↦ rw other (row_after-none a ws)
]

row_after_idempotent :
    (a : String) (ws : List WatcherEvent) (row : Option WatcherRow)
    → row_after a ws (row_after a ws row) ≡ row_after a ws row
row_after_idempotent a ws none = elim (row_after-none a ws) [
  | inl gone ↦ ap (row_after a ws) gone
  | inr (r, e, all) ↦
      ap (row_after a ws) e
      ∙ row_after-some a ws r
      ∙ ap (λ m. some (record r { removed_at = m })) (all r.removed_at)
      ∙ sym e
]
row_after_idempotent a ws (some r) =
    ap (row_after a ws) (row_after-some a ws r)
    ∙ row_after-some a ws (record r { removed_at = mark_after a ws r.removed_at })
    ∙ ap (λ m. some (record r { removed_at = m })) (mark_after_idempotent a ws r.removed_at)
    ∙ sym (row_after-some a ws r)

-- The same tables to every query: the rows of all tables but the watchers', and each watcher's row.
pub record SameTables (t u : Tables) : Type 0 where
  pub checkpoint : t.checkpoint ≡ u.checkpoint
  pub checks : t.checks ≡ u.checks
  pub slas : t.slas ≡ u.slas
  pub settlements : t.settlements ≡ u.settlements
  pub lifecycle_events : t.lifecycle_events ≡ u.lifecycle_events
  pub watchers : (a : String) → watcher_at a t.watchers ≡ watcher_at a u.watchers

SameTables-tables_after :
    (p : BatchParams) (t : Tables)
    → SameTables (tables_after p (tables_after p t)) (tables_after p t)
SameTables-tables_after p t = record {
  checkpoint = refl;
  checks = insert_all_idempotent check_key p.batch.checks t.checks;
  slas = insert_all_idempotent sla_key (map stored_sla p.batch.slas) t.slas;
  settlements =
      insert_all_idempotent settlement_id (map stored_settlement p.batch.settlements) t.settlements;
  lifecycle_events =
      insert_all_idempotent lifecycle_key p.batch.lifecycle_events t.lifecycle_events;
  watchers = λ a.
      watcher_at-watchers_after a p.batch.watcher_events
        (watchers_after p.batch.watcher_events t.watchers)
      ∙ ap (row_after a p.batch.watcher_events)
          (watcher_at-watchers_after a p.batch.watcher_events t.watchers)
      ∙ row_after_idempotent a p.batch.watcher_events (watcher_at a t.watchers)
      ∙ sym (watcher_at-watchers_after a p.batch.watcher_events t.watchers);
}

-- Applying a batch a second time right after the first changes no table: no row is added, changed or
-- removed, every watcher keeps its row, and the checkpoint stands.
pub apply_batch_idempotent :
    (p : BatchParams) (t : Tables) → SameTables (apply_batch p (apply_batch p t)) (apply_batch p t)
apply_batch_idempotent p t =
    rw (apply_batch-tables_after p t)
      (rw (apply_batch-tables_after p (tables_after p t)) (SameTables-tables_after p t))

watchers_after-append :
    (xs ys : List WatcherEvent) (rows : List WatcherRow)
    → watchers_after (xs ++ ys) rows ≡ watchers_after ys (watchers_after xs rows)
unfolding watchers_after
watchers_after-append [] ys rows = refl
watchers_after-append (x ∷ xs) ys rows = watchers_after-append xs ys (watcher_step x.type x rows)

-- Applying one batch and then another leaves the tables, and the checkpoint, of the two batches
-- joined and applied at once under the second checkpoint.
pub apply_batch-push_all :
    (p q : BatchParams) (t : Tables)
    → apply_batch q (apply_batch p t)
      ≡ apply_batch (record q { batch = push_all p.batch q.batch }) t
unfolding push_all
apply_batch-push_all p q t =
    rw (apply_batch-tables_after p t)
      (simp (apply_batch-tables_after, insert_all-append, map-append, watchers_after-append))

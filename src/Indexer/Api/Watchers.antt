-- ===== src/Indexer/Api/Watchers.antt =====
-- Which watchers the two servers list, and which of them have not checked in.
use mathlib.Core.Path.{subst}
use slasettle_hub.Prelude.{
  eq_iff, ℕ, String, List, Bool, not, ◌&&◌, Result, ok, ◌==◌, ◌≡◌, ◌⊎◌, inl, inr, refl, ◌∙◌, map,
  keep_if, any, any-keep_if, any-map, arith, >>=-eq-ok, [], ◌∷◌,
}
use slasettle_hub.Js.{Value, Runtime, num, int, pos}
use slasettle_hub.Indexer.Rows.{CheckRow}
use slasettle_hub.Indexer.Sql.Sorted.{any-order_by}
use slasettle_hub.Indexer.Tables.{Tables, WatcherRow, BatchParams, is_null_text}
use slasettle_hub.Indexer.Tables.Sqlite
use slasettle_hub.Indexer.Tables.D1
use slasettle_hub.Indexer.Tables.D1.{get_eligible_watchers, get_checked_in_for_round}
use slasettle_hub.Indexer.Tables.Effects.{apply_batch-tables_after, d1_eq_sqlite}
use slasettle_hub.Indexer.Tables.Watchers.{
  last_event, eligible_after, is_eligible, is_eligible-watchers_after,
}
use slasettle_hub.Indexer.Api.{Codec}
use slasettle_hub.Indexer.Api.Ledger.{get_latest_ledger_info, current_round_id}
use slasettle_hub.Indexer.Api.Responses.{
  WatcherItem, watcher_item, CheckItem, check_item, CurrentRound, current_round, has_text,
  not_yet_checked_in,
}
use slasettle_hub.Indexer.Api.Node
use slasettle_hub.Indexer.Api.Worker

abbrev pub is_listed : String → List WatcherItem → Bool
is_listed a items = any (λ (w : WatcherItem). w.address == a) items

-- The query of the worker finds the eligible watchers.
get_eligible_watchers-is_eligible :
    (a : String) (t : Tables)
    → any (λ (r : WatcherRow). r.address == a) (get_eligible_watchers t) ≡ is_eligible a t.watchers
unfolding get_eligible_watchers
get_eligible_watchers-is_eligible a t =
    any-order_by _ _ (keep_if (λ (r : WatcherRow). is_null_text r.removed_at) t.watchers)
    ∙ any-keep_if _ _ t.watchers

listed-is_eligible :
    (a : String) (t : Tables)
    → is_listed a (map watcher_item (get_eligible_watchers t)) ≡ is_eligible a t.watchers
unfolding watcher_item
listed-is_eligible a t =
    any-map _ _ (get_eligible_watchers t) ∙ get_eligible_watchers-is_eligible a t

list_watchers-is_eligible :
    (a : String) (t : Tables) → is_listed a (Node.list_watchers t) ≡ is_eligible a t.watchers
unfolding Node.list_watchers get_eligible_watchers
list_watchers-is_eligible a t = listed-is_eligible a t

apply_batch-is_eligible :
    (a : String) (p : BatchParams) (t : Tables)
    → is_eligible a ((Sqlite.apply_batch p t).watchers)
      ≡ eligible_after (last_event a p.batch.watcher_events) (is_eligible a t.watchers)
apply_batch-is_eligible a p t =
    rw (apply_batch-tables_after p t)
      (is_eligible-watchers_after a p.batch.watcher_events t.watchers)

-- After a batch is applied, whatever else is in it, both servers list a watcher exactly if the last of
-- the batch's events of that watcher is a registration; with no event of its own it is listed as it was
-- before.
pub list_watchers-apply_batch :
    (a : String) (p : BatchParams) (t : Tables)
    → (is_listed a (Node.list_watchers (Sqlite.apply_batch p t))
        ≡ eligible_after (last_event a p.batch.watcher_events) (is_listed a (Node.list_watchers t)))
      × (is_listed a (map watcher_item (get_eligible_watchers (D1.apply_batch p t)))
          ≡ eligible_after
              (last_event a p.batch.watcher_events)
              (is_listed a (map watcher_item (get_eligible_watchers t))))
list_watchers-apply_batch a p t =
    let after = apply_batch-is_eligible a p t in
    (
      rw (list_watchers-is_eligible a (Sqlite.apply_batch p t), list_watchers-is_eligible a t)
          after,
      rw (d1_eq_sqlite p t, listed-is_eligible a (Sqlite.apply_batch p t), listed-is_eligible a t)
          after,
    )

ok_inj : {x y : CurrentRound} → ok x ≡ ok y → x ≡ y
ok_inj e = cc

-- A watcher has a check of this SLA in this round.
abbrev pub has_checked : String → String → String → List CheckRow → Bool
has_checked a sla_id round_id checks =
    any (λ (c : CheckRow). (c.sla_id == sla_id && c.round_id == round_id) && c.watcher == a) checks

-- The watchers that an answer lists without a check, and with one.
abbrev pub is_pending : String → CurrentRound → Bool
is_pending a r = any (λ x. x == a) r.not_yet_checked_in

abbrev pub is_checked_in : String → CurrentRound → Bool
is_checked_in a r = any (λ (c : CheckItem). c.watcher == a) r.checked_in

has_text-any : (a : String) (xs : List String) → has_text a xs ≡ any (λ x. x == a) xs
unfolding has_text
has_text-any a [] = refl
has_text-any a (x ∷ xs) = ground (arith, has_text-any a xs)

checkers-any :
    (a : String) (cs : List CheckRow)
    → has_text a (map (λ (c : CheckRow). c.watcher) cs) ≡ any (λ (c : CheckRow). c.watcher == a) cs
checkers-any a cs = has_text-any a (map (λ (c : CheckRow). c.watcher) cs) ∙ any-map _ _ cs

-- Of the addresses that are not in a list, `a` is one if it is an address and not in the list.
outside_others :
    (a : String) (others xs : List String)
    → any (λ x. not (has_text x others) && x == a) xs
      ≡ (any (λ x. x == a) xs && not (has_text a others))
outside_others a others [] = refl
outside_others a others (x ∷ xs) = ground (arith, outside_others a others xs, eq_iff x a)

any-not_yet_checked_in :
    (a : String) (ws : List WatcherRow) (cs : List CheckRow)
    → any (λ x. x == a) (not_yet_checked_in ws cs) ≡ (
        any (λ (r : WatcherRow). r.address == a) ws
        && not (any (λ (c : CheckRow). c.watcher == a) cs))
unfolding not_yet_checked_in
any-not_yet_checked_in a ws cs =
    let addresses = map (λ (w : WatcherRow). w.address) ws in
    let others = map (λ (c : CheckRow). c.watcher) cs in
    any-keep_if (λ x. x == a) (λ x. not (has_text x others)) addresses
    ∙ outside_others a others addresses
    ∙ rw (checkers-any a cs, any-map (λ x. x == a) (λ (w : WatcherRow). w.address) ws) refl

-- Every watcher is on the lists on which its rows and its checks put it.
abbrev pub IsPartitioned : Runtime → String → String → Tables → CurrentRound → Type 0
IsPartitioned js a sla_id t r =
    let checked = has_checked a sla_id (js.text_of (num (int (pos r.round_id)))) t.checks in
    (is_checked_in a r ≡ checked) × (is_pending a r ≡ (is_eligible a t.watchers && not checked))

module _ (js : Runtime) (codec : Codec) (n : ℕ) (sla_id : String) (t : Tables) (a : String) where
  current_round-IsPartitioned :
      (id : ℕ) (ws : List WatcherRow) (cs : List CheckRow)
      → any (λ (r : WatcherRow). r.address == a) ws ≡ is_eligible a t.watchers
      → any (λ (c : CheckRow). c.watcher == a) cs
        ≡ has_checked a sla_id (js.text_of (num (int (pos id)))) t.checks
      → IsPartitioned js a sla_id t (current_round codec id n ws cs)
  unfolding current_round check_item
  current_round-IsPartitioned id ws cs h k =
      (any-map _ _ cs ∙ k, any-not_yet_checked_in a ws cs ∙ rw (h, k) refl)

  -- Of the answer of either server to a current-round request: a watcher is listed as checked in exactly
  -- if it has a check of that SLA in the round that the answer names, and as not yet checked in exactly
  -- if it has none and is registered and not removed.
  pub get_current_round-IsPartitioned :
      (latest : Result Value) (r : CurrentRound)
      → (Node.get_current_round js codec latest n sla_id t ≡ ok r)
        ⊎ (Worker.get_current_round js codec latest n sla_id t ≡ ok r)
      → IsPartitioned js a sla_id t r
  unfolding Node.get_current_round Worker.get_current_round get_checked_in_for_round
  get_current_round-IsPartitioned latest r (inl h) =
      let (ledger, e, same) = >>=-eq-ok (get_latest_ledger_info latest) _ h in
      subst (IsPartitioned js a sla_id t) (ok_inj same) (
        current_round-IsPartitioned (current_round_id ledger n) _ _ (any-keep_if _ _ t.watchers)
          (any-keep_if _ _ t.checks))
  get_current_round-IsPartitioned latest r (inr h) =
      let (ledger, e, same) = >>=-eq-ok (get_latest_ledger_info latest) _ h in
      subst (IsPartitioned js a sla_id t) (ok_inj same) (
        current_round-IsPartitioned (current_round_id ledger n) _ _
          (get_eligible_watchers-is_eligible a t) (any-keep_if _ _ t.checks))

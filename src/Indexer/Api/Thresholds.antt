-- ===== src/Indexer/Api/Thresholds.antt =====
-- The lazy fill of `quorum_threshold` in a page of settlements: the loop of
-- indexer/src/api/routes.ts, which throws when the live read fails, and the loop of
-- indexer/src/worker/routes.ts, which logs the failure and goes on. What the live read
-- (indexer/src/rpc/liveReads.ts) gives at each call is an argument, as is the failure of the write.
pub mod Fetches
use slasettle_hub.Prelude.{
  ℕ, suc, String, List, [], ◌∷◌, Option, none, some, Result, ok, err, Error, ◌>>=◌,
}
use slasettle_hub.Js.{Number}
use slasettle_hub.Indexer.Rows.{SettlementRow}
use slasettle_hub.Indexer.Ingest.{commit}
use slasettle_hub.Indexer.Tables.{Tables}
use slasettle_hub.Indexer.Tables.Sqlite
use slasettle_hub.Indexer.Tables.D1

-- The live reads of one request, by their number, and how a write of the request fails, if it does.
pub record LiveReads : Type 0 where
  pub fetch : ℕ → Result Number
  pub write_failure : Option Error

-- What the loop carries: `cachedThreshold`, the number of live reads, and the tables.
pub record FillState : Type 0 where
  pub cached : Option Number
  pub fetches : ℕ
  pub tables : Tables

pub record Filled : Type 0 where
  pub rows : List SettlementRow
  pub state : FillState

abbrev pub with_threshold : Number → SettlementRow → SettlementRow
with_threshold q row = record row { quorum_threshold = some q }

abbrev pub put_row : SettlementRow → Filled → Filled
put_row row f = record f { rows = row ∷ f.rows }

module _ (live : LiveReads) (sla_id : String) where
  -- The node server: the cached value, or a live read that is stored.
  unfoldable pub threshold_or_throw : Option Number → FillState → Result (Number × FillState)
  threshold_or_throw (some q) s = ok (q, s)
  threshold_or_throw none s = do
    q ← live.fetch s.fetches
    t ← commit live.write_failure (Sqlite.set_sla_quorum_threshold sla_id q s.tables)
    ok (q, record { cached = some q; fetches = suc s.fetches; tables = t })

  unfoldable pub fill_or_throw : List SettlementRow → FillState → Result Filled
  unfolding threshold_or_throw
  fill_or_throw [] s = ok (record { rows = []; state = s })
  fill_or_throw (row ∷ rows) s = elim row.quorum_threshold [
    | some q ↦ do f ← fill_or_throw rows s; ok (put_row row f)
    | none ↦ do
      (q, s') ← threshold_or_throw s.cached s
      f ← fill_or_throw rows s'
      ok (put_row (with_threshold q row) f)
  ]

  -- The worker: a failing write leaves the tables, and `cachedThreshold` is set before it.
  unfoldable pub stored_or_logged : Result Tables → Tables → Tables
  stored_or_logged (ok t') t = t'
  stored_or_logged (err e) t = t

  unfoldable pub read_or_log : Result Number → FillState → FillState
  unfolding stored_or_logged
  read_or_log (err e) s = record s { fetches = suc s.fetches }
  read_or_log (ok q) s = record {
    cached = some q;
    fetches = suc s.fetches;
    tables =
        stored_or_logged (commit live.write_failure (D1.set_sla_quorum_threshold sla_id q s.tables))
          s.tables;
  }

  -- A row without a threshold makes a live read, unless one succeeded before.
  unfoldable pub threshold_or_log : FillState → FillState
  unfolding read_or_log
  threshold_or_log s = elim s.cached [ some q ↦ s | none ↦ read_or_log (live.fetch s.fetches) s ]

  -- `if (cachedThreshold !== undefined) row.quorum_threshold = cachedThreshold`
  unfoldable pub put_cached : Option Number → SettlementRow → SettlementRow
  put_cached none row = row
  put_cached (some q) row = with_threshold q row

  unfoldable pub fill_or_log : List SettlementRow → FillState → Filled
  unfolding threshold_or_log put_cached
  fill_or_log [] s = record { rows = []; state = s }
  fill_or_log (row ∷ rows) s = elim row.quorum_threshold [
    | some q ↦ put_row row (fill_or_log rows s)
    | none ↦ let s' = threshold_or_log s in put_row (put_cached s'.cached row) (fill_or_log rows s')
  ]

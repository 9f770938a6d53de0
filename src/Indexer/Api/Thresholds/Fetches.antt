-- ===== src/Indexer/Api/Thresholds/Fetches.antt =====
-- How many live reads a page makes, what it fills, and that the two servers agree.
use slasettle_hub.Prelude.{
  ℕ, suc, ◌+◌, ◌≤◌, String, List, [], ◌∷◌, map, false, Option, none, some, ◌≡◌, refl, ap, ◌∙◌, ok,
  err, Error, ◌>>=◌, >>=-eq-ok, Option-cases, inl, inr, All, keep_if, length, arith,
}
use slasettle_hub.Js.{Number}
use slasettle_hub.Indexer.Rows.{SettlementRow}
use slasettle_hub.Indexer.Ingest.{commit}
use slasettle_hub.Indexer.Tables.{Tables, is_null, run_statements}
use slasettle_hub.Indexer.Tables.Sqlite
use slasettle_hub.Indexer.Tables.D1
use slasettle_hub.Indexer.Api.Thresholds.{
  LiveReads, FillState, Filled, with_threshold, put_row, threshold_or_throw, fill_or_throw,
  read_or_log, threshold_or_log, put_cached, fill_or_log, stored_or_logged,
}

-- The live reads that are still allowed: one, until one succeeded.
abbrev reads_left : Option Number → ℕ
reads_left none = 1
reads_left (some q) = 0

abbrev budget : FillState → ℕ
budget s = s.fetches + reads_left s.cached

abbrev pub without_threshold : SettlementRow → SettlementRow
without_threshold row = record row { quorum_threshold = none }

-- The rows without a threshold, counted.
abbrev pub missing : List SettlementRow → ℕ
missing rows = length (keep_if (λ (row : SettlementRow). is_null row.quorum_threshold) rows)

module _ (live : LiveReads) (sla_id : String) where
  threshold_or_throw-budget :
      (c : Option Number) (s : FillState) (q : Number) (s' : FillState)
      → s.cached ≡ c
      → threshold_or_throw live sla_id c s ≡ ok (q, s')
      → budget s' ≤ budget s
  unfolding threshold_or_throw
  threshold_or_throw-budget (some c) s q s' known h =
      let same : s' ≡ s = cc in rw same (omega arith)
  threshold_or_throw-budget none s q s' known h =
      let (read, fetched, rest) = >>=-eq-ok (live.fetch s.fetches) _ h in
      let (t, written, done) =
        >>=-eq-ok (commit live.write_failure (Sqlite.set_sla_quorum_threshold sla_id read s.tables))
          _ rest in
      let same : s' ≡ record { cached = some read; fetches = suc s.fetches; tables = t } = cc in
      rw (same, known) (omega arith)

  fill_or_throw-budget :
      (rows : List SettlementRow) (s : FillState) (f : Filled)
      → fill_or_throw live sla_id rows s ≡ ok f
      → (budget f.state ≤ budget s)
        × All (λ row. is_null row.quorum_threshold ≡ false) f.rows
        × (map without_threshold f.rows ≡ map without_threshold rows)
  unfolding fill_or_throw is_null
  fill_or_throw-budget [] s f h =
      let same : f ≡ record { rows = []; state = s } = cc in rw same (omega arith, tt, refl)
  fill_or_throw-budget (row ∷ rows) s f h = elim (Option-cases row.quorum_threshold) [
    | inr (q, known) ↦
        let (g, e, last) =
          >>=-eq-ok (fill_or_throw live sla_id rows s) (λ g. ok (put_row row g)) (rw known at h) in
        let same : f ≡ put_row row g = cc in
        let (bound, filled, kept) = fill_or_throw-budget rows s g e in
        rw same (bound, (rw known refl, filled), ap (λ rs. without_threshold row ∷ rs) kept)
    | inl unknown ↦
        let ((q, s'), e', rest) =
          >>=-eq-ok (threshold_or_throw live sla_id s.cached s)
            (λ (q, s').
              fill_or_throw live sla_id rows s' >>= λ g. ok (put_row (with_threshold q row) g))
            (rw unknown at h) in
        let (g, e, last) =
          >>=-eq-ok (fill_or_throw live sla_id rows s') (λ g. ok (put_row (with_threshold q row) g))
            rest in
        let same : f ≡ put_row (with_threshold q row) g = cc in
        let (bound, filled, kept) = fill_or_throw-budget rows s' g e in
        let smaller = threshold_or_throw-budget s.cached s q s' refl e' in
        rw same (omega arith, (refl, filled), ap (λ rs. without_threshold row ∷ rs) kept)
  ]

  -- If the node server answers, it made at most one live read for the page, every row has a
  -- threshold, and nothing else of the rows was changed.
  pub fill_or_throw-bounds :
      (rows : List SettlementRow) (t : Tables) (f : Filled)
      → fill_or_throw live sla_id rows (record { cached = none; fetches = 0; tables = t }) ≡ ok f
      → (f.state.fetches ≤ 1)
        × All (λ row. is_null row.quorum_threshold ≡ false) f.rows
        × (map without_threshold f.rows ≡ map without_threshold rows)
  fill_or_throw-bounds rows t f h =
      let (bound, filled, kept) =
        fill_or_throw-budget rows (record { cached = none; fetches = 0; tables = t }) f h in
      (omega arith, filled, kept)

  threshold_or_log-threshold_or_throw :
      (c : Option Number) (s : FillState) (q : Number) (s' : FillState)
      → s.cached ≡ c
      → threshold_or_throw live sla_id c s ≡ ok (q, s')
      → (threshold_or_log live sla_id s ≡ s') × (s'.cached ≡ some q)
  unfolding threshold_or_throw threshold_or_log read_or_log stored_or_logged
      Sqlite.set_sla_quorum_threshold D1.set_sla_quorum_threshold run_statements
  threshold_or_log-threshold_or_throw (some c) s q s' known h = rw known (cc, cc)
  threshold_or_log-threshold_or_throw none s q s' known h =
      let (read, fetched, rest) = >>=-eq-ok (live.fetch s.fetches) _ h in
      let (t, written, done) =
        >>=-eq-ok (commit live.write_failure (Sqlite.set_sla_quorum_threshold sla_id read s.tables))
          _ rest in
      let same : record { cached = some read; fetches = suc s.fetches; tables = t } ≡ s' = cc in
      (rw (known, fetched, written) same, cc)

  -- Whenever the node server answers, the worker fills the same rows with the same thresholds, makes
  -- as many live reads, and leaves the same tables.
  pub fill_or_log-fill_or_throw :
      (rows : List SettlementRow) (s : FillState) (f : Filled)
      → fill_or_throw live sla_id rows s ≡ ok f
      → fill_or_log live sla_id rows s ≡ f
  unfolding fill_or_throw fill_or_log put_cached
  fill_or_log-fill_or_throw [] s f h = cc
  fill_or_log-fill_or_throw (row ∷ rows) s f h = elim (Option-cases row.quorum_threshold) [
    | inr (q, known) ↦
        let (g, e, last) =
          >>=-eq-ok (fill_or_throw live sla_id rows s) (λ g. ok (put_row row g)) (rw known at h) in
        let same : put_row row g ≡ f = cc in
        rw known (ap (put_row row) (fill_or_log-fill_or_throw rows s g e) ∙ same)
    | inl unknown ↦
        let ((q, s'), e', rest) =
          >>=-eq-ok (threshold_or_throw live sla_id s.cached s)
            (λ (q, s').
              fill_or_throw live sla_id rows s' >>= λ g. ok (put_row (with_threshold q row) g))
            (rw unknown at h) in
        let (g, e, last) =
          >>=-eq-ok (fill_or_throw live sla_id rows s') (λ g. ok (put_row (with_threshold q row) g))
            rest in
        let same : put_row (with_threshold q row) g ≡ f = cc in
        let (logged, cached) = threshold_or_log-threshold_or_throw s.cached s q s' refl e' in
        rw (unknown, logged, cached)
          (ap (put_row (with_threshold q row)) (fill_or_log-fill_or_throw rows s' g e) ∙ same)
  ]

  -- If every live read fails, the worker makes one for each row without a threshold, where the
  -- source's comment promises at most one for a request; no row and no table is changed.
  pub fill_or_log_failing :
      (rows : List SettlementRow) (n : ℕ) (t : Tables)
      → ((k : ℕ) → (e : Error) × (live.fetch k ≡ err e))
      → fill_or_log live sla_id rows (record { cached = none; fetches = n; tables = t }) ≡ record {
        rows = rows;
        state = record { cached = none; fetches = n + missing rows; tables = t };
      }
  unfolding fill_or_log threshold_or_log read_or_log put_cached is_null
  fill_or_log_failing [] n t failing =
      ap (λ k. record { rows = []; state = record { cached = none; fetches = k; tables = t } })
        (omega arith)
  fill_or_log_failing (row ∷ rows) n t failing = elim (Option-cases row.quorum_threshold) [
    | inr (q, known) ↦ rw known (
        ap (put_row row) (fill_or_log_failing rows n t failing)
        ∙ ap (λ r. unfilled r (n + missing rows)) (holds (some q) known))
    | inl unknown ↦
        let (e, failed) = failing n in
        let later : suc n + missing rows ≡ n + suc (missing rows) = omega arith in
        rw (unknown, failed)
          (ap (put_row row) (fill_or_log_failing rows (suc n) t failing)
            ∙ ap (unfilled row) later
            ∙ ap (λ r. unfilled r (n + suc (missing rows))) (holds none unknown))
  ]
    where
      unfilled : SettlementRow → ℕ → Filled
      unfilled r k = record {
        rows = r ∷ rows;
        state = record { cached = none; fetches = k; tables = t };
      }

      holds :
          (o : Option Number) → row.quorum_threshold ≡ o → row ≡ record row { quorum_threshold = o }
      holds o e = ap (λ q. record row { quorum_threshold = q }) e

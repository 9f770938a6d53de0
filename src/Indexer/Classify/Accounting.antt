-- ===== src/Indexer/Classify/Accounting.antt =====
-- Every event of a page is accounted for: it becomes one row, or it is logged as skipped.
use slasettle_hub.Prelude.{ℕ, ◌+◌, String, length}
use slasettle_hub.Indexer.Rows.{CheckStatus, up, down, ClassifiedBatch}

-- The rows of a batch and its warnings, counted.
abbrev pub size : ClassifiedBatch → ℕ
size b =
    length b.watcher_events
    + length b.checks
    + length b.slas
    + length b.settlements
    + length b.lifecycle_events
    + length b.warned

-- The symbol of a status in the contract's encoding.
abbrev symbol : CheckStatus → String
symbol up = "Up"
symbol down = "Down"

-- ===== src/Indexer/Api/Ledger/Rounds.antt =====
-- What a checked ledger is, and where its round begins and ends.
use slasettle_hub.Prelude.{ℕ, ◌*◌, ◌≤◌, ◌<◌, some, ◌≡◌}
use slasettle_hub.Js.{Value, num, int, pos}
use slasettle_hub.Indexer.Api.{optional_field}
use slasettle_hub.Indexer.Api.Ledger.{
  LedgerInfo, max_safe_integer, max_date_time_ms, close_time_seconds,
}

-- A ledger that passed every check: the fields of the answer, in range.
pub record IsChecked (raw : Value) (info : LedgerInfo) : Type 0 where
  pub seconds : ℕ
  pub sequence_field : optional_field "sequence" raw ≡ num (int (pos info.sequence))
  pub sequence_positive : 0 < info.sequence
  pub sequence_safe : info.sequence ≤ max_safe_integer
  pub close_time_field : close_time_seconds (optional_field "closeTime" raw) ≡ some seconds
  pub close_time : info.close_time_ms ≡ seconds * 1000
  pub close_time_is_date : info.close_time_ms ≤ max_date_time_ms

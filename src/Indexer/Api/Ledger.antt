-- ===== src/Indexer/Api/Ledger.antt =====
-- indexer/src/api/ledgerInfo.ts: the latest ledger, checked, and the round of its close time.
pub mod Rounds
use Prim.Native.Char.{Char, code}
use Prim.Native.String.{[], ◌∷◌}
use slasettle_hub.Prelude.{
  ℕ, zero, suc, ◌+◌, ◌-◌, ◌*◌, ◌/◌, ◌≤◌, ◌<◌, String, Bool, true, false, ◌&&◌, Option, none, some,
  ◌≡◌, refl, Result, ok, err, ◌>>=◌, >>=-eq-ok, type_error, if◌then◌else◌, ltb, leb, nat_eq, arith,
}
use slasettle_hub.Js.{Value, num, str, int, pos}
use slasettle_hub.Indexer.Api.{optional_field}

pub record LedgerInfo : Type 0 where
  pub sequence : ℕ
  pub close_time_ms : ℕ

-- Number.MAX_SAFE_INTEGER, MAX_DATE_TIME_MS
abbrev pub max_safe_integer : ℕ
max_safe_integer = 9007199254740991

abbrev pub max_date_time_ms : ℕ
max_date_time_ms = 8640000000000000

unfoldable pub digit_of : Char → Option ℕ
digit_of c = if leb 48 (code c) && leb (code c) 57 then some (code c - 48) else none

-- The decimal text behind the digits read so far.
unfoldable pub decimal_from : ℕ → String → Option ℕ
decimal_from n [] = some n
decimal_from n (c ∷ s) = elim (digit_of c) [ none ↦ none | some d ↦ decimal_from (n * 10 + d) s ]

-- A text that matches UNIX_SECONDS, as its number: a 0, or digits of which the first is no 0.
unfoldable pub unix_seconds : String → Option ℕ
unfolding decimal_from digit_of
unix_seconds [] = none
unix_seconds (c ∷ []) = decimal_from 0 (c ∷ [])
unix_seconds (c ∷ d ∷ s) = if nat_eq (code c) 48 then none else decimal_from 0 (c ∷ d ∷ s)

-- A safe integer above 0.
unfoldable pub safe_sequence : Value → Option ℕ
safe_sequence (num (int (pos n))) = if ltb 0 n && leb n max_safe_integer then some n else none
safe_sequence _ = none

unfoldable pub close_time_seconds : Value → Option ℕ
unfolding unix_seconds
close_time_seconds (str s) = unix_seconds s
close_time_seconds _ = none

-- A field that is not valid throws.
unfoldable pub require_field : String → Option ℕ → Result ℕ
require_field name none = err (type_error name)
require_field name (some n) = ok n

-- The close time in milliseconds, if it and the seconds are safe and it is a date.
unfoldable pub close_time_of : ℕ → Option ℕ
close_time_of seconds =
    if leb seconds max_safe_integer
      && (leb (seconds * 1000) max_safe_integer && leb (seconds * 1000) max_date_time_ms)
    then some (seconds * 1000)
    else none

-- `answer` is what `_getLatestLedger` gives.
unfoldable pub get_latest_ledger_info : Result Value → Result LedgerInfo
unfolding require_field safe_sequence close_time_seconds close_time_of
get_latest_ledger_info answer = do
  raw ← answer
  sequence ← require_field "sequence" (safe_sequence (optional_field "sequence" raw))
  seconds ← require_field "closeTime" (close_time_seconds (optional_field "closeTime" raw))
  close_time_ms ← require_field "closeTime" (close_time_of seconds)
  ok (record { sequence = sequence; close_time_ms = close_time_ms })

-- `Math.floor(ledger.closeTimeMs / 1000 / roundLengthSeconds)`. Both divisions are exact enough below
-- 2 ^ 53 that the floor is the quotient.
unfoldable pub current_round_id : LedgerInfo → ℕ → ℕ
current_round_id ledger round_length_seconds = ledger.close_time_ms / 1000 / round_length_seconds

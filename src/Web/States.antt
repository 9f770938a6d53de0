-- ===== src/Web/States.antt =====
-- apps/web/lib/use-transaction.ts: the states of a transaction, and what a run does that others see.
use slasettle_hub.Prelude.{String, ℕ, Bool, true, false, Option}

pub data TransactionState : Type 0 where
  idle building signing submitting : TransactionState
  pending : String → TransactionState
  confirmed : String → TransactionState
  unconfirmed : String → String → TransactionState
  rejected : String → TransactionState
  failed : Option String → String → TransactionState

unfoldable pub is_transaction_busy : TransactionState → Bool
is_transaction_busy building = true
is_transaction_busy signing = true
is_transaction_busy submitting = true
is_transaction_busy (pending hash) = true
is_transaction_busy _ = false

-- A state that is set, the build of the unsigned transaction, a signature asked for (the XDR, the
-- passphrase and the address), a transaction sent to the network, a poll with its attempts.
pub data Act (Signed : Type 0) : Type 0 where
  set_state : TransactionState → Act Signed
  build_tx : Act Signed
  request_signature : String → String → String → Act Signed
  send : Signed → Act Signed
  poll : String → ℕ → Act Signed

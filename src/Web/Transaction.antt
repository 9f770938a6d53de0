-- ===== src/Web/Transaction.antt =====
-- apps/web/lib/use-transaction.ts: one write transaction, from the click to its last state.
pub mod Diagram
pub mod Steps
pub mod Refinement
pub mod Refusals
use slasettle_hub.Prelude.{String, List, Bool, true, false, Option, none, some, if◌then◌else◌}
use slasettle_hub.Web.Runs.{
  Thrown, wallet_error, other_error, not_an_error, Run, step, done, threw, ◌>>=◌, catch, Call,
  await,
}
use slasettle_hub.Web.Network.{WalletNetworkCheck, allowed, refused, check_wallet_network}
use slasettle_hub.Web.States.{
  TransactionState, building, signing, submitting, pending, confirmed, unconfirmed, rejected,
  failed, Act, set_state, build_tx,
}
use slasettle_hub.Web.Wallet.{
  WalletConnection, FinalStatus, success, not_found, tx_failed, SubmittedTransaction, Platform,
  is_user_rejection, sign_transaction, submit_transaction,
}

abbrev pub unconfirmed_message : String
unconfirmed_message =
    "The transaction was submitted but its final status could not be confirmed yet. Check the transaction hash on an explorer before retrying."

abbrev pub failed_message : String
failed_message = "The transaction was included but failed on-chain."

abbrev pub declined_message : String
declined_message = "You declined the request in your wallet. Nothing was submitted."

-- The message that a failure shows.
unfoldable pub message_of : Thrown → String
message_of (wallet_error message code) = message
message_of (other_error message) = message
message_of not_an_error = "The transaction could not be completed. Check your wallet and try again."

-- The state that the catch block sets.
unfoldable pub state_of_error : Thrown → TransactionState
unfolding is_user_rejection message_of
state_of_error e =
    if is_user_rejection e then rejected declined_message else failed none (message_of e)

-- The state that a final status sets.
unfoldable pub state_of_result : String → FinalStatus → TransactionState
state_of_result hash success = confirmed hash
state_of_result hash not_found = unconfirmed hash unconfirmed_message
state_of_result hash tx_failed = failed (some hash) failed_message

module _ (platform : Platform) where
  open platform use {Unsigned, Signed, networks, configured}

  -- The body of the try block.
  unfoldable pub drive :
      Call Unsigned → WalletConnection → Run (Act Signed) (Option SubmittedTransaction)
  drive built wallet = do
    unsigned ← step build_tx (await built)
    signed ← step (set_state signing) (sign_transaction platform unsigned wallet)
    result ←
        step (set_state submitting)
          (submit_transaction platform signed (λ hash. set_state (pending hash)))
    step (set_state (state_of_result result.hash result.status)) (done (some result))

  unfoldable pub caught : Thrown → Run (Act Signed) (Option SubmittedTransaction)
  caught e = step (set_state (state_of_error e)) (done none)

  unfoldable pub run_checked :
      WalletNetworkCheck
      → Call Unsigned
      → WalletConnection
      → Run (Act Signed) (Option SubmittedTransaction)
  run_checked (refused message) built wallet = step (set_state (failed none message)) (done none)
  run_checked allowed built wallet = step (set_state building) (catch (drive built wallet) caught)

  -- `run`, where the build answers `built`.
  unfoldable pub run :
      Call Unsigned → WalletConnection → Run (Act Signed) (Option SubmittedTransaction)
  run built wallet =
      run_checked (check_wallet_network networks configured wallet.network_passphrase) built wallet

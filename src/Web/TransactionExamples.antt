-- ===== src/Web/TransactionExamples.antt =====
-- Concrete transactions: what apps/web/lib/use-transaction.ts does with them.
use slasettle_hub.Prelude.{String, [], ◌∷◌, ◌++◌, true, none, some, ◌≡◌, refl}
use slasettle_hub.Web.Runs.{answered, acts}
use slasettle_hub.Web.Network.{check_wallet_network}
use slasettle_hub.Web.States.{building, signing, submitting, rejected, set_state, build_tx, send}
use slasettle_hub.Web.Wallet.{
  Platform, WalletConnection, SendStatus, send_error, success, sign_transaction,
}
use slasettle_hub.Web.Transaction.{run, declined_message}
use slasettle_hub.Web.Transaction.Refusals.{run-refused}

-- A wallet and a network that answer everything, and take a transaction with a status.
abbrev platform : SendStatus → Platform
platform status = record {
  Unsigned = String;
  Signed = String;
  networks = record {
    public_network = "public";
    testnet = "test";
    futurenet = "future";
    sandbox = "sandbox";
    standalone = "standalone";
  };
  configured = some "test";
  connected = answered (record { is_connected = true; error = none });
  get_address = answered (record { address = "GA"; error = none });
  request_access = answered (record { address = "GA"; error = none });
  get_network_details =
      answered (record { network = "TESTNET"; network_passphrase = "test"; error = none });
  to_xdr = λ tx. tx;
  freighter_sign = λ xdr p a. answered (record { signed_tx_xdr = "signed"; error = none });
  from_xdr = λ xdr p. answered xdr;
  sdk_ready = answered tt;
  send_transaction = λ tx. answered (record { status = status; hash = "hash" });
  poll_transaction = λ hash n. answered success;
}

abbrev wallet : WalletConnection
wallet = record { address = "GA"; network = "TESTNET"; network_passphrase = "test" }

run-refused_example :
    acts (run (platform send_error) (answered "tx") wallet)
    ≡ (set_state building ∷ build_tx ∷ set_state signing ∷ [])
      ++ acts (sign_transaction (platform send_error) "tx" wallet)
      ++ set_state submitting ∷ send "signed" ∷ set_state (rejected declined_message) ∷ []
unfolding check_wallet_network sign_transaction
run-refused_example =
    run-refused (platform send_error) wallet "tx" "signed" "hash" refl refl refl refl

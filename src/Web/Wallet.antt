-- ===== src/Web/Wallet.antt =====
-- apps/web/lib/wallet.ts: the calls of the Freighter wallet and of the network, and their errors.
-- What Freighter, the Stellar SDK and the RPC server answer is the parameter `Platform`.
use Prim.Native.String.{◌++◌ as text_append}
use slasettle_hub.Prelude.{ℕ, String, Bool, true, false, not, ◌||◌, Option, none, some, ◌==◌}
use slasettle_hub.Js.{ℤ}
use slasettle_hub.Web.Runs.{
  Thrown, wallet_error, other_error, not_an_error, Run, step, done, threw, ◌>>=◌, Call, answered,
  failed_with, await,
}
use slasettle_hub.Web.Texts.{mentions}
use slasettle_hub.Web.Network.{Networks, WalletNetworkCheck, allowed, refused, check_wallet_network}
use slasettle_hub.Web.States.{Act, request_signature, send, poll}

pub record WalletConnection : Type 0 where
  pub address : String
  pub network : String
  pub network_passphrase : String

pub record FreighterError : Type 0 where
  pub code : ℤ
  pub message : String

pub record ConnectedResult : Type 0 where
  pub is_connected : Bool
  pub error : Option FreighterError

pub record AddressResult : Type 0 where
  pub address : String
  pub error : Option FreighterError

pub record NetworkDetails : Type 0 where
  pub network : String
  pub network_passphrase : String
  pub error : Option FreighterError

pub record SignResult : Type 0 where
  pub signed_tx_xdr : String
  pub error : Option FreighterError

pub data SendStatus : Type 0 where
  accepted duplicate try_again_later send_error : SendStatus

pub record SendResult : Type 0 where
  pub status : SendStatus
  pub hash : String

pub data FinalStatus : Type 0 where
  success not_found tx_failed : FinalStatus

pub record SubmittedTransaction : Type 0 where
  pub hash : String
  pub status : FinalStatus

-- The wallet, the Stellar SDK, the RPC server and the deployment, as one run sees them.
pub record Platform : Type 1 where
  pub Unsigned : Type 0
  pub Signed : Type 0
  pub networks : Networks
  pub configured : Option String
  pub connected : Call ConnectedResult
  pub get_address : Call AddressResult
  pub request_access : Call AddressResult
  pub get_network_details : Call NetworkDetails
  pub to_xdr : Unsigned → String
  pub freighter_sign : String → String → String → Call SignResult
  pub from_xdr : String → String → Call Signed
  -- getSdkConfig and getRpcServer
  pub sdk_ready : Call (Unit {0})
  pub send_transaction : Signed → Call SendResult
  pub poll_transaction : String → ℕ → Call FinalStatus

unfoldable pub throw_if_freighter_error {ℓ} :
    {A : Type ℓ} → Option FreighterError → Run A (Unit {0})
throw_if_freighter_error none = done tt
throw_if_freighter_error (some e) = threw (wallet_error e.message (some e.code))

-- `if (!check.allowed) throw new WalletError(check.message)`
unfoldable pub throw_unless_allowed {ℓ} : {A : Type ℓ} → WalletNetworkCheck → Run A (Unit {0})
throw_unless_allowed allowed = done tt
throw_unless_allowed (refused message) = threw (wallet_error message none)

-- `/reject|declin|denied|cancel/i.test(message)`, on a WalletError
unfoldable pub is_user_rejection : Thrown → Bool
unfolding mentions
is_user_rejection (wallet_error message code) =
    mentions "reject" message
    || mentions "declin" message
    || mentions "denied" message
    || mentions "cancel" message
is_user_rejection (other_error message) = false
is_user_rejection not_an_error = false

abbrev pub poll_attempts : ℕ
poll_attempts = 30

abbrev pub refused_prefix : String
refused_prefix = "The network rejected the transaction before it could be included ("

unfoldable pub refused_message : String → String
refused_message hash = text_append refused_prefix (text_append hash ").")

abbrev pub busy_message : String
busy_message = "The network is busy and did not accept the transaction. Try again shortly."

unfoldable pub without_error : Option FreighterError → Bool → Bool
without_error none b = b
without_error (some e) b = false

unfoldable pub throw_by_status {ℓ} : {A : Type ℓ} → SendStatus → String → Run A (Unit {0})
unfolding refused_message
throw_by_status send_error hash = threw (wallet_error (refused_message hash) none)
throw_by_status try_again_later hash = threw (wallet_error busy_message none)
throw_by_status accepted hash = done tt
throw_by_status duplicate hash = done tt

module _ (platform : Platform) where
  open platform use {Unsigned, Signed, networks, configured}

  unfoldable pub connection_of : String → NetworkDetails → Run (Act Signed) WalletConnection
  unfolding throw_if_freighter_error
  connection_of address details = do
    checked ← throw_if_freighter_error details.error
    done (record {
      address = address;
      network = details.network;
      network_passphrase = details.network_passphrase;
    })

  unfoldable pub is_freighter_available : Bool
  unfolding without_error
  is_freighter_available = elim platform.connected [
    | answered result ↦ without_error result.error result.is_connected
    | failed_with e ↦ false
  ]

  unfoldable pub connect_if : Bool → String → Run (Act Signed) (Option WalletConnection)
  unfolding connection_of
  connect_if false address = done none
  connect_if true address = do
    details ← await platform.get_network_details
    wallet ← connection_of address details
    done (some wallet)

  unfoldable pub get_active_wallet : Run (Act Signed) (Option WalletConnection)
  unfolding connect_if without_error
  get_active_wallet = do
    found ← await platform.get_address
    connect_if (without_error found.error (not (found.address == ""))) found.address

  unfoldable pub connect_wallet : Run (Act Signed) WalletConnection
  unfolding throw_if_freighter_error connection_of
  connect_wallet = do
    access ← await platform.request_access
    checked ← throw_if_freighter_error access.error
    details ← await platform.get_network_details
    connection_of access.address details

  unfoldable pub sign_transaction : Unsigned → WalletConnection → Run (Act Signed) Signed
  unfolding throw_if_freighter_error throw_unless_allowed
  sign_transaction unsigned wallet = do
    snapshot_check ←
        throw_unless_allowed (check_wallet_network networks configured wallet.network_passphrase)
    live_network ← await platform.get_network_details
    answered_live ← throw_if_freighter_error live_network.error
    live_check ←
        throw_unless_allowed
          (check_wallet_network networks configured live_network.network_passphrase)
    result ←
        step (request_signature (platform.to_xdr unsigned) wallet.network_passphrase wallet.address)
          (await (
            platform.freighter_sign (platform.to_xdr unsigned) wallet.network_passphrase
              wallet.address))
    signed ← throw_if_freighter_error result.error
    await (platform.from_xdr result.signed_tx_xdr wallet.network_passphrase)

  -- `on_submitted` is the act of the callback.
  unfoldable pub submit_transaction :
      Signed → (String → Act Signed) → Run (Act Signed) SubmittedTransaction
  unfolding throw_by_status
  submit_transaction signed on_submitted = do
    ready ← await platform.sdk_ready
    sent ← step (send signed) (await (platform.send_transaction signed))
    kept ← throw_by_status sent.status sent.hash
    status ← step (on_submitted sent.hash) (
        step (poll sent.hash poll_attempts)
          (await (platform.poll_transaction sent.hash poll_attempts)))
    done (record { hash = sent.hash; status = status })

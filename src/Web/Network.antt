-- ===== src/Web/Network.antt =====
-- apps/web/lib/network.ts: whether a wallet may be used for this deployment. The passphrases of the
-- Stellar networks are the SDK's.
use Prim.Native.String.{◌++◌ as text_append}
use slasettle_hub.Prelude.{
  String, Option, none, some, ◌≡◌, ◌≢◌, ◌↔◌, ◌==◌, if◌then◌else◌, eq_iff, arith,
}

pub record Networks : Type 0 where
  pub public_network : String
  pub testnet : String
  pub futurenet : String
  pub sandbox : String
  pub standalone : String

pub data WalletNetworkCheck : Type 0 where
  allowed : WalletNetworkCheck
  refused : String → WalletNetworkCheck

-- The deployment: the SDK's passphrases, and NEXT_PUBLIC_NETWORK_PASSPHRASE.
module _ (networks : Networks) (configured : Option String) where
  unfoldable pub label_for_network_passphrase : String → String
  label_for_network_passphrase p =
      if p == networks.public_network
      then "Public Network"
      else if p == networks.testnet
      then "Testnet"
      else if p == networks.futurenet
      then "Futurenet"
      else if p == networks.sandbox
      then "Sandbox"
      else if p == networks.standalone
      then "Standalone"
      else "Custom Network"

  unfoldable pub mismatch_message : String → String → String
  unfolding label_for_network_passphrase
  mismatch_message wallet ours = text_append "Your wallet is on " (
      text_append (label_for_network_passphrase wallet) (
        text_append ". Switch your wallet to "
          (text_append (label_for_network_passphrase ours) " before submitting transactions.")))

  unfoldable pub against : Option String → String → WalletNetworkCheck
  unfolding mismatch_message
  against none wallet = refused "This app has no network configured, so transactions are disabled."
  against (some ours) wallet =
      if ours == ""
      then refused "This app has no network configured, so transactions are disabled."
      else if wallet == ours
      then allowed
      else refused (mismatch_message wallet ours)

  against-eq-allowed :
      (c : Option String) (wallet : String)
      → (against c wallet ≡ allowed) ↔ ((c ≡ some wallet) × (wallet ≢ ""))
  unfolding against
  against-eq-allowed none wallet = ground arith
  against-eq-allowed (some ours) wallet = ground (arith, eq_iff ours "", eq_iff wallet ours)

  unfoldable pub check_wallet_network : String → WalletNetworkCheck
  unfolding against
  check_wallet_network wallet = against configured wallet

  -- A wallet is allowed exactly on the configured network, and on none when there is no network.
  pub check_wallet_network-eq-allowed :
      (wallet : String)
      → (check_wallet_network wallet ≡ allowed) ↔ ((configured ≡ some wallet) × (wallet ≢ ""))
  unfolding check_wallet_network
  check_wallet_network-eq-allowed wallet = against-eq-allowed configured wallet

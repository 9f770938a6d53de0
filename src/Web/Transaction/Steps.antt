-- ===== src/Web/Transaction/Steps.antt =====
-- apps/web/lib/wallet.ts: signing and submitting follow the diagram of a transaction's states.
use slasettle_hub.Prelude.{String, none, ◌≡◌, ◌≢◌, refl, inl, inr, ◌⊎◌, Option-cases}
use slasettle_hub.Web.Runs.{Thrown, step, done, ◌>>=◌, Call, answered, failed_with, await}
use slasettle_hub.Web.Network.{
  WalletNetworkCheck, allowed, refused, check_wallet_network, check_wallet_network-eq-allowed,
}
use slasettle_hub.Web.States.{
  TransactionState, signing, submitting, pending, is_transaction_busy, set_state, request_signature,
  poll,
}
use slasettle_hub.Web.Wallet.{
  WalletConnection, NetworkDetails, SignResult, SendStatus, accepted, duplicate, send_error,
  try_again_later, SubmittedTransaction, Platform, poll_attempts, throw_if_freighter_error,
  throw_unless_allowed, throw_by_status, sign_transaction, submit_transaction,
}
use slasettle_hub.Web.Transaction.Diagram.{
  IsConfigured, MaySign, HasSigned, HasSubmitted, accept, Follows,
}

pub Call-cases {ℓ} :
    {A : Type ℓ} (c : Call A) → ((a : A) × (c ≡ answered a)) ⊎ ((e : Thrown) × (c ≡ failed_with e))
Call-cases (answered a) = inl (a, refl)
Call-cases (failed_with e) = inr (e, refl)

pub Check-cases :
    (c : WalletNetworkCheck) → (c ≡ allowed) ⊎ ((message : String) × (c ≡ refused message))
Check-cases allowed = inl refl
Check-cases (refused message) = inr (message, refl)

module _ (platform : Platform) where
  -- A run that has signed, and one that has the final answer on its transaction.
  abbrev pub SignedIn : WalletConnection → TransactionState → platform.Signed → Type 0
  SignedIn wallet t signed = (t ≡ signing) × HasSigned platform wallet signed

  abbrev pub SubmittedAs : TransactionState → SubmittedTransaction → Type 0
  SubmittedAs t result =
      (t ≡ pending result.hash)
      × (platform.poll_transaction result.hash poll_attempts ≡ answered result.status)

module _ (platform : Platform) (wallet : WalletConnection) where
  open platform use {Unsigned, Signed, networks, configured}

  -- A test of a passphrase that allows it.
  pub IsConfigured-allowed :
      (passphrase : String)
      → check_wallet_network networks configured passphrase ≡ allowed
      → IsConfigured platform wallet passphrase
  IsConfigured-allowed passphrase h =
      (check_wallet_network-eq-allowed networks configured passphrase).0 h

  -- What follows the answers of the wallet and of the parser.
  signature-Follows :
      (unsigned : Unsigned) (signature : SignResult)
      → MaySign platform wallet
      → platform.freighter_sign (platform.to_xdr unsigned) wallet.network_passphrase wallet.address
        ≡ answered signature
      → Follows platform wallet (SignedIn platform wallet) signing (
          throw_if_freighter_error signature.error >>= λ checked.
          await (platform.from_xdr signature.signed_tx_xdr wallet.network_passphrase))
  unfolding throw_if_freighter_error is_transaction_busy
  signature-Follows unsigned signature may answer = elim (Option-cases signature.error) [
    | inr (e, failing) ↦ rw failing refl
    | inl fine ↦
        rw fine
          (elim (Call-cases (platform.from_xdr signature.signed_tx_xdr wallet.network_passphrase)) [
            | inr (e, failing) ↦ rw failing refl
            | inl (signed, parsed) ↦ rw parsed (
              refl,
              record {
                may_sign = may;
                unsigned = unsigned;
                signature = signature;
                sign_answer = answer;
                sign_error = fine;
                parsed = parsed;
              },
            )
          ])
  ]

  -- What follows the answer of the wallet on its network.
  live-Follows :
      (unsigned : Unsigned) (live : NetworkDetails)
      → check_wallet_network networks configured wallet.network_passphrase ≡ allowed
      → platform.get_network_details ≡ answered live
      → live.error ≡ none
      → Follows platform wallet (SignedIn platform wallet) signing (
          throw_unless_allowed (check_wallet_network networks configured live.network_passphrase)
          >>= λ checked.
              step
                (request_signature
                  (platform.to_xdr unsigned)
                  wallet.network_passphrase
                  wallet.address)
                (await (
                  platform.freighter_sign
                    (platform.to_xdr unsigned)
                    wallet.network_passphrase
                    wallet.address))
              >>= λ signature. throw_if_freighter_error signature.error >>= λ no_error.
                  await (platform.from_xdr signature.signed_tx_xdr wallet.network_passphrase))
  unfolding throw_unless_allowed is_transaction_busy
  live-Follows unsigned live snapshot answer fine =
      elim (Check-cases (check_wallet_network networks configured live.network_passphrase)) [
        | inr (message, refusing) ↦ rw refusing refl
        | inl on_network ↦
            let may : MaySign platform wallet = record {
              snapshot = IsConfigured-allowed wallet.network_passphrase snapshot;
              live = live;
              live_answer = answer;
              live_error = fine;
              live_network = IsConfigured-allowed live.network_passphrase on_network;
            } in
            rw on_network (
              (may, refl, refl, refl),
              elim (Call-cases (
                  platform.freighter_sign (platform.to_xdr unsigned) wallet.network_passphrase
                    wallet.address)) [
                      | inr (e, failing) ↦ rw failing refl
                      | inl (signature, signs) ↦
                          rw signs (signature-Follows unsigned signature may signs)
                    ],
            )
      ]

  -- Signing keeps the state, and what it gives was signed by the wallet on the right network.
  pub sign_transaction-Follows :
      (unsigned : Unsigned)
      → Follows platform wallet
          (SignedIn platform wallet)
          signing
          (sign_transaction platform unsigned wallet)
  unfolding sign_transaction is_transaction_busy
  sign_transaction-Follows unsigned =
      elim (Check-cases (check_wallet_network networks configured wallet.network_passphrase)) [
        | inr (message, refusing) ↦ rw refusing refl
        | inl snapshot ↦ rw snapshot (elim (Call-cases platform.get_network_details) [
          | inr (e, failing) ↦ rw failing refl
          | inl (live, answer) ↦ simp answer (elim (Option-cases live.error) [
            | inr (e, failing) ↦ rw failing refl
            | inl fine ↦ simp fine (live-Follows unsigned live snapshot answer fine)
          ])
        ])
      ]

  HasSubmitted-sent :
      (signed : Signed) (status : SendStatus) (hash : String)
      → HasSigned platform wallet signed
      → platform.send_transaction signed ≡ answered (record { status = status; hash = hash })
      → status ≢ send_error
      → status ≢ try_again_later
      → HasSubmitted platform wallet hash
  HasSubmitted-sent signed status hash has_signed answer not_refused not_busy = record {
    signed = signed;
    has_signed = has_signed;
    sent = record { status = status; hash = hash };
    send_answer = answer;
    not_refused = not_refused;
    not_busy = not_busy;
    same_hash = refl;
  }

  polled-Follows :
      (hash : String)
      → Follows platform wallet (SubmittedAs platform) (pending hash) (
          await (platform.poll_transaction hash poll_attempts) >>= λ status.
          done (record { hash = hash; status = status }))
  unfolding is_transaction_busy
  polled-Follows hash = elim (Call-cases (platform.poll_transaction hash poll_attempts)) [
    | inr (e, failing) ↦ simp failing refl
    | inl (status, answer) ↦ rw answer (refl, answer)
  ]

  -- What follows the answer of the network to the transaction.
  sent-Follows :
      (signed : Signed) (status : SendStatus) (hash : String)
      → HasSigned platform wallet signed
      → platform.send_transaction signed ≡ answered (record { status = status; hash = hash })
      → Follows platform wallet (SubmittedAs platform) submitting (
          throw_by_status status hash >>= λ kept.
          step
            (set_state (pending hash))
            (step (poll hash poll_attempts) (await (platform.poll_transaction hash poll_attempts)))
          >>= λ status. done (record { hash = hash; status = status }))
  unfolding throw_by_status is_transaction_busy
  sent-Follows signed send_error hash has_signed answer = refl
  sent-Follows signed try_again_later hash has_signed answer = refl
  sent-Follows signed accepted hash has_signed answer = (
    accept hash refl refl
        (HasSubmitted-sent signed accepted hash has_signed answer (λ e. cc) (λ e. cc)),
    ((refl, refl), polled-Follows hash),
  )
  sent-Follows signed duplicate hash has_signed answer = (
    accept hash refl refl
        (HasSubmitted-sent signed duplicate hash has_signed answer (λ e. cc) (λ e. cc)),
    ((refl, refl), polled-Follows hash),
  )

  pub submit_transaction-Follows :
      (signed : Signed)
      → HasSigned platform wallet signed
      → Follows platform wallet
          (SubmittedAs platform)
          submitting
          (submit_transaction platform signed (λ hash. set_state (pending hash)))
  unfolding submit_transaction is_transaction_busy
  submit_transaction-Follows signed has_signed = elim (Call-cases platform.sdk_ready) [
    | inr (e, failing) ↦ simp failing refl
    | inl (ready, answer) ↦ simp answer (
      (refl, has_signed),
      elim (Call-cases (platform.send_transaction signed)) [
        | inr (e, failing) ↦ simp failing refl
        | inl (sent, answer) ↦
            simp answer (sent-Follows signed sent.status sent.hash has_signed answer)
      ],
    )
  ]

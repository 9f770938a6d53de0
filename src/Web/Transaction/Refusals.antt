-- ===== src/Web/Transaction/Refusals.antt =====
-- apps/web/lib/use-transaction.ts: a transaction that the network refuses.
use Prim.Native.String.{◌++◌ as text_append}
use slasettle_hub.Prelude.{String, [], ◌∷◌, ◌++◌, true, none, some, ◌≡◌, refl, ap, ◌∙◌}
use slasettle_hub.Web.Runs.{
  wallet_error, step, done, ◌>>=◌, catch, acts, answered, answer, acts-catch->>=,
}
use slasettle_hub.Web.Texts.{mentions, mentions-append}
use slasettle_hub.Web.Network.{allowed, check_wallet_network}
use slasettle_hub.Web.States.{
  building, signing, submitting, pending, rejected, build_tx, set_state, send,
}
use slasettle_hub.Web.Wallet.{
  WalletConnection, send_error, Platform, refused_message, refused_prefix, is_user_rejection,
  sign_transaction, submit_transaction, throw_by_status,
}
use slasettle_hub.Web.Transaction.{
  declined_message, state_of_error, state_of_result, caught, drive, run_checked, run,
}

refused_prefix-mentions : mentions "reject" refused_prefix ≡ true
unfolding mentions
refused_prefix-mentions = refl

-- The hub's own message for a refused transaction reads as a rejection by the user.
is_user_rejection-refused_message :
    (hash : String) → is_user_rejection (wallet_error (refused_message hash) none) ≡ true
unfolding is_user_rejection refused_message
is_user_rejection-refused_message hash =
    rw (mentions-append "reject" refused_prefix (text_append hash ").") refused_prefix-mentions)
      refl

module _ (platform : Platform) (wallet : WalletConnection) where
  open platform use {Unsigned, Signed, networks, configured}

  -- The acts after the signature.
  refused_acts :
      (signed : Signed) (hash : String)
      → platform.sdk_ready ≡ answered tt
      → platform.send_transaction signed ≡ answered (record { status = send_error; hash = hash })
      → acts (
          catch
            (step
                (set_state submitting)
                (submit_transaction platform signed (λ hash. set_state (pending hash)))
              >>= λ result.
                  step (set_state (state_of_result result.hash result.status)) (done (some result)))
            (caught platform))
        ≡ set_state submitting ∷ send signed ∷ set_state (rejected declined_message) ∷ []
  unfolding submit_transaction throw_by_status caught state_of_error
  refused_acts signed hash ready sends =
      simp (ready, sends) (rw (is_user_rejection-refused_message hash) refl)

  -- When the network answers a sent transaction with the status ERROR, the run has asked for the
  -- signature and sent the transaction, and ends all the same in the state of a rejection by the
  -- user, with the message that nothing was submitted.
  pub run-refused :
      (unsigned : Unsigned) (signed : Signed) (hash : String)
      → check_wallet_network networks configured wallet.network_passphrase ≡ allowed
      → answer (sign_transaction platform unsigned wallet) ≡ some signed
      → platform.sdk_ready ≡ answered tt
      → platform.send_transaction signed ≡ answered (record { status = send_error; hash = hash })
      → acts (run platform (answered unsigned) wallet)
        ≡ (set_state building ∷ build_tx ∷ set_state signing ∷ [])
          ++ acts (sign_transaction platform unsigned wallet)
          ++ set_state submitting ∷ send signed ∷ set_state (rejected declined_message) ∷ []
  unfolding run run_checked drive
  run-refused unsigned signed hash check signs ready sends =
      ap (λ c. acts (run_checked platform c (answered unsigned) wallet)) check
      ∙ ap (λ rest. set_state building ∷ build_tx ∷ set_state signing ∷ rest)
          (acts-catch->>= (sign_transaction platform unsigned wallet) _ _ signed signs
            ∙ ap (λ rest. acts (sign_transaction platform unsigned wallet) ++ rest)
                (refused_acts signed hash ready sends))

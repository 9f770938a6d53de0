-- ===== src/Web/Transaction/Diagram.antt =====
-- apps/web/lib/use-transaction.ts: the diagram of a transaction's states, and what a call of the
-- wallet or the network needs before it.
use slasettle_hub.Prelude.{
  String, List, [], ◌∷◌, true, false, Option, none, some, ◌≡◌, ◌≢◌, refl, arith, false, ◌⊎◌, inl,
  inr, Bool-cases,
}
use slasettle_hub.Web.Runs.{Thrown, Run, step, done, threw, ◌>>=◌, catch, acts, answered}
use slasettle_hub.Web.States.{
  TransactionState, building, signing, submitting, pending, confirmed, unconfirmed, rejected,
  failed, is_transaction_busy, Act, set_state, build_tx, request_signature, send, poll,
}
use slasettle_hub.Web.Wallet.{
  WalletConnection, NetworkDetails, SignResult, SendResult, send_error, try_again_later,
  is_user_rejection, FinalStatus, success, not_found, tx_failed, SubmittedTransaction, Platform,
  poll_attempts,
}
use slasettle_hub.Web.Transaction.{state_of_error, message_of, declined_message, caught}

module _ (platform : Platform) (wallet : WalletConnection) where
  open platform use {Unsigned, Signed, configured}

  -- The passphrase is the deployment's, and the deployment has one.
  abbrev pub IsConfigured : String → Type 0
  IsConfigured passphrase = (configured ≡ some passphrase) × (passphrase ≢ "")

  -- The wallet and the network that it is on now may be used.
  pub record MaySign : Type 0 where
    pub snapshot : IsConfigured wallet.network_passphrase
    pub live : NetworkDetails
    pub live_answer : platform.get_network_details ≡ answered live
    pub live_error : live.error ≡ none
    pub live_network : IsConfigured live.network_passphrase

  -- The wallet gave the signature of this transaction.
  pub record HasSigned (signed : Signed) : Type 0 where
    pub may_sign : MaySign
    pub unsigned : Unsigned
    pub signature : SignResult
    pub sign_answer :
        platform.freighter_sign (platform.to_xdr unsigned) wallet.network_passphrase wallet.address
        ≡ answered signature
    pub sign_error : signature.error ≡ none
    pub parsed :
        platform.from_xdr signature.signed_tx_xdr wallet.network_passphrase ≡ answered signed

  -- The network took the signed transaction under this hash.
  pub record HasSubmitted (hash : String) : Type 0 where
    pub signed : Signed
    pub has_signed : HasSigned signed
    pub sent : SendResult
    pub send_answer : platform.send_transaction signed ≡ answered sent
    pub not_refused : sent.status ≢ send_error
    pub not_busy : sent.status ≢ try_again_later
    pub same_hash : sent.hash ≡ hash

  -- The state that a final status stands for.
  abbrev pub IsOutcome : String → FinalStatus → TransactionState → Type 0
  IsOutcome hash success t = t ≡ confirmed hash
  IsOutcome hash not_found t = (message : String) × (t ≡ unconfirmed hash message)
  IsOutcome hash tx_failed t = (message : String) × (t ≡ failed (some hash) message)

  -- The state that a throw leads to: the user's refusal, or a failure without a hash.
  abbrev pub IsAbandoned : Thrown → TransactionState → Type 0
  IsAbandoned e t =
      ((is_user_rejection e ≡ true) × ((message : String) × (t ≡ rejected message)))
      ⊎ ((is_user_rejection e ≡ false) × ((message : String) × (t ≡ failed none message)))

  -- The states' diagram.
  pub data Edge (s t : TransactionState) : Type 0 where
    begin :
        is_transaction_busy s ≡ false
        → t ≡ building
        → IsConfigured wallet.network_passphrase
        → Edge s t
    refuse :
        (message : String)
        → is_transaction_busy s ≡ false
        → t ≡ failed none message
        → ¬ IsConfigured wallet.network_passphrase
        → Edge s t
    ask : s ≡ building → t ≡ signing → Edge s t
    submit : s ≡ signing → t ≡ submitting → MaySign → Edge s t
    accept : (hash : String) → s ≡ submitting → t ≡ pending hash → HasSubmitted hash → Edge s t
    settle :
        (hash : String) (status : FinalStatus)
        → s ≡ pending hash
        → IsOutcome hash status t
        → platform.poll_transaction hash poll_attempts ≡ answered status
        → Edge s t
    abandon : (e : Thrown) → is_transaction_busy s ≡ true → IsAbandoned e t → Edge s t

  -- The state after an act, which the diagram and the records above allow.
  abbrev pub Allows : TransactionState → Act Signed → Type 0
  Allows s (set_state t) = Edge s t
  Allows s build_tx = s ≡ building
  Allows s (request_signature xdr passphrase address) =
      MaySign
      × (s ≡ signing)
      × (passphrase ≡ wallet.network_passphrase)
      × (address ≡ wallet.address)
  Allows s (send signed) = (s ≡ submitting) × HasSigned signed
  Allows s (poll hash attempts) = (s ≡ pending hash) × (attempts ≡ poll_attempts)

  abbrev pub after : TransactionState → Act Signed → TransactionState
  after s (set_state t) = t
  after s _ = s

  -- A sequence of acts follows the diagram, and ends in a state that is not busy.
  abbrev pub IsPath : TransactionState → List (Act Signed) → Type 0
  IsPath s [] = is_transaction_busy s ≡ false
  IsPath s (act ∷ rest) = Allows s act × IsPath (after s act) rest

  -- The same of a run, with what holds when it is done; it throws only in a busy state.
  abbrev pub Follows :
      {A : Type 0}
      → (TransactionState → A → Type 0)
      → TransactionState
      → Run (Act Signed) A
      → Type 0
  Follows P s (step act r) = Allows s act × Follows P (after s act) r
  Follows P s (done a) = P s a
  Follows P s (threw e) = is_transaction_busy s ≡ true

  module _ {A : Type 0} (P : TransactionState → A → Type 0) where
    pub Follows->>= :
        {B : Type 0} (Q : TransactionState → B → Type 0) (s : TransactionState)
        (m : Run (Act Signed) A) (f : A → Run (Act Signed) B)
        → Follows P s m
        → ((t : TransactionState) (a : A) → P t a → Follows Q t (f a))
        → Follows Q s (m >>= f)
    Follows->>= Q s (step act m) f h k = (h.0, Follows->>= Q (after s act) m f h.1 k)
    Follows->>= Q s (done a) f h k = k s a h
    Follows->>= Q s (threw e) f h k = h

  state_of_error-settled : (e : Thrown) → is_transaction_busy (state_of_error e) ≡ false
  unfolding state_of_error is_transaction_busy
  state_of_error-settled e = ground arith

  state_of_error-IsAbandoned : (e : Thrown) → IsAbandoned e (state_of_error e)
  unfolding state_of_error
  state_of_error-IsAbandoned e = elim (Bool-cases (is_user_rejection e)) [
    | inl rejection ↦ rw rejection (inl (refl, (declined_message, refl)))
    | inr failure ↦ rw failure (inr (refl, (message_of e, refl)))
  ]

  -- The catch block takes a throw to a state that is not busy.
  pub IsPath-catch :
      (s : TransactionState) (m : Run (Act Signed) (Option SubmittedTransaction))
      → Follows (λ t a. is_transaction_busy t ≡ false) s m
      → IsPath s (acts (catch m (caught platform)))
  unfolding caught
  IsPath-catch s (step act m) h = (h.0, IsPath-catch (after s act) m h.1)
  IsPath-catch s (done a) h = h
  IsPath-catch s (threw e) h =
      (abandon e h (state_of_error-IsAbandoned e), state_of_error-settled e)

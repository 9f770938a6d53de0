-- ===== src/Web/Runs.antt =====
-- What an asynchronous function of apps/web does: the acts that others see, in order, and how it
-- ends. An act is a call of the wallet or the network, or a state that is set.
use slasettle_hub.Prelude.{String, List, [], ◌∷◌, ◌++◌, Option, none, some, ◌≡◌, ap}
use slasettle_hub.Js.{ℤ}

-- A thrown value: a WalletError with its message and code, another Error, or anything else.
pub data Thrown : Type 0 where
  wallet_error : String → Option ℤ → Thrown
  other_error : String → Thrown
  not_an_error : Thrown

pub data Run {ℓ κ} (Act : Type ℓ) (A : Type κ) : Type (ℓ ⊔ κ) where
  step : Act → Run Act A → Run Act A
  done : A → Run Act A
  threw : Thrown → Run Act A

module _ {ℓ} {Act : Type ℓ} where
  infixl 5 ◌>>=◌
  abbrev pub ◌>>=◌ {κ μ} : {A : Type κ} {B : Type μ} → Run Act A → (A → Run Act B) → Run Act B
  step act r >>= next = step act (r >>= next)
  done a >>= next = next a
  threw e >>= next = threw e

  -- `try r catch (e) { handler }`
  abbrev pub catch {κ} : {A : Type κ} → Run Act A → (Thrown → Run Act A) → Run Act A
  catch (step act r) handler = step act (catch r handler)
  catch (done a) handler = done a
  catch (threw e) handler = handler e

  abbrev pub acts {κ} : {A : Type κ} → Run Act A → List Act
  acts (step act r) = act ∷ acts r
  acts (done a) = []
  acts (threw e) = []

-- How a run ends that throws nothing.
abbrev pub answer {ℓ κ} : {Act : Type ℓ} {A : Type κ} → Run Act A → Option A
answer (step act r) = answer r
answer (done a) = some a
answer (threw e) = none

-- Under a catch block, what follows a run that throws nothing does its acts after the run's.
pub acts-catch->>= {ℓ κ μ} :
    {Act : Type ℓ} {A : Type κ} {B : Type μ} (m : Run Act A) (next : A → Run Act B)
    (handler : Thrown → Run Act B) (a : A)
    → answer m ≡ some a
    → acts (catch (m >>= next) handler) ≡ acts m ++ acts (catch (next a) handler)
acts-catch->>= (step act m) next handler a h = ap (◌∷◌ act) (acts-catch->>= m next handler a h)
acts-catch->>= (done b) next handler a h = cc
acts-catch->>= (threw e) next handler a h = cc

-- The answer of a call that the source does not implement.
pub data Call {ℓ} (A : Type ℓ) : Type ℓ where
  answered : A → Call A
  failed_with : Thrown → Call A

abbrev pub await {ℓ κ} : {Act : Type ℓ} {A : Type κ} → Call A → Run Act A
await (answered a) = done a
await (failed_with e) = threw e

-- ===== src/Prelude/Results.antt =====
-- A computation that may throw: the value, or the error that is thrown.
use mathlib.Core.Path.{◌≡◌, refl}
use mathlib.Core.Logic.{◌⊎◌, inl, inr}
use Prim.Native.String.{String}

-- The errors that the source distinguishes by their class; the text is the message's subject.
pub data Error : Type 0 where
  type_error : String → Error
  plain_error : String → Error
  network_error : Error
  -- InvalidSdkInputError, with its field
  invalid_input : String → Error

pub data Result {ℓ} (Answer : Type ℓ) : Type ℓ where
  err : Error → Result Answer
  ok : Answer → Result Answer

-- What follows runs on the value; a throw skips it.
infixl 5 ◌>>=◌
abbrev pub ◌>>=◌ {ℓ κ} :
    {Answer : Type ℓ} {Next : Type κ} → Result Answer → (Answer → Result Next) → Result Next
err thrown >>= next = err thrown
ok answer >>= next = next answer

module _ {ℓ} {Answer : Type ℓ} where
  -- A result is a value or a throw.
  pub Result-cases :
      (r : Result Answer)
      → ((answer : Answer) × (r ≡ ok answer)) ⊎ ((thrown : Error) × (r ≡ err thrown))
  Result-cases (err thrown) = inr (thrown, refl)
  Result-cases (ok answer) = inl (answer, refl)

  -- A chain that gives a value ran its first part to a value.
  pub >>=-eq-ok {κ} :
      {Next : Type κ} (r : Result Answer) (next : Answer → Result Next) {last : Next}
      → (r >>= next) ≡ ok last
      → (answer : Answer) × (r ≡ ok answer) × (next answer ≡ ok last)
  >>=-eq-ok (err thrown) next h = cc
  >>=-eq-ok (ok answer) next h = (answer, refl, h)

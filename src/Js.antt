-- ===== src/Js.antt =====
-- The JavaScript values that the hub decodes from contract events and from JSON bodies, and the
-- built-ins that turn them into texts and numbers. A runtime is a parameter of the model: what
-- `String(x)`, `Number(x)` and the Stellar SDK's `scValToNative` give is not computed here.
use slasettle_hub.Prelude.{
  ℕ, String, ◌≡◌, Bool, true, false, ◌==◌, List, Result, ok, err, type_error, if◌then◌else◌,
}

-- Integers; `negsuc n` is -(n + 1).
pub data ℤ : Type 0 where
  pos : ℕ → ℤ
  negsuc : ℕ → ℤ

-- A JavaScript number: an integer, a non-integer (its floor is kept, with its sign), an infinity or
-- NaN.
pub data Number : Type 0 where
  nan infinity minus_infinity : Number
  int : ℤ → Number
  fractional : ℤ → Number

mutual
  pub data Value : Type 0 where
    undefined null : Value
    bool : Bool → Value
    num : Number → Value
    bigint : ℤ → Value
    str : String → Value
    bytes : List ℕ → Value
    arr : Values → Value
    obj : Fields → Value

  pub data Values : Type 0 where
    nil : Values
    cons : Value → Values → Values

  pub data Fields : Type 0 where
    end : Fields
    field : String → Value → Fields → Fields

-- What the JavaScript runtime and the Stellar SDK compute for the indexer.
pub record Runtime : Type 1 where
  -- String(x)
  pub text_of : Value → String
  -- Number(x)
  pub number_of : Value → Number
  -- An XDR value of an event, and `scValToNative`.
  pub ScVal : Type 0
  pub sc_val_to_native : ScVal → Value
  pub text_of_str : (s : String) → text_of (str s) ≡ s
  -- An integer prints alike whether it is a number or a bigint.
  pub text_of_bigint : (n : ℤ) → text_of (bigint n) ≡ text_of (num (int n))

-- The own property `k` of an object, `undefined` when it is missing.
unfoldable pub lookup_field : String → Fields → Value
lookup_field k end = undefined
lookup_field k (field j v fs) = if j == k then v else lookup_field k fs

-- `k in o`, for an object without a prototype of its own.
unfoldable pub has_field : String → Fields → Bool
has_field k end = false
has_field k (field j v fs) = if j == k then true else has_field k fs

-- `v.k`: reading a property of `undefined` or `null` throws, a primitive has no such property.
unfoldable pub property : String → Value → Result Value
unfolding lookup_field
property k undefined = err (type_error k)
property k null = err (type_error k)
property k (obj fs) = ok (lookup_field k fs)
property k (bool b) = ok undefined
property k (num n) = ok undefined
property k (bigint n) = ok undefined
property k (str s) = ok undefined
property k (bytes b) = ok undefined
property k (arr vs) = ok undefined

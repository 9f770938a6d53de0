-- ===== src/Sdk/Validate.antt =====
-- packages/sdk/src/validate.ts. An assertion that holds gives nothing; one that does not throws with
-- the field's name. Which texts are addresses is the Stellar SDK's `StrKey`.
use slasettle_hub.Prelude.{
  ℕ, ◌≤◌, String, Bool, ◌||◌, ◌≡◌, Result, ok, err, invalid_input, if◌then◌else◌, ltb, nat_eq,
  arith,
}
use slasettle_hub.Js.{ℤ, pos, negsuc, Number, int}

pub record StrKey : Type 0 where
  pub is_valid_ed25519_public_key : String → Bool
  pub is_valid_contract : String → Bool

abbrev pub max_i128 : ℕ
max_i128 = 170141183460469231731687303715884105727

abbrev pub max_u64 : ℕ
max_u64 = 18446744073709551615

abbrev pub max_u32 : ℕ
max_u32 = 4294967295

abbrev pub max_bps : ℕ
max_bps = 10000

unfoldable pub assert_address : StrKey → String → String → Result (Unit {0})
assert_address keys value name =
    if keys.is_valid_ed25519_public_key value || keys.is_valid_contract value
    then ok tt
    else err (invalid_input name)

unfoldable pub assert_contract_id : StrKey → String → String → Result (Unit {0})
assert_contract_id keys value name =
    if keys.is_valid_contract value then ok tt else err (invalid_input name)

unfoldable pub assert_positive_amount : ℤ → String → Result (Unit {0})
assert_positive_amount (pos n) name =
    if nat_eq n 0
    then err (invalid_input name)
    else if ltb max_i128 n
    then err (invalid_input name)
    else ok tt
assert_positive_amount (negsuc n) name = err (invalid_input name)

unfoldable pub assert_u64 : ℤ → String → Result (Unit {0})
assert_u64 (pos n) name = if ltb max_u64 n then err (invalid_input name) else ok tt
assert_u64 (negsuc n) name = err (invalid_input name)

-- `min` and `max` are natural numbers, as at every call.
unfoldable pub assert_u32 : Number → String → ℕ → ℕ → Result (Unit {0})
assert_u32 (int (pos n)) name min max =
    if ltb n min || ltb max n then err (invalid_input name) else ok tt
assert_u32 _ name min max = err (invalid_input name)

-- A whole number in a range.
abbrev pub IsBetween : ℕ → ℕ → ℤ → Type 0
IsBetween low high z = (n : ℕ) × (z ≡ pos n) × (low ≤ n) × (n ≤ high)

pub assert_positive_amount-IsBetween :
    (z : ℤ) (name : String) → assert_positive_amount z name ≡ ok tt → IsBetween 1 max_i128 z
unfolding assert_positive_amount
assert_positive_amount-IsBetween (pos n) name h = (n, ground arith, ground arith, ground arith)
assert_positive_amount-IsBetween (negsuc n) name h = cc

pub assert_u32-IsBetween :
    (v : Number) (name : String) (min max : ℕ)
    → assert_u32 v name min max ≡ ok tt
    → (z : ℤ) × (v ≡ int z) × IsBetween min max z
unfolding assert_u32
assert_u32-IsBetween (int (pos n)) name min max h =
    (pos n, ground arith, (n, ground arith, ground arith, ground arith))
assert_u32-IsBetween _ name min max h = cc

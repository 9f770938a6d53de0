-- ===== src/Indexer/Api.antt =====
-- The HTTP API of the indexer: indexer/src/api and indexer/src/worker/routes.ts. JSON, base64url and
-- dates are the runtime's, and parameters of the model.
pub mod Pagination
pub mod Ledger
pub mod Limits
pub mod Thresholds
pub mod Responses
pub mod Node
pub mod Worker
pub mod Agreement
pub mod Methods
pub mod Watchers
pub mod Examples
use slasettle_hub.Prelude.{ℕ, String, ◌≡◌, Result, ok, false}
use slasettle_hub.Js.{
  Value, Values, Fields, undefined, null, bool, num, bigint, str, bytes, arr, obj, nil, cons, end,
  field, lookup_field, has_field,
}

-- `v?.k`
unfoldable pub optional_field : String → Value → Value
unfolding lookup_field
optional_field k (obj fs) = lookup_field k fs
optional_field k _ = undefined

unfoldable mutual
  -- The values that JSON text holds, numbers left out.
  pub IsJson : Value → Type 0
  IsJson undefined = ⊥
  IsJson null = Unit
  IsJson (bool b) = Unit
  IsJson (num n) = ⊥
  IsJson (bigint n) = ⊥
  IsJson (str s) = Unit
  IsJson (bytes b) = ⊥
  IsJson (arr vs) = AreJson vs
  IsJson (obj fs) = AreJsonFields fs

  pub AreJson : Values → Type 0
  AreJson nil = Unit
  AreJson (cons v vs) = IsJson v × AreJson vs

  pub AreJsonFields : Fields → Type 0
  AreJsonFields end = Unit
  AreJsonFields (field k v fs) = (has_field k fs ≡ false) × IsJson v × AreJsonFields fs

-- `JSON.stringify` and `JSON.parse`, base64url over UTF-8, and `Date.toISOString`. JSON texts and
-- cursors are opaque.
pub record Codec : Type 1 where
  pub Json : Type 0
  pub Encoded : Type 0
  pub stringify : Value → Json
  pub parse : Json → Result Value
  pub to_base64url : Json → Encoded
  -- Decoding does not throw: characters outside the alphabet are passed over.
  pub of_base64url : Encoded → Json
  pub iso_string : ℕ → String
  pub parse_stringify : (v : Value) → IsJson v → parse (stringify v) ≡ ok v
  pub of_to_base64url : (text : Json) → of_base64url (to_base64url text) ≡ text

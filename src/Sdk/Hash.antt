-- ===== src/Sdk/Hash.antt =====
-- packages/sdk/src/hash.ts: the endpoint commitment. SHA-256, UTF-8 and the URL parser are the
-- runtime's.
use Prim.Native.Char.{Char, code}
use Prim.Native.String.{[], ◌∷◌, ◌++◌ as text_append}
use slasettle_hub.Prelude.{
  ℕ, String, List, Bool, true, false, not, ◌&&◌, ◌||◌, Option, none, some, ◌≡◌, refl, ap, ◌∙◌, ◌==◌,
  Result, ok, err, ◌>>=◌, invalid_input, if◌then◌else◌, nat_eq, leb, arith, Bool-cases, inl, inr,
}

pub record Platform : Type 0 where
  -- The host of `new URL(text)`, none if it throws.
  pub url_host : String → Option String
  -- SHA-256 of the UTF-8 bytes of a text.
  pub sha256_utf8 : String → List ℕ

-- ENDPOINT_HASH_DOMAIN_PREFIX
abbrev pub endpoint_hash_domain_prefix : String
endpoint_hash_domain_prefix = "slasettle:endpoint:v1:"

-- Space, or tab, LF, VT, FF, CR
unfoldable pub is_ascii_whitespace : Char → Bool
is_ascii_whitespace c = nat_eq (code c) 32 || leb 9 (code c) && leb (code c) 13

unfoldable pub trim_start : String → String
trim_start [] = []
trim_start (c ∷ s) = let rest = trim_start s in if is_ascii_whitespace c then rest else c ∷ s

unfoldable pub trim_end : String → String
trim_end [] = []
trim_end (c ∷ s) =
    let rest = trim_end s in if is_ascii_whitespace c && rest == "" then "" else c ∷ rest

unfoldable pub trim_endpoint_input : String → String
unfolding trim_start trim_end is_ascii_whitespace
trim_endpoint_input endpoint = trim_end (trim_start endpoint)

-- `text.startsWith(prefix)`
unfoldable pub starts_with : String → String → Bool
starts_with text [] = true
starts_with [] (d ∷ prefix) = false
starts_with (c ∷ text) (d ∷ prefix) = nat_eq (code c) (code d) && starts_with text prefix

module _ (platform : Platform) where
  unfoldable pub check_host : String → Option String → Result (Unit {0})
  check_host name none = err (invalid_input name)
  check_host name (some host) = if host == "" then err (invalid_input name) else ok tt

  unfoldable pub validate_endpoint_url : String → String → Result (Unit {0})
  unfolding starts_with check_host
  validate_endpoint_url endpoint name =
      if endpoint == ""
      then err (invalid_input name)
      else if not (starts_with endpoint "http://") && not (starts_with endpoint "https://")
      then err (invalid_input name)
      else check_host name (platform.url_host endpoint)

  unfoldable pub compute_endpoint_hash : String → String → Result (List ℕ)
  unfolding trim_endpoint_input validate_endpoint_url
  compute_endpoint_hash endpoint name = do
    let trimmed = trim_endpoint_input endpoint
    checked ← validate_endpoint_url trimmed name
    ok (platform.sha256_utf8 (text_append endpoint_hash_domain_prefix trimmed))

trim_end_idempotent : (s : String) → trim_end (trim_end s) ≡ trim_end s
unfolding trim_end
trim_end_idempotent [] = refl
trim_end_idempotent (c ∷ s) = elim (Bool-cases (is_ascii_whitespace c && trim_end s == "")) [
  | inl blank ↦ rw blank refl
  | inr kept ↦ rw kept (rw (trim_end_idempotent s) (rw kept refl))
]

trim_end_of_trimmed : (s : String) → trim_start (trim_end (trim_start s)) ≡ trim_end (trim_start s)
unfolding trim_start trim_end
trim_end_of_trimmed [] = refl
trim_end_of_trimmed (c ∷ s) = ground (arith, trim_end_of_trimmed s)

trim_endpoint_input_idempotent :
    (s : String) → trim_endpoint_input (trim_endpoint_input s) ≡ trim_endpoint_input s
unfolding trim_endpoint_input
trim_endpoint_input_idempotent s =
    ap trim_end (trim_end_of_trimmed s) ∙ trim_end_idempotent (trim_start s)

-- An endpoint and the same endpoint trimmed have the same commitment, or are refused alike.
pub compute_endpoint_hash-trim_endpoint_input :
    (platform : Platform) (endpoint name : String)
    → compute_endpoint_hash platform (trim_endpoint_input endpoint) name
      ≡ compute_endpoint_hash platform endpoint name
unfolding compute_endpoint_hash
compute_endpoint_hash-trim_endpoint_input platform endpoint name =
    rw (trim_endpoint_input_idempotent endpoint) refl

-- ===== src/Web/Client/Accepted.antt =====
-- apps/web/lib/indexer.ts: the check of each field at a value that it accepts.
use slasettle_hub.Prelude.{ℕ, ◌≤◌, String, true, false, ◌||◌, some, ◌==◌, ◌≡◌, refl, arith}
use slasettle_hub.Js.{pos, int, num, str, Fields, lookup_field}
use slasettle_hub.Web.Texts.{is_hash}
use slasettle_hub.Web.Reads.{got}
use slasettle_hub.Web.Client.{
  Browser, text_value, text_field, int_value, non_negative_int, amount, amount_value, timestamp,
  stellar_address, tx_hash, checked_url, https_url, largest_safe_integer, is_decimal, digits_value,
}

-- Each check of a field at a value that it accepts.
module _ (fields : Fields) (key endpoint : String) where
  pub non_negative_int-got :
      (n : ℕ)
      → lookup_field key fields ≡ num (int (pos n))
      → n ≤ largest_safe_integer
      → non_negative_int fields key endpoint ≡ got n
  unfolding non_negative_int int_value
  non_negative_int-got n e h = rw e (ground arith)

  pub amount-got :
      (v : String)
      → lookup_field key fields ≡ str v
      → is_decimal v ≡ true
      → amount fields key endpoint ≡ got (digits_value 0 v)
  unfolding amount amount_value
  amount-got v e digits = rw e (rw digits refl)

  module _ (browser : Browser) (v : String) (e : lookup_field key fields ≡ str v)
      (is_set : (v == "") ≡ false) where
    pub timestamp-got : browser.parses_date v ≡ true → timestamp browser fields key endpoint ≡ got v
    unfolding timestamp text_field text_value
    timestamp-got valid = rw e (rw is_set (rw valid refl))

    pub stellar_address-got :
        (browser.keys.is_valid_ed25519_public_key v || browser.keys.is_valid_contract v) ≡ true
        → stellar_address browser fields key endpoint ≡ got v
    unfolding stellar_address text_field text_value
    stellar_address-got valid = rw e (rw is_set (rw valid refl))

    pub tx_hash-got :
        is_hash v ≡ true → tx_hash browser fields key endpoint ≡ got (browser.to_lower_case v)
    unfolding tx_hash text_field text_value
    tx_hash-got valid = rw e (rw is_set (rw valid refl))

    pub https_url-got :
        {url : String}
        → browser.parse_url v ≡ some ("https:", url)
        → https_url browser fields key endpoint ≡ got url
    unfolding https_url checked_url text_field text_value
    https_url-got valid = rw e (rw is_set (rw valid refl))

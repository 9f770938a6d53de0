-- ===== src/Web/FormatExamples.antt =====
-- apps/web/lib/format.ts: concrete amounts.
use slasettle_hub.Prelude.{[], ◌∷◌, ◌≡◌, refl}
use slasettle_hub.Js.{pos, negsuc}
use slasettle_hub.Web.Format.{
  format_token_amount, format_abs, power_of_ten, print, group, pad_start, strip_zeros,
  fraction_part, digits_before, lt_wf, acc_below, zeros, is_empty, parse_token_amount, amount,
}
use slasettle_hub.Web.Format.RoundTrip.{without_commas, parse_token_amount-format_token_amount}

-- 12,345.07
grouped : format_token_amount (pos 1234507) 2 ≡ 49 ∷ 50 ∷ 44 ∷ 51 ∷ 52 ∷ 53 ∷ 46 ∷ 48 ∷ 55 ∷ []
unfolding format_token_amount format_abs power_of_ten print group pad_start strip_zeros
    fraction_part digits_before lt_wf acc_below zeros is_empty
grouped = refl

-- -0.5
below_zero : format_token_amount (negsuc 4) 1 ≡ 45 ∷ 48 ∷ 46 ∷ 53 ∷ []
unfolding format_token_amount format_abs power_of_ten print group pad_start strip_zeros
    fraction_part digits_before lt_wf acc_below zeros is_empty
below_zero = refl

parse_token_amount-format_token_amount_example :
    parse_token_amount (without_commas (format_token_amount (pos 1234507) 2)) 2 ≡ amount 1234507
parse_token_amount-format_token_amount_example =
    parse_token_amount-format_token_amount (pos 1234507) 2

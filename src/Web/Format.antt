-- ===== src/Web/Format.antt =====
-- apps/web/lib/format.ts: token amounts as texts. A text is the list of its code units, and 44, 45, 46
-- and 48 are the codes of `,`, `-`, `.` and `0`.
pub mod Digits
pub mod RoundTrip
use mathlib.Core.WellFounded.{Acc, WellFounded}
use mathlib.Core.Logic.{dite}
use native.Mathlib.Decide.{dec_lt}
use slasettle_hub.Prelude.{
  ℕ, zero, suc, ◌+◌, ◌-◌, ◌*◌, ◌/◌, ◌%◌, ◌<◌, List, [], ◌∷◌, ◌++◌, Bool, true, false, not, ◌&&◌,
  ◌||◌, length, nat_eq, ltb, leb, if◌then◌else◌, arith,
}
use slasettle_hub.Js.{ℤ, pos, negsuc}
use slasettle_hub.Web.Texts.{is_digit}

-- 10n ** BigInt(decimals)
unfoldable pub power_of_ten : ℕ → ℕ
power_of_ten zero = 1
power_of_ten (suc d) = 10 * power_of_ten d

unfoldable pub acc_below : (k n : ℕ) → n < k → Acc ◌<◌ n
acc_below zero n h = absurd (omega arith)
acc_below (suc k) n h = Acc.intro n (λ m lt. acc_below k m (omega arith))

unfoldable pub lt_wf : WellFounded ◌<◌
unfolding acc_below
lt_wf = record { apply = λ n. acc_below (suc n) n (omega arith) }

pub tenth_lt : (n : ℕ) → 0 < n → n / 10 < n
tenth_lt n h = omega arith

-- The digits of a number in front of a text, none for 0.
unfoldable pub digits_before : (n : ℕ) → Acc ◌<◌ n → List ℕ → List ℕ
digits_before n (Acc.intro _ smaller) text =
    dite (dec_lt 0 n)
      (λ h. digits_before (n / 10) (smaller (n / 10) (tenth_lt n h)) ((48 + n % 10) ∷ text))
      (λ _. text)

-- BigInt.prototype.toString, of a natural number
unfoldable pub print : ℕ → List ℕ
unfolding digits_before lt_wf dec_lt
print n = if nat_eq n 0 then 48 ∷ [] else digits_before n (lt_wf.apply n) []

-- `replace(/\B(?=(\d{3})+(?!\d))/g, ",")` on digits: a comma where a multiple of three is left.
unfoldable pub group : List ℕ → List ℕ
group [] = []
group (c ∷ text) =
    let rest = group text in
    if ltb 0 (length text) && nat_eq (length text % 3) 0 then c ∷ 44 ∷ rest else c ∷ rest

unfoldable pub zeros : ℕ → List ℕ
zeros zero = []
zeros (suc n) = 48 ∷ zeros n

unfoldable pub pad_start : ℕ → List ℕ → List ℕ
unfolding zeros
pad_start width text = zeros (width - length text) ++ text

unfoldable pub pad_end : ℕ → List ℕ → List ℕ
unfolding zeros
pad_end width text = text ++ zeros (width - length text)

-- Whether a text is empty.
unfoldable pub is_empty : List ℕ → Bool
is_empty [] = true
is_empty (c ∷ text) = false

-- `replace(/0+$/, "")`
unfoldable pub strip_zeros : List ℕ → List ℕ
unfolding is_empty
strip_zeros [] = []
strip_zeros (c ∷ text) =
    let rest = strip_zeros text in if nat_eq c 48 && is_empty rest then [] else c ∷ rest

unfoldable pub fraction_part : List ℕ → List ℕ
fraction_part [] = []
fraction_part (c ∷ text) = 46 ∷ c ∷ text

-- The text of an absolute value.
unfoldable pub format_abs : ℕ → ℕ → List ℕ
unfolding power_of_ten print group pad_start strip_zeros fraction_part
format_abs abs decimals =
    let whole = group (print (abs / power_of_ten decimals)) in
    if nat_eq decimals 0
    then whole
    else whole
      ++ fraction_part (strip_zeros (pad_start decimals (print (abs % power_of_ten decimals))))

unfoldable pub format_token_amount : ℤ → ℕ → List ℕ
unfolding format_abs
format_token_amount (pos n) decimals = format_abs n decimals
format_token_amount (negsuc n) decimals = 45 ∷ format_abs (suc n) decimals

-- The white space and line ends of ECMAScript.
unfoldable pub is_space : ℕ → Bool
is_space c =
    leb 9 c && leb c 13
    || nat_eq c 32
    || nat_eq c 160
    || nat_eq c 5760
    || leb 8192 c && leb c 8202
    || nat_eq c 8232
    || nat_eq c 8233
    || nat_eq c 8239
    || nat_eq c 8287
    || nat_eq c 12288
    || nat_eq c 65279

unfoldable pub trim_start : List ℕ → List ℕ
trim_start [] = []
trim_start (c ∷ text) = let rest = trim_start text in if is_space c then rest else c ∷ text

unfoldable pub trim_end : List ℕ → List ℕ
unfolding is_empty
trim_end [] = []
trim_end (c ∷ text) =
    let rest = trim_end text in if is_space c && is_empty rest then [] else c ∷ rest

unfoldable pub trim : List ℕ → List ℕ
unfolding trim_start trim_end
trim text = trim_end (trim_start text)

pub data ParsedAmount : Type 0 where
  amount : ℕ → ParsedAmount
  -- "is not a valid amount", and "has more decimal places than this token supports"
  not_valid too_precise : ParsedAmount

-- The digits that a text begins with, and what follows them.
unfoldable pub leading_digits : List ℕ → List ℕ × List ℕ
unfolding is_digit
leading_digits [] = ([], [])
leading_digits (c ∷ text) =
    let (digits, rest) = leading_digits text in
    if is_digit c then (c ∷ digits, rest) else ([], c ∷ text)

-- `BigInt(digits || "0")`, from the digits read so far
unfoldable pub value_from : ℕ → List ℕ → ℕ
value_from n [] = n
value_from n (c ∷ text) = value_from (n * 10 + (c - 48)) text

unfoldable pub amount_of_parts : List ℕ → List ℕ → ℕ → ParsedAmount
unfolding value_from pad_end power_of_ten
amount_of_parts whole fraction decimals =
    if ltb decimals (length fraction)
    then too_precise
    else amount
        (value_from 0 whole * power_of_ten decimals + value_from 0 (pad_end decimals fraction))

-- What follows the leading digits of a valid amount: nothing, or a point and digits.
unfoldable pub parse_rest : List ℕ → List ℕ → ℕ → ParsedAmount
unfolding amount_of_parts leading_digits is_empty
parse_rest whole [] decimals =
    if is_empty whole then not_valid else amount_of_parts whole [] decimals
parse_rest whole (c ∷ text) decimals =
    let (fraction, rest) = leading_digits text in
    if nat_eq c 46 && is_empty rest && not (is_empty whole && is_empty fraction)
    then amount_of_parts whole fraction decimals
    else not_valid

unfoldable pub parse_trimmed : List ℕ × List ℕ → ℕ → ParsedAmount
unfolding parse_rest
parse_trimmed (whole, rest) decimals = parse_rest whole rest decimals

unfoldable pub parse_token_amount : List ℕ → ℕ → ParsedAmount
unfolding parse_trimmed leading_digits trim
parse_token_amount input decimals = parse_trimmed (leading_digits (trim input)) decimals

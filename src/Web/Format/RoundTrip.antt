-- ===== src/Web/Format/RoundTrip.antt =====
-- apps/web/lib/format.ts: parsing what is printed.
use native.Mathlib.Nat.{mod-lt, div-add-mod'}
use slasettle_hub.Prelude.{
  ℕ, zero, suc, ◌+◌, ◌-◌, ◌*◌, ◌/◌, ◌%◌, ◌<◌, ◌≤◌, List, [], ◌∷◌, ◌++◌, Bool, false, not, ◌&&◌,
  length, All, ◌≡◌, refl, ap, ◌∙◌, nat_eq, ltb, arith, Bool-cases, inl, inr, keep_if, append-nil,
}
use slasettle_hub.Js.{ℤ, pos, negsuc}
use slasettle_hub.Web.Texts.{is_digit}
use slasettle_hub.Web.Format.{
  power_of_ten, print, zeros, group, pad_start, pad_end, is_empty, strip_zeros, fraction_part,
  format_abs, format_token_amount, is_space, trim_start, trim_end, trim, ParsedAmount, amount,
  not_valid, leading_digits, value_from, amount_of_parts, parse_rest, parse_trimmed,
  parse_token_amount,
}
use slasettle_hub.Web.Format.Digits.{
  IsDigit, value_from-print, print-IsDigit, is_empty-print, length-print, zeros-IsDigit,
  value_from-pad_start, length-pad_start, pad_end-strip_zeros, strip_zeros-IsDigit,
  length-strip_zeros,
}

-- A text of digits and points.
abbrev IsPlain : ℕ → Type 0
IsPlain c = 46 ≤ c × c ≤ 57

-- The text without the commas that group its digits.
abbrev pub without_commas : List ℕ → List ℕ
without_commas text = keep_if (λ c. not (nat_eq c 44)) text

keep_if-append :
    (p : ℕ → Bool) (xs ys : List ℕ) → keep_if p (xs ++ ys) ≡ keep_if p xs ++ keep_if p ys
keep_if-append p [] ys = refl
keep_if-append p (x ∷ xs) ys = ground (arith, keep_if-append p xs ys)

without_commas-IsPlain : (text : List ℕ) → All IsPlain text → without_commas text ≡ text
without_commas-IsPlain [] h = refl
without_commas-IsPlain (c ∷ text) h = ground (arith, without_commas-IsPlain text)

without_commas-group : (text : List ℕ) → All IsDigit text → without_commas (group text) ≡ text
unfolding group
without_commas-group [] h = refl
without_commas-group (c ∷ text) h =
    elim (Bool-cases (ltb 0 (length text) && nat_eq (length text % 3) 0)) [
      | inl comma ↦ rw comma (ground (arith, without_commas-group text))
      | inr none_here ↦ rw none_here (ground (arith, without_commas-group text))
    ]

-- A text without white space is not trimmed.
trim_start-IsPlain : (text : List ℕ) → All IsPlain text → trim_start text ≡ text
unfolding trim_start is_space
trim_start-IsPlain [] h = refl
trim_start-IsPlain (c ∷ text) h = ground arith

trim_end-IsPlain : (text : List ℕ) → All IsPlain text → trim_end text ≡ text
unfolding trim_end is_space
trim_end-IsPlain [] h = refl
trim_end-IsPlain (c ∷ text) h = ground (arith, trim_end-IsPlain text)

-- Digits are read up to their end.
leading_digits-IsDigit : (text : List ℕ) → All IsDigit text → leading_digits text ≡ (text, [])
unfolding leading_digits is_digit
leading_digits-IsDigit [] h = refl
leading_digits-IsDigit (c ∷ text) h = rw (leading_digits-IsDigit text h.1) (ground arith)

leading_digits-point :
    (text rest : List ℕ) → All IsDigit text → leading_digits (text ++ 46 ∷ rest) ≡ (text, 46 ∷ rest)
unfolding leading_digits is_digit
leading_digits-point [] rest h = refl
leading_digits-point (c ∷ text) rest h = rw (leading_digits-point text rest h.1) (ground arith)

IsDigit-IsPlain : (text : List ℕ) → All IsDigit text → All IsPlain text
IsDigit-IsPlain [] h = tt
IsDigit-IsPlain (c ∷ text) h = (omega arith, IsDigit-IsPlain text h.1)

All-append : (P : ℕ → Type 0) (xs ys : List ℕ) → All P xs → All P ys → All P (xs ++ ys)
All-append P [] ys h k = k
All-append P (x ∷ xs) ys h k = (h.0, All-append P xs ys h.1 k)

trim-IsPlain : (text : List ℕ) → All IsPlain text → trim text ≡ text
unfolding trim
trim-IsPlain text h = ap trim_end (trim_start-IsPlain text h) ∙ trim_end-IsPlain text h

module _ (whole : List ℕ) (decimals : ℕ) (digits : All IsDigit whole)
    (some_digit : is_empty whole ≡ false) where
  parse_whole : parse_token_amount whole decimals ≡ amount_of_parts whole [] decimals
  unfolding parse_token_amount parse_trimmed parse_rest
  parse_whole =
      rw (trim-IsPlain whole (IsDigit-IsPlain whole digits))
        (rw (leading_digits-IsDigit whole digits) (rw some_digit refl))

  parse_point :
      (fraction : List ℕ)
      → All IsDigit fraction
      → parse_token_amount (whole ++ 46 ∷ fraction) decimals
        ≡ amount_of_parts whole fraction decimals
  unfolding parse_token_amount parse_trimmed parse_rest is_empty
  parse_point fraction fraction_digits =
      let plain : All IsPlain (whole ++ 46 ∷ fraction) =
        All-append IsPlain whole (46 ∷ fraction) (IsDigit-IsPlain whole digits)
          (omega arith, IsDigit-IsPlain fraction fraction_digits) in
      rw (trim-IsPlain (whole ++ 46 ∷ fraction) plain) (
        rw (leading_digits-point whole fraction digits)
          (rw (leading_digits-IsDigit fraction fraction_digits) (rw some_digit refl)))

  -- The point and the fraction stand only where the fraction has a digit.
  parse_parts :
      (fraction : List ℕ)
      → All IsDigit fraction
      → parse_token_amount (whole ++ fraction_part fraction) decimals
        ≡ amount_of_parts whole fraction decimals
  unfolding fraction_part
  parse_parts [] h = ap (λ text. parse_token_amount text decimals) (append-nil whole) ∙ parse_whole
  parse_parts (c ∷ fraction) h = parse_point (c ∷ fraction) h

power_of_ten_positive : (d : ℕ) → 0 < power_of_ten d
unfolding power_of_ten
power_of_ten_positive zero = omega arith
power_of_ten_positive (suc d) = omega (arith, power_of_ten_positive d)

cong_sum : {a b c d : ℕ} (p : ℕ) → a ≡ b → c ≡ d → a * p + c ≡ b * p + d
cong_sum p h k = cc

-- The parts of a number have its value.
amount_of_parts-print :
    (n d : ℕ)
    → 0 < d
    → amount_of_parts
        (print (n / power_of_ten d))
        (strip_zeros (pad_start d (print (n % power_of_ten d))))
        d
      ≡ amount n
unfolding amount_of_parts
amount_of_parts-print n d positive =
    let p = power_of_ten d in
    let f = pad_start d (print (n % p)) in
    let full : length f ≡ d =
      length-pad_start d (print (n % p))
        (length-print (n % p) d (mod-lt n (power_of_ten_positive d)) positive) in
    let fits : ltb d (length (strip_zeros f)) ≡ false = ground (arith, length-strip_zeros f) in
    let padded : value_from 0 (pad_end d (strip_zeros f)) ≡ n % p =
      ap (value_from 0) (pad_end-strip_zeros d f full)
      ∙ value_from-pad_start d (print (n % p))
      ∙ value_from-print (n % p) in
    rw fits (ap amount (cong_sum p (value_from-print (n / p)) padded ∙ div-add-mod' n p))

fraction_part-IsPlain : (text : List ℕ) → All IsDigit text → All IsPlain (fraction_part text)
unfolding fraction_part
fraction_part-IsPlain [] h = tt
fraction_part-IsPlain (c ∷ text) h = (omega arith, IsDigit-IsPlain (c ∷ text) h)

pad_start-IsDigit : (d : ℕ) (text : List ℕ) → All IsDigit text → All IsDigit (pad_start d text)
unfolding pad_start
pad_start-IsDigit d text h =
    All-append IsDigit (zeros (d - length text)) text (zeros-IsDigit (d - length text)) h

no_decimals : (n : ℕ) → amount_of_parts (print (n / power_of_ten 0)) [] 0 ≡ amount n
unfolding amount_of_parts
no_decimals n = let value = value_from-print (n / 1) in ap amount (omega arith)

-- What is printed, without its commas.
without_commas-parts :
    (whole fraction : List ℕ)
    → All IsDigit whole
    → All IsDigit fraction
    → without_commas (group whole ++ fraction_part fraction) ≡ whole ++ fraction_part fraction
without_commas-parts whole fraction h k =
    keep_if-append (λ c. not (nat_eq c 44)) (group whole) (fraction_part fraction)
    ∙ rw (without_commas-group whole h) (
        ap (λ text. whole ++ text)
          (without_commas-IsPlain (fraction_part fraction) (fraction_part-IsPlain fraction k)))

-- What is printed of a natural number.
parse_printed :
    (n decimals : ℕ)
    → parse_token_amount (without_commas (format_token_amount (pos n) decimals)) decimals ≡ amount n
unfolding format_token_amount format_abs
parse_printed n zero =
    let whole = print (n / power_of_ten 0) in
    ap (λ text. parse_token_amount text 0)
      (without_commas-group whole (print-IsDigit (n / power_of_ten 0)))
    ∙ parse_whole whole 0 (print-IsDigit (n / power_of_ten 0)) (is_empty-print (n / power_of_ten 0))
    ∙ no_decimals n
parse_printed n (suc d) =
    let p = power_of_ten (suc d) in
    let whole = print (n / p) in
    let fraction = strip_zeros (pad_start (suc d) (print (n % p))) in
    let digits : All IsDigit fraction =
      strip_zeros-IsDigit (pad_start (suc d) (print (n % p)))
        (pad_start-IsDigit (suc d) (print (n % p)) (print-IsDigit (n % p))) in
    let decimal : nat_eq (suc d) 0 ≡ false = ground arith in
    rw decimal (
      ap (λ text. parse_token_amount text (suc d))
        (without_commas-parts whole fraction (print-IsDigit (n / p)) digits)
      ∙ parse_parts whole (suc d) (print-IsDigit (n / p)) (is_empty-print (n / p)) fraction digits
      ∙ amount_of_parts-print n (suc d) (omega arith))

-- A text that begins with a minus sign is no amount.
parse_minus : (text : List ℕ) (decimals : ℕ) → parse_token_amount (45 ∷ text) decimals ≡ not_valid
unfolding parse_token_amount parse_trimmed parse_rest leading_digits trim trim_start trim_end
    is_space is_digit is_empty
parse_minus text decimals = refl

-- What becomes of a printed amount.
abbrev pub read_back : ℤ → ParsedAmount
read_back (pos n) = amount n
read_back (negsuc n) = not_valid

-- With any number of decimals, and once the commas that group its digits are taken out, a printed
-- amount that is not negative is parsed as itself, and a negative one, which is printed with a minus
-- sign, is refused as no valid amount.
pub parse_token_amount-format_token_amount :
    (z : ℤ) (decimals : ℕ)
    → parse_token_amount (without_commas (format_token_amount z decimals)) decimals ≡ read_back z
unfolding format_token_amount
parse_token_amount-format_token_amount (pos n) decimals = parse_printed n decimals
parse_token_amount-format_token_amount (negsuc n) decimals =
    parse_minus (without_commas (format_abs (suc n) decimals)) decimals

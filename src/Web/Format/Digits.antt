-- ===== src/Web/Format/Digits.antt =====
-- apps/web/lib/format.ts: the digits of a number, and the number of a text of digits.
use mathlib.Core.Path.{subst}
use mathlib.Core.WellFounded.{Acc}
use mathlib.Core.Logic.{dite}
use native.Mathlib.Decide.{dec_lt}
use slasettle_hub.Prelude.{
  ℕ, zero, suc, ◌+◌, ◌-◌, ◌*◌, ◌/◌, ◌%◌, ◌<◌, ◌≤◌, List, [], ◌∷◌, ◌++◌, true, false, length, All,
  ◌≡◌, refl, ap, ◌∙◌, sym, ◌⊎◌, ◌&&◌, nat_eq, arith, Bool-cases, inl, inr, length-append,
}
use slasettle_hub.Web.Format.{
  power_of_ten, tenth_lt, digits_before, lt_wf, print, zeros, pad_start, pad_end, is_empty,
  strip_zeros, value_from,
}

abbrev pub IsDigit : ℕ → Type 0
IsDigit c = (48 ≤ c) × (c ≤ 57)

-- The loop makes a round exactly while the number is positive; a property of its result that every
-- round keeps holds at the end.
module _ {κ} (P : ℕ → List ℕ → Type κ) (Q : List ℕ → Type κ)
    (finish : (text : List ℕ) → P 0 text → Q text)
    (round : (n : ℕ) (text : List ℕ) → 0 < n → P n text → P (n / 10) ((48 + n % 10) ∷ text)) where
  pub digits_before_ind :
      (n : ℕ) (w : Acc ◌<◌ n) (text : List ℕ) → P n text → Q (digits_before n w text)
  unfolding digits_before
  digits_before_ind n (Acc.intro _ smaller) text h =
      elim (dec_lt 0 n)
        as (λ d. Q (
          dite d
            (λ p. digits_before (n / 10) (smaller (n / 10) (tenth_lt n p)) ((48 + n % 10) ∷ text))
            (λ _. text))) [
              | yes p ↦
                  digits_before_ind (n / 10) (smaller (n / 10) (tenth_lt n p))
                    ((48 + n % 10) ∷ text) (round n text p h)
              | no p ↦ finish text (subst (λ m. P m text) (omega arith) h)
            ]

pub value_from-print : (n : ℕ) → value_from 0 (print n) ≡ n
unfolding print value_from lt_wf dec_lt
value_from-print n = elim (Bool-cases (nat_eq n 0)) [
  | inl none_left ↦ rw none_left (ground arith)
  | inr some_left ↦ rw some_left (
      digits_before_ind (λ m text. value_from m text ≡ n) (λ out. value_from 0 out ≡ n)
        (λ text h. h)
        (λ m text p h. let e : m / 10 * 10 + (48 + m % 10 - 48) ≡ m = omega arith in rw e h) n
        (lt_wf.apply n) [] refl)
]

pub print-IsDigit : (n : ℕ) → All IsDigit (print n)
unfolding print
print-IsDigit n = elim (Bool-cases (nat_eq n 0)) [
  | inl none_left ↦ rw none_left (omega arith)
  | inr some_left ↦ rw some_left (
      digits_before_ind (λ m text. All IsDigit text) (λ out. All IsDigit out) (λ text h. h)
        (λ m text p h. (omega arith, h)) n (lt_wf.apply n) [] tt)
]

pub is_empty-print : (n : ℕ) → is_empty (print n) ≡ false
unfolding print is_empty
is_empty-print n = elim (Bool-cases (nat_eq n 0)) [
  | inl none_left ↦ rw none_left refl
  | inr some_left ↦ rw some_left (
      digits_before_ind (λ m text. (0 < m) ⊎ (is_empty text ≡ false)) (λ out. is_empty out ≡ false)
        (λ text h. elim h [ inl p ↦ absurd (omega arith) | inr e ↦ e ]) (λ m text p h. inr refl) n
        (lt_wf.apply n) [] (inl (ground arith)))
]

one_digit_less :
    (d m : ℕ) (text : List ℕ) (k : ℕ)
    → 0 < m
    → m < power_of_ten k
    → length text + k ≤ d
    → (j : ℕ) × (m / 10 < power_of_ten j) × (length ((48 + m % 10) ∷ text) + j ≤ d)
unfolding power_of_ten
one_digit_less d m text zero p q r = absurd (omega arith)
one_digit_less d m text (suc k) p q r = (k, omega arith, omega arith)

pub length-print : (n d : ℕ) → n < power_of_ten d → 0 < d → length (print n) ≤ d
unfolding print
length-print n d small positive = elim (Bool-cases (nat_eq n 0)) [
  | inl none_left ↦ rw none_left (omega arith)
  | inr some_left ↦ rw some_left (
      digits_before_ind (λ m text. (k : ℕ) × (m < power_of_ten k) × (length text + k ≤ d))
        (λ out. length out ≤ d) (λ text h. let (k, p, q) = h in omega arith)
        (λ m text p h. let (k, q, r) = h in one_digit_less d m text k p q r) n (lt_wf.apply n) []
        (d, small, omega arith))
]

-- Zeros in front of the digits, and behind them.
pub zeros-IsDigit : (k : ℕ) → All IsDigit (zeros k)
unfolding zeros
zeros-IsDigit zero = tt
zeros-IsDigit (suc k) = (omega arith, zeros-IsDigit k)

pub length-zeros : (k : ℕ) → length (zeros k) ≡ k
unfolding zeros
length-zeros zero = refl
length-zeros (suc k) = ap suc (length-zeros k)

value_from-zeros : (k : ℕ) (text : List ℕ) → value_from 0 (zeros k ++ text) ≡ value_from 0 text
unfolding zeros value_from
value_from-zeros zero text = refl
value_from-zeros (suc k) text = value_from-zeros k text

pub value_from-pad_start :
    (width : ℕ) (text : List ℕ) → value_from 0 (pad_start width text) ≡ value_from 0 text
unfolding pad_start
value_from-pad_start width text = value_from-zeros (width - length text) text

pub length-pad_start :
    (width : ℕ) (text : List ℕ) → length text ≤ width → length (pad_start width text) ≡ width
unfolding pad_start
length-pad_start width text h =
    omega
      (arith, length-append (zeros (width - length text)) text, length-zeros (width - length text))

is_empty_nil : (text : List ℕ) → is_empty text ≡ true → text ≡ []
unfolding is_empty
is_empty_nil [] h = refl
is_empty_nil (c ∷ text) h = cc

cons_codes : {c d : ℕ} {s t : List ℕ} → d ≡ c → s ≡ t → c ∷ s ≡ d ∷ t
cons_codes h k = cc

-- The zeros that are stripped are those that padding puts back.
strip_zeros-zeros :
    (text : List ℕ) → strip_zeros text ++ zeros (length text - length (strip_zeros text)) ≡ text
unfolding strip_zeros zeros is_empty
strip_zeros-zeros [] = refl
strip_zeros-zeros (c ∷ text) = elim (Bool-cases (nat_eq c 48 && is_empty (strip_zeros text))) [
  | inl all_zeros ↦
      let nothing : strip_zeros text ≡ [] = is_empty_nil (strip_zeros text) (ground arith) in
      let zero_code : c ≡ 48 = ground arith in
      let before = rw nothing at (strip_zeros-zeros text) in
      let n : suc (length text) - 0 ≡ suc (length text) = omega arith in
      let m : length text - 0 ≡ length text = omega arith in
      rw all_zeros (rw n (cons_codes zero_code (rw m at before)))
  | inr kept ↦
      let n : suc (length text) - suc (length (strip_zeros text))
          ≡ length text - length (strip_zeros text) =
        omega arith in
      rw kept (rw n (cons_codes refl (strip_zeros-zeros text)))
]

pub pad_end-strip_zeros :
    (width : ℕ) (text : List ℕ) → length text ≡ width → pad_end width (strip_zeros text) ≡ text
unfolding pad_end
pad_end-strip_zeros width text h =
    ap (λ n. strip_zeros text ++ zeros (n - length (strip_zeros text))) (sym h)
    ∙ strip_zeros-zeros text

pub strip_zeros-IsDigit : (text : List ℕ) → All IsDigit text → All IsDigit (strip_zeros text)
unfolding strip_zeros is_empty
strip_zeros-IsDigit [] h = tt
strip_zeros-IsDigit (c ∷ text) h = elim (Bool-cases (nat_eq c 48 && is_empty (strip_zeros text))) [
  | inl all_zeros ↦ rw all_zeros tt
  | inr kept ↦ rw kept (h.0, strip_zeros-IsDigit text h.1)
]

pub length-strip_zeros : (text : List ℕ) → length (strip_zeros text) ≤ length text
unfolding strip_zeros is_empty
length-strip_zeros [] = omega arith
length-strip_zeros (c ∷ text) = elim (Bool-cases (nat_eq c 48 && is_empty (strip_zeros text))) [
  | inl all_zeros ↦ rw all_zeros (omega arith)
  | inr kept ↦ rw kept (omega (arith, length-strip_zeros text))
]

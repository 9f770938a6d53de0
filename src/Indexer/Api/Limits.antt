-- ===== src/Indexer/Api/Limits.antt =====
-- The `limit` of a settlements request, in indexer/src/api/routes.ts and worker/routes.ts.
use slasettle_hub.Prelude.{
  ℕ, zero, suc, ◌≤◌, ◌<◌, Bool, true, false, ◌≡◌, ◌⊎◌, inl, inr, refl, ap, if◌then◌else◌, ltb,
  arith, Bool-cases,
}
use slasettle_hub.Js.{
  pos, negsuc, Number, nan, infinity, minus_infinity, int, fractional, Value, undefined, null,
  Runtime,
}

-- The answer 400 for a negative or a fractional limit, or the number of rows of a page.
pub data PageLimit : Type 0 where
  not_negative not_integer : PageLimit
  rows : ℕ → PageLimit

-- `Number(limit ?? 20)`
unfoldable pub requested_limit : Runtime → Value → Number
requested_limit js undefined = int (pos 20)
requested_limit js null = int (pos 20)
requested_limit js v = js.number_of v

-- `n < 0`, with the floor of a number that is no integer
unfoldable pub is_negative : Number → Bool
is_negative minus_infinity = true
is_negative (int (negsuc n)) = true
is_negative (fractional (negsuc n)) = true
is_negative _ = false

-- `Number.isFinite(n) && !Number.isInteger(n)`
unfoldable pub is_fractional : Number → Bool
is_fractional (fractional z) = true
is_fractional _ = false

-- `Math.min(n || 20, 100)`
unfoldable pub capped : Number → Number
capped nan = int (pos 20)
capped (int (pos zero)) = int (pos 20)
capped (int (pos (suc n))) = if ltb (suc n) 100 then int (pos (suc n)) else int (pos 100)
capped infinity = int (pos 100)
capped (fractional (pos n)) = if ltb n 100 then fractional (pos n) else int (pos 100)
capped n = n

-- The natural number that the guards leave; of any other number no page is asked for.
unfoldable pub size_of : Number → ℕ
size_of (int (pos n)) = n
size_of _ = 0

unfoldable pub page_limit : Number → PageLimit
unfolding is_negative is_fractional capped size_of
page_limit requested =
    if is_negative requested
    then not_negative
    else if is_fractional requested
    then not_integer
    else rows (size_of (capped requested))

-- The numbers below 0, and those from 0 on that are no integers.
abbrev IsBelowZero : Number → Type 0
IsBelowZero n =
    (n ≡ minus_infinity)
    ⊎ ((m : ℕ) × (n ≡ int (negsuc m)))
    ⊎ ((m : ℕ) × (n ≡ fractional (negsuc m)))

abbrev IsBetweenIntegers : Number → Type 0
IsBetweenIntegers n = (m : ℕ) × (n ≡ fractional (pos m))

-- How many rows a number asks for.
abbrev AsksFor : Number → ℕ → Type 0
AsksFor n k =
    ((n ≡ nan) × (k ≡ 20))
    ⊎ ((n ≡ int (pos 0)) × (k ≡ 20))
    ⊎ ((n ≡ int (pos k)) × (1 ≤ k) × (k ≤ 100))
    ⊎ ((m : ℕ) × (n ≡ int (pos m)) × (100 < m) × (k ≡ 100))
    ⊎ ((n ≡ infinity) × (k ≡ 100))

-- What each answer says of the number that was asked for.
abbrev pub IsAnswerTo : Number → PageLimit → Type 0
IsAnswerTo n not_negative = IsBelowZero n
IsAnswerTo n not_integer = IsBetweenIntegers n
IsAnswerTo n (rows k) = AsksFor n k

above_hundred : (n : ℕ) → IsAnswerTo (int (pos (suc n))) (page_limit (int (pos (suc n))))
unfolding page_limit
above_hundred n = elim (Bool-cases (ltb (suc n) 100)) [
  | inl small ↦ rw small (inr (inr (inl (refl, omega arith, ground arith))))
  | inr large ↦ rw large (elim (Bool-cases (ltb 100 (suc n))) [
    | inl above ↦ inr (inr (inr (inl (suc n, refl, ground arith, refl))))
    | inr hundred ↦
        let same : suc n ≡ 100 = ground arith in
        inr (inr (inl (ap (λ k. int (pos k)) same, omega arith, omega arith)))
  ])
]

-- A limit is answered with "not negative" exactly if it is below 0, and with "no integer" exactly if it
-- is from 0 on and no integer. Every other limit gives a page: of 20 rows for 0 and for a text that is no
-- number, of as many rows as it says from 1 to 100, and of 100 rows above that.
pub page_limit-IsAnswerTo : (n : Number) → IsAnswerTo n (page_limit n)
unfolding page_limit
page_limit-IsAnswerTo nan = inl (refl, refl)
page_limit-IsAnswerTo infinity = inr (inr (inr (inr (refl, refl))))
page_limit-IsAnswerTo minus_infinity = inl refl
page_limit-IsAnswerTo (int (pos zero)) = inr (inl (refl, refl))
page_limit-IsAnswerTo (int (pos (suc n))) = above_hundred n
page_limit-IsAnswerTo (int (negsuc n)) = inr (inl (n, refl))
page_limit-IsAnswerTo (fractional (pos n)) = (n, refl)
page_limit-IsAnswerTo (fractional (negsuc n)) = inr (inr (n, refl))

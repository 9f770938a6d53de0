-- ===== src/Web/History/Overtaking.antt =====
-- apps/web/lib/use-settlement-history.ts: a reload that is answered while loadMore waits.
use slasettle_hub.Prelude.{
  ℕ, zero, suc, ◌+◌, ◌-◌, ◌≤◌, ◌<◌, String, List, [], ◌∷◌, ◌++◌, Option, ◌≡◌, refl, ap, ◌∙◌, length,
  length-append, take, drop, get_elem?, arith,
}
use slasettle_hub.Web.Reads.{got}
use slasettle_hub.Web.History.{State, page_state, reload_settled, more_started, more_settled}

module _ {T : Type 0} where
  get_elem?-append_right :
      (xs ys : List T) (i : ℕ) → get_elem? (xs ++ ys) (length xs + i) ≡ get_elem? ys i
  get_elem?-append_right [] ys i = let e : 0 + i ≡ i = omega arith in rw e refl
  get_elem?-append_right (x ∷ xs) ys i =
      let e : suc (length xs) + i ≡ suc (length xs + i) = omega arith in
      rw e (get_elem?-append_right xs ys i)

  length-take : (n : ℕ) (xs : List T) → n ≤ length xs → length (take n xs) ≡ n
  length-take zero xs h = refl
  length-take (suc n) [] h = absurd (omega arith)
  length-take (suc n) (x ∷ xs) h = ap suc (length-take n xs (omega arith))

  get_elem?-drop : (n i : ℕ) (xs : List T) → get_elem? (drop n xs) i ≡ get_elem? xs (n + i)
  get_elem?-drop zero i xs = let e : 0 + i ≡ i = omega arith in rw e refl
  get_elem?-drop (suc n) i [] = refl
  get_elem?-drop (suc n) i (x ∷ xs) =
      let e : suc n + i ≡ suc (n + i) = omega arith in rw e (get_elem?-drop n i xs)

  get_elem?-take : (n i : ℕ) (xs : List T) → i < n → get_elem? (take n xs) i ≡ get_elem? xs i
  get_elem?-take zero i xs h = absurd (omega arith)
  get_elem?-take (suc n) i [] h = refl
  get_elem?-take (suc n) zero (x ∷ xs) h = refl
  get_elem?-take (suc n) (suc i) (x ∷ xs) h = get_elem?-take n i xs (omega arith)

  -- loadMore starts behind the first page of `old`, then the reload is answered, then loadMore.
  abbrev pub overtaken : ℕ → List T → List T → Option String → Option String → State T → State T
  overtaken limit fresh old first second s =
      more_settled (got (record { items = take limit (drop limit old); next_cursor = second })) (
        reload_settled (got (record { items = take limit (fresh ++ old); next_cursor = first }))
          (more_started s))

  -- A reload that is answered while loadMore waits makes the list skip rows: when `fresh` rows, at
  -- most a page of them, have come in front of the `old` ones, of which there is more than a page,
  -- the list has behind its first `limit` rows the old row number `limit`, where the settlements
  -- have the old row number `limit - length fresh`, and the next loadMore goes on behind the second
  -- page of the old rows.
  pub reload-overtakes :
      (limit : ℕ) (fresh old : List T) (s : State T) (first second : Option String)
      → 0 < limit
      → length fresh ≤ limit
      → limit < length old
      → (get_elem? (overtaken limit fresh old first second s).settlements limit
          ≡ get_elem? old limit)
        × (get_elem? (fresh ++ old) limit ≡ get_elem? old (limit - length fresh))
        × ((overtaken limit fresh old first second s).next_cursor ≡ second)
  unfolding more_settled reload_settled page_state
  reload-overtakes limit fresh old s first second positive few many =
      let whole = length-append fresh old in
      let shown : limit ≤ length (fresh ++ old) = omega arith in
      let n : length (take limit (fresh ++ old)) + 0 ≡ limit =
        omega (arith, length-take limit (fresh ++ old) shown) in
      let m : length fresh + (limit - length fresh) ≡ limit = omega arith in
      let k : limit + 0 ≡ limit = omega arith in
      (
        rw n at (get_elem?-append_right (take limit (fresh ++ old)) (take limit (drop limit old)) 0)
            ∙ get_elem?-take limit 0 (drop limit old) positive
            ∙ rw k at (get_elem?-drop limit 0 old),
        rw m at (get_elem?-append_right fresh old (limit - length fresh)),
        refl,
      )

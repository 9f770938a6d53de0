-- ===== src/Web/Pool/Results.antt =====
-- apps/web/lib/use-provider-slas.ts: what mapWithLimit returns.
use mathlib.Core.Path.{subst}
use mathlib.Core.Option
use slasettle_hub.Prelude.{
  ℕ, zero, suc, ◌+◌, ◌≤◌, ◌<◌, List, [], ◌∷◌, ◌++◌, map, Option, some, ◌≡◌, refl, ap, ◌∙◌, sym,
  length, true, nat_eq, get_elem?, All, arith, ◌⊎◌, inl, inr, Bool-cases,
}
use slasettle_hub.Web.Pool.{
  Worker, ready, waiting, finished, Pool, replicate, min, store, start, Step, take_next,
  store_result, leave, Runs, begun, further, IsDone, entries,
}
use slasettle_hub.Web.Pool.Progress.{IsSane, Runs-IsSane}

-- Some worker waits for the call at index `i`.
abbrev WaitsFor : ℕ → Worker → Type 0
WaitsFor i ready = ⊥
WaitsFor i (waiting index) = i ≡ index
WaitsFor i finished = ⊥

abbrev IsAwaited : ℕ → List Worker → Type 0
IsAwaited i [] = ⊥
IsAwaited i (w ∷ ws) = WaitsFor i w ⊎ IsAwaited i ws

IsAwaited-put :
    (i : ℕ) (before after : List Worker) (w v : Worker)
    → IsAwaited i (before ++ w ∷ after)
    → WaitsFor i w ⊎ IsAwaited i (before ++ v ∷ after)
IsAwaited-put i [] after w v (inl h) = inl h
IsAwaited-put i [] after w v (inr h) = inr (inr h)
IsAwaited-put i (x ∷ before) after w v (inl h) = inr (inl h)
IsAwaited-put i (x ∷ before) after w v (inr h) = elim (IsAwaited-put i before after w v h) [
  | inl k ↦ inl k
  | inr k ↦ inr (inr k)
]

IsAwaited-middle :
    (i : ℕ) (before after : List Worker) (w : Worker)
    → WaitsFor i w
    → IsAwaited i (before ++ w ∷ after)
IsAwaited-middle i [] after w h = inl h
IsAwaited-middle i (x ∷ before) after w h = inr (IsAwaited-middle i before after w h)

IsDone-IsAwaited : (i : ℕ) (ws : List Worker) → IsDone ws → ¬ IsAwaited i ws
unfolding IsDone
IsDone-IsAwaited i [] d h = h
IsDone-IsAwaited i (ready ∷ ws) d h = d
IsDone-IsAwaited i (waiting index ∷ ws) d h = d
IsDone-IsAwaited i (finished ∷ ws) d (inl h) = h
IsDone-IsAwaited i (finished ∷ ws) d (inr h) = IsDone-IsAwaited i ws d h

nat_eq_sound : (a b : ℕ) → nat_eq a b ≡ true → a ≡ b
nat_eq_sound a b h = ground arith

length-put :
    (before after : List Worker) (w v : Worker)
    → length (before ++ w ∷ after) ≡ length (before ++ v ∷ after)
length-put [] after w v = refl
length-put (x ∷ before) after w v = ap suc (length-put before after w v)

length-replicate : (n : ℕ) → length (replicate n ready) ≡ n
unfolding replicate
length-replicate zero = refl
length-replicate (suc n) = ap suc (length-replicate n)

module _ {T R : Type 0} (fn : T → R) (items : List T) where
  -- The entry of an index is the callback's result at the item there.
  abbrev IsStored : (ℕ → Option R) → ℕ → Type 0
  IsStored results i = results i ≡ Option.map fn (get_elem? items i)

  -- Every index that was taken has its result, or is waited for.
  abbrev IsCovered : Pool R → Type 0
  IsCovered p = (i : ℕ) → i < p.next → IsStored p.results i ⊎ IsAwaited i p.workers

  -- A worker that waits for nothing is replaced.
  keep_covered :
      (results : ℕ → Option R) (i : ℕ) (ws before after : List Worker) (w v : Worker)
      → ws ≡ before ++ w ∷ after
      → ¬ WaitsFor i w
      → IsStored results i ⊎ IsAwaited i ws
      → IsStored results i ⊎ IsAwaited i (before ++ v ∷ after)
  keep_covered results i ws before after w v e idle (inl h) = inl h
  keep_covered results i ws before after w v e idle (inr h) =
      elim (IsAwaited-put i before after w v (subst (IsAwaited i) e h)) [
        | inl k ↦ absurd (idle k)
        | inr k ↦ inr k
      ]

  take_next-IsCovered :
      (p : Pool R) (before after : List Worker) (i : ℕ)
      → p.workers ≡ before ++ ready ∷ after
      → IsCovered p
      → i < p.next + 1
      → IsStored p.results i ⊎ IsAwaited i (before ++ waiting p.next ∷ after)
  take_next-IsCovered p before after i e h lt = elim (Bool-cases (nat_eq i p.next)) [
    | inl same ↦ inr (IsAwaited-middle i before after (waiting p.next) (nat_eq_sound i p.next same))
    | inr other ↦
        keep_covered p.results i p.workers before after ready (waiting p.next) e (λ k. k)
          (h i (ground arith))
  ]

  store-IsCovered :
      (p : Pool R) (before after : List Worker) (index : ℕ) (item : T) (i : ℕ)
      → p.workers ≡ before ++ waiting index ∷ after
      → get_elem? items index ≡ some item
      → IsCovered p
      → i < p.next
      → IsStored (store p.results index (fn item)) i ⊎ IsAwaited i (before ++ ready ∷ after)
  unfolding store
  store-IsCovered p before after index item i e found h lt = elim (Bool-cases (nat_eq i index)) [
    | inl same ↦ inl (rw (same, nat_eq_sound i index same, found) refl)
    | inr other ↦ rw other (
        keep_covered p.results i p.workers before after (waiting index) ready e
          (λ (k : i ≡ index). ground arith) (h i lt))
  ]

  Step-IsCovered : {p q : Pool R} → Step fn items p q → IsCovered p → IsCovered q
  Step-IsCovered {p} (take_next before after e more q) h =
      rw q (λ i lt. take_next-IsCovered p before after i e h lt)
  Step-IsCovered {p} (store_result before after index item e found q) h =
      rw q (λ i lt. store-IsCovered p before after index item i e found h lt)
  Step-IsCovered {p} (leave before after e none_left q) h =
      rw q
        (λ i lt. keep_covered p.results i p.workers before after ready finished e (λ k. k) (h i lt))

  Runs-IsCovered : (limit : ℕ) {n : ℕ} {p : Pool R} → Runs fn items limit n p → IsCovered p
  unfolding start
  Runs-IsCovered limit begun = λ i lt. absurd (omega arith)
  Runs-IsCovered limit (further r st) = Step-IsCovered st (Runs-IsCovered limit r)

  -- The number of workers stays.
  Runs-length :
      (limit : ℕ) {n : ℕ} {p : Pool R}
      → Runs fn items limit n p
      → length p.workers ≡ min limit (length items)
  unfolding start
  Runs-length limit begun = length-replicate (min limit (length items))
  Runs-length limit (further r (take_next before after e more q)) =
      rw q (length-put before after _ ready ∙ sym (ap length e) ∙ Runs-length limit r)
  Runs-length limit (further r (store_result before after index item e found q)) =
      rw q (length-put before after ready _ ∙ sym (ap length e) ∙ Runs-length limit r)
  Runs-length limit (further r (leave before after e none_left q)) =
      rw q (length-put before after finished _ ∙ sym (ap length e) ∙ Runs-length limit r)

-- When all workers have left their loops, and there is one, every index was taken.
IsDone-next :
    (count next : ℕ) (ws : List Worker)
    → IsDone ws
    → All (IsSane count next) ws
    → 0 < length ws
    → count ≤ next
unfolding IsDone
IsDone-next count next [] d h lt = absurd (omega arith)
IsDone-next count next (ready ∷ ws) d h lt = absurd d
IsDone-next count next (waiting i ∷ ws) d h lt = absurd d
IsDone-next count next (finished ∷ ws) d h lt = h.0

some_worker :
    (limit count workers : ℕ) → 0 < limit → workers ≡ min limit count → 0 < count → 0 < workers
unfolding min
some_worker limit count workers h e k = ground arith

cons-eq : {A : Type 0} {x y : A} {xs ys : List A} → x ≡ y → xs ≡ ys → x ∷ xs ≡ y ∷ ys
cons-eq h k = cc

module _ {T R : Type 0} (fn : T → R) where
  entries-map :
      (results : ℕ → Option R) (xs : List T) (k : ℕ)
      → ((i : ℕ) → i < length xs → results (k + i) ≡ Option.map fn (get_elem? xs i))
      → entries results k (length xs) ≡ map (λ x. some (fn x)) xs
  unfolding entries
  entries-map results [] k h = refl
  entries-map results (x ∷ xs) k h =
      let first : k + 0 ≡ k = omega arith in
      cons-eq (rw first at (h 0 (omega arith))) (
        entries-map results xs (k + 1) (λ i lt.
          let shifted : (k + 1) + i ≡ k + suc i = omega arith in
          rw shifted (h (suc i) (omega arith))))

  -- When every worker is done, the array holds the callback's result for each item, in the order of
  -- the items, whatever the order in which the calls were answered.
  pub Runs-entries :
      (items : List T) (limit : ℕ) {n : ℕ} {p : Pool R}
      → 0 < limit
      → Runs fn items limit n p
      → IsDone p.workers
      → entries p.results 0 (length items) ≡ map (λ x. some (fn x)) items
  Runs-entries items limit {n} {p} positive r d = entries-map p.results items 0 (λ i lt.
      let taken = IsDone-next (length items) p.next p.workers d (Runs-IsSane fn items limit r) (
        some_worker limit (length items) (length p.workers) positive (Runs-length fn items limit r)
          (omega arith)) in
      let plain : 0 + i ≡ i = omega arith in
      rw plain (elim (Runs-IsCovered fn items limit r i (omega arith)) [
        | inl stored ↦ stored
        | inr awaited ↦ absurd (IsDone-IsAwaited i p.workers d awaited)
      ]))

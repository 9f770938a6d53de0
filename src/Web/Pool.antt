-- ===== src/Web/Pool.antt =====
-- apps/web/lib/use-provider-slas.ts: mapWithLimit. Its workers share `next` and the array of
-- results, and run one at a time between their waits; the steps are in any order. The callback of
-- the source catches every error, so that a call always gives a result.
pub mod Progress
pub mod Results
use slasettle_hub.Prelude.{
  ℕ, zero, suc, ◌+◌, ◌≤◌, ◌<◌, List, [], ◌∷◌, ◌++◌, Option, none, some, ◌≡◌, if◌then◌else◌, leb,
  length, nat_eq, get_elem?,
}

-- A worker before its test, while it waits for the call at an index, and after its loop.
pub data Worker : Type 0 where
  ready : Worker
  waiting : ℕ → Worker
  finished : Worker

pub record Pool (R : Type 0) : Type 0 where
  pub next : ℕ
  pub results : ℕ → Option R
  pub workers : List Worker

unfoldable pub replicate {ℓ} : {A : Type ℓ} → ℕ → A → List A
replicate zero x = []
replicate (suc n) x = x ∷ replicate n x

-- Math.min
unfoldable pub min : ℕ → ℕ → ℕ
min a b = if leb a b then a else b

-- results[index] = value
unfoldable pub store : {R : Type 0} → (ℕ → Option R) → ℕ → R → ℕ → Option R
store results index value i = if nat_eq i index then some value else results i

module _ {T R : Type 0} (fn : T → R) (items : List T) where
  -- The array, and `min(limit, items.length)` workers.
  unfoldable pub start : ℕ → Pool R
  unfolding min replicate
  start limit = record {
    next = 0;
    results = λ i. none;
    workers = replicate (min limit (length items)) ready;
  }

  -- One worker of the list goes on: it takes the next index, stores what its call gave, or leaves its loop.
  pub data Step (p q : Pool R) : Type 0 where
    take_next :
        (before after : List Worker)
        → p.workers ≡ before ++ ready ∷ after
        → p.next < length items
        → q ≡ record p { next = p.next + 1; workers = before ++ waiting p.next ∷ after }
        → Step p q
    store_result :
        (before after : List Worker) (index : ℕ) (item : T)
        → p.workers ≡ before ++ waiting index ∷ after
        → get_elem? items index ≡ some item
        → q ≡ record p {
          results = store p.results index (fn item);
          workers = before ++ ready ∷ after;
        }
        → Step p q
    leave :
        (before after : List Worker)
        → p.workers ≡ before ++ ready ∷ after
        → length items ≤ p.next
        → q ≡ record p { workers = before ++ finished ∷ after }
        → Step p q

  -- `n` steps.
  pub data Runs (limit : ℕ) : ℕ → Pool R → Type 0 where
    begun : Runs limit 0 (start limit)
    further : {n : ℕ} {p q : Pool R} → Runs limit n p → Step p q → Runs limit (suc n) q

-- The array as a list of its first entries, from an index on.
unfoldable pub entries : {R : Type 0} → (ℕ → Option R) → ℕ → ℕ → List (Option R)
entries results i zero = []
entries results i (suc n) = results i ∷ entries results (i + 1) n

-- Promise.all is settled when every worker is.
unfoldable pub IsDone : List Worker → Type 0
IsDone [] = Unit
IsDone (finished ∷ ws) = IsDone ws
IsDone (_ ∷ ws) = ⊥

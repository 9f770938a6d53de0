-- ===== src/Web/Pool/Progress.antt =====
-- apps/web/lib/use-provider-slas.ts: the workers of mapWithLimit always get on, and stop.
use mathlib.Core.Path.{subst}
use slasettle_hub.Prelude.{
  ℕ, zero, suc, ◌+◌, ◌-◌, ◌*◌, ◌≤◌, ◌<◌, List, [], ◌∷◌, ◌++◌, some, ◌≡◌, ◌≢◌, refl, ap, ltb, length,
  get_elem?, All, All-middle, All-put, arith, ◌⊎◌, inl, inr, Bool-cases,
}
use slasettle_hub.Web.Pool.{
  Worker, ready, waiting, finished, Pool, replicate, min, start, Step, take_next, store_result,
  leave, Runs, begun, further, IsDone,
}

-- What is left to a worker at most, its share of the items aside.
weight : Worker → ℕ
weight ready = 1
weight (waiting index) = 2
weight finished = 0

weights : List Worker → ℕ
unfolding weight
weights [] = 0
weights (w ∷ ws) = weight w + weights ws

weights-put :
    (before after : List Worker) (w v : Worker)
    → weights (before ++ w ∷ after) + weight v ≡ weights (before ++ v ∷ after) + weight w
unfolding weights
weights-put [] after w v = omega arith
weights-put (x ∷ before) after w v = omega (arith, weights-put before after w v)

weights-replicate : (n : ℕ) → weights (replicate n ready) ≡ n
unfolding weights replicate
weights-replicate zero = refl
weights-replicate (suc n) = omega (arith, weights-replicate n)

module _ {T R : Type 0} (fn : T → R) (items : List T) (limit : ℕ) where
  -- Every step uses up some of what is left.
  Runs-left :
      {n : ℕ} {p : Pool R}
      → Runs fn items limit n p
      → (n + 3 * (length items - p.next) + weights p.workers
          ≤ 3 * length items + min limit (length items))
        × (p.next ≤ length items)
  unfolding start weight
  Runs-left begun = omega (arith, weights-replicate (min limit (length items)))
  Runs-left (further {p} r (take_next before after e more q)) =
      let held = ap weights e in
      let put = weights-put before after ready (waiting p.next) in
      let left = Runs-left r in rw q (omega arith)
  Runs-left (further {p} r (store_result before after index item e found q)) =
      let held = ap weights e in
      let put = weights-put before after (waiting index) ready in
      let left = Runs-left r in rw q (omega arith)
  Runs-left (further {p} r (leave before after e none_left q)) =
      let held = ap weights e in
      let put = weights-put before after ready finished in
      let left = Runs-left r in rw q (omega arith)

-- A worker waits for an index that was taken, and has left its loop only behind the last item.
abbrev pub IsSane : ℕ → ℕ → Worker → Type 0
IsSane count next ready = Unit
IsSane count next (waiting index) = index < next
IsSane count next finished = count ≤ next

IsSane-grow : (count next : ℕ) (w : Worker) → IsSane count next w → IsSane count (next + 1) w
IsSane-grow count next ready h = h
IsSane-grow count next (waiting index) h = omega arith
IsSane-grow count next finished h = omega arith

All-IsSane-grow :
    (count next : ℕ) (ws : List Worker)
    → All (IsSane count next) ws
    → All (IsSane count (next + 1)) ws
All-IsSane-grow count next [] h = h
All-IsSane-grow count next (w ∷ ws) h =
    (IsSane-grow count next w h.0, All-IsSane-grow count next ws h.1)

All-IsSane-replicate : (count n : ℕ) → All (IsSane count 0) (replicate n ready)
unfolding replicate
All-IsSane-replicate count zero = tt
All-IsSane-replicate count (suc n) = (tt, All-IsSane-replicate count n)

get_elem?-some :
    {A : Type 0} (xs : List A) (i : ℕ) → i < length xs → (x : A) × (get_elem? xs i ≡ some x)
get_elem?-some [] i h = absurd (omega arith)
get_elem?-some (x ∷ xs) zero h = (x, refl)
get_elem?-some (x ∷ xs) (suc i) h = get_elem?-some xs i (omega arith)

-- A worker that goes on, if any.
record Active (ws : List Worker) : Type 0 where
  before : List Worker
  after : List Worker
  worker : Worker
  place : ws ≡ before ++ worker ∷ after
  active : worker ≢ finished

find-Active : (ws : List Worker) → IsDone ws ⊎ Active ws
unfolding IsDone
find-Active [] = inl tt
find-Active (ready ∷ ws) =
    inr (record { before = []; after = ws; worker = ready; place = refl; active = λ e. cc })
find-Active (waiting i ∷ ws) =
    inr (record { before = []; after = ws; worker = waiting i; place = refl; active = λ e. cc })
find-Active (finished ∷ ws) = elim (find-Active ws) [
  | inl done ↦ inl done
  | inr a ↦ inr (record {
    before = finished ∷ a.before;
    after = a.after;
    worker = a.worker;
    place = ap (◌∷◌ finished) a.place;
    active = a.active;
  })
]

module _ {T R : Type 0} (fn : T → R) (items : List T) (limit : ℕ) where
  pub Runs-IsSane :
      {n : ℕ} {p : Pool R} → Runs fn items limit n p → All (IsSane (length items) p.next) p.workers
  unfolding start
  Runs-IsSane begun = All-IsSane-replicate (length items) (min limit (length items))
  Runs-IsSane (further {p} r (take_next before after e more q)) =
      let old = All-IsSane-grow (length items) p.next p.workers (Runs-IsSane r) in
      rw q (All-put _ before after ready (waiting p.next) (subst (All _) e old) (omega arith))
  Runs-IsSane (further {p} r (store_result before after index item e found q)) =
      rw q (All-put _ before after (waiting index) ready (subst (All _) e (Runs-IsSane r)) tt)
  Runs-IsSane (further {p} r (leave before after e none_left q)) =
      rw q (All-put _ before after ready finished (subst (All _) e (Runs-IsSane r)) none_left)

  worker-Step :
      (p : Pool R) (before after : List Worker) (w : Worker)
      → p.workers ≡ before ++ w ∷ after
      → w ≢ finished
      → IsSane (length items) p.next w
      → p.next ≤ length items
      → (q : Pool R) × Step fn items p q
  worker-Step p before after ready e active sane inside =
      elim (Bool-cases (ltb p.next (length items))) [
        | inl more ↦ (_, take_next before after e (ground arith) refl)
        | inr none_left ↦ (_, leave before after e (ground arith) refl)
      ]
  worker-Step p before after (waiting i) e active sane inside =
      let (item, found) = get_elem?-some items i (omega arith) in
      (_, store_result before after i item e found refl)
  worker-Step p before after finished e active sane inside = absurd (active refl)

  -- The workers stop: in whatever order they go on, they make at most three steps for each item and
  -- one for each worker, and as long as one of them has not left its loop, one can go on.
  pub Runs-end :
      {n : ℕ} {p : Pool R}
      → Runs fn items limit n p
      → (n ≤ 3 * length items + min limit (length items))
        × (IsDone p.workers ⊎ ((q : Pool R) × Step fn items p q))
  Runs-end {p} r = (
    omega (arith, (Runs-left fn items limit r).0),
    elim (find-Active p.workers) [
      | inl done ↦ inl done
      | inr a ↦ inr (
          worker-Step p a.before a.after a.worker a.place a.active
            (All-middle _ a.before a.after a.worker (subst (All _) a.place (Runs-IsSane r)))
            (Runs-left fn items limit r).1)
    ],
  )

-- ===== src/Web/PoolExamples.antt =====
-- Concrete runs of apps/web/lib/use-provider-slas.ts and apps/web/lib/use-settlement-history.ts.
use slasettle_hub.Prelude.{
  ℕ, ◌+◌, ◌*◌, ◌≤◌, List, [], ◌∷◌, ◌++◌, map, none, some, ◌≡◌, ◌⊎◌, refl, arith, length, get_elem?,
  ◌-◌,
}
use slasettle_hub.Web.Pool.{
  ready, waiting, finished, Pool, store, start, replicate, min, Step, take_next, store_result,
  leave, Runs, begun, further, IsDone, entries,
}
use slasettle_hub.Web.Pool.Progress.{Runs-end}
use slasettle_hub.Web.Pool.Results.{Runs-entries}
use slasettle_hub.Web.History.{initial}
use slasettle_hub.Web.History.Overtaking.{overtaken, reload-overtakes}

abbrev double : ℕ → ℕ
double n = n * 2

abbrev items : List ℕ
items = 5 ∷ 7 ∷ []

-- Two workers, whose calls are answered in the opposite order.
abbrev both_waiting : Pool ℕ
both_waiting = record { next = 2; results = λ i. none; workers = waiting 0 ∷ waiting 1 ∷ [] }

abbrev last : Pool ℕ
last = record {
  next = 2;
  results = store (store (λ i. none) 1 14) 0 10;
  workers = finished ∷ finished ∷ [];
}

Runs-both_waiting : Runs double items 4 2 both_waiting
unfolding start replicate min
Runs-both_waiting =
    further (further begun (take_next [] (ready ∷ []) refl (omega arith) refl))
      (take_next (waiting 0 ∷ []) [] refl (omega arith) refl)

Runs-last : Runs double items 4 6 last
Runs-last =
    further
      (further
        (further (further Runs-both_waiting (store_result (waiting 0 ∷ []) [] 1 7 refl refl refl))
          (store_result [] (ready ∷ []) 0 5 refl refl refl))
        (leave [] (ready ∷ []) refl (omega arith) refl))
      (leave (finished ∷ []) [] refl (omega arith) refl)

Runs-end_example :
    (2 ≤ 3 * length items + min 4 (length items))
    × (IsDone both_waiting.workers ⊎ ((q : Pool ℕ) × Step double items both_waiting q))
Runs-end_example = Runs-end double items 4 Runs-both_waiting

Runs-entries_example :
    entries last.results 0 (length items) ≡ map (λ (x : ℕ). some (double x)) items
unfolding IsDone
Runs-entries_example = Runs-entries double items 4 (omega arith) Runs-last tt

abbrev fresh : List ℕ
fresh = 9 ∷ []

abbrev old : List ℕ
old = 8 ∷ 7 ∷ 6 ∷ 5 ∷ []

reload-overtakes_example :
    (get_elem? (overtaken 2 fresh old (some "a") (some "b") initial).settlements 2
      ≡ get_elem? old 2)
    × (get_elem? (fresh ++ old) 2 ≡ get_elem? old (2 - 1))
    × ((overtaken 2 fresh old (some "a") (some "b") initial).next_cursor ≡ some "b")
reload-overtakes_example =
    reload-overtakes 2 fresh old initial (some "a") (some "b") (omega arith) (omega arith)
      (omega arith)

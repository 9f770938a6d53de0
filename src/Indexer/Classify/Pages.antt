-- ===== src/Indexer/Classify/Pages.antt =====
-- Where a page of events ends does not matter to what is classified.
use slasettle_hub.Prelude.{
  ◌≡◌, refl, ap, List, [], ◌∷◌, ◌++◌, append_assoc, append-nil, ok, ◌>>=◌, ◌∙◌, inl, inr,
  Result-cases,
}
use mathlib.Core.Path.{fun_ext}
use slasettle_hub.Js.{Runtime}
use slasettle_hub.Indexer.Rows.{ClassifiedBatch, empty_batch, push_all}
use slasettle_hub.Indexer.Decode.{DecodedEvent}
use slasettle_hub.Indexer.Classify.{classify_event, classify_from, classify_events}

pub push_all_assoc :
    (a b c : ClassifiedBatch) → push_all (push_all a b) c ≡ push_all a (push_all b c)
unfolding push_all
push_all_assoc a b c = simp append_assoc

pub empty-push_all : (b : ClassifiedBatch) → push_all empty_batch b ≡ b
unfolding push_all empty_batch
empty-push_all b = refl

pub push_all-empty : (b : ClassifiedBatch) → push_all b empty_batch ≡ b
unfolding push_all empty_batch
push_all-empty b = simp append-nil

module _ (js : Runtime) where
  -- What was pushed before an event is not read by it.
  classify_from-push_all :
      (b c : ClassifiedBatch) (events : List DecodedEvent)
      → classify_from js (push_all b c) events
        ≡ (classify_from js c events >>= λ d. ok (push_all b d))
  unfolding classify_from
  classify_from-push_all b c [] = refl
  classify_from-push_all b c (event ∷ events) = elim (Result-cases (classify_event js event)) [
    | inl (pushed, e) ↦
        rw e (rw push_all_assoc (classify_from-push_all b (push_all c pushed) events))
    | inr (error, e) ↦ rw e refl
  ]

  classify_from-append :
      (b : ClassifiedBatch) (xs ys : List DecodedEvent)
      → classify_from js b (xs ++ ys) ≡ (classify_from js b xs >>= λ c. classify_from js c ys)
  unfolding classify_from
  classify_from-append b [] ys = refl
  classify_from-append b (x ∷ xs) ys = elim (Result-cases (classify_event js x)) [
    | inl (pushed, e) ↦ rw e (classify_from-append (push_all b pushed) xs ys)
    | inr (error, e) ↦ rw e refl
  ]

  classify_from-eq :
      (b : ClassifiedBatch) (events : List DecodedEvent)
      → classify_from js b events ≡ (classify_events js events >>= λ c. ok (push_all b c))
  unfolding classify_events
  classify_from-eq b events = rw (push_all-empty b) at (classify_from-push_all b empty_batch events)

  -- Classifying two pages one after the other gives the rows of the joined page, in order, and a
  -- throw in either page is the throw of the joined page: where a page ends does not matter.
  pub classify_events-append :
      (xs ys : List DecodedEvent)
      → classify_events js (xs ++ ys)
        ≡ (classify_events js xs >>= λ b. classify_events js ys >>= λ c. ok (push_all b c))
  unfolding classify_events
  classify_events-append xs ys =
      classify_from-append empty_batch xs ys
      ∙ ap (λ k. classify_from js empty_batch xs >>= k) (fun_ext λ b. classify_from-eq b ys)

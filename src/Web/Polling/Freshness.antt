-- ===== src/Web/Polling/Freshness.antt =====
-- apps/web/lib/use-polling.ts: whose data is shown.
use mathlib.Core.Path.{subst}
use slasettle_hub.Prelude.{
  ℕ, String, All, All-middle, List, ◌∷◌, ◌++◌, Bool, true, false, some, ◌≡◌, arith, Bool-cases, inl,
  inr, nat_eq,
}
use slasettle_hub.Web.Polling.{
  Effect, Snapshot, Hook, empty_state, on_data, on_error, restart, first_render, mount,
  visible_state, Move, fire, fire_other, answer, fail, Step, mounted, unmounted, visibility, unseen,
  restarted, Reach, here, next,
}
use slasettle_hub.Web.Polling.Effects.{IsRetired}
use slasettle_hub.Web.Polling.Overlap.{Reach-IsHealthy, Move_cancelled}

nat_eq-eq : (a b : ℕ) → nat_eq a b ≡ true → a ≡ b
nat_eq-eq a b h = ground arith

-- The data of a state was given by the fetcher that it names.
abbrev IsFresh : {T : Type 0} → (ℕ → T → Type 0) → Snapshot T → Type 0
IsFresh {T} Gives s = (d : T) → s.payload ≡ some d → Gives s.fetcher d

module _ {T : Type 0} (Gives : ℕ → T → Type 0) where
  IsFresh-on_data :
      (e : Effect) (d : T) (s : Snapshot T)
      → Gives e.fetcher d
      → IsFresh Gives s
      → IsFresh Gives (on_data e d s)
  unfolding on_data
  IsFresh-on_data e d s gives v = elim (Bool-cases e.cancelled) [
    | inl stopped ↦ simp stopped v
    | inr live ↦
        simp live (λ d' shown. let same : d ≡ d' = cc in subst (Gives e.fetcher) same gives)
  ]

  IsFresh-on_error :
      (e : Effect) (message : String) (s : Snapshot T)
      → IsFresh Gives s
      → IsFresh Gives (on_error e message s)
  unfolding on_error
  IsFresh-on_error e message s v = elim (Bool-cases e.cancelled) [
    | inl stopped ↦ simp stopped v
    | inr live ↦ elim (Bool-cases (nat_eq s.fetcher e.fetcher)) [
      | inl same ↦
          simp (live, same)
            (λ d shown. subst (λ f. Gives f d) (nat_eq-eq s.fetcher e.fetcher same) (v d shown))
      | inr other ↦ simp (live, other) (λ d shown. cc)
    ]
  ]

  Move-IsFresh :
      {hidden : Bool} {e e' : Effect} {s s' : Snapshot T}
      → Move Gives hidden e e' s s'
      → IsFresh Gives s
      → IsFresh Gives s'
  Move-IsFresh (fire held p q) v = rw q v
  Move-IsFresh (fire_other stray p q) v = rw q v
  Move-IsFresh (answer d requested gives p q) v = rw q (IsFresh-on_data _ d _ gives v)
  Move-IsFresh (fail message requested p q) v = rw q (IsFresh-on_error _ message _ v)

  Step-IsFresh : {h h' : Hook T} → Step Gives h h' → IsFresh Gives h.state → IsFresh Gives h'.state
  unfolding restart empty_state
  Step-IsFresh (mounted e e' s' c move p) v = rw p (Move-IsFresh move v)
  Step-IsFresh (unmounted before after e e' s' c move p) v = rw p (Move-IsFresh move v)
  Step-IsFresh (visibility hidden e c p) v = rw p v
  Step-IsFresh (unseen hidden c p) v = rw p v
  Step-IsFresh (restarted fetcher true p) v = rw p v
  Step-IsFresh (restarted fetcher false p) v = rw p (λ d h. cc)

  Reach-IsFresh :
      {fetcher : ℕ} {enabled hidden : Bool} {h : Hook T}
      → Reach Gives fetcher enabled hidden h
      → IsFresh Gives h.state
  unfolding mount restart first_render empty_state
  Reach-IsFresh {enabled} here = elim (Bool-cases enabled) [
    | inl on ↦ rw on (λ d shown. cc)
    | inr off ↦ rw off (λ d shown. cc)
  ]
  Reach-IsFresh (next r st) = Step-IsFresh st (Reach-IsFresh r)

  -- In every state that the hook reaches, the data that it shows was given by the fetcher that it
  -- has now, and a hook that is not enabled shows none.
  pub visible_state-Gives :
      {fetcher : ℕ} {enabled hidden : Bool} {h : Hook T} {d : T}
      → Reach Gives fetcher enabled hidden h
      → (visible_state h).payload ≡ some d
      → Gives h.fetcher d × (h.enabled ≡ true)
  unfolding visible_state
  visible_state-Gives {h} {d} r shown = elim (Bool-cases h.enabled) [
    | inr off ↦ let none_shown = simp off at shown in cc
    | inl on ↦ elim (Bool-cases (nat_eq h.state.fetcher h.fetcher)) [
      | inr other ↦ let none_shown = simp (on, other) at shown in cc
      | inl same ↦
          let here_shown = simp (on, same) at shown in
          (
            subst (λ f. Gives f d) (nat_eq-eq h.state.fetcher h.fetcher same)
                (Reach-IsFresh r d here_shown),
            on,
          )
    ]
  ]

  -- An answer or an error that arrives at an effect that was cleaned up, because the fetcher
  -- changed, the hook was refreshed or disabled, changes nothing that is shown.
  pub retired-silent :
      {fetcher : ℕ} {enabled hidden : Bool} {h : Hook T} (before after : List Effect)
      {e e' : Effect} {s' : Snapshot T}
      → Reach Gives fetcher enabled hidden h
      → h.retired ≡ before ++ e ∷ after
      → Move Gives h.hidden e e' h.state s'
      → s' ≡ h.state
  retired-silent before after {e} r c move =
      let was =
        All-middle IsRetired before after e (subst (All IsRetired) c (Reach-IsHealthy r).retired) in
      Move_cancelled move was.sound was.is_cancelled

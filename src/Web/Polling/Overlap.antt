-- ===== src/Web/Polling/Overlap.antt =====
-- apps/web/lib/use-polling.ts: requests and timers of the effects.
use mathlib.Core.Path.{subst}
use slasettle_hub.Prelude.{
  ℕ, ◌∷◌, ◌++◌, Bool, true, false, some, ◌≡◌, refl, All, All-middle, All-put, arith, ◌∙◌,
}
use slasettle_hub.Web.Polling.{
  Effect, Hook, restart, first_render, mount, Snapshot, Move, fire, fire_other, answer, fail, Step,
  mounted, unmounted, visibility, unseen, on_data, on_error, restarted, Reach, here, next,
}
use slasettle_hub.Web.Polling.Effects.{
  IsSound, IsRetired, IsMounted, AreSound, IsMounted-AreSound, tick-IsSound, settle-IsSound,
  on_visibility_change-IsSound, start-IsSound, settle_cancelled, tick_cancelled,
  visibility_cancelled, start_mounted, retire-IsRetired,
}

module _ {T : Type 0} where
  pub record IsHealthy (h : Hook T) : Type 0 where
    pub current : IsMounted h.current h.enabled
    pub retired : All IsRetired h.retired

  restart-IsHealthy :
      (fetcher : ℕ) (enabled : Bool) (h : Hook T)
      → AreSound h.current
      → All IsRetired h.retired
      → IsHealthy (restart fetcher enabled h)
  unfolding restart
  restart-IsHealthy fetcher true h m r = record {
    current = (start-IsSound fetcher h.hidden, start_mounted fetcher h.hidden, refl);
    retired = retire-IsRetired h.current h.retired m r;
  }
  restart-IsHealthy fetcher false h m r = record {
    current = refl;
    retired = retire-IsRetired h.current h.retired m r;
  }

  module _ {Gives : ℕ → T → Type 0} where
    Move-IsSound :
        {hidden : Bool} {e e' : Effect} {s s' : Snapshot T}
        → Move Gives hidden e e' s s'
        → IsSound e
        → IsSound e' × (e'.cancelled ≡ e.cancelled)
    Move-IsSound {hidden} {e} (fire held p q) v =
        rw p (tick-IsSound hidden e v held, tick_cancelled hidden _)
    Move-IsSound (fire_other stray p q) v = absurd (omega arith)
    Move-IsSound {e} (answer d requested gives p q) v =
        rw p (settle-IsSound e v requested, settle_cancelled e)
    Move-IsSound {e} (fail message requested p q) v =
        rw p (settle-IsSound e v requested, settle_cancelled e)

    -- An effect that was cleaned up leaves the state alone.
    pub Move_cancelled :
        {hidden : Bool} {e e' : Effect} {s s' : Snapshot T}
        → Move Gives hidden e e' s s'
        → IsSound e
        → e.cancelled ≡ true
        → s' ≡ s
    unfolding on_data on_error
    Move_cancelled (fire held p q) v c = q
    Move_cancelled (fire_other stray p q) v c = q
    Move_cancelled (answer d requested gives p q) v c = q ∙ rw c refl
    Move_cancelled (fail message requested p q) v c = q ∙ rw c refl

    Step-IsHealthy : {h h' : Hook T} → Step Gives h h' → IsHealthy h → IsHealthy h'
    Step-IsHealthy {h} (mounted e e' s' c move p) v =
        let m : IsMounted (some e) h.enabled = subst (λ o. IsMounted o h.enabled) c v.current in
        let kept = Move-IsSound move m.0 in
        rw p (record { current = (kept.0, kept.1 ∙ m.1, m.2); retired = v.retired })
    Step-IsHealthy {h} (unmounted before after e e' s' c move p) v =
        let all : All IsRetired (before ++ e ∷ after) = subst (All IsRetired) c v.retired in
        let was = All-middle IsRetired before after e all in
        let kept = Move-IsSound move was.sound in
        rw p (record {
          current = v.current;
          retired =
              All-put IsRetired before after e e' all
                (record { sound = kept.0; is_cancelled = kept.1 ∙ was.is_cancelled });
        })
    Step-IsHealthy {h} (visibility hidden e c p) v =
        let m : IsMounted (some e) h.enabled = subst (λ o. IsMounted o h.enabled) c v.current in
        rw p (record {
          current = (
            on_visibility_change-IsSound hidden e m.0 m.1,
            visibility_cancelled hidden e ∙ m.1,
            m.2,
          );
          retired = v.retired;
        })
    Step-IsHealthy (unseen hidden c p) v =
        rw p (record { current = v.current; retired = v.retired })
    Step-IsHealthy {h} (restarted fetcher enabled p) v = rw p (
        restart-IsHealthy fetcher enabled h (IsMounted-AreSound h.current h.enabled v.current)
          v.retired)

    -- Whatever timers, answers, tab changes, new fetchers and refreshes do, in any order: an enabled
    -- hook has one mounted effect and a disabled hook none. Every effect has at most one request in
    -- flight, the mounted one either a request or exactly one timer that starts the next, and the
    -- effects that were cleaned up no timer.
    pub Reach-IsHealthy :
        {fetcher : ℕ} {enabled hidden : Bool} {h : Hook T}
        → Reach Gives fetcher enabled hidden h
        → IsHealthy h
    unfolding mount first_render
    Reach-IsHealthy {fetcher} {enabled} here =
        restart-IsHealthy fetcher enabled (first_render fetcher enabled _) tt tt
    Reach-IsHealthy (next r st) = Step-IsHealthy st (Reach-IsHealthy r)

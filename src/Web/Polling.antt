-- ===== src/Web/Polling.antt =====
-- apps/web/lib/use-polling.ts: the state of the hook, and each effect that polls. An effect lives
-- from one change of the fetcher, of `enabled` or of the restart key to the next; its request may
-- still be in flight after that. A fetcher is known by its identity, a number.
pub mod Effects
pub mod Overlap
pub mod Freshness
use slasettle_hub.Prelude.{
  ℕ, ◌+◌, ◌-◌, ◌<◌, String, List, [], ◌∷◌, ◌++◌, Bool, true, false, not, ◌&&◌, ◌||◌, Option, none,
  some, ◌≡◌, if◌then◌else◌, nat_eq,
}

-- The variables of an effect. Of its live timers, `handle` says whether `timer` still holds one and
-- `others` counts those that it holds no more; `requests` counts the calls that are not settled.
pub record Effect : Type 0 where
  pub fetcher : ℕ
  pub cancelled : Bool
  pub in_flight : Bool
  pub has_fetched : Bool
  pub handle : Bool
  pub others : ℕ
  pub requests : ℕ

-- schedule
unfoldable pub schedule : Effect → Effect
schedule e =
    if e.cancelled
    then e
    else record e { others = if e.handle then e.others + 1 else e.others; handle = true }

-- tick, up to the call of the fetcher
unfoldable pub tick : Bool → Effect → Effect
unfolding schedule
tick hidden e =
    if e.cancelled || e.in_flight
    then e
    else if hidden && e.has_fetched
    then schedule e
    else record e { in_flight = true; has_fetched = true; requests = e.requests + 1 }

-- tick, from the finally block
unfoldable pub settle : Effect → Effect
unfolding schedule
settle e = schedule (record e { in_flight = false; requests = e.requests - 1 })

unfoldable pub on_visibility_change : Bool → Effect → Effect
unfolding tick
on_visibility_change hidden e =
    if not hidden && not e.in_flight then tick hidden (record e { handle = false }) else e

-- What the effect returns: its cleanup.
unfoldable pub cleanup : Effect → Effect
cleanup e = record e { cancelled = true; handle = false }

-- The effect's body, where it is enabled.
unfoldable pub start : ℕ → Bool → Effect
unfolding tick
start fetcher hidden = tick hidden (record {
  fetcher = fetcher;
  cancelled = false;
  in_flight = false;
  has_fetched = false;
  handle = false;
  others = 0;
  requests = 0;
})

pub record Snapshot (T : Type 0) : Type 0 where
  pub payload : Option T
  pub error : Option String
  pub loading : Bool
  pub fetcher : ℕ

module _ {T : Type 0} where
  unfoldable pub empty_state : ℕ → Snapshot T
  empty_state fetcher = record { payload = none; error = none; loading = true; fetcher = fetcher }

  unfoldable pub on_data : Effect → T → Snapshot T → Snapshot T
  on_data e d s =
      if e.cancelled
      then s
      else record { payload = some d; error = none; loading = false; fetcher = e.fetcher }

  unfoldable pub on_error : Effect → String → Snapshot T → Snapshot T
  on_error e message s = if e.cancelled then s else record {
    payload = if nat_eq s.fetcher e.fetcher then s.payload else none;
    error = some message;
    loading = false;
    fetcher = e.fetcher;
  }

-- The hook: its state, its arguments, the effect that is mounted and those that were cleaned up.
pub record Hook (T : Type 0) : Type 0 where
  pub state : Snapshot T
  pub fetcher : ℕ
  pub enabled : Bool
  pub hidden : Bool
  pub current : Option Effect
  pub retired : List Effect

unfoldable pub retire : Option Effect → List Effect → List Effect
unfolding cleanup
retire none es = es
retire (some e) es = cleanup e ∷ es

module _ {T : Type 0} where
  -- The cleanup and the next effect: the fetcher or `enabled` has changed, or `refresh` was called.
  unfoldable pub restart : ℕ → Bool → Hook T → Hook T
  unfolding retire start empty_state
  restart fetcher enabled h = record h {
    state = if enabled then h.state else empty_state fetcher;
    fetcher = fetcher;
    enabled = enabled;
    current = if enabled then some (start fetcher h.hidden) else none;
    retired = retire h.current h.retired;
  }

  -- usePolling, at its first render
  unfoldable pub first_render : ℕ → Bool → Bool → Hook T
  unfolding empty_state
  first_render fetcher enabled hidden = record {
    state = empty_state fetcher;
    fetcher = fetcher;
    enabled = enabled;
    hidden = hidden;
    current = none;
    retired = [];
  }

  -- and after its first effect
  unfoldable pub mount : ℕ → Bool → Bool → Hook T
  unfolding restart first_render
  mount fetcher enabled hidden = restart fetcher enabled (first_render fetcher enabled hidden)

  -- visibleState
  unfoldable pub visible_state : Hook T → Snapshot T
  unfolding empty_state
  visible_state h =
      if h.enabled && nat_eq h.state.fetcher h.fetcher then h.state else empty_state h.fetcher

  -- What may happen to an effect by itself, and to the state with it: a timer fires, or the request
  -- is settled with data that its fetcher gives, or with an error.
  pub data Move (Gives : ℕ → T → Type 0) (hidden : Bool) (e e' : Effect) (s s' : Snapshot T)
      : Type 0 where
    fire :
        e.handle ≡ true
        → e' ≡ tick hidden (record e { handle = false })
        → s' ≡ s
        → Move Gives hidden e e' s s'
    fire_other :
        0 < e.others
        → e' ≡ tick hidden (record e { others = e.others - 1 })
        → s' ≡ s
        → Move Gives hidden e e' s s'
    answer :
        (d : T)
        → 0 < e.requests
        → Gives e.fetcher d
        → e' ≡ settle e
        → s' ≡ on_data e d s
        → Move Gives hidden e e' s s'
    fail :
        (message : String)
        → 0 < e.requests
        → e' ≡ settle e
        → s' ≡ on_error e message s
        → Move Gives hidden e e' s s'

  -- A step of the page: the mounted effect or one of the others moves, the tab is hidden or shown,
  -- or the hook restarts.
  pub data Step (Gives : ℕ → T → Type 0) (h h' : Hook T) : Type 0 where
    mounted :
        (e e' : Effect) (s' : Snapshot T)
        → h.current ≡ some e
        → Move Gives h.hidden e e' h.state s'
        → h' ≡ record h { state = s'; current = some e' }
        → Step Gives h h'
    unmounted :
        (before after : List Effect) (e e' : Effect) (s' : Snapshot T)
        → h.retired ≡ before ++ e ∷ after
        → Move Gives h.hidden e e' h.state s'
        → h' ≡ record h { state = s'; retired = before ++ e' ∷ after }
        → Step Gives h h'
    visibility :
        (hidden : Bool) (e : Effect)
        → h.current ≡ some e
        → h' ≡ record h { hidden = hidden; current = some (on_visibility_change hidden e) }
        → Step Gives h h'
    unseen :
        (hidden : Bool) → h.current ≡ none → h' ≡ record h { hidden = hidden } → Step Gives h h'
    restarted : (fetcher : ℕ) (enabled : Bool) → h' ≡ restart fetcher enabled h → Step Gives h h'

  pub data Reach (Gives : ℕ → T → Type 0) (fetcher : ℕ) (enabled hidden : Bool)
      : Hook T → Type 0 where
    here : Reach Gives fetcher enabled hidden (mount fetcher enabled hidden)
    next :
        {h h' : Hook T}
        → Reach Gives fetcher enabled hidden h
        → Step Gives h h'
        → Reach Gives fetcher enabled hidden h'

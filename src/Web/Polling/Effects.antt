-- ===== src/Web/Polling/Effects.antt =====
-- apps/web/lib/use-polling.ts: the requests and timers of one effect.
use slasettle_hub.Prelude.{
  ℕ, ◌+◌, ◌<◌, List, Bool, true, false, Option, none, some, ◌≡◌, All, arith, if◌then◌else◌,
}
use slasettle_hub.Web.Polling.{
  Effect, schedule, tick, settle, on_visibility_change, cleanup, start, retire,
}

-- One flag as a count.
abbrev pub count_of : Bool → ℕ
count_of b = if b then 1 else 0

-- An effect has one request in flight exactly when it says so, and no timer that it does not hold.
-- It holds a timer exactly while it is mounted and nothing is in flight.
pub record IsSound (e : Effect) : Type 0 where
  pub one_request : e.requests ≡ count_of e.in_flight
  pub no_stray_timer : e.others ≡ 0
  pub stopped : e.cancelled ≡ true → e.handle ≡ false
  pub alive : e.cancelled ≡ false → count_of e.handle + e.requests ≡ 1

pub record IsRetired (e : Effect) : Type 0 where
  pub sound : IsSound e
  pub is_cancelled : e.cancelled ≡ true

abbrev pub IsMounted : Option Effect → Bool → Type 0
IsMounted none enabled = enabled ≡ false
IsMounted (some e) enabled = IsSound e × (e.cancelled ≡ false) × (enabled ≡ true)

-- A timer of a sound effect fires.
pub tick-IsSound :
    (hidden : Bool) (e : Effect)
    → IsSound e
    → e.handle ≡ true
    → IsSound (tick hidden (record e { handle = false }))
unfolding tick schedule
tick-IsSound hidden e v held = ground arith

pub settle-IsSound : (e : Effect) → IsSound e → 0 < e.requests → IsSound (settle e)
unfolding settle schedule
settle-IsSound e v requested = ground arith

pub on_visibility_change-IsSound :
    (hidden : Bool) (e : Effect)
    → IsSound e
    → e.cancelled ≡ false
    → IsSound (on_visibility_change hidden e)
unfolding on_visibility_change schedule tick
on_visibility_change-IsSound hidden e v live = ground arith

cleanup-IsRetired : (e : Effect) → IsSound e → IsRetired (cleanup e)
unfolding cleanup
cleanup-IsRetired e v = ground arith

pub start-IsSound : (fetcher : ℕ) (hidden : Bool) → IsSound (start fetcher hidden)
unfolding start schedule
start-IsSound fetcher hidden = ground arith

pub settle_cancelled : (e : Effect) → (settle e).cancelled ≡ e.cancelled
unfolding settle schedule
settle_cancelled e = ground arith

pub tick_cancelled : (hidden : Bool) (e : Effect) → (tick hidden e).cancelled ≡ e.cancelled
unfolding tick schedule
tick_cancelled hidden e = ground arith

pub visibility_cancelled :
    (hidden : Bool) (e : Effect) → (on_visibility_change hidden e).cancelled ≡ e.cancelled
unfolding on_visibility_change schedule tick
visibility_cancelled hidden e = ground arith

pub start_mounted : (fetcher : ℕ) (hidden : Bool) → (start fetcher hidden).cancelled ≡ false
unfolding start schedule
start_mounted fetcher hidden = ground arith

abbrev pub AreSound : Option Effect → Type 0
AreSound none = Unit
AreSound (some e) = IsSound e

pub IsMounted-AreSound : (o : Option Effect) (enabled : Bool) → IsMounted o enabled → AreSound o
IsMounted-AreSound none enabled m = tt
IsMounted-AreSound (some e) enabled m = m.0

pub retire-IsRetired :
    (o : Option Effect) (es : List Effect)
    → AreSound o
    → All IsRetired es
    → All IsRetired (retire o es)
unfolding retire
retire-IsRetired none es m h = h
retire-IsRetired (some e) es m h = (cleanup-IsRetired e m, h)

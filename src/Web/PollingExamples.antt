-- ===== src/Web/PollingExamples.antt =====
-- A concrete history of apps/web/lib/use-polling.ts: an answer, a new fetcher, and a late answer.
use slasettle_hub.Prelude.{ℕ, ◌+◌, [], true, false, none, some, ◌≡◌, refl, arith}
use slasettle_hub.Web.Polling.{
  Effect, Hook, tick, settle, start, restart, mount, first_render, retire, on_data, schedule,
  visible_state, empty_state, answer, mounted, restarted, Reach, here, next,
}
use slasettle_hub.Web.Polling.Overlap.{IsHealthy, Reach-IsHealthy}
use slasettle_hub.Web.Polling.Freshness.{visible_state-Gives}

-- Fetcher `f` answers `f + 100`.
abbrev Gives : ℕ → ℕ → Type 0
Gives f d = d ≡ f + 100

abbrev polling : Effect
polling = record {
  fetcher = 1;
  cancelled = false;
  in_flight = true;
  has_fetched = true;
  handle = false;
  others = 0;
  requests = 1;
}

abbrev waiting : Effect
waiting = record polling { in_flight = false; requests = 0; handle = true }

abbrev answered : Hook ℕ
answered = record {
  state = record { payload = some 101; error = none; loading = false; fetcher = 1 };
  fetcher = 1;
  enabled = true;
  hidden = false;
  current = some waiting;
  retired = [];
}

Reach-answered : Reach Gives 1 true false answered
unfolding mount restart first_render start tick retire empty_state settle schedule on_data
Reach-answered =
    next here
      (mounted polling waiting answered.state refl (answer 101 (omega arith) refl refl refl) refl)

Reach-IsHealthy_example : IsHealthy answered
Reach-IsHealthy_example = Reach-IsHealthy Reach-answered

visible_state-Gives_example : Gives 1 101 × (answered.enabled ≡ true)
unfolding visible_state
visible_state-Gives_example = visible_state-Gives Gives Reach-answered refl

-- The first request is still in flight when the fetcher changes.
abbrev switched : Hook ℕ
switched = restart 2 true (mount 1 true false)

Reach-switched : Reach Gives 1 true false switched
Reach-switched = next here (restarted 2 true refl)

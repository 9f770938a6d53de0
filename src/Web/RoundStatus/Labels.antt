-- ===== src/Web/RoundStatus/Labels.antt =====
-- apps/web/lib/use-round-status.ts: the round that a view is about.
use slasettle_hub.Prelude.{
  ℕ, String, none, some, nat_eq, ◌≡◌, ◌≢◌, refl, ◌⊎◌, arith, Bool-cases, inl, inr,
}
use slasettle_hub.Js.{ℤ}
use slasettle_hub.Web.Reads.{ReadError, Read, thrown, got, describe_read_error}
use slasettle_hub.Web.Client.{Browser}
use slasettle_hub.Web.Client.Watchers.{CurrentRound, get_current_round}
use slasettle_hub.Web.Client.Endpoints.{Clock, get_clock}
use slasettle_hub.Web.RoundStatus.{
  AsOfSource, ledger, round_start, RoundReads, RoundStatusView, source_of, unavailable,
  no_round_message, watcher_views, watchers_of, loaded, from_clock, from_round_start, label_of,
  tally_of, settled_of, round_status, fetch_round_status,
}

-- A view of a round, with the reads of that round.
abbrev IsAbout : RoundReads → RoundStatusView → ℕ → Type 0
IsAbout reads v id =
    (v.round_id ≡ some id)
    × (v.tally ≡ source_of (reads.get_round_tally id))
    × (v.settled ≡ source_of (reads.is_round_settled id))

abbrev IsAsOf : RoundStatusView → String → AsOfSource → Type 0
IsAsOf v time source = (v.as_of ≡ some time) × (v.as_of_source ≡ some source)

-- The clock was not read, or names another round than `r`.
abbrev pub HasOtherRound : Read Clock → CurrentRound → Type 0
HasOtherRound (got c) r = c.current_round_id ≢ r.round_id
HasOtherRound (thrown e) r = Unit

-- The time of a view of the round `r`: the clock's if it names that round, and only else the round's
-- start.
abbrev IsTimed : Read Clock → CurrentRound → RoundStatusView → Type 0
IsTimed clock r v =
    ((c : Clock) × (clock ≡ got c)
      × (c.current_round_id ≡ r.round_id)
      × IsAsOf v c.ledger_close_time ledger)
    ⊎ (HasOtherRound clock r × IsAsOf v r.round_started_at round_start)

-- What a view shows, by what the clock and the current round were read as.
abbrev pub IsLabelled : RoundReads → Read Clock → Read CurrentRound → RoundStatusView → Type 0
IsLabelled reads clock current v =
    ((r : CurrentRound) × (current ≡ got r)
      × IsAbout reads v r.round_id
      × (v.watchers ≡ loaded (watcher_views r))
      × IsTimed clock r v)
    ⊎ ((c : Clock) × (e : ReadError) × ((clock ≡ got c) × (current ≡ thrown e))
        × IsAbout reads v c.current_round_id
        × (v.watchers ≡ unavailable (describe_read_error e))
        × IsAsOf v c.ledger_close_time ledger)
    ⊎ ((d : ReadError) × (e : ReadError) × ((clock ≡ thrown d) × (current ≡ thrown e))
        × ((v.round_id ≡ none) × (v.as_of ≡ none))
        × (v.tally ≡ unavailable (describe_read_error d))
        × (v.settled ≡ unavailable (describe_read_error d)))

-- A clock of the round `r` times it; any other does not.
round_status-IsTimed :
    (reads : RoundReads) (c : Clock) (r : CurrentRound)
    → IsAbout reads (round_status reads (got c) (got r)) r.round_id
      × IsTimed (got c) r (round_status reads (got c) (got r))
unfolding round_status label_of tally_of settled_of from_round_start
round_status-IsTimed reads c r = elim (Bool-cases (nat_eq c.current_round_id r.round_id)) [
  | inl same ↦ rw same ((refl, refl, refl), inl (c, refl, ground arith, (refl, refl)))
  | inr other ↦ rw other ((refl, refl, refl), inr (ground arith, (refl, refl)))
]

round_status-IsLabelled :
    (reads : RoundReads) (clock : Read Clock) (current : Read CurrentRound)
    → IsLabelled reads clock current (round_status reads clock current)
unfolding round_status label_of tally_of settled_of watchers_of from_clock from_round_start
    no_round_message
round_status-IsLabelled reads (got c) (got r) =
    let (about, timed) = round_status-IsTimed reads c r in inl (r, refl, about, refl, timed)
round_status-IsLabelled reads (thrown e) (got r) =
    inl (r, refl, (refl, refl, refl), refl, inr (tt, (refl, refl)))
round_status-IsLabelled reads (got c) (thrown e) =
    inr (inl (c, e, (refl, refl), (refl, refl, refl), refl, (refl, refl)))
round_status-IsLabelled reads (thrown d) (thrown e) =
    inr (inr (d, e, (refl, refl), (refl, refl), refl, refl))

-- A view of the current round never mixes rounds. If the current round was read, the view has its id and
-- its watchers, and the tally and the settled flag are those of that id; the time shown is the clock's
-- close time if the clock names the same round, and else the round's start. If only the clock was read,
-- the view is about the clock's round, as of its close time, and only the watchers are unavailable. If
-- neither was, there is no round and no time.
pub fetch_round_status-IsLabelled :
    (reads : RoundReads) (for_clock for_round : Browser) (sla_id : ℤ)
    → IsLabelled reads
        (get_clock for_clock)
        (get_current_round for_round sla_id)
        (fetch_round_status reads for_clock for_round sla_id)
unfolding fetch_round_status
fetch_round_status-IsLabelled reads for_clock for_round sla_id =
    round_status-IsLabelled reads (get_clock for_clock) (get_current_round for_round sla_id)

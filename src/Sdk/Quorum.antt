-- ===== src/Sdk/Quorum.antt =====
-- packages/sdk/src/quorum.ts. Votes and thresholds are u32 on the chain: natural numbers.
use slasettle_hub.Prelude.{ℕ, ◌+◌, ◌-◌, ◌≤◌, Bool, true, ◌≡◌, ◌↔◌, if◌then◌else◌, leb, arith}

pub record RoundTally : Type 0 where
  pub votes_up : ℕ
  pub votes_down : ℕ

pub record QuorumStatus : Type 0 where
  pub votes_down : ℕ
  pub quorum_threshold : ℕ
  pub reached : Bool
  pub remaining : ℕ

unfoldable pub derive_quorum : RoundTally → ℕ → QuorumStatus
derive_quorum tally threshold =
    let reached = leb threshold tally.votes_down in
    record {
      votes_down = tally.votes_down;
      quorum_threshold = threshold;
      reached = reached;
      remaining = if reached then 0 else threshold - tally.votes_down;
    }

-- A tally after some more Down votes.
abbrev pub more_down : ℕ → RoundTally → RoundTally
more_down n tally = record tally { votes_down = tally.votes_down + n }

-- Quorum is reached after `remaining` more Down votes and not before, whatever the Up votes are.
pub derive_quorum-remaining :
    (tally : RoundTally) (threshold n : ℕ)
    → ((derive_quorum (more_down n tally) threshold).reached ≡ true)
      ↔ ((derive_quorum tally threshold).remaining ≤ n)
unfolding derive_quorum
derive_quorum-remaining tally threshold n = (λ h. ground arith, λ h. ground arith)

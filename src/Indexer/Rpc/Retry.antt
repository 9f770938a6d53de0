-- ===== src/Indexer/Rpc/Retry.antt =====
-- When a request is retried, and how often.
use slasettle_hub.Prelude.{
  ℕ, zero, suc, ◌+◌, ◌*◌, ◌≤◌, ◌<◌, List, [], ◌∷◌, true, ◌≡◌, ◌⊎◌, inl, inr, refl, arith, length,
  Bool-cases, sym, nat_eq,
}
use slasettle_hub.Js.{Value}
use slasettle_hub.Indexer.Rpc.{
  Outcome, resolved, rejected, is_transient_network_error, Retried, retry_attempts,
  retry_base_delay_ms, after_pause, retry_from, with_network_retry,
}

-- A network failure, after which the call is tried again.
abbrev pub IsTransient {ℓ} : {A : Type ℓ} → Outcome A → Type 0
IsTransient (resolved a) = ⊥
IsTransient (rejected e) = is_transient_network_error e ≡ true

-- The attempts from `k` on, one for each pause, all failed on the network.
abbrev AllTransient {ℓ} : {A : Type ℓ} → (ℕ → Outcome A) → ℕ → List ℕ → Type 0
AllTransient fn k [] = Unit
AllTransient fn k (p ∷ ps) =
    IsTransient (fn k) × (p ≡ retry_base_delay_ms * k) × AllTransient fn (k + 1) ps

-- The call ends with the attempt `k`, the last that is made.
pub record EndsAt {ℓ} {A : Type ℓ} (fn : ℕ → Outcome A) (first : ℕ) (r : Retried A) : Type ℓ where
  pub outcome : r.outcome ≡ fn (first + length r.pauses)
  pub within : first + length r.pauses ≤ retry_attempts
  pub before : AllTransient fn first r.pauses
  pub decided :
      (first + length r.pauses ≡ retry_attempts) ⊎ ¬ IsTransient (fn (first + length r.pauses))

Outcome-cases {ℓ} :
    {A : Type ℓ} (o : Outcome A) → ((a : A) × (o ≡ resolved a)) ⊎ ((e : Value) × (o ≡ rejected e))
Outcome-cases (resolved a) = inl (a, refl)
Outcome-cases (rejected e) = inr (e, refl)

module _ {A : Type 0} (fn : ℕ → Outcome A) where
  -- A call that stops at attempt `k`.
  EndsAt-now :
      (k : ℕ) (o : Outcome A)
      → fn k ≡ o
      → k ≤ retry_attempts
      → (k ≡ retry_attempts) ⊎ ¬ IsTransient o
      → EndsAt fn k (record { outcome = o; pauses = [] })
  EndsAt-now k o e within decided =
      let z : k + 0 ≡ k = omega arith in
      record {
        outcome = rw z (sym e);
        within = omega arith;
        before = tt;
        decided = rw (z, e) decided;
      }

  -- A call that pauses after attempt `k` and goes on.
  EndsAt-later :
      (k : ℕ) (r : Retried A)
      → IsTransient (fn k)
      → EndsAt fn (k + 1) r
      → EndsAt fn k (after_pause (retry_base_delay_ms * k) r)
  unfolding after_pause
  EndsAt-later k r failed later =
      let z : k + suc (length r.pauses) ≡ k + 1 + length r.pauses = omega arith in
      record {
        outcome = rw z later.outcome;
        within = rw z later.within;
        before = (failed, refl, later.before);
        decided = rw z later.decided;
      }

  retry_from-EndsAt :
      (left k : ℕ) → k + left ≡ retry_attempts + 1 → 0 < left → EndsAt fn k (retry_from left k fn)
  unfolding retry_from
  retry_from-EndsAt zero k e pos = absurd (omega arith)
  retry_from-EndsAt (suc left) k e pos = elim (Outcome-cases (fn k)) [
    | inl (a, done) ↦
        rw (done, retry_from) (EndsAt-now k (resolved a) done (omega arith) (inr (λ h. h)))
    | inr (v, failed) ↦ elim (Bool-cases (is_transient_network_error v)) [
      | inr final ↦
          rw (failed, final, retry_from)
            (EndsAt-now k (rejected v) failed (omega arith) (inr (λ h. cc)))
      | inl transient ↦ elim (Bool-cases (nat_eq k retry_attempts)) [
        | inl last ↦
            rw (failed, transient, last, retry_from)
              (EndsAt-now k (rejected v) failed (omega arith) (inl (ground arith)))
        | inr more ↦
            rw (failed, transient, more, retry_from)
              (EndsAt-later k (retry_from left (k + 1) fn) (rw failed transient)
                (retry_from-EndsAt left (k + 1) (omega arith) (ground arith)))
      ]
    ]
  ]

  -- A retried call ends with one of its first three attempts: every attempt before it failed on the
  -- network and was followed by a pause of 250 ms times its number, and it is the third attempt or
  -- did not fail on the network. It never ends in the source's "unreachable" error.
  pub with_network_retry-EndsAt : EndsAt fn 1 (with_network_retry fn)
  unfolding with_network_retry
  with_network_retry-EndsAt = retry_from-EndsAt retry_attempts 1 refl (omega arith)

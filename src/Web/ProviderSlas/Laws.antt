-- ===== src/Web/ProviderSlas/Laws.antt =====
-- apps/web/lib/use-provider-slas.ts: which SLAs are listed, and when the retries stop.
use slasettle_hub.Prelude.{
  ℕ, zero, suc, ◌+◌, ◌≤◌, ◌<◌, String, List, [], ◌∷◌, map, Bool, true, false, not, ◌||◌, ltb, leb,
  keep_if, ◌≡◌, refl, arith, Bool-cases, inl, inr, ◌⊎◌,
}
use slasettle_hub.Web.Reads.{Read, thrown, got, Read-cases}
use slasettle_hub.Web.Client.{Browser}
use slasettle_hub.Web.Client.Requests.{PagedResult}
use slasettle_hub.Web.Client.Endpoints.{ProviderSlaSummary, get_provider_slas}
use slasettle_hub.Web.ProviderSlas.{
  ProviderSlaView, ProviderSlaFailure, ProviderSlaResult, ChainReads, promise_all, read_sla,
  outcome_of, read_summary, add_outcome, split_outcomes, fetch_provider_slas, indexing_retry_limit,
  retries_from, refresh_after_create,
}

unfoldable pub is_got {ℓ} : {A : Type ℓ} → Read A → Bool
is_got (got a) = true
is_got (thrown e) = false

abbrev pub ids : List ProviderSlaSummary → List ℕ
ids xs = map (λ (s : ProviderSlaSummary). s.sla_id) xs

abbrev pub view_ids : List ProviderSlaView → List ℕ
view_ids vs = map (λ (v : ProviderSlaView). v.sla_id) vs

abbrev pub failure_ids : List ProviderSlaFailure → List ℕ
failure_ids fs = map (λ (f : ProviderSlaFailure). f.sla_id) fs

cons_eq : {x y : ℕ} {xs ys : List ℕ} → x ≡ y → xs ≡ ys → x ∷ xs ≡ y ∷ ys
cons_eq h k = cc

module _ (reads : ChainReads) where
  -- The ids of the summaries whose reads all succeed.
  abbrev pub readable : ProviderSlaSummary → Bool
  readable s = is_got (read_sla reads s.sla_id)

  read_sla-sla_id :
      (id : ℕ) (view : ProviderSlaView) → read_sla reads id ≡ got view → view.sla_id ≡ id
  unfolding read_sla
  read_sla-sla_id id view h =
      elim (Read-cases
        (promise_all (reads.bond_first id) (reads.get_sla id) (reads.get_bond_balance id))) [
          | inr (e, k) ↦ let bad = simp k at h in cc
          | inl (first, k) ↦
              let rest = simp k at h in
              elim (Read-cases (
                promise_all (reads.symbol_first first.0.token)
                  (reads.get_token_decimals first.0.token)
                  (reads.get_token_symbol first.0.token))) [
                    | inr (e, j) ↦ let bad = simp j at rest in cc
                    | inl (metadata, j) ↦ let last = simp j at rest in cc
                  ]
        ]

  split_outcomes-ids :
      (xs : List ProviderSlaSummary)
      → (view_ids (split_outcomes (map (read_summary reads) xs)).slas ≡ ids (keep_if readable xs))
        × (failure_ids (split_outcomes (map (read_summary reads) xs)).failures
            ≡ ids (keep_if (λ s. not (readable s)) xs))
  unfolding split_outcomes read_summary outcome_of add_outcome is_got
  split_outcomes-ids [] = (refl, refl)
  split_outcomes-ids (x ∷ xs) =
      let (slas, failures) = split_outcomes-ids xs in
      elim (Read-cases (read_sla reads x.sla_id)) [
        | inl (view, h) ↦ rw h (cons_eq (read_sla-sla_id x.sla_id view h) slas, failures)
        | inr (e, h) ↦ rw h (slas, cons_eq refl failures)
      ]

  -- Of the SLAs that the indexer lists for a provider, those whose reads all succeed are shown, in
  -- the order of the indexer, and every other one is reported as a failure under its own id: a
  -- failing read hides no other SLA.
  pub fetch_provider_slas-ids :
      (browser : Browser) (address : String) (page : PagedResult ProviderSlaSummary)
      → get_provider_slas browser address ≡ got page
      → (r : ProviderSlaResult) × (fetch_provider_slas browser reads address ≡ got r)
        × (view_ids r.slas ≡ ids (keep_if readable page.items))
        × (failure_ids r.failures ≡ ids (keep_if (λ s. not (readable s)) page.items))
  unfolding fetch_provider_slas
  fetch_provider_slas-ids browser address page h =
      let (slas, failures) = split_outcomes-ids page.items in
      (split_outcomes (map (read_summary reads) page.items), rw h refl, slas, failures)

retries_from-stops :
    (base : ℕ) (counts : ℕ → ℕ) (fuel n : ℕ)
    → fuel + n ≡ indexing_retry_limit
    → (retries_from base counts fuel n ≤ indexing_retry_limit)
      × ((base < counts (retries_from base counts fuel n))
          ⊎ (retries_from base counts fuel n ≡ indexing_retry_limit))
unfolding retries_from
retries_from-stops base counts zero n h = (omega arith, inr (omega arith))
retries_from-stops base counts (suc fuel) n h =
    elim (Bool-cases (ltb base (counts n) || leb indexing_retry_limit n)) [
      | inl stop ↦
          let reason : (base < counts n) ⊎ (n ≡ indexing_retry_limit) =
            elim (Bool-cases (ltb base (counts n))) [
              | inl grown ↦ inl (ground arith)
              | inr same ↦ inr (ground arith)
            ] in
          rw stop (omega arith, reason)
      | inr more ↦ rw more (retries_from-stops base counts fuel (n + 1) (omega arith))
    ]

-- The retries after a creation end: there are at most 18, and fewer only if the last read shows more
-- SLAs than were there when the creation was confirmed.
pub refresh_after_create_stops :
    (base : ℕ) (counts : ℕ → ℕ)
    → (refresh_after_create base counts ≤ indexing_retry_limit)
      × ((base < counts (refresh_after_create base counts))
          ⊎ (refresh_after_create base counts ≡ indexing_retry_limit))
unfolding refresh_after_create
refresh_after_create_stops base counts =
    retries_from-stops base counts indexing_retry_limit 0 (omega arith)

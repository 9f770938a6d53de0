-- ===== src/Indexer/Api/Methods.antt =====
-- How the worker answers HEAD.
use slasettle_hub.Prelude.{
  ℕ, String, none, ok, ◌>>=◌, ◌≡◌, refl, if◌then◌else◌, Bool-cases, Result-cases, nat_eq, inl, inr,
}
use slasettle_hub.Js.{Runtime}
use slasettle_hub.Indexer.Tables.{Tables}
use slasettle_hub.Indexer.Api.{Codec}
use slasettle_hub.Indexer.Api.Worker.{
  Route, health, watchers, clock, round_of, settlements_of, lifecycle_of, slas_of, unknown, Request,
  Reply, reply_of, respond, handle_request, route_of_segments, segments,
}

module _ (js : Runtime) (codec : Codec) where
  -- The answer to the same request by HEAD.
  abbrev pub without_body : Reply codec → Reply codec
  without_body r = if nat_eq r.status 404 then r else record r { body = none }

  respond-method :
      (route : Route) (round_length : ℕ) (request : Request codec) (m : String) (t : Tables)
      → respond js codec route round_length (record request { method = m }) t
        ≡ respond js codec route round_length request t
  unfolding respond
  respond-method health n request m t = refl
  respond-method watchers n request m t = refl
  respond-method clock n request m t = refl
  respond-method (round_of sla_id) n request m t = refl
  respond-method (settlements_of sla_id) n request m t = refl
  respond-method (lifecycle_of sla_id) n request m t = refl
  respond-method (slas_of address) n request m t = refl
  respond-method unknown n request m t = refl

  -- A HEAD request is answered as the GET request to the same path, without its body but for an
  -- unknown path, and it fails where the GET request fails.
  pub handle_request-method :
      (round_length : ℕ) (request : Request codec) (t : Tables)
      → handle_request js codec round_length (record request { method = "HEAD" }) t ≡ (
          handle_request js codec round_length (record request { method = "GET" }) t >>= λ (r, t').
          ok (without_body r, t'))
  unfolding handle_request reply_of
  handle_request-method n request t =
      let route = route_of_segments (segments request.path) in
      rw (respond-method route n request "HEAD" t, respond-method route n request "GET" t)
        (elim (Result-cases (respond js codec route n request t)) [
          | inr (e, failed) ↦ rw failed refl
          | inl (((status, body), t'), answered) ↦
              rw answered (elim (Bool-cases (nat_eq status 404)) [
                | inl missing ↦ rw missing refl
                | inr found ↦ rw found refl
              ])
        ])

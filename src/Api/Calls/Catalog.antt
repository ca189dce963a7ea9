-- ===== src/Api/Calls/Catalog.antt =====
-- web/src/lib/api.ts: the requests about the service catalog and the release gates.
use meergate.Base.{String, join, Bool, Option, none, some, [], ◌∷◌, or_else}
use meergate.Base.Outcome.{Outcome}
use meergate.Api.{Browser, fetch_json, plain_get, bare, truthy_text}
use meergate.Api.Calls.{Server, whole, object, text, flag, value, given, sending, call}

module _ {V : Type 0} (s : Server V) where
  unfoldable pub sync_all_catalog : Browser → Outcome V × Browser
  unfolding fetch_json
  sync_all_catalog b = call s (bare "POST") ("/api/catalog/sync") b

  unfoldable pub sync_one_catalog : String → Browser → Outcome V × Browser
  unfolding fetch_json
  sync_one_catalog id b = call s (bare "POST") (join "/api/catalog/sync/" (s.encode_component id)) b

  unfoldable pub add_catalog_target : V → Browser → Outcome V × Browser
  unfolding fetch_json
  add_catalog_target entry b = call s (sending s "POST" (whole entry)) ("/api/catalog/targets") b

  unfoldable pub delete_catalog_target : String → Browser → Outcome V × Browser
  unfolding fetch_json
  delete_catalog_target id b =
      call s (bare "DELETE") (join "/api/catalog/targets?id=" (s.encode_component id)) b

  unfoldable pub discover_catalog_target : String → Bool → Option V → Browser → Outcome V × Browser
  unfolding fetch_json
  discover_catalog_target target tls services b =
      call s
        (sending s "POST" (
          object (
            ("target", some (text target))
            ∷ ("tls", some (flag tls))
            ∷ ("services", given services)
            ∷ [])))
        ("/api/catalog/discover") b

  unfoldable pub preview_catalog_target : String → String → Bool → Browser → Outcome V × Browser
  unfolding fetch_json
  preview_catalog_target protocol target tls b =
      call s
        (sending s "POST" (
          object (
            ("protocol", some (text protocol))
            ∷ ("target", some (text target))
            ∷ ("tls", some (flag tls))
            ∷ [])))
        ("/api/catalog/preview") b

  unfoldable pub fetch_coverage : Browser → Outcome V × Browser
  unfolding fetch_json
  fetch_coverage b = call s plain_get ("/api/catalog/coverage") b

  unfoldable pub fetch_health_history : String → Browser → Outcome V × Browser
  unfolding fetch_json
  fetch_health_history id b =
      call s plain_get (join "/api/catalog/" (join (s.encode_component id) "/health-history")) b

  unfoldable pub invoke_catalog_target : String → V → Browser → Outcome V × Browser
  unfolding fetch_json
  invoke_catalog_target id req b =
      call s (sending s "POST" (whole req))
        (join "/api/catalog/" (join (s.encode_component id) "/invoke")) b

  unfoldable pub import_catalog : String → V → Browser → Outcome V × Browser
  unfolding fetch_json
  import_catalog protocol imported b =
      call s
        (sending s "POST"
          (object (("protocol", some (text protocol)) ∷ ("data", some (value imported)) ∷ [])))
        ("/api/catalog/import") b

  unfoldable pub fetch_gates : Browser → Outcome V × Browser
  unfolding fetch_json
  fetch_gates b = call s plain_get ("/api/release-gates") b

  unfoldable pub fetch_gate : String → Browser → Outcome V × Browser
  unfolding fetch_json
  fetch_gate service_id b =
      call s plain_get (join "/api/release-gates/" (s.encode_component service_id)) b

  unfoldable pub create_candidate : String → V → Browser → Outcome V × Browser
  unfolding fetch_json
  create_candidate service_id candidate b =
      call s (sending s "POST" (whole candidate))
        (join "/api/release-gates/" (join (s.encode_component service_id) "/candidates")) b

  unfoldable pub evaluate_candidate : String → Browser → Outcome V × Browser
  unfolding fetch_json
  evaluate_candidate candidate_id b =
      call s (bare "POST")
        (join "/api/release-candidates/" (join (s.encode_component candidate_id) "/evaluate")) b

  unfoldable pub mark_baseline : String → Option String → Browser → Outcome V × Browser
  unfolding fetch_json
  mark_baseline service_id candidate_id b =
      call s
        (sending s "POST" (object (("candidate_id", some (text (or_else candidate_id ""))) ∷ [])))
        (join "/api/release-gates/" (join (s.encode_component service_id) "/baseline")) b

  unfoldable pub fetch_catalog : Option String → Browser → Outcome V × Browser
  unfolding fetch_json
  fetch_catalog protocol b =
      let qs : String = elim (truthy_text protocol) [ none ↦ "" | some p ↦ join "?protocol=" p ] in
      call s plain_get (join "/api/catalog" qs) b

  unfoldable pub check_catalog_health : Option String → Browser → Outcome V × Browser
  unfolding fetch_json
  check_catalog_health id b =
      let qs : String = elim (truthy_text id) [
        | none ↦ ""
        | some i ↦ join "?id=" (s.encode_component i)
      ] in
      call s (bare "POST") (join "/api/catalog/health" qs) b

-- ===== src/Api/Calls/Plans.antt =====
-- web/src/lib/api.ts: the requests about schedules, alert rules, templates, the builder and the AI.
use meergate.Base.{decimal, ◌++◌, ℕ, String, join, Option, none, some, List, [], ◌∷◌, if◌then◌else◌}
use meergate.Base.Outcome.{Outcome, thrown}
use meergate.Api.{
  Browser, FetchResult, aborted, failed, response, fetch_json, plain_get, with_params,
  get_auth_header,
}
use meergate.Api.Calls.{Server, whole, object, text, value, given, given_text, sending, call}

module _ {V : Type 0} (s : Server V) where
  unfoldable pub fetch_schedules : Browser → Outcome V × Browser
  unfolding fetch_json
  fetch_schedules b = call s plain_get ("/api/schedules") b

  unfoldable pub create_schedule_api : V → Browser → Outcome V × Browser
  unfolding fetch_json
  create_schedule_api schedule b = call s (sending s "POST" (whole schedule)) ("/api/schedules") b

  unfoldable pub update_schedule_api : String → V → Browser → Outcome V × Browser
  unfolding fetch_json
  update_schedule_api id schedule b =
      call s (sending s "PUT" (whole schedule)) (join "/api/schedules/" (s.encode_component id)) b

  unfoldable pub fetch_alert_rules : Browser → Outcome V × Browser
  unfolding fetch_json
  fetch_alert_rules b = call s plain_get ("/api/alerts") b

  unfoldable pub create_alert_rule_api : V → Browser → Outcome V × Browser
  unfolding fetch_json
  create_alert_rule_api rule b = call s (sending s "POST" (whole rule)) ("/api/alerts") b

  unfoldable pub update_alert_rule_api : String → V → Browser → Outcome V × Browser
  unfolding fetch_json
  update_alert_rule_api id rule b =
      call s (sending s "PUT" (whole rule)) (join "/api/alerts/" (s.encode_component id)) b

  unfoldable pub fetch_templates : Browser → Outcome V × Browser
  unfolding fetch_json
  fetch_templates b = call s plain_get ("/api/templates") b

  unfoldable pub fetch_environments : Browser → Outcome V × Browser
  unfolding fetch_json
  fetch_environments b = call s plain_get ("/api/environments") b

  unfoldable pub fetch_grpc_services : Browser → Outcome V × Browser
  unfolding fetch_json
  fetch_grpc_services b = call s plain_get ("/api/grpc/services") b

  unfoldable pub fetch_grpc_introspect : Browser → Outcome V × Browser
  unfolding fetch_json
  fetch_grpc_introspect b = call s plain_get ("/api/grpc/introspect") b

  unfoldable pub validate_manifest : V → Browser → Outcome V × Browser
  unfolding fetch_json
  validate_manifest manifest b =
      call s (sending s "POST" (whole manifest)) ("/api/builder/validate") b

  unfoldable pub save_manifest : V → Option String → Browser → Outcome V × Browser
  unfolding fetch_json
  save_manifest manifest filename b =
      call s
        (sending s "POST"
          (object (("manifest", some (value manifest)) ∷ ("filename", given_text filename) ∷ [])))
        ("/api/builder/save") b

  unfoldable pub export_yaml : V → Browser → Outcome V × Browser
  unfolding fetch_json
  export_yaml manifest b = call s (sending s "POST" (whole manifest)) ("/api/builder/export-yaml") b

  unfoldable pub fetch_ai_status : Browser → Outcome V × Browser
  unfolding fetch_json
  fetch_ai_status b = call s plain_get (join s.api_direct "/ai/status") b

  unfoldable pub ai_save : String → Browser → Outcome V × Browser
  unfolding fetch_json
  ai_save yaml b =
      call s (sending s "POST" (object (("yaml", some (text yaml)) ∷ [])))
        (join s.api_direct "/ai/save") b

  unfoldable pub ai_generate : String → Option V → Option String → Browser → Outcome V × Browser
  unfolding fetch_json
  ai_generate prompt history model b =
      call s
        (sending s "POST" (
          object (
            ("prompt", some (text prompt))
            ∷ ("history", given history)
            ∷ ("model", given_text model)
            ∷ [])))
        (join s.api_direct "/ai/generate") b

  unfoldable pub ai_debug_run : String → Browser → Outcome V × Browser
  unfolding fetch_json
  ai_debug_run run_id b =
      call s (sending s "POST" (object (("run_id", some (text run_id)) ∷ [])))
        (join s.api_direct "/ai/debug") b

  unfoldable pub ai_refine :
      String → String → Option V → Option String → Browser → Outcome V × Browser
  unfolding fetch_json
  ai_refine yaml prompt history model b =
      call s
        (sending s "POST" (
          object (
            ("yaml", some (text yaml))
            ∷ ("prompt", some (text prompt))
            ∷ ("history", given history)
            ∷ ("model", given_text model)
            ∷ [])))
        (join s.api_direct "/ai/refine") b

  abbrev optional_number : String → Option ℕ → List (String × String)
  optional_number k none = []
  optional_number k (some n) = (k, decimal n) ∷ []

  unfoldable pub fetch_alert_events : Option ℕ → Option ℕ → Browser → Outcome V × Browser
  unfolding fetch_json
  fetch_alert_events acknowledged limit b =
      call s plain_get
        (with_params s.fetch s.encode_query s.error_of "/api/alert-events"
          (optional_number "acknowledged" acknowledged ++ optional_number "limit" limit))
        b

  abbrev read_schema : FetchResult V → Outcome V
  read_schema aborted = thrown "The operation was aborted."
  read_schema (failed msg) = thrown msg
  read_schema (response r) = if r.is_ok then r.json else thrown "Failed to fetch schema"

  -- This request is not made by `fetchJSON`: an answer of 401 does not end the session.
  unfoldable pub fetch_manifest_schema : Browser → Outcome V × Browser
  fetch_manifest_schema b = (read_schema (s.fetch "/api/schema" plain_get (get_auth_header b)), b)

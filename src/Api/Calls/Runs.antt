-- ===== src/Api/Calls/Runs.antt =====
-- web/src/lib/api.ts: the requests about runs, sessions and their notes.
use meergate.Base.{
  ℕ, String, join, Bool, true, false, not, ◌||◌, Option, none, some, List, [], ◌∷◌, any, str_eq,
  if◌then◌else◌,
}
use meergate.Base.Outcome.{Outcome}
use meergate.Api.{Browser, fetch_json, plain_get, bare}
use meergate.Api.Calls.{
  Server, whole, object, Field, text, number, value, given, given_text, sending, call,
}

-- The context of a run: the fields that are given.
pub record RunContext : Type 0 where
  pub texts : List (String × Option String)
  pub run_tags : Option (List String)

-- `v !== undefined && v !== '' && (!Array.isArray(v) || v.length > 0)`.
abbrev pub is_given : Option String → Bool
is_given none = false
is_given (some v) = not (str_eq v "")

abbrev pub has_tags : Option (List String) → Bool
has_tags none = false
has_tags (some []) = false
has_tags (some (tag ∷ tags)) = true

unfoldable pub context_given : RunContext → Bool
context_given c = any (λ p. is_given p.1) c.texts || has_tags c.run_tags

-- `context_value` is the context as a value.
abbrev pub context_field : {V : Type 0} → (RunContext → V) → Option RunContext → Option (Field V)
context_field context_value none = none
context_field context_value (some c) =
    if context_given c then some (value (context_value c)) else none

pub record BatchOptions (V : Type 0) : Type 0 where
  pub suite : Option String
  pub tags : Option V
  pub mode : Option String
  pub context : Option V
  pub session_id : Option String

module _ {V : Type 0} (s : Server V) where
  unfoldable pub run_single_test :
      (RunContext → V)
      → String
      → Option String
      → Option V
      → Option RunContext
      → Option String
      → Option String
      → Browser
      → Outcome V × Browser
  unfolding fetch_json context_given
  run_single_test context_value test_id mode overrides context session_id run_id b =
      call s
        (sending s "POST" (
          object (
            ("test_id", some (text test_id))
            ∷ ("mode", given_text mode)
            ∷ ("overrides", given overrides)
            ∷ ("context", context_field context_value context)
            ∷ ("session_id", given_text session_id)
            ∷ ("run_id", given_text run_id)
            ∷ [])))
        "/api/runs" b

  unfoldable pub fetch_run_detail : String → Browser → Outcome V × Browser
  unfolding fetch_json
  fetch_run_detail id b = call s plain_get (join "/api/runs/" (s.encode_component id)) b

  unfoldable pub resume_run : String → ℕ → Option V → Browser → Outcome V × Browser
  unfolding fetch_json
  resume_run run_id from_step overrides b =
      call s
        (sending s "POST"
          (object (("from_step", some (number from_step)) ∷ ("overrides", given overrides) ∷ [])))
        (join "/api/runs/" (join (s.encode_component run_id) "/resume")) b

  unfoldable pub fetch_test_manifest : String → Browser → Outcome V × Browser
  unfolding fetch_json
  fetch_test_manifest id b = call s plain_get (join "/api/tests/" (s.encode_component id)) b

  unfoldable pub reload_tests : Browser → Outcome V × Browser
  unfolding fetch_json
  reload_tests b = call s (bare "POST") ("/api/tests/reload") b

  unfoldable pub run_batch : BatchOptions V → Browser → Outcome V × Browser
  unfolding fetch_json
  run_batch opts b =
      call s
        (sending s "POST" (
          object (
            ("suite", given_text opts.suite)
            ∷ ("tags", given opts.tags)
            ∷ ("mode", given_text opts.mode)
            ∷ ("context", given opts.context)
            ∷ ("session_id", given_text opts.session_id)
            ∷ [])))
        ("/api/runs/batch") b

  unfoldable pub fetch_session_detail : String → Browser → Outcome V × Browser
  unfolding fetch_json
  fetch_session_detail id b = call s plain_get (join "/api/sessions/" (s.encode_component id)) b

  unfoldable pub create_session_api : V → Browser → Outcome V × Browser
  unfolding fetch_json
  create_session_api session b = call s (sending s "POST" (whole session)) ("/api/sessions") b

  unfoldable pub update_session_api : String → V → Browser → Outcome V × Browser
  unfolding fetch_json
  update_session_api id session b =
      call s (sending s "PUT" (whole session)) (join "/api/sessions/" (s.encode_component id)) b

  unfoldable pub fetch_test_stats : String → Browser → Outcome V × Browser
  unfolding fetch_json
  fetch_test_stats test_id b =
      call s plain_get (join "/api/tests/" (join (s.encode_component test_id) "/stats")) b

  unfoldable pub fetch_run_notes : String → Browser → Outcome V × Browser
  unfolding fetch_json
  fetch_run_notes run_id b =
      call s plain_get (join "/api/runs/" (join (s.encode_component run_id) "/notes")) b

  unfoldable pub create_run_note : String → String → Browser → Outcome V × Browser
  unfolding fetch_json
  create_run_note run_id note b =
      call s (sending s "POST" (object (("text", some (text note)) ∷ [])))
        (join "/api/runs/" (join (s.encode_component run_id) "/notes")) b

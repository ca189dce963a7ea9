-- ===== src/Api.antt =====
-- web/src/lib/api.ts: `fetchJSON`, and the requests without a body. Parameters: `fetch` with the
-- reading of the answer as JSON, `URLSearchParams`, and the fields of a JSON value of type `V` that
-- the source reads; `error_of` is the field `error`, whose reading throws where the value is null.
pub mod Errors
pub mod Calls
use meergate.Base.{
  ℕ, String, join, decimal, Bool, true, false, ◌&&◌, Option, none, some, List, [], ◌∷◌, ◌++◌, ◌==◌,
  if◌then◌else◌, or_else, Dict, insert, str_eq, string_eq, is_some,
}
use meergate.Base.Outcome.{Outcome, resolved, thrown}

-- What the page keeps: the token in the local storage, and the location. On the server there is no
-- window.
pub record Browser : Type 0 where
  pub has_window : Bool
  pub auth_token : Option String
  pub location : String

pub record RequestInit : Type 0 where
  pub method : Option String
  pub headers : Dict String String
  pub body : Option String

pub record Response (V : Type 0) : Type 0 where
  pub status : ℕ
  pub is_ok : Bool
  -- `res.json()`.
  pub json : Outcome V

-- `fetch` is rejected by an abort, or by another error with its message.
pub data FetchResult (V : Type 0) : Type 0 where
  aborted : FetchResult V
  failed : String → FetchResult V
  response : Response V → FetchResult V

abbrev pub truthy_text : Option String → Option String
truthy_text none = none
truthy_text (some s) = if str_eq s "" then none else some s

-- Without a window there is no header, and the empty token is none.
unfoldable pub get_auth_header : Browser → Dict String String
get_auth_header b =
    if b.has_window
    then elim (truthy_text b.auth_token) [
      | none ↦ []
      | some t ↦ ("Authorization", join "Bearer " t) ∷ []
    ]
    else []

-- The spread of an object over another.
unfoldable pub spread : Dict String String → Dict String String → Dict String String
spread over [] = over
spread over ((k, v) ∷ more) = spread (insert k v over) more

unfoldable pub headers_of : Browser → RequestInit → Dict String String
unfolding get_auth_header spread
headers_of b init =
    let headers = spread (get_auth_header b) init.headers in
    if is_some (truthy_text init.body)
    then insert "Content-Type" "application/json" headers
    else headers

-- A 401 ends the session of the page.
abbrev pub sign_out : ℕ → Browser → Browser
sign_out status b =
    if (status == 401) && b.has_window
    then record b { auth_token = none; location = "/login" }
    else b

abbrev pub plain_get : RequestInit
plain_get = record { method = none; headers = []; body = none }

-- A request without a body, of which the answer is not used.
abbrev pub bare : String → RequestInit
bare method = record { method = some method; headers = []; body = none }

-- A parameter of a query that is set only if it is truthy.
abbrev pub text_param : String → Option String → List (String × String)
text_param k v = elim (truthy_text v) [ none ↦ [] | some s ↦ (k, s) ∷ [] ]

abbrev pub number_param : String → Option ℕ → List (String × String)
number_param k none = []
number_param k (some n) = if n == 0 then [] else (k, decimal n) ∷ []

pub record RunFilter : Type 0 where
  pub status : Option String
  pub test_id : Option String
  pub session_id : Option String
  pub environment : Option String
  pub trigger : Option String
  pub from : Option String
  pub to : Option String
  pub limit : Option ℕ
  pub offset : Option ℕ

-- The parameters of `fetchRuns`.
unfoldable pub run_query : RunFilter → List (String × String)
run_query f =
    text_param "status" f.status
    ++ (text_param "test_id" f.test_id
        ++ (text_param "session_id" f.session_id
            ++ (text_param "environment" f.environment
                ++ (text_param "trigger" f.trigger
                    ++ (text_param "from" f.from
                        ++ (text_param "to" f.to
                            ++ (number_param "limit" f.limit
                                ++ number_param "offset" f.offset)))))))

module _ {V : Type 0} (fetch : String → RequestInit → Dict String String → FetchResult V)
    (encode_query : List (String × String) → String) (error_of : V → Outcome (Option String)) where
  -- `body.error`, where the body is read as JSON or else is empty. Reading the field throws where
  -- the JSON is null.
  abbrev pub body_error : Outcome V → Outcome (Option String)
  body_error (thrown msg) = resolved none
  body_error (resolved v) = error_of v

  -- An answer that is not ok, by what the reading of its error comes to.
  abbrev pub refuse : ℕ → Outcome (Option String) → Browser → Outcome V × Browser
  refuse status (thrown msg) b = (thrown msg, b)
  refuse status (resolved error) b =
      (thrown (or_else (truthy_text error) (join "HTTP " (decimal status))), sign_out status b)

  abbrev pub read_response : FetchResult V → Browser → Outcome V × Browser
  read_response aborted b =
      (thrown "Request timed out (120s). AI model may be slow — try again.", b)
  read_response (failed msg) b =
      (thrown (join "Network error: " (join msg ". Is the API server running?")), b)
  read_response (response r) b =
      if r.is_ok then (r.json, b) else refuse r.status (body_error r.json) b

  unfoldable pub fetch_json : String → RequestInit → Browser → Outcome V × Browser
  unfolding headers_of
  fetch_json url init b = read_response (fetch url init (headers_of b init)) b

  abbrev pub with_params : String → List (String × String) → String
  with_params url params =
      let qs = encode_query params in if str_eq qs "" then url else join url (join "?" qs)

  -- `fetchTests`, `fetchRuns` and `fetchSessions`, up to the field `data` of the result.
  unfoldable pub fetch_tests : Option String → Option String → Browser → Outcome V × Browser
  unfolding fetch_json
  fetch_tests suite tag b =
      fetch_json (with_params "/api/tests" (text_param "suite" suite ++ text_param "tag" tag))
        plain_get b

  unfoldable pub fetch_runs : RunFilter → Browser → Outcome V × Browser
  unfolding fetch_json run_query
  fetch_runs f b = fetch_json (with_params "/api/runs" (run_query f)) plain_get b

  unfoldable pub fetch_sessions : Option ℕ → Option ℕ → Browser → Outcome V × Browser
  unfolding fetch_json
  fetch_sessions limit offset b =
      fetch_json
        (with_params "/api/sessions" (number_param "limit" limit ++ number_param "offset" offset))
        plain_get b

  module _ (encode_component : String → String) where
    unfoldable pub delete_test_api : String → Browser → Outcome V × Browser
    unfolding fetch_json
    delete_test_api id b = fetch_json (join "/api/tests/" (encode_component id)) (bare "DELETE") b

    unfoldable pub delete_run_api : String → Browser → Outcome V × Browser
    unfolding fetch_json
    delete_run_api id b = fetch_json (join "/api/runs/" (encode_component id)) (bare "DELETE") b

    unfoldable pub delete_schedule_api : String → Browser → Outcome V × Browser
    unfolding fetch_json
    delete_schedule_api id b =
        fetch_json (join "/api/schedules/" (encode_component id)) (bare "DELETE") b

    unfoldable pub trigger_schedule_api : String → Browser → Outcome V × Browser
    unfolding fetch_json
    trigger_schedule_api id b =
        fetch_json (join "/api/schedules/" (join (encode_component id) "/trigger")) (bare "POST") b

    unfoldable pub delete_alert_rule_api : String → Browser → Outcome V × Browser
    unfolding fetch_json
    delete_alert_rule_api id b =
        fetch_json (join "/api/alerts/" (encode_component id)) (bare "DELETE") b

    unfoldable pub ack_alert_event_api : String → Browser → Outcome V × Browser
    unfolding fetch_json
    ack_alert_event_api id b =
        fetch_json (join "/api/alert-events/" (join (encode_component id) "/ack")) (bare "POST") b

    unfoldable pub delete_session_api : String → Browser → Outcome V × Browser
    unfolding fetch_json
    delete_session_api id b =
        fetch_json (join "/api/sessions/" (encode_component id)) (bare "DELETE") b

    unfoldable pub delete_run_note : String → String → Browser → Outcome V × Browser
    unfolding fetch_json
    delete_run_note run_id note_id b =
        fetch_json
          (join "/api/runs/"
            (join (encode_component run_id) (join "/notes/" (encode_component note_id))))
          (bare "DELETE") b

-- The values that a flag of a row can have.
pub data Flag : Type 0 where
  flag : Bool → Flag
  number : ℕ → Flag
  text : String → Flag
  absent : Flag

-- `raw.enabled === true || raw.enabled === 1 || raw.enabled === '1'`.
unfoldable pub normalize_flag : Flag → Bool
normalize_flag (flag b) = b
normalize_flag (number n) = n == 1
normalize_flag (text s) = str_eq s "1"
normalize_flag absent = false

-- `JSON.parse` is the parameter: the array of a text, if it is one.
unfoldable pub parse_json_array :
    (String → Option (List String)) → Option (List String) → Option String → List String
parse_json_array parse (some items) s = items
parse_json_array parse none none = []
parse_json_array parse none (some s) = or_else (parse s) []

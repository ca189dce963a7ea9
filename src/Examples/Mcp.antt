-- ===== src/Examples/Mcp.antt =====
-- mcp/src/api-client.ts with a server that knows one user.
use meergate.Base.{
  decimal, ◌≡◌, refl, String, join, true, false, none, some, List, [], ◌∷◌, if◌then◌else◌, str_eq,
  All,
}
use meergate.Base.Outcome.{resolved, thrown}
use meergate.McpClient.{
  HttpRequest, ApiResponse, Reply, answered, rejected, ApiClient, new_client, http_request, request,
  schema_request, login, login_body, list_tests, is_authenticated, ai_status,
}
use meergate.McpTools.{Tool, Reader, mcp_login, test_run, handle_calls}
use meergate.McpTools.Answers.{handle_calls-offline}
use meergate.McpClient.Session.{IsSuccess, login-authorizes}

abbrev same_text : String → String
same_text s = s

abbrev query_text : List (String × String) → String
query_text [] = ""
query_text ((k, v) ∷ ps) = join k (join "=" (join v (join "&" (query_text ps))))

abbrev accepted : ApiResponse String
accepted = record {
  status = 200;
  is_ok = true;
  success = true;
  payload = some "t0";
  error = none;
  raw = "t0";
}

abbrev server : HttpRequest String → Reply String
server r =
    if str_eq r.url "http://host/api/auth/login"
    then answered accepted
    else answered (record accepted { status = 404; is_ok = false; success = false; payload = none })

abbrev client : ApiClient
client = record { base_url = "http://host"; token = none }

client_made : new_client "http://host/" none ≡ client
unfolding new_client
client_made = refl

tests_not_found :
    list_tests same_text query_text server (some "smoke") (some "") client ≡ thrown "API error 404"
unfolding list_tests request http_request decimal
tests_not_found = refl

abbrev unreachable : HttpRequest String → Reply String
unreachable r = rejected "fetch failed"

login_fails :
    (login same_text query_text unreachable (λ v. v) "ada" "pw" client).0 ≡ thrown "fetch failed"
unfolding login request
login_fails = refl

accepts :
    IsSuccess
      (server (
        http_request same_text query_text server client "POST" "/api/auth/login"
          (some (login_body same_text query_text server "ada" "pw"))
          none))
      (some "t0")
unfolding http_request
accepts = (accepted, refl, refl, refl)

login-authorizes_example :
    let after = (login same_text query_text server (λ v. v) "ada" "pw" client).1 in
    let sent = http_request same_text query_text server after "GET" "/api/tests" none none in
    let schema = schema_request same_text query_text server after in
    (sent.authorization ≡ some (join "Bearer " "t0"))
    × (schema.authorization ≡ some (join "Bearer " "t0"))
    × (after.base_url ≡ client.base_url)
    × (is_authenticated after ≡ true)
login-authorizes_example =
    login-authorizes same_text query_text server (λ v. v) "ada" "pw" client "t0" accepts refl "GET"
      "/api/tests" none none

abbrev reader : Reader String
reader = record {
  token = λ v. v;
  username = λ v. resolved "ada";
  summary = λ v. resolved v;
  configured = λ v. false;
  id = λ v. v;
  yaml = λ v. v;
  has_errors = λ v. false;
  validation_errors = λ v. v;
  stringify = λ b. "{}";
}

abbrev calls : List (Tool String)
calls = mcp_login "ada" "pw" ∷ test_run "t1" none ∷ []

handle_calls-offline_example :
    All
      (λ result. result.is_error ≡ true)
      (handle_calls reader same_text query_text "[]" unreachable calls client).0
    × ((handle_calls reader same_text query_text "[]" unreachable calls client).1 ≡ client)
handle_calls-offline_example =
    handle_calls-offline reader same_text query_text "[]" unreachable "fetch failed" (λ q. refl)
      calls client

abbrev ai_server : HttpRequest String → Reply String
ai_server q = answered (record accepted { payload = some "status" })

-- The same for the status, and no answer to anything else.
abbrev other_server : HttpRequest String → Reply String
other_server q = if str_eq q.url "http://host/api/ai/status" then ai_server q else rejected "gone"

other_known : ai_status same_text query_text other_server client ≡ resolved (some "status")
unfolding ai_status request http_request
other_known = refl

status_known : ai_status same_text query_text ai_server client ≡ resolved (some "status")
unfolding ai_status request
status_known = refl

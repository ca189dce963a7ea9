-- ===== src/McpTools.antt =====
-- mcp/src/tools.ts, mcp/src/resources.ts and mcp/src/index.ts: the tools that the MCP server offers,
-- over the client of the API. The parameters of the client are those here, with what the source
-- calls on values of unknown type: `JSON.stringify` and the reading of fields. A result with no
-- text stands for one whose text is undefined.
pub mod Answers
use meergate.Base.{
  ℕ, String, join, Bool, true, false, not, ◌&&◌, Option, none, some, List, [], ◌∷◌, or_else, str_eq,
  if◌then◌else◌, is_none,
}
use meergate.Base.Outcome.{Outcome, resolved, thrown}
use meergate.McpClient.{
  ApiClient, Body, whole, fields, Value, text, given, HttpRequest, Reply, new_client, login,
  list_tests, get_test, delete_test, save_test, create_run, get_run, list_runs, ai_generate,
  ai_refine, ai_save, validate, ai_status, get_schema, empty_list,
}

pub data Tool (V : Type 0) : Type 0 where
  mcp_login : (username password : String) → Tool V
  manifest_list : (suite tag : Option String) → Tool V
  manifest_get : (id : String) → Tool V
  manifest_generate : (prompt : String) (model : Option String) → Tool V
  manifest_refine : (yaml prompt : String) (model : Option String) → Tool V
  manifest_validate : (manifest : V) → Tool V
  manifest_save : (manifest : V) → Tool V
  manifest_save_yaml : (yaml : String) → Tool V
  manifest_delete : (id : String) → Tool V
  schema_get : Tool V
  test_run : (test_id : String) (mode : Option String) → Tool V
  run_status : (id : String) → Tool V
  run_list : (test_id status : Option String) (limit : Option ℕ) → Tool V

pub record ToolResult : Type 0 where
  pub content : Option String
  pub is_error : Bool

abbrev pub text_result : String → ToolResult
text_result msg = record { content = some msg; is_error = false }

abbrev pub err : String → ToolResult
err msg = record { content = some msg; is_error = true }

-- What the tools read of the values that the API answers with. Reading may throw.
pub record Reader (V : Type 0) : Type 0 where
  pub token : V → String
  pub username : V → Outcome String
  pub summary : V → Outcome V
  pub configured : V → Bool
  pub id : V → String
  pub yaml : V → V
  pub has_errors : V → Bool
  pub validation_errors : V → V
  pub stringify : Body V → String

abbrev pub unreadable : String → String
unreadable field = join "Cannot read properties of undefined (reading '" (join field "')")

-- `catch (e) { return err(prefix + e.message) }` around the use of a result.
abbrev pub catching {ℓ} : {A : Type ℓ} → String → Outcome A → (A → ToolResult) → ToolResult
catching prefix (resolved a) use_it = use_it a
catching prefix (thrown msg) use_it = err (join prefix msg)

-- The same where the use reads a field of the result: reading one of undefined throws.
abbrev pub reading {ℓ} :
    {A : Type ℓ} → String → String → Outcome (Option A) → (A → ToolResult) → ToolResult
reading prefix field (resolved (some a)) use_it = use_it a
reading prefix field (resolved none) use_it = err (join prefix (unreadable field))
reading prefix field (thrown msg) use_it = err (join prefix msg)

module _ {V : Type 0} (r : Reader V) where
  abbrev pub json : Option (Body V) → ToolResult
  json none = record { content = none; is_error = false }
  json (some b) = text_result (r.stringify b)

  abbrev pub json_data : Option V → ToolResult
  json_data none = json none
  json_data (some v) = json (some (whole v))

  -- The output of a generation.
  abbrev pub generated : V → ToolResult
  generated v =
      if r.has_errors v
      then json (
          some (
            fields (
              ("yaml", given (r.yaml v))
              ∷ ("validation_errors", given (r.validation_errors v))
              ∷ [])))
      else json (some (fields (("yaml", given (r.yaml v)) ∷ [])))

  abbrev pub saved : V → ToolResult
  saved v = text_result (join "Saved manifest with id: " (r.id v))

  -- The login stores the token before the user is read.
  abbrev pub login_result : Outcome (Option V) → ToolResult
  login_result o = reading "Login failed: " "user" o (λ v.
      catching "Login failed: " (r.username v)
        (λ name. text_result (join "Logged in as " (join name ". Token stored for this session."))))

  abbrev pub list_result : Outcome (Option V) → ToolResult
  list_result o =
      reading "Failed to list tests: " "map" o
        (λ v. catching "Failed to list tests: " (r.summary v) (λ s. json (some (whole s))))

  module _ (encode_component : String → String) (encode_query : List (String × String) → String)
      (no_messages : V) (fetch : HttpRequest V → Reply V) where
    abbrev pub on_mcp_login : String → String → ApiClient → ToolResult
    on_mcp_login username password c =
        login_result (login encode_component encode_query fetch r.token username password c).0

    abbrev pub on_manifest_list : Option String → Option String → ApiClient → ToolResult
    on_manifest_list suite tag c =
        list_result (list_tests encode_component encode_query fetch suite tag c)

    abbrev pub on_manifest_get : String → ApiClient → ToolResult
    on_manifest_get id c =
        catching "Failed to get test: " (get_test encode_component encode_query fetch id c)
          json_data

    abbrev pub on_manifest_generate : String → Option String → ApiClient → ToolResult
    on_manifest_generate prompt model c =
        reading "Generation failed: " "configured" (ai_status encode_component encode_query fetch c)
          (λ status.
            if r.configured status
            then reading "Generation failed: " "yaml"
                (ai_generate encode_component encode_query fetch prompt (some no_messages) model c)
                generated
            else err
                "AI is not configured on the backend. Set AI_API_KEY and AI_PROVIDER env vars.")

    abbrev pub on_manifest_refine : String → String → Option String → ApiClient → ToolResult
    on_manifest_refine yaml prompt model c =
        reading "Refinement failed: " "yaml"
          (ai_refine encode_component encode_query fetch yaml prompt (some no_messages) model c)
          generated

    abbrev pub on_manifest_validate : V → ApiClient → ToolResult
    on_manifest_validate manifest c =
        catching "Validation failed: " (validate encode_component encode_query fetch manifest c)
          json_data

    abbrev pub on_manifest_save : V → ApiClient → ToolResult
    on_manifest_save manifest c =
        reading "Save failed: " "id" (save_test encode_component encode_query fetch manifest c)
          saved

    abbrev pub on_manifest_save_yaml : String → ApiClient → ToolResult
    on_manifest_save_yaml yaml c =
        reading "Save failed: " "id" (ai_save encode_component encode_query fetch yaml c) saved

    abbrev pub on_manifest_delete : String → ApiClient → ToolResult
    on_manifest_delete id c =
        catching "Delete failed: " (delete_test encode_component encode_query fetch id c)
          (λ v. text_result (join "Deleted manifest: " id))

    abbrev pub on_schema_get : ApiClient → ToolResult
    on_schema_get c =
        catching "Schema fetch failed: " (get_schema encode_component encode_query fetch c)
          (λ v. json (some (whole v)))

    abbrev pub on_test_run : String → Option String → ApiClient → ToolResult
    on_test_run test_id mode c =
        catching "Run failed: " (create_run encode_component encode_query fetch test_id mode none c)
          json_data

    abbrev pub on_run_status : String → ApiClient → ToolResult
    on_run_status id c =
        catching "Failed to get run: " (get_run encode_component encode_query fetch id c) json_data

    abbrev pub on_run_list : Option String → Option String → Option ℕ → ApiClient → ToolResult
    on_run_list test_id status limit c =
        catching "Failed to list runs: "
          (list_runs encode_component encode_query fetch test_id status (some (or_else limit 20)) c)
          json_data

    -- The handler of a tool.
    unfoldable pub answer : Tool V → ApiClient → ToolResult
    answer (mcp_login username password) c = on_mcp_login username password c
    answer (manifest_list suite tag) c = on_manifest_list suite tag c
    answer (manifest_get id) c = on_manifest_get id c
    answer (manifest_generate prompt model) c = on_manifest_generate prompt model c
    answer (manifest_refine yaml prompt model) c = on_manifest_refine yaml prompt model c
    answer (manifest_validate manifest) c = on_manifest_validate manifest c
    answer (manifest_save manifest) c = on_manifest_save manifest c
    answer (manifest_save_yaml yaml) c = on_manifest_save_yaml yaml c
    answer (manifest_delete id) c = on_manifest_delete id c
    answer schema_get c = on_schema_get c
    answer (test_run test_id mode) c = on_test_run test_id mode c
    answer (run_status id) c = on_run_status id c
    answer (run_list test_id status limit) c = on_run_list test_id status limit c

    -- The client after a tool: only a login stores a token.
    unfoldable pub client_after : Tool V → ApiClient → ApiClient
    client_after (mcp_login username password) c =
        (login encode_component encode_query fetch r.token username password c).1
    client_after other c = c

    -- The client after some calls of tools, and their results.
    unfoldable pub handle_calls : List (Tool V) → ApiClient → List ToolResult × ApiClient
    unfolding answer client_after
    handle_calls [] c = ([], c)
    handle_calls (tool ∷ tools) c =
        let rest = handle_calls tools (client_after tool c) in (answer tool c ∷ rest.0, rest.1)

    -- The start of the server: it logs in when there is a name and a password but no token, and goes
    -- on without a token when the login fails.
    unfoldable pub start : (api_url api_token api_username api_password : Option String) → ApiClient
    start api_url api_token api_username api_password =
        let given_token = or_else api_token "" in
        let username = or_else api_username "" in
        let password = or_else api_password "" in
        let api =
          new_client (or_else api_url "http://localhost:3001")
            (if str_eq given_token "" then none else some given_token) in
        if str_eq given_token "" && (not (str_eq username "") && not (str_eq password ""))
        then (login encode_component encode_query fetch r.token username password api).1
        else api

-- mcp/src/resources.ts: the content of the schema resource.
pub record ResourceContent : Type 0 where
  pub uri : String
  pub content : String
  pub mime_type : String

unfoldable pub read_schema_resource :
    {V : Type 0}
    → Reader V
    → (String → String)
    → (List (String × String) → String)
    → (HttpRequest V → Reply V)
    → String
    → ApiClient
    → ResourceContent
read_schema_resource r encode_component encode_query fetch uri c =
    elim (get_schema encode_component encode_query fetch c) [
      | resolved schema ↦ record {
        uri = uri;
        content = r.stringify (whole schema);
        mime_type = "application/schema+json";
      }
      | thrown msg ↦ record {
        uri = uri;
        content = "{\"error\": \"Failed to fetch schema. Is the backend running?\"}";
        mime_type = "application/json";
      }
    ]

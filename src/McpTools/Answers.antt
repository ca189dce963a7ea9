-- ===== src/McpTools/Answers.antt =====
-- mcp/src/tools.ts: the errors of the tools, and the token of a session of calls.
use meergate.Base.{◌≡◌, refl, String, true, false, Option, some, List, [], ◌∷◌, All}
use meergate.Base.Outcome.{resolved, thrown}
use meergate.McpClient.{
  ApiClient, Body, HttpRequest, Reply, rejected, login, list_tests, get_test, delete_test,
  save_test, create_run, get_run, list_runs, ai_generate, ai_refine, ai_save, validate, ai_status,
  get_schema, request,
}
use meergate.McpTools.{
  Tool, Reader, mcp_login, manifest_list, manifest_get, manifest_generate, manifest_refine,
  manifest_validate, manifest_save, manifest_save_yaml, manifest_delete, schema_get, test_run,
  run_status, run_list, answer, client_after, handle_calls,
}

abbrev pub IsLogin : {V : Type 0} → Tool V → Type 0
IsLogin (mcp_login username password) = Unit
IsLogin other = ⊥

module _ {V : Type 0} (r : Reader V) (encode_component : String → String)
    (encode_query : List (String × String) → String) (no_messages : V)
    (fetch : HttpRequest V → Reply V) where
  module _ (msg : String) (offline : (q : HttpRequest V) → fetch q ≡ rejected msg) where
    request-offline :
        (c : ApiClient) (method path : String) (body : Option (Body V))
        (query : Option (List (String × String)))
        → request encode_component encode_query fetch c method path body query ≡ thrown msg
    unfolding request
    request-offline c method path body query = rw (offline _) refl

    login-offline :
        (username password : String) (c : ApiClient)
        → (login encode_component encode_query fetch r.token username password c).1 ≡ c
    unfolding login request
    login-offline username password c = rw (offline _) refl

    answer-offline :
        (tool : Tool V) (c : ApiClient)
        → ((answer r encode_component encode_query no_messages fetch tool c).is_error ≡ true)
          × (client_after r encode_component encode_query no_messages fetch tool c ≡ c)
    unfolding answer client_after login list_tests get_test delete_test save_test create_run get_run
        list_runs ai_generate ai_refine ai_save validate ai_status get_schema request
    answer-offline (mcp_login username password) c =
        (rw (offline _) refl, login-offline username password c)
    answer-offline (manifest_list suite tag) c = rw (offline _) (refl, refl)
    answer-offline (manifest_get id) c = rw (offline _) (refl, refl)
    answer-offline (manifest_generate prompt model) c = rw (offline _) (refl, refl)
    answer-offline (manifest_refine yaml prompt model) c = rw (offline _) (refl, refl)
    answer-offline (manifest_validate manifest) c = rw (offline _) (refl, refl)
    answer-offline (manifest_save manifest) c = rw (offline _) (refl, refl)
    answer-offline (manifest_save_yaml yaml) c = rw (offline _) (refl, refl)
    answer-offline (manifest_delete id) c = rw (offline _) (refl, refl)
    answer-offline schema_get c = rw (offline _) (refl, refl)
    answer-offline (test_run id mode) c = rw (offline _) (refl, refl)
    answer-offline (run_status id) c = rw (offline _) (refl, refl)
    answer-offline (run_list id status limit) c = rw (offline _) (refl, refl)

    -- Where no request gets an answer, every tool says so, and the client stays as it was.
    pub handle_calls-offline :
        (tools : List (Tool V)) (c : ApiClient)
        → All
            (λ result. result.is_error ≡ true)
            (handle_calls r encode_component encode_query no_messages fetch tools c).0
          × ((handle_calls r encode_component encode_query no_messages fetch tools c).1 ≡ c)
    unfolding handle_calls
    handle_calls-offline [] c = (tt, refl)
    handle_calls-offline (tool ∷ tools) c =
        let now = answer-offline tool c in
        let later = handle_calls-offline tools c in ((now.0, rw now.1 later.0), rw now.1 later.1)

  client_after-other :
      (tool : Tool V) (c : ApiClient)
      → (IsLogin tool → ⊥)
      → client_after r encode_component encode_query no_messages fetch tool c ≡ c
  unfolding client_after
  client_after-other (mcp_login username password) c h = elim (h tt) [ ]
  client_after-other (manifest_list suite tag) c h = refl
  client_after-other (manifest_get id) c h = refl
  client_after-other (manifest_generate prompt model) c h = refl
  client_after-other (manifest_refine yaml prompt model) c h = refl
  client_after-other (manifest_validate manifest) c h = refl
  client_after-other (manifest_save manifest) c h = refl
  client_after-other (manifest_save_yaml yaml) c h = refl
  client_after-other (manifest_delete id) c h = refl
  client_after-other schema_get c h = refl
  client_after-other (test_run id mode) c h = refl
  client_after-other (run_status id) c h = refl
  client_after-other (run_list id status limit) c h = refl

  -- Calls of tools of which none is a login leave the client as it is.
  pub handle_calls-client :
      (tools : List (Tool V)) (c : ApiClient)
      → All (λ tool. IsLogin tool → ⊥) tools
      → (handle_calls r encode_component encode_query no_messages fetch tools c).1 ≡ c
  unfolding handle_calls
  handle_calls-client [] c h = refl
  handle_calls-client (tool ∷ tools) c h =
      rw (client_after-other tool c h.0) (handle_calls-client tools c h.1)

  -- Where the API answers that the AI is not configured, nothing is generated: the result is an
  -- error, whatever the server would answer to other requests.
  pub generate-unconfigured :
      (other : HttpRequest V → Reply V) (prompt : String) (model : Option String) (c : ApiClient)
      (status : V)
      → ai_status encode_component encode_query fetch c ≡ resolved (some status)
      → ai_status encode_component encode_query other c ≡ resolved (some status)
      → r.configured status ≡ false
      → ((answer r encode_component encode_query no_messages fetch
            (manifest_generate prompt model)
            c).is_error
          ≡ true)
        × (answer r encode_component encode_query no_messages fetch
              (manifest_generate prompt model)
              c
            ≡ answer r encode_component encode_query no_messages other
                (manifest_generate prompt model)
                c)
  unfolding answer
  generate-unconfigured other prompt model c status h k missing =
      (rw (h, missing) refl, rw (h, k, missing) refl)

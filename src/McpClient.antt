-- ===== src/McpClient.antt =====
-- mcp/src/api-client.ts: the client of the API server. The module has parameters for what the
-- source calls: `encodeURIComponent`, `URLSearchParams`, and `fetch` with the reading of the
-- answer as JSON, whose failures are texts. `V` is a value of unknown type.
pub mod Session
use meergate.Base.{
  ℕ, ◌-◌, String, join, decimal, Bool, true, false, not, Option, none, some, List, [], ◌∷◌, ◌++◌,
  ◌==◌, filter, if◌then◌else◌, or_else, str_eq,
}
use Prim.Native.String.{len, slice}
use meergate.Base.Outcome.{Outcome, resolved, thrown}

-- A field of a body: a text, a value that is passed on, and the empty list and object.
pub data Value (V : Type 0) : Type 0 where
  text : String → Value V
  given : V → Value V
  empty_list : Value V
  empty_object : Value V

pub data Body (V : Type 0) : Type 0 where
  whole : V → Body V
  fields : List (String × Value V) → Body V

pub record HttpRequest (V : Type 0) : Type 0 where
  pub method : String
  pub url : String
  pub content_type : Option String
  pub authorization : Option String
  pub body : Option (Body V)

-- The answer: `status` and `ok`, and the fields of its JSON.
pub record ApiResponse (V : Type 0) : Type 0 where
  pub status : ℕ
  pub is_ok : Bool
  pub success : Bool
  pub payload : Option V
  pub error : Option String
  -- The JSON as a whole.
  pub raw : V

pub data Reply (V : Type 0) : Type 0 where
  rejected : String → Reply V
  answered : ApiResponse V → Reply V

pub record ApiClient : Type 0 where
  pub base_url : String
  pub token : Option String

-- `baseUrl.replace(/\/$/, '')`.
abbrev pub strip_slash : String → String
strip_slash s = if str_eq (slice s (len s - 1) (len s)) "/" then slice s 0 (len s - 1) else s

unfoldable pub new_client : String → Option String → ApiClient
new_client base_url token = record { base_url = strip_slash base_url; token = token }

abbrev pub is_authenticated : ApiClient → Bool
is_authenticated c = elim c.token [ none ↦ false | some t ↦ true ]

-- An optional argument that is not empty.
abbrev pub given_query : String → Option String → List (String × String)
given_query k none = []
given_query k (some v) = if str_eq v "" then [] else (k, v) ∷ []

-- `if (this.token)`: the empty text is no token.
abbrev pub authorization_of : Option String → Option String
authorization_of none = none
authorization_of (some t) = if str_eq t "" then none else some (join "Bearer " t)

module _ {V : Type 0} (encode_component : String → String)
    (encode_query : List (String × String) → String) (fetch : HttpRequest V → Reply V) where
  abbrev pub with_query : String → Option (List (String × String)) → String
  with_query url none = url
  with_query url (some query) =
      let qs = encode_query (filter (λ p. not (str_eq p.1 "")) query) in
      if str_eq qs "" then url else join url (join "?" qs)

  -- What `request` sends.
  unfoldable pub http_request :
      ApiClient
      → String
      → String
      → Option (Body V)
      → Option (List (String × String))
      → HttpRequest V
  http_request c method path body query = record {
    method = method;
    url = with_query (join c.base_url path) query;
    content_type = some "application/json";
    authorization = authorization_of c.token;
    body = body;
  }

  abbrev pub read_reply : Reply V → Outcome (Option V)
  read_reply (rejected msg) = thrown msg
  read_reply (answered r) =
      if r.success
      then resolved r.payload
      else thrown (or_else r.error (join "API error " (decimal r.status)))

  unfoldable pub request :
      ApiClient
      → String
      → String
      → Option (Body V)
      → Option (List (String × String))
      → Outcome (Option V)
  unfolding http_request
  request c method path body query = read_reply (fetch (http_request c method path body query))

  abbrev pub login_body : String → String → Body V
  login_body username password =
      fields (("username", text username) ∷ ("password", text password) ∷ [])

  -- Storing the token of a login. Reading a field of no data throws.
  abbrev pub store_token :
      (V → String) → ApiClient → Outcome (Option V) → Outcome (Option V) × ApiClient
  store_token token_of c (thrown msg) = (thrown msg, c)
  store_token token_of c (resolved none) =
      (thrown "Cannot read properties of undefined (reading 'token')", c)
  store_token token_of c (resolved (some v)) =
      (resolved (some v), record c { token = some (token_of v) })

  -- `token_of` is the field `token` of the result.
  unfoldable pub login : (V → String) → String → String → ApiClient → Outcome (Option V) × ApiClient
  unfolding request
  login token_of username password c =
      store_token token_of c
        (request c "POST" "/api/auth/login" (some (login_body username password)) none)

  unfoldable pub list_tests : Option String → Option String → ApiClient → Outcome (Option V)
  unfolding request
  list_tests suite tag c =
      request c "GET" "/api/tests" none (some (given_query "suite" suite ++ given_query "tag" tag))

  unfoldable pub get_test : String → ApiClient → Outcome (Option V)
  unfolding request
  get_test id c = request c "GET" (join "/api/tests/" (encode_component id)) none none

  unfoldable pub delete_test : String → ApiClient → Outcome (Option V)
  unfolding request
  delete_test id c = request c "DELETE" (join "/api/tests/" (encode_component id)) none none

  unfoldable pub save_test : V → ApiClient → Outcome (Option V)
  unfolding request
  save_test manifest c = request c "POST" "/api/tests" (some (whole manifest)) none

  abbrev pub given_or : Option V → Value V → Value V
  given_or none other = other
  given_or (some v) other = given v

  unfoldable pub create_run : String → Option String → Option V → ApiClient → Outcome (Option V)
  unfolding request
  create_run test_id mode overrides c =
      request c "POST" "/api/runs"
        (some (
          fields (
            ("test_id", text test_id)
            ∷ ("mode", text (or_else mode "mock"))
            ∷ ("overrides", given_or overrides empty_object)
            ∷ [])))
        none

  unfoldable pub get_run : String → ApiClient → Outcome (Option V)
  unfolding request
  get_run id c = request c "GET" (join "/api/runs/" (encode_component id)) none none

  abbrev pub limit_query : Option ℕ → List (String × String)
  limit_query none = []
  limit_query (some n) = if n == 0 then [] else ("limit", decimal n) ∷ []

  unfoldable pub list_runs :
      Option String → Option String → Option ℕ → ApiClient → Outcome (Option V)
  unfolding request
  list_runs test_id status limit c =
      request c "GET" "/api/runs" none
        (some (given_query "test_id" test_id ++ (given_query "status" status ++ limit_query limit)))

  unfoldable pub ai_generate : String → Option V → Option String → ApiClient → Outcome (Option V)
  unfolding request
  ai_generate prompt history model c =
      request c "POST" "/api/ai/generate"
        (some (
          fields (
            ("prompt", text prompt)
            ∷ ("history", given_or history empty_list)
            ∷ ("model", text (or_else model ""))
            ∷ [])))
        none

  unfoldable pub ai_refine :
      String → String → Option V → Option String → ApiClient → Outcome (Option V)
  unfolding request
  ai_refine yaml prompt history model c =
      request c "POST" "/api/ai/refine"
        (some (
          fields (
            ("yaml", text yaml)
            ∷ ("prompt", text prompt)
            ∷ ("history", given_or history empty_list)
            ∷ ("model", text (or_else model ""))
            ∷ [])))
        none

  unfoldable pub ai_save : String → ApiClient → Outcome (Option V)
  unfolding request
  ai_save yaml c = request c "POST" "/api/ai/save" (some (fields (("yaml", text yaml) ∷ []))) none

  unfoldable pub validate : V → ApiClient → Outcome (Option V)
  unfolding request
  validate manifest c = request c "POST" "/api/builder/validate" (some (whole manifest)) none

  unfoldable pub ai_status : ApiClient → Outcome (Option V)
  unfolding request
  ai_status c = request c "GET" "/api/ai/status" none none

  abbrev pub read_schema : Reply V → Outcome V
  read_schema (rejected msg) = thrown msg
  read_schema (answered r) =
      if r.is_ok then resolved r.raw else thrown (join "Schema fetch failed: " (decimal r.status))

  -- What `getSchema` sends.
  unfoldable pub schema_request : ApiClient → HttpRequest V
  schema_request c = record {
    method = "GET";
    url = join c.base_url "/api/schema";
    content_type = none;
    authorization = authorization_of c.token;
    body = none;
  }

  unfoldable pub get_schema : ApiClient → Outcome V
  unfolding schema_request
  get_schema c = read_schema (fetch (schema_request c))

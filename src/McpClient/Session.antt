-- ===== src/McpClient/Session.antt =====
-- mcp/src/api-client.ts: the results of requests, and the token of a session.
use meergate.Base.{
  String, join, true, false, Option, none, some, List, ◌≡◌, ◌↔◌, refl, sym, ap, ◌∙◌, Bool-cases,
  inl, inr, str_eq,
}
use meergate.Base.Outcome.{Outcome, resolved, thrown}
use meergate.McpClient.{
  Body, HttpRequest, ApiResponse, Reply, rejected, answered, ApiClient, is_authenticated,
  http_request, read_reply, request, login_body, store_token, login, schema_request,
}

module _ {V : Type 0} where
  -- A successful answer with the data.
  abbrev pub IsSuccess : Reply V → Option V → Type 0
  IsSuccess reply d =
      (r : ApiResponse V) × (reply ≡ answered r) × (r.success ≡ true) × (r.payload ≡ d)

  module _ (encode_component : String → String) (encode_query : List (String × String) → String)
      (fetch : HttpRequest V → Reply V) where
    read_reply_iff :
        (reply : Reply V) (d : Option V)
        → (read_reply encode_component encode_query fetch reply ≡ resolved d) ↔ IsSuccess reply d
    read_reply_iff (rejected msg) d = (λ e. cc, λ s. cc s.1)
    read_reply_iff (answered r) d = elim (Bool-cases r.success) [
      | inl e ↦ (
        λ p. (r, refl, e, cc (rw e at p)),
        λ s. let same : r ≡ s.0 = cc s.1 in rw e (ap resolved (ap (λ x. x.payload) same ∙ s.3)),
      )
      | inr e ↦ (
        λ p. cc (rw e at p),
        λ s.
            let same : r ≡ s.0 = cc s.1 in
            let won : r.success ≡ true = ap (λ x. x.success) same ∙ s.2 in cc (sym e ∙ won),
      )
    ]

    -- A request resolves exactly when the server answers it with success, and then to the data of
    -- the answer.
    pub request-resolved_iff :
        (c : ApiClient) (method path : String) (body : Option (Body V))
        (query : Option (List (String × String))) (d : Option V)
        → (request encode_component encode_query fetch c method path body query ≡ resolved d)
          ↔ IsSuccess
              (fetch (http_request encode_component encode_query fetch c method path body query))
              d
    unfolding request
    request-resolved_iff c method path body query d = read_reply_iff _ d

    store_token-thrown :
        (token_of : V → String) (c : ApiClient) (o : Outcome (Option V)) (msg : String)
        → (store_token encode_component encode_query fetch token_of c o).0 ≡ thrown msg
        → (store_token encode_component encode_query fetch token_of c o).1 ≡ c
    store_token-thrown token_of c (thrown m) msg h = refl
    store_token-thrown token_of c (resolved none) msg h = refl
    store_token-thrown token_of c (resolved (some v)) msg h = cc h

    -- A login that fails leaves the client as it was.
    pub login-thrown :
        (token_of : V → String) (username password : String) (c : ApiClient) (msg : String)
        → (login encode_component encode_query fetch token_of username password c).0 ≡ thrown msg
        → (login encode_component encode_query fetch token_of username password c).1 ≡ c
    unfolding login
    login-thrown token_of username password c msg h = store_token-thrown token_of c _ msg h

    -- After a login that the server answers with a token that is not empty, every request of the
    -- client, that of the schema included, carries the token, and the server is the same.
    pub login-authorizes :
        (token_of : V → String) (username password : String) (c : ApiClient) (v : V)
        → IsSuccess
            (fetch (
              http_request encode_component encode_query fetch c "POST" "/api/auth/login"
                (some (login_body encode_component encode_query fetch username password))
                none))
            (some v)
        → str_eq (token_of v) "" ≡ false
        → (method path : String) (body : Option (Body V)) (query : Option (List (String × String)))
        → let after = (login encode_component encode_query fetch token_of username password c).1 in
          let sent =
            http_request encode_component encode_query fetch after method path body query in
          let schema = schema_request encode_component encode_query fetch after in
          (sent.authorization ≡ some (join "Bearer " (token_of v)))
          × (schema.authorization ≡ some (join "Bearer " (token_of v)))
          × (after.base_url ≡ c.base_url)
          × (is_authenticated after ≡ true)
    unfolding login http_request schema_request
    login-authorizes token_of username password c v s e method path body query =
        let answer =
          (request-resolved_iff c "POST" "/api/auth/login"
              (some (login_body encode_component encode_query fetch username password)) none
              (some v)).1
            s in
        rw answer (rw e refl, rw e refl, refl, refl)

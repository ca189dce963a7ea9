-- ===== src/Api/Errors.antt =====
-- web/src/lib/api.ts: when `fetchJSON` resolves, and what it does to the session of the page.
use meergate.Base.{
  ℕ, String, true, false, Option, none, List, [], ◌≡◌, ◌↔◌, refl, sym, ap, ◌∙◌, arith, Bool-cases,
  inl, inr,
}
use meergate.Base.Outcome.{Outcome, resolved, thrown}
use meergate.Api.{
  Browser, RequestInit, Response, FetchResult, aborted, failed, response, get_auth_header,
  headers_of, read_response, fetch_json, body_error, refuse, sign_out,
}

no_header : (b : Browser) → b.auth_token ≡ none → get_auth_header b ≡ []
unfolding get_auth_header
no_header b h = ground (arith, h)

-- What a refused request leaves of a page: where the error of the body is read, the page is signed
-- out and its next request would carry no token; where reading it throws, all is as before.
abbrev pub Leaves : Outcome (Option String) → Browser → Browser → Type 0
Leaves (thrown msg) before after = after ≡ before
Leaves (resolved error) before after =
    (after.location ≡ "/login") × (after.auth_token ≡ none) × (get_auth_header after ≡ [])

module _ {V : Type 0} where
  -- An answer that is ok and whose body is the JSON `v`.
  abbrev pub IsAnswer : FetchResult V → V → Type 0
  IsAnswer result v =
      (r : Response V) × (result ≡ response r) × (r.is_ok ≡ true) × (r.json ≡ resolved v)

  module _ (fetch : String → RequestInit → List (String × String) → FetchResult V)
      (encode_query : List (String × String) → String)
      (error_of : V → Outcome (Option String)) where
    refuse_throws :
        (status : ℕ) (o : Outcome (Option String)) (b : Browser) (result : FetchResult V) (v : V)
        → (refuse fetch encode_query error_of status o b).0 ≡ resolved v
        → IsAnswer result v
    refuse_throws status (thrown msg) b result v p = cc p
    refuse_throws status (resolved error) b result v p = cc p

    read_response_iff :
        (result : FetchResult V) (b : Browser) (v : V)
        → ((read_response fetch encode_query error_of result b).0 ≡ resolved v) ↔ IsAnswer result v
    read_response_iff aborted b v = (λ e. cc, λ s. cc s.1)
    read_response_iff (failed msg) b v = (λ e. cc, λ s. cc s.1)
    read_response_iff (response r) b v = elim (Bool-cases r.is_ok) [
      | inl e ↦ (
        λ p. (r, refl, e, rw e at p),
        λ s. let same : r ≡ s.0 = cc s.1 in rw e (ap (λ x. x.json) same ∙ s.3),
      )
      | inr e ↦ (
        λ p.
            refuse_throws r.status (body_error fetch encode_query error_of r.json) b (response r) v
              (rw e at p),
        λ s.
            let same : r ≡ s.0 = cc s.1 in
            let fine : r.is_ok ≡ true = ap (λ x. x.is_ok) same ∙ s.2 in cc (sym e ∙ fine),
      )
    ]

    -- `fetchJSON` resolves exactly when the answer is ok and its body is JSON, and then to it.
    pub fetch_json-resolved_iff :
        (url : String) (init : RequestInit) (b : Browser) (v : V)
        → ((fetch_json fetch encode_query error_of url init b).0 ≡ resolved v)
          ↔ IsAnswer (fetch url init (headers_of b init)) v
    unfolding fetch_json
    fetch_json-resolved_iff url init b v =
        read_response_iff (fetch url init (headers_of b init)) b v

    refuse-Leaves :
        (status : ℕ) (o : Outcome (Option String)) (b : Browser)
        → b.has_window ≡ true
        → status ≡ 401
        → Leaves o b (refuse fetch encode_query error_of status o b).1
    refuse-Leaves status (thrown msg) b w s = refl
    refuse-Leaves status (resolved error) b w s =
        let after : sign_out status b ≡ record b { auth_token = none; location = "/login" } =
          simp (s, w) refl in
        rw after (refl, refl, no_header (record b { auth_token = none; location = "/login" }) refl)

    -- In a page, an answer of the status 401 that is not ok removes the token and leads to the
    -- login, and a request right after it carries no token, provided that the field `error` of its
    -- body can be read. Where reading it throws, the page keeps its token and its location.
    pub fetch_json-signs_out :
        (url : String) (init : RequestInit) (b : Browser) (r : Response V)
        → b.has_window ≡ true
        → fetch url init (headers_of b init) ≡ response r
        → r.is_ok ≡ false
        → r.status ≡ 401
        → Leaves
            (body_error fetch encode_query error_of r.json)
            b
            (fetch_json fetch encode_query error_of url init b).1
    unfolding fetch_json
    fetch_json-signs_out url init b r w got e s =
        rw (got, e) (refuse-Leaves r.status (body_error fetch encode_query error_of r.json) b w s)

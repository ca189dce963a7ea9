-- ===== src/Examples/Requests.antt =====
-- web/src/lib/api.ts with a server that knows no token.
use meergate.Base.{
  ◌≡◌, ◌↔◌, refl, String, true, false, Option, none, some, List, [], ◌∷◌, str_eq, if◌then◌else◌,
}
use meergate.Base.Outcome.{Outcome, resolved, thrown}
use meergate.Api.{
  Browser, RequestInit, Response, FetchResult, response, get_auth_header, headers_of, fetch_json,
  plain_get, normalize_flag, number, text, spread,
}
use meergate.Api.Errors.{IsAnswer, fetch_json-resolved_iff, fetch_json-signs_out}

abbrev no_query : List (String × String) → String
no_query ps = ""

-- The field `error` of a body that is a text here; the text `null` stands for the value null.
abbrev no_error : String → Outcome (Option String)
no_error v = if str_eq v "null" then thrown "Cannot read properties of null" else resolved (some v)

abbrev refusal : Response String
refusal = record { status = 401; is_ok = false; json = resolved "expired" }

abbrev refuse_all : String → RequestInit → List (String × String) → FetchResult String
refuse_all url init headers = response refusal

abbrev page : Browser
page = record { has_window = true; auth_token = some "t0"; location = "/runs" }

headers_sent : headers_of page plain_get ≡ ("Authorization", "Bearer t0") ∷ []
unfolding headers_of get_auth_header spread
headers_sent = refl

expired : (fetch_json refuse_all no_query no_error "/api/runs" plain_get page).0 ≡ thrown "expired"
unfolding fetch_json
expired = refl

fetch_json-resolved_iff_example :
    ((fetch_json refuse_all no_query no_error "/api/runs" plain_get page).0 ≡ resolved "expired")
    ↔ IsAnswer (refuse_all "/api/runs" plain_get (headers_of page plain_get)) "expired"
fetch_json-resolved_iff_example =
    fetch_json-resolved_iff refuse_all no_query no_error "/api/runs" plain_get page "expired"

fetch_json-signs_out_example :
    ((fetch_json refuse_all no_query no_error "/api/runs" plain_get page).1.location ≡ "/login")
    × ((fetch_json refuse_all no_query no_error "/api/runs" plain_get page).1.auth_token ≡ none)
    × (get_auth_header (fetch_json refuse_all no_query no_error "/api/runs" plain_get page).1 ≡ [])
fetch_json-signs_out_example =
    fetch_json-signs_out refuse_all no_query no_error "/api/runs" plain_get page refusal refl refl
      refl refl

-- With null as its body, the same refusal keeps the token.
null_body :
    (fetch_json
      (λ url init headers. response (record refusal { json = resolved "null" }))
      no_query
      no_error
      "/api/runs"
      plain_get
      page).1
    ≡ page
unfolding fetch_json
null_body = refl

flags : (normalize_flag (number 1) ≡ true) × (normalize_flag (text "0") ≡ false)
unfolding normalize_flag
flags = (refl, refl)

-- ===== src/Api/Calls.antt =====
-- web/src/lib/api.ts: the requests with a body, and the answers that are used up to the field `data`
-- of the result. A body is what `JSON.stringify`, a parameter, is given: a value that is passed on,
-- or an object, of which it leaves out the fields that are undefined.
pub mod Runs
pub mod Plans
pub mod Catalog
use meergate.Base.{
  ℕ, String, Bool, true, false, not, ◌&&◌, Option, none, some, List, [], ◌∷◌, map, any, str_eq,
}
use meergate.Base.Outcome.{Outcome}
use meergate.Api.{Browser, RequestInit, FetchResult, fetch_json}

-- A value of a field, with the values that the source makes itself.
pub data Field (V : Type 0) : Type 0 where
  text : String → Field V
  number : ℕ → Field V
  flag : Bool → Field V
  value : V → Field V

pub data Body (V : Type 0) : Type 0 where
  whole : V → Body V
  object : List (String × Option (Field V)) → Body V

abbrev pub given : {V : Type 0} → Option V → Option (Field V)
given none = none
given (some v) = some (value v)

abbrev pub given_text : {V : Type 0} → Option String → Option (Field V)
given_text none = none
given_text (some s) = some (text s)

-- What the requests are made with.
pub record Server (V : Type 0) : Type 0 where
  pub fetch : String → RequestInit → List (String × String) → FetchResult V
  pub encode_query : List (String × String) → String
  pub error_of : V → Outcome (Option String)
  pub encode_component : String → String
  pub stringify : Body V → String
  -- `API_DIRECT`.
  pub api_direct : String

module _ {V : Type 0} (s : Server V) where
  abbrev pub sending : String → Body V → RequestInit
  sending method body = record {
    method = some method;
    headers = [];
    body = some (s.stringify body);
  }

  abbrev pub call : RequestInit → String → Browser → Outcome V × Browser
  call init url b = fetch_json s.fetch s.encode_query s.error_of url init b

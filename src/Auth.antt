-- ===== src/Auth.antt =====
-- web/src/lib/auth.ts and web/src/lib/dashboard-config.ts: the login, and what the page keeps in the
-- local storage. Parameters are `fetch` with the reading of its answer, `JSON.parse`, the decoding
-- of a part of a token, and `trim`.
pub mod Config
use meergate.Base.{
  ℕ, String, join, Bool, true, false, not, ◌&&◌, ◌||◌, Option, none, some, List, [], ◌∷◌, or_else,
  str_eq, if◌then◌else◌, Dict, lookup, insert, string_eq,
}
use meergate.Base.Outcome.{Outcome, resolved, thrown}

-- The answer to a login: `ok`, and the fields of its JSON.
pub record LoginAnswer : Type 0 where
  pub is_ok : Bool
  pub success : Bool
  pub error : Option String
  -- `json.data?.token` and `json.token`.
  pub data_token : Option String
  pub token : Option String

abbrev pub given_token : Option String → Outcome String
given_token none = thrown "No token in response"
given_token (some t) = if str_eq t "" then thrown "No token in response" else resolved t

abbrev pub first_given {ℓ} : {A : Type ℓ} → Option A → Option A → Option A
first_given none other = other
first_given (some t) other = some t

-- The request may be rejected, or its answer may not be JSON.
unfoldable pub login : Outcome LoginAnswer → Outcome String
login (thrown msg) = thrown msg
login (resolved a) =
    if not a.is_ok || not a.success
    then thrown (or_else a.error "Login failed")
    else given_token (first_given a.data_token a.token)

-- `claims` is what `decodeToken` makes of a token with a payload, or nothing where that throws.
pub data Claim : Type 0 where
  text : String → Claim
  other_value : Claim

pub record Claims : Type 0 where
  pub username : Option Claim
  pub name : Option Claim
  pub sub : Option Claim

unfoldable pub decode_token :
    (String → Option String) → (String → Option Claims) → Option String → Option Claims
decode_token payload_of claims_of none = none
decode_token payload_of claims_of (some token) =
    if str_eq token "" then none else elim (payload_of token) [
      | none ↦ none
      | some payload ↦ if str_eq payload "" then none else claims_of payload
    ]

abbrev pub name_from : Option Claims → Option Claim
name_from none = none
name_from (some c) = first_given c.username (first_given c.name c.sub)

unfoldable pub username_from_token :
    (String → Option String) → (String → Option Claims) → (String → String) → Option String → String
unfolding decode_token
username_from_token payload_of claims_of trim token =
    elim (name_from (decode_token payload_of claims_of token)) [
      | none ↦ "admin"
      | some other_value ↦ "admin"
      | some (text name) ↦ if str_eq (trim name) "" then "admin" else name
    ]

-- The local storage of a page, which there is only where there is a window.
pub record Storage : Type 0 where
  pub has_window : Bool
  pub items : Dict String String

pub record DashboardConfig : Type 0 where
  pub kpis : List String
  pub sections : List String

abbrev pub default_config : DashboardConfig
default_config = record {
  kpis = "runsToday" ∷ "runningNow" ∷ "failedToday" ∷ "activeSchedules" ∷ [];
  sections = "failingTests" ∷ "sessions" ∷ "schedules" ∷ [];
}

abbrev pub storage_key : String
storage_key = "dashboard-config"

-- A parsed configuration: its fields where they are arrays.
pub record ParsedConfig : Type 0 where
  pub kpis : Option (List String)
  pub sections : Option (List String)

abbrev pub read_config : Option ParsedConfig → DashboardConfig
read_config none = default_config
read_config (some parsed) = record {
  kpis = or_else parsed.kpis default_config.kpis;
  sections = or_else parsed.sections default_config.sections;
}

abbrev pub read_item : (String → Option ParsedConfig) → Option String → DashboardConfig
read_item parse none = default_config
read_item parse (some raw) = if str_eq raw "" then default_config else read_config (parse raw)

-- `parse` is none where `JSON.parse` throws, or the reading of a field of what it gives.
unfoldable pub load_dashboard_config : (String → Option ParsedConfig) → Storage → DashboardConfig
load_dashboard_config parse s =
    if not s.has_window then default_config else read_item parse (lookup storage_key s.items)

unfoldable pub save_dashboard_config :
    (DashboardConfig → String) → DashboardConfig → Storage → Storage
save_dashboard_config stringify config s = record s {
  items = insert storage_key (stringify config) s.items;
}

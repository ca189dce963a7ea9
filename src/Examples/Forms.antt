-- ===== src/Examples/Forms.antt =====
-- The forms and pages on small inputs: a new release, a schedule, the incidents of a rule, the runs
-- of a session and the configuration of the dashboard.
use Prim.Native.String.{len}
use meergate.Base.{
  ltb, not, IsTotal, arith, insert, ◌≡◌, ◌↔◌, refl, String, true, false, Bool, none, some, List, [],
  ◌∷◌, All, lookup, Dict, string_eq, ltb, str_eq, if◌then◌else◌,
}
use meergate.Base.Outcome.{Outcome, resolved, thrown}
use meergate.Api.{Browser, RequestInit, FetchResult, response, failed, Response}
use meergate.Api.Calls.{Server}
use meergate.Api.Calls.Catalog.{create_candidate}
use meergate.ReleaseGate.{ReleaseModal, handle_submit, gate_test_count}
use meergate.ReleaseGate.Submit.{handle_submit_iff, IsCreated}
use meergate.ReleaseGate.Scope.{gate_test_count-coverage_has_tests}
use meergate.GateStatus.{coverage_has_tests}
use meergate.Schedules.{
  ScheduleForm, FormValue, text, texts, open_form, switch_to_tests, switch_to_session,
}
use meergate.Schedules.Updates.{updated, handle_submit-keeps}
use meergate.Alerts.{AlertEventItem, last_fired}
use meergate.Alerts.LastFired.{last_fired-latest, dates_of}
use meergate.Examples.Gate.{half_covered}

abbrev created : Response String
created = record { status = 200; is_ok = true; json = resolved "c1" }

-- The candidate is created, and its evaluation fails.
abbrev reply_to : String → RequestInit → List (String × String) → FetchResult String
reply_to url init headers =
    if str_eq url "/api/release-gates/auth/candidates" then response created else failed "gone"

abbrev server : Server String
server = record {
  fetch = reply_to;
  encode_query = λ ps. "";
  error_of = λ v. resolved none;
  encode_component = λ s. s;
  stringify = λ b. "{}";
  api_direct = "http://localhost:3001/api";
}

abbrev modal : ReleaseModal String
modal = record {
  service_id = "auth";
  form = "{}";
  run_after = true;
  busy = false;
  error = "";
  route = none;
  closed = false;
}

abbrev page : Browser
page = record { has_window = true; auth_token = some "t0"; location = "/" }

abbrev known_id : String → Outcome String
known_id v = resolved v

handle_submit_iff_example :
    (((handle_submit server known_id "choose" modal page).0.closed ≡ true)
      ↔ IsCreated (create_candidate server "auth" "{}" page).0)
    × ((msg : String)
        → (create_candidate server "auth" "{}" page).0 ≡ thrown msg
        → ((handle_submit server known_id "choose" modal page).0.error ≡ msg)
          × ((handle_submit server known_id "choose" modal page).0.busy ≡ false)
          × ((handle_submit server known_id "choose" modal page).0.route ≡ none))
handle_submit_iff_example = handle_submit_iff server known_id "choose" modal page refl refl

gate_test_count-coverage_has_tests_example :
    ltb 0 (gate_test_count (some half_covered) "auth")
    ≡ coverage_has_tests (some half_covered) "auth"
gate_test_count-coverage_has_tests_example =
    gate_test_count-coverage_has_tests (some half_covered) "auth"

abbrev one_tag : String → List String
one_tag s = s ∷ []

abbrev same : String → String
same s = s

abbrev stored : Dict String FormValue
stored = ("notify_url", text "http://hook") ∷ ("test_ids", texts ("login" ∷ [])) ∷ []

handle_submit-keeps_example :
    (lookup "notify_url" (
        updated
          (meergate.Schedules.handle_submit one_tag same
            (record (open_form none) { notify_url = "" }))
          stored)
      ≡ lookup "notify_url" stored)
    × (lookup "session_id" (
          updated
            (meergate.Schedules.handle_submit one_tag same (switch_to_tests (open_form none)))
            stored)
        ≡ lookup "session_id" stored)
    × (lookup "test_ids" (
          updated
            (meergate.Schedules.handle_submit one_tag same (switch_to_session (open_form none)))
            stored)
        ≡ lookup "test_ids" stored)
    × (lookup "tags" (
          updated
            (meergate.Schedules.handle_submit one_tag same (switch_to_session (open_form none)))
            stored)
        ≡ lookup "tags" stored)
handle_submit-keeps_example = handle_submit-keeps one_tag same (open_form none) stored

-- A date is a row of strokes here, one for each day.
abbrev later_day : String → String → Bool
later_day a b = ltb (len b) (len a)

later_day-IsTotal : IsTotal (λ a b. not (later_day a b))
later_day-IsTotal = record { total = λ a b h. ground arith; trans = λ a b c h k. ground arith }

abbrev fired : String → AlertEventItem
fired date = record {
  id = date;
  rule_id = "r1";
  is_critical = true;
  acknowledged = false;
  created_at = date;
}

first_fired :
    lookup "r1" (last_fired later_day (fired "||" ∷ fired "|||" ∷ fired "|" ∷ []) []) ≡ some "|||"
unfolding last_fired lookup insert
first_fired = refl

last_fired-latest_example :
    All (λ d. later_day d "|||" ≡ false) (dates_of "r1" (fired "||" ∷ fired "|||" ∷ fired "|" ∷ []))
last_fired-latest_example =
    last_fired-latest later_day later_day-IsTotal "r1" (fired "||" ∷ fired "|||" ∷ fired "|" ∷ [])
      "|||" (refl, (refl, (refl, tt))) first_fired

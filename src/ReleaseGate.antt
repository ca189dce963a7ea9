-- ===== src/ReleaseGate.antt =====
-- web/src/app/release-gates/[serviceId]/page.tsx and web/src/components/new-release-modal.tsx: the
-- gate of one service and the form for a new release. The texts of the interface are parameters.
pub mod Submit
pub mod Scope
use meergate.Base.{
  ℕ, String, join, Bool, true, false, not, ◌&&◌, ◌||◌, Option, none, some, List, [], ◌∷◌, filter,
  find, length, any, Dict, lookup, insert, or_else, is_some, str_eq, string_eq, if◌then◌else◌,
}
use meergate.Base.Outcome.{Outcome, resolved, thrown}
use meergate.Data.{
  GateSummary, GateStatus, blocked, not_configured, ReleaseCandidate, TestDiff, RegressionType,
  new_regression, new_test_failure, CatalogEntry, TestItem, CoverageReport, OperationCoverage,
  ServiceCoverage,
}
use meergate.GateStatus.{find_service, operations_of, tests_of}
use meergate.Api.{Browser}
use meergate.Api.Calls.{Server}
use meergate.Api.Calls.Catalog.{create_candidate, evaluate_candidate}

-- `new Set`: the ids that are not there yet are added.
abbrev pub add_test_id : String → List String → List String
add_test_id id ids = if any (λ x. str_eq x id) ids then ids else id ∷ ids

abbrev pub add_test_ids : List String → List String → List String
add_test_ids [] ids = ids
add_test_ids (id ∷ more) ids = add_test_ids more (add_test_id id ids)

abbrev pub ids_of : List OperationCoverage → List String → List String
ids_of [] ids = ids
ids_of (op ∷ ops) ids = ids_of ops (add_test_ids (tests_of op) ids)

abbrev pub count_ids : Option ServiceCoverage → ℕ
count_ids none = 0
count_ids (some svc) = length (ids_of (operations_of svc) [])

unfoldable pub gate_test_count : Option CoverageReport → String → ℕ
gate_test_count none service_id = 0
gate_test_count (some report) service_id = count_ids (find_service report service_id)

pub data Busy : Type 0 where
  evaluating_gate marking_baseline : Busy

pub record GatePage : Type 0 where
  pub gate : Option GateSummary
  pub busy : Option Busy
  pub show_modal : Bool

abbrev pub page_status : Option GateSummary → GateStatus
page_status none = not_configured
page_status (some gate) = gate.status

abbrev pub candidate_of : Option GateSummary → Option ReleaseCandidate
candidate_of none = none
candidate_of (some gate) = gate.candidate

abbrev pub is_evaluated : Option ReleaseCandidate → Bool
is_evaluated none = false
is_evaluated (some c) = elim c.results [ [] ↦ false | r ∷ rs ↦ true ]

abbrev pub is_blocking : TestDiff → Bool
is_blocking d = elim d.kind [ new_regression ↦ true | new_test_failure ↦ true | other ↦ false ]

unfoldable pub blocking_diffs : Option GateSummary → List TestDiff
blocking_diffs none = []
blocking_diffs (some gate) = filter is_blocking gate.diffs

pub data Primary : Type 0 where
  new_release run_gate mark_baseline : Primary

abbrev pub is_blocked_status : GateStatus → Bool
is_blocked_status blocked = true
is_blocked_status other = false

-- The action that the page offers first.
unfoldable pub primary : Option GateSummary → Primary
primary gate = elim (candidate_of gate) [
  | none ↦ new_release
  | some c ↦
      if not (is_evaluated (some c))
      then run_gate
      else if is_blocked_status (page_status gate)
      then run_gate
      else mark_baseline
]

-- The operation of the service that a test covers: the first that lists it.
abbrev pub add_scope : String → List String → Dict String String → Dict String String
add_scope name [] m = m
add_scope name (tid ∷ tids) m =
    add_scope name tids (if is_some (lookup tid m) then m else insert tid name m)

abbrev pub add_scopes : List OperationCoverage → Dict String String → Dict String String
add_scopes [] m = m
add_scopes (op ∷ ops) m = add_scopes ops (add_scope op.name (tests_of op) m)

abbrev pub scopes_of : Option ServiceCoverage → Dict String String
scopes_of none = []
scopes_of (some svc) = add_scopes (operations_of svc) []

unfoldable pub op_for_test : Option CoverageReport → String → String → Option String
op_for_test none service_id tid = none
op_for_test (some report) service_id tid = lookup tid (scopes_of (find_service report service_id))

-- The form of a new release: `form` is what was typed, `route` where the page was led.
pub record ReleaseModal (V : Type 0) : Type 0 where
  pub service_id : String
  pub form : V
  pub run_after : Bool
  pub busy : Bool
  pub error : String
  pub route : Option String
  pub closed : Bool

module _ {V : Type 0} (s : Server V) (id_of : V → Outcome String) (hint : String) where
  -- The evaluation, of which an error is left to the page of the gate.
  abbrev pub evaluate : Outcome String → Browser → Browser
  evaluate (thrown msg) b = b
  evaluate (resolved id) b = (evaluate_candidate s id b).1

  abbrev pub after_create : Outcome V × Browser → ReleaseModal V → ReleaseModal V × Browser
  after_create (thrown msg, b) m = (record m { error = msg; busy = false }, b)
  after_create (resolved candidate, b) m = (
    record m {
      route = some (join "/release-gates/" (s.encode_component m.service_id));
      closed = true;
    },
    if m.run_after then evaluate (id_of candidate) b else b,
  )

  unfoldable pub handle_submit : ReleaseModal V → Browser → ReleaseModal V × Browser
  handle_submit m b =
      if str_eq m.service_id ""
      then (record m { error = hint }, b)
      else after_create (create_candidate s m.service_id m.form b)
          (record m { busy = true; error = "" })

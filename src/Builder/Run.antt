-- ===== src/Builder/Run.antt =====
-- web/src/app/builder/page.tsx: a run of the test that is edited, from the press of the button to
-- its last result. The answers of the server are arguments. A node has the fields that a run
-- writes beside its name, and keeps the others. `A` is the type of assertion results.
pub mod Polling
pub mod Pressing
use meergate.Base.{
  ℕ, ◌+◌, ◌≡◌, String, join, Bool, true, false, Option, none, some, List, [], ◌∷◌, map, find,
  or_else, str_eq, if◌then◌else◌, ◌||◌,
}
use meergate.Base.Outcome.{Outcome, resolved, thrown}

pub data RunStatus : Type 0 where
  idle saving running passed failed error : RunStatus

pub record StepResult (A : Type 0) : Type 0 where
  pub step_name : String
  pub status : String
  pub duration_ms : Option ℕ
  pub assertions : Option A
  pub error : Option String

pub record RunDetail (A : Type 0) : Type 0 where
  pub status : String
  pub steps : List (StepResult A)

pub record RunNode (A : Type 0) : Type 0 where
  pub name : String
  pub run_status : Option String
  pub run_duration_ms : Option ℕ
  pub run_assertions : Option A
  pub run_error : Option String

pub record RunPanel (A : Type 0) : Type 0 where
  pub run_status : RunStatus
  pub run_detail : Option (RunDetail A)
  pub run_error : Option String
  pub bottom_panel_open : Bool
  pub nodes : List (RunNode A)
  -- The run that the interval in `runPollingRef` asks for.
  pub polling : Option String
  pub cinema_enabled : Bool
  pub cinema_run_id : Option String

-- The statuses that end a run.
abbrev pub terminal : String → Option RunStatus
terminal s =
    if str_eq s "passed"
    then some passed
    else if str_eq s "failed"
    then some failed
    else if str_eq s "error"
    then some error
    else none

-- `if (!runId)`: no id, or an empty one.
abbrev pub given_id : Option String → Option String
given_id none = none
given_id (some id) = if str_eq id "" then none else some id

abbrev pub is_busy : RunStatus → Bool
is_busy running = true
is_busy saving = true
is_busy other = false

module _ {A : Type 0} where
  abbrev pub stop_polling : RunPanel A → RunPanel A
  stop_polling p = record p { polling = none }

  abbrev pub show_result : Option (StepResult A) → RunNode A → RunNode A
  show_result none n = n
  show_result (some r) n = record n {
    run_status = some r.status;
    run_duration_ms = r.duration_ms;
    run_assertions = r.assertions;
    run_error = r.error;
  }

  abbrev pub result_of : List (StepResult A) → RunNode A → Option (StepResult A)
  result_of steps n = find (λ s. str_eq s.step_name n.name) steps

  unfoldable pub apply_run_results : RunDetail A → RunPanel A → RunPanel A
  apply_run_results detail p = record p {
    nodes = map (λ n. show_result (result_of detail.steps n) n) p.nodes;
  }

  abbrev pub clear_node : RunNode A → RunNode A
  clear_node n = record n {
    run_status = none;
    run_duration_ms = none;
    run_assertions = none;
    run_error = none;
  }

  unfoldable pub clear_run_results : RunPanel A → RunPanel A
  clear_run_results p = record p {
    run_status = idle;
    run_detail = none;
    run_error = none;
    bottom_panel_open = false;
    nodes = map clear_node p.nodes;
  }

  unfoldable pub poll_run_result : String → RunPanel A → RunPanel A
  poll_run_result run_id p = record (stop_polling p) { polling = some run_id }

  abbrev pub end_run : Option RunStatus → RunPanel A → RunPanel A
  end_run none p = p
  end_run (some status) p = record (stop_polling p) {
    run_status = status;
    bottom_panel_open = true;
  }

  -- One call of the interval, with the answer of `fetchRunDetail`.
  unfoldable pub on_poll : Outcome (RunDetail A) → RunPanel A → RunPanel A
  unfolding apply_run_results
  on_poll (resolved detail) p =
      end_run (terminal detail.status)
        (apply_run_results detail (record p { run_detail = some detail }))
  on_poll (thrown msg) p = record (stop_polling p) {
    run_status = error;
    run_error = some "Failed to fetch run results";
  }

  abbrev pub fail_run : String → RunPanel A → RunPanel A
  fail_run msg p = record p { run_error = some msg; run_status = error }

  -- Cinema mode follows the run over the WebSocket, and otherwise it is polled.
  abbrev pub follow : String → RunPanel A → RunPanel A
  follow run_id p =
      if p.cinema_enabled
      then record p { cinema_run_id = some run_id }
      else poll_run_result run_id p

  -- `if (!runId)`: without an id the run is followed otherwise.
  abbrev pub follow_given : RunPanel A → Option String → RunPanel A → RunPanel A
  follow_given otherwise none p = otherwise
  follow_given otherwise (some id) p = follow id p

  -- The id of the run: that of the answer, the builder's own, or that of the last run of the test.
  abbrev pub follow_found : Outcome (Option String) → RunPanel A → RunPanel A
  follow_found (thrown msg) p = fail_run (join "Run failed: " msg) p
  follow_found (resolved found) p =
      follow_given (fail_run "Could not find the started run" p) (given_id found) p

  abbrev pub after_start :
      String → Outcome (Option String) → Outcome (Option String) → RunPanel A → RunPanel A
  after_start builder_run_id (thrown msg) found p = fail_run (join "Run failed: " msg) p
  after_start builder_run_id (resolved id) found p =
      follow_given (follow_found found p) (given_id (some (or_else id builder_run_id))) p

  abbrev show_node_running : RunNode A → RunNode A
  show_node_running n = record n { run_status = some "running" }

  abbrev pub show_running : RunPanel A → RunPanel A
  show_running p = record p { run_status = running; nodes = map show_node_running p.nodes }

  abbrev pub after_save :
      String
      → Outcome {0} Unit
      → Outcome (Option String)
      → Outcome (Option String)
      → RunPanel A
      → RunPanel A
  after_save builder_run_id (thrown msg) started found p = fail_run (join "Save failed: " msg) p
  after_save builder_run_id (resolved u) started found p =
      after_start builder_run_id started found (show_running p)

  -- `started` is the id in the answer of `runSingleTest`, `found` that of the run looked up.
  unfoldable pub handle_run :
      (test_id builder_run_id : String)
      → Outcome {0} Unit
      → (started found : Outcome (Option String)) → RunPanel A
      → RunPanel A
  unfolding clear_run_results
  handle_run test_id builder_run_id saved started found p =
      if is_busy p.run_status || str_eq test_id ""
      then p
      else after_save builder_run_id saved started found
          (record (clear_run_results p) { run_status = saving })

-- The panel, and the number of requests of the interval whose answers are awaited: the interval does
-- not wait for an answer before it asks again.
pub record RunWatch (A : Type 0) : Type 0 where
  pub panel : RunPanel A
  pub in_flight : ℕ

module _ {A : Type 0} where
  abbrev pub ask : RunWatch A → RunWatch A
  ask w = record w { in_flight = w.in_flight + 1 }

  -- An answer arrives, where `n` others are awaited still. It is applied also when the interval is
  -- cleared meanwhile.
  unfoldable pub receive : Outcome (RunDetail A) → ℕ → RunWatch A → RunWatch A
  unfolding on_poll
  receive answer n w = record { panel = on_poll answer w.panel; in_flight = n }

  -- The interval asks while it is set, and awaited answers arrive in any order: the state after the
  -- answers that have arrived.
  pub data Polls : RunWatch A → List (Outcome (RunDetail A)) → RunWatch A → Type 0 where
    waiting : (w : RunWatch A) → Polls w [] w
    asking :
        (w : RunWatch A) (answers : List (Outcome (RunDetail A))) (end : RunWatch A) (id : String)
        → w.panel.polling ≡ some id
        → Polls (ask w) answers end
        → Polls w answers end
    receiving :
        (w : RunWatch A) (answer : Outcome (RunDetail A)) (answers : List (Outcome (RunDetail A)))
        (end : RunWatch A) (n : ℕ)
        → w.in_flight ≡ n + 1
        → Polls (receive answer n w) answers end
        → Polls w (answer ∷ answers) end

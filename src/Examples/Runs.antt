-- ===== src/Examples/Runs.antt =====
-- The run of the builder's test, with a server whose answers overlap.
use meergate.Base.{ℕ, ◌≡◌, refl, String, false, none, some, List, [], ◌∷◌}
use meergate.Base.Outcome.{Outcome, resolved, thrown}
use meergate.Builder.Run.{
  RunPanel, RunNode, RunDetail, StepResult, idle, passed, handle_run, on_poll, error, RunWatch,
  Polls, receive, asking, receiving, waiting, clear_run_results, poll_run_result,
}
use meergate.Builder.Run.Polling.{view}
use meergate.Builder.Run.Pressing.{handle_run-verdict}

abbrev step_node : RunNode String
step_node = record {
  name = "Login";
  run_status = none;
  run_duration_ms = none;
  run_assertions = none;
  run_error = none;
}

abbrev panel : RunPanel String
panel = record {
  run_status = idle;
  run_detail = none;
  run_error = none;
  bottom_panel_open = false;
  nodes = step_node ∷ [];
  polling = none;
  cinema_enabled = false;
  cinema_run_id = none;
}

abbrev going : RunDetail String
going = record { status = "running"; steps = [] }

abbrev login_passed : StepResult String
login_passed = record {
  step_name = "Login";
  status = "passed";
  duration_ms = some 12;
  assertions = none;
  error = none;
}

abbrev done : RunDetail String
done = record { status = "passed"; steps = login_passed ∷ [] }

-- Two requests are made before the first is answered; the second is answered after the end.
abbrev answers : List (Outcome (RunDetail String))
answers = resolved done ∷ resolved going ∷ []

abbrev watch : RunPanel String → ℕ → RunWatch String
watch p n = record { panel = p; in_flight = n }

abbrev started : RunPanel String
started = handle_run "t1" "b1" (resolved tt) (resolved none) (thrown "") panel

abbrev ended : RunWatch String
ended = receive (resolved going) 0 (receive (resolved done) 1 (watch started 2))

started_asks : started.polling ≡ some "b1"
unfolding handle_run poll_run_result clear_run_results
started_asks = refl

ended-Polls : Polls (watch started 0) answers ended
unfolding receive
ended-Polls = asking (watch started 0) answers ended "b1" started_asks (
    asking (watch started 1) answers ended "b1" started_asks (
      receiving (watch started 2) (resolved done) (resolved going ∷ []) ended 1 refl (
        receiving (receive (resolved done) 1 (watch started 2)) (resolved going) [] ended 0 refl
          (waiting ended))))

-- A request that fails after the end turns the status into an error.
late_failure : (on_poll (thrown "late") (on_poll (resolved done) started)).run_status ≡ error
unfolding on_poll
late_failure = refl

not_saved :
    (handle_run "t1" "b1" (thrown "no") (resolved none) (thrown "") panel).run_error
    ≡ some "Save failed: no"
unfolding handle_run clear_run_results
not_saved = refl

handle_run-verdict_example : view ended.panel ≡ (none, passed)
handle_run-verdict_example =
    handle_run-verdict panel "t1" "b1" (resolved tt) (resolved none) (thrown "") answers ended refl
      refl refl ended-Polls

abbrev late : List (Outcome (RunDetail String))
late = thrown "late" ∷ []

abbrev failed_late : RunWatch String
failed_late = receive (thrown "late") 0 (receive (resolved done) 1 (watch started 2))

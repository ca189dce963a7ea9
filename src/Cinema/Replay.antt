-- ===== src/Cinema/Replay.antt =====
-- web/src/hooks/use-cinema-mode.ts, `loadReplayData`: the step results of a run as synthetic
-- events. The comparison of the start times, `localeCompare`, is a parameter.
pub mod Numbers
pub mod Results
use meergate.Base.{
  ℕ, suc, ◌+◌, String, Bool, true, false, Option, none, some, List, [], ◌∷◌, ◌++◌, leb, str_eq,
  if◌then◌else◌, or_else, sort, length,
}
use meergate.Cinema.{
  AssertionResult, Payload, RunEvent, step_started, assertion_evaluated, step_completed,
  run_completed,
}
use meergate.Cinema.Controls.{Hook, set_state}

pub record ReplayStep (V : Type 0) : Type 0 where
  pub step_index : ℕ
  pub step_name : String
  pub status : String
  pub duration_ms : Option ℕ
  pub started_at : Option String
  pub assertions : Option (List (AssertionResult V))

abbrev truthy_text : Option String → Option String
truthy_text none = none
truthy_text (some s) = if str_eq s "" then none else some s

-- By start time where both steps have one, and otherwise by index.
abbrev earlier : (String → String → Bool) → Option String → Option String → Bool → Bool
earlier at_most (some a) (some b) by_index = at_most a b
earlier at_most _ _ by_index = by_index

module _ {V : Type 0} where
  unfoldable pub step_le : (String → String → Bool) → ReplayStep V → ReplayStep V → Bool
  step_le at_most a b =
      earlier at_most (truthy_text a.started_at) (truthy_text b.started_at)
        (leb a.step_index b.step_index)

  -- The events of the assertions of one step, and the last sequence number.
  unfoldable pub assertion_events : ReplayStep V → ℕ → List (AssertionResult V) → List (RunEvent V)
  assertion_events step seq [] = []
  assertion_events step seq (a ∷ as') =
      record {
        payload = assertion_evaluated step.step_index step.step_name a;
        ts = "";
        seq = seq + 1;
      }
      ∷ assertion_events step (seq + 1) as'

  -- The events of one step whose start has the number `seq + 1`.
  unfoldable pub step_events : ReplayStep V → ℕ → List (RunEvent V)
  unfolding assertion_events
  step_events step seq =
      let results = or_else step.assertions [] in
      record {
        payload = step_started step.step_index;
        ts = or_else step.started_at "";
        seq = seq + 1;
      }
      ∷ (assertion_events step (seq + 1) results
          ++ record {
            payload = step_completed step.step_index step.status step.duration_ms;
            ts = "";
            seq = seq + 1 + length results + 1;
          }
            ∷ [])

  -- The loop over the sorted steps, and the event that ends the run.
  unfoldable pub replay_events_from : ℕ → List (ReplayStep V) → List (RunEvent V)
  unfolding step_events
  replay_events_from seq [] = record { payload = run_completed; ts = ""; seq = seq + 1 } ∷ []
  replay_events_from seq (step ∷ steps) =
      step_events step seq
      ++ replay_events_from (seq + 2 + length (or_else step.assertions [])) steps

  unfoldable pub load_replay_data : (String → String → Bool) → List (ReplayStep V) → Hook V → Hook V
  unfolding replay_events_from step_le sort
  load_replay_data at_most steps h =
      let events = replay_events_from 0 (sort (step_le at_most) steps) in
      set_state (λ prev. record prev { total_events = length events })
        (record h { replay_events = events })

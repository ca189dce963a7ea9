-- ===== src/Cinema/Replay/Results.antt =====
-- web/src/hooks/use-cinema-mode.ts: seeking to the end of a loaded run.
use meergate.Base.{Bool, Option, List, [], ◌∷◌, or_else, nat_eq}
use meergate.Cinema.{
  AssertionResult, NodeCinemaState, NodeStates, RunEvent, start_node, push_assertion,
}
use meergate.Cinema.Controls.{seek_event}
use meergate.Cinema.Replay.{ReplayStep}

module _ {V : Type 0} where
  -- All events of a list, in order.
  seek_all : List (RunEvent V) → NodeStates V × Bool → NodeStates V × Bool
  seek_all [] acc = acc
  seek_all (e ∷ es) acc = seek_all es (seek_event e.payload acc)

  -- A node after the assertions of a step, and after the whole step.
  abbrev with_assertions : List (AssertionResult V) → NodeCinemaState V → NodeCinemaState V
  with_assertions [] n = n
  with_assertions (a ∷ as') n = with_assertions as' (push_assertion a n)

  abbrev pub finished : ReplayStep V → Option (NodeCinemaState V) → NodeCinemaState V
  finished step before = record (with_assertions (or_else step.assertions []) (start_node before)) {
    status = step.status;
    duration_ms = step.duration_ms;
  }

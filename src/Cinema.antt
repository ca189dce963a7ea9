-- ===== src/Cinema.antt =====
-- web/src/hooks/use-cinema-mode.ts: the state of the run replay, and the reducer of its events.
-- The payload of an event is a case for each type that the reducer reads; a value that the code
-- only stores (`unknown`) is of the parameter `V`.
pub mod Controls
pub mod Replay
use meergate.Base.{
  ℕ, zero, suc, ◌+◌, ◌-◌, String, join, Bool, true, false, not, ◌&&◌, ◌||◌, Option, none, some,
  List, [], ◌∷◌, ◌++◌, ltb, filter, length, if◌then◌else◌, or_else, Dict, lookup, insert, nat_eq,
  string_eq, decimal,
}

pub record AssertionResult (V : Type 0) : Type 0 where
  pub name : String
  pub passed : Bool
  pub expected : V
  pub actual : V

-- The statuses are the texts that the server sends: "waiting", "running", "passed", ...
pub record NodeCinemaState (V : Type 0) : Type 0 where
  pub status : String
  pub duration_ms : Option ℕ
  pub assertions : Option (List (AssertionResult V))
  pub extracted_data : Option (Dict String V)

-- The target of a flow is -1 in the code until the overlay resolves it, and is left out.
pub record EdgeFlow (V : Type 0) : Type 0 where
  pub id : String
  pub source_step_index : ℕ
  pub key : String
  pub value : V
  pub started_at : ℕ

pub record SpotlightData (V : Type 0) : Type 0 where
  pub step_index : ℕ
  pub step_name : String
  pub assertion : AssertionResult V
  pub ts : ℕ

pub data PlaybackState : Type 0 where
  playing paused stopped : PlaybackState

pub data Mode : Type 0 where
  live replay : Mode

abbrev pub NodeStates : Type 0 → Type 0
NodeStates V = Dict ℕ (NodeCinemaState V)

-- The speed is in tenths: 5, 10, 20 and 50 are the speeds of the scrubber.
pub record CinemaState (V : Type 0) : Type 0 where
  pub active : Bool
  pub mode : Mode
  pub playback : PlaybackState
  pub speed : ℕ
  pub current_seq : ℕ
  pub total_events : ℕ
  pub node_states : NodeStates V
  pub active_flows : List (EdgeFlow V)
  pub spotlight : Option (SpotlightData V)
  pub run_completed : Bool

pub data Payload (V : Type 0) : Type 0 where
  step_started : ℕ → Payload V
  step_completed : ℕ → String → Option ℕ → Payload V
  assertion_evaluated : ℕ → String → AssertionResult V → Payload V
  data_extracted : ℕ → String → V → Payload V
  run_completed : Payload V
  other : Payload V

pub record RunEvent (V : Type 0) : Type 0 where
  pub payload : Payload V
  pub ts : String
  pub seq : ℕ

abbrev pub flow_lifetime_ms : ℕ
flow_lifetime_ms = 2500

abbrev pub spotlight_lifetime_ms : ℕ
spotlight_lifetime_ms = 1500

unfoldable pub initial_state : {V : Type 0} → CinemaState V
initial_state = record {
  active = false;
  mode = live;
  playback = stopped;
  speed = 10;
  current_seq = 0;
  total_events = 0;
  node_states = [];
  active_flows = [];
  spotlight = none;
  run_completed = false;
}

-- A node of which only the status is set.
abbrev pub node_of : {V : Type 0} → String → NodeCinemaState V
node_of status = record {
  status = status;
  duration_ms = none;
  assertions = none;
  extracted_data = none;
}

module _ {V : Type 0} where
  unfoldable pub waiting_from : ℕ → ℕ → NodeStates V → NodeStates V
  waiting_from i zero m = m
  waiting_from i (suc left) m = waiting_from (i + 1) left (insert i (node_of "waiting") m)

  -- The loop that sets every step to waiting.
  unfoldable pub waiting_nodes : ℕ → NodeStates V
  unfolding waiting_from
  waiting_nodes total_steps = waiting_from 0 total_steps []

  -- The interval, set while the mode is active, drops what has been shown long enough at the
  -- time `now`.
  abbrev pub is_alive : ℕ → EdgeFlow V → Bool
  is_alive now f = not (ltb flow_lifetime_ms (now - f.started_at))

  abbrev live_spotlight : ℕ → Option (SpotlightData V) → Option (SpotlightData V)
  live_spotlight now none = none
  live_spotlight now (some s) = if ltb spotlight_lifetime_ms (now - s.ts) then none else some s

  unfoldable pub cleanup : ℕ → CinemaState V → CinemaState V
  cleanup now prev = record prev {
    active_flows = filter (is_alive now) prev.active_flows;
    spotlight = live_spotlight now prev.spotlight;
  }

  abbrev start_node : Option (NodeCinemaState V) → NodeCinemaState V
  start_node none = node_of "running"
  start_node (some n) = record n { status = "running" }

  abbrev push_assertion : AssertionResult V → NodeCinemaState V → NodeCinemaState V
  push_assertion a n = record n { assertions = some (or_else n.assertions [] ++ a ∷ []) }

  abbrev put_extracted : String → V → NodeCinemaState V → NodeCinemaState V
  put_extracted key v n = record n {
    extracted_data = some (insert key v (or_else n.extracted_data []));
  }

  -- `setState` of `processEvent`: the counter of flow ids and the time are arguments, and the
  -- counter comes back with the state.
  apply_event : ℕ → Payload V → CinemaState V → ℕ → CinemaState V × ℕ
  apply_event now (step_started idx) prev flow_id = (
    record prev {
      node_states = insert idx (start_node (lookup idx prev.node_states)) prev.node_states;
    },
    flow_id,
  )
  apply_event now (step_completed idx status duration) prev flow_id =
      let existing = or_else (lookup idx prev.node_states) (node_of "waiting") in
      (
        record prev {
          node_states =
              insert idx (record existing { status = status; duration_ms = duration })
                prev.node_states;
        },
        flow_id,
      )
  apply_event now (assertion_evaluated idx step_name a) prev flow_id =
      let existing = or_else (lookup idx prev.node_states) (node_of "running") in
      (
        record prev {
          node_states = insert idx (push_assertion a existing) prev.node_states;
          spotlight =
              some (record { step_index = idx; step_name = step_name; assertion = a; ts = now });
        },
        flow_id,
      )
  apply_event now (data_extracted idx key v) prev flow_id =
      let existing = or_else (lookup idx prev.node_states) (node_of "running") in
      (
        record prev {
          node_states = insert idx (put_extracted key v existing) prev.node_states;
          active_flows =
              prev.active_flows
              ++ record {
                id = join "flow-" (decimal (flow_id + 1));
                source_step_index = idx;
                key = key;
                value = v;
                started_at = now;
              }
                ∷ [];
        },
        flow_id + 1,
      )
  apply_event now run_completed prev flow_id = (record prev { run_completed = true }, flow_id)
  apply_event now other prev flow_id = (prev, flow_id)

  unfoldable pub process_event : ℕ → RunEvent V → CinemaState V → ℕ → CinemaState V × ℕ
  unfolding apply_event
  process_event now evt prev flow_id =
      if prev.active
      then (let (next, flow_id') = apply_event now evt.payload prev flow_id in
          (record next { current_seq = evt.seq; total_events = next.total_events + 1 }, flow_id'))
      else (prev, flow_id)

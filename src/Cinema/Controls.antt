-- ===== src/Cinema/Controls.antt =====
-- web/src/hooks/use-cinema-mode.ts: the controls of the hook. Its state is the React state, the
-- replay events, the counter of flow ids, and the timers that are set: the code remembers the
-- last one only, in `replayTimerRef`. `Date` is a parameter: the milliseconds of a text, if it is
-- a date.

pub mod Seek
pub mod Timers
use meergate.Base.{
  ℕ, zero, suc, ◌+◌, ◌-◌, ◌*◌, ◌/◌, max, String, Bool, true, false, not, ◌&&◌, Option, none, some,
  List, [], ◌∷◌, ◌++◌, ltb, ◌==◌, find, filter, if◌then◌else◌, or_else, lookup, insert, nat_eq,
  string_eq, str_eq,
}
use meergate.Cinema.{
  CinemaState, NodeStates, NodeCinemaState, Payload, RunEvent, Mode, live, replay, playing, paused,
  stopped, initial_state, waiting_nodes, process_event, start_node, push_assertion, put_extracted,
  node_of, step_started, step_completed, assertion_evaluated, data_extracted, run_completed, other,
}

-- A timer that has been set and has not fired: its callback processes `next`.
pub record Timer (V : Type 0) : Type 0 where
  pub timer_id : ℕ
  pub next : RunEvent V
  pub delay : ℕ

pub record Hook (V : Type 0) : Type 0 where
  pub state : CinemaState V
  pub replay_events : List (RunEvent V)
  pub flow_id : ℕ
  pub timers : List (Timer V)
  pub replay_timer : Option ℕ
  pub next_timer_id : ℕ

unfoldable pub initial_hook : {V : Type 0} → Hook V
unfolding initial_state
initial_hook = record {
  state = initial_state;
  replay_events = [];
  flow_id = 0;
  timers = [];
  replay_timer = none;
  next_timer_id = 0;
}

abbrev pub is_replay : Mode → Bool
is_replay live = false
is_replay replay = true

-- An event without a time has the empty text.
abbrev time_of : (String → Option ℕ) → String → Option ℕ
time_of millis ts = if str_eq ts "" then none else millis ts

-- The distance of two times, if it is positive and below 30 s, or else 300 ms.
abbrev gap : Option ℕ → Option ℕ → ℕ
gap (some a) (some b) = if ltb a b && ltb (b - a) 30000 then b - a else 300
gap _ _ = 300

module _ {V : Type 0} where
  -- `setState`.
  abbrev pub set_state : (CinemaState V → CinemaState V) → Hook V → Hook V
  set_state f h = record h { state = f h.state }

  unfoldable pub activate : ℕ → Mode → Hook V → Hook V
  activate total_steps mode = set_state (λ prev. record prev {
    active = true;
    mode = mode;
    playback = elim mode [ live ↦ playing | replay ↦ paused ];
    speed = 10;
    current_seq = 0;
    total_events = 0;
    node_states = waiting_nodes total_steps;
    active_flows = [];
    spotlight = none;
    run_completed = false;
  })

  -- `processEvent`, called with an event of the live run.
  unfoldable pub receive : ℕ → RunEvent V → Hook V → Hook V
  receive now evt h =
      let (state, flow_id) = process_event now evt h.state h.flow_id in
      record h { state = state; flow_id = flow_id }

  -- `clearTimeout` of the remembered timer, if there is one.
  unfoldable pub clear_timer : Hook V → Hook V
  clear_timer h = elim h.replay_timer [
    | none ↦ h
    | some k ↦ record h {
      timers = filter (λ t. not (t.timer_id == k)) h.timers;
      replay_timer = none;
    }
  ]

  unfoldable pub deactivate : Hook V → Hook V
  unfolding clear_timer
  deactivate h = record (clear_timer h) { replay_events = []; state = initial_state }

  unfoldable pub pause : Hook V → Hook V
  unfolding clear_timer
  pause h = set_state (λ prev. record prev { playback = paused }) (clear_timer h)

  unfoldable pub set_speed : ℕ → Hook V → Hook V
  set_speed speed = set_state (λ prev. record prev { speed = speed })

  -- The `switch` of `seekTo`, on the node states and `runCompleted`.
  unfoldable pub seek_event : Payload V → NodeStates V × Bool → NodeStates V × Bool
  seek_event (step_started idx) (nodes, done) =
      (insert idx (start_node (lookup idx nodes)) nodes, done)
  seek_event (step_completed idx status duration) (nodes, done) =
      let existing = or_else (lookup idx nodes) (node_of "waiting") in
      (insert idx (record existing { status = status; duration_ms = duration }) nodes, done)
  seek_event (assertion_evaluated idx step_name a) (nodes, done) =
      (insert idx (push_assertion a (or_else (lookup idx nodes) (node_of "running"))) nodes, done)
  seek_event (data_extracted idx key v) (nodes, done) = (
    insert idx (put_extracted key v (or_else (lookup idx nodes) (node_of "running"))) nodes,
    done,
  )
  seek_event run_completed (nodes, done) = (nodes, true)
  seek_event other (nodes, done) = (nodes, done)

  -- The loop of `seekTo`, which stops at the first event behind the target.
  unfoldable pub seek_events : ℕ → List (RunEvent V) → NodeStates V × Bool → NodeStates V × Bool
  unfolding seek_event
  seek_events seq [] acc = acc
  seek_events seq (evt ∷ evts) acc =
      let rest = seek_events seq evts (seek_event evt.payload acc) in
      if ltb seq evt.seq then acc else rest

  unfoldable pub seek_to : ℕ → ℕ → Hook V → Hook V
  unfolding seek_events
  seek_to total_steps seq h =
      let (nodes, done) = seek_events seq h.replay_events (waiting_nodes total_steps, false) in
      set_state
        (λ prev. record prev {
          current_seq = seq;
          node_states = nodes;
          active_flows = [];
          spotlight = none;
          run_completed = done;
        })
        h

  unfoldable pub reset : ℕ → Hook V → Hook V
  unfolding clear_timer
  reset total_steps h =
      set_state
        (λ prev. record prev {
          current_seq = 0;
          node_states = waiting_nodes total_steps;
          active_flows = [];
          spotlight = none;
          run_completed = false;
          playback = stopped;
        })
        (clear_timer h)

  -- The first event behind `seq`, and the one before it in the list.
  unfoldable pub next_event :
      ℕ → Option (RunEvent V) → List (RunEvent V) → Option (Option (RunEvent V) × RunEvent V)
  next_event seq before [] = none
  next_event seq before (evt ∷ evts) =
      if ltb seq evt.seq then some (before, evt) else next_event seq (some evt) evts

  module _ (millis : String → Option ℕ) where
    unfoldable pub event_delay : Option (RunEvent V) → RunEvent V → ℕ
    event_delay none next = 300
    event_delay (some before) next = gap (time_of millis before.ts) (time_of millis next.ts)

    -- `setTimeout`.
    abbrev pub new_timer : Option (RunEvent V) → RunEvent V → ℕ → Hook V → Timer V
    new_timer before next speed h = record {
      timer_id = h.next_timer_id;
      next = next;
      delay = max 50 (event_delay before next * 10 / speed);
    }

    unfoldable pub schedule_next : ℕ → ℕ → Hook V → Hook V
    unfolding next_event event_delay
    schedule_next current_seq speed h = elim (next_event current_seq none h.replay_events) [
      | none ↦ h
      | some (before, next) ↦ record h {
        timers = h.timers ++ new_timer before next speed h ∷ [];
        replay_timer = some h.next_timer_id;
        next_timer_id = h.next_timer_id + 1;
      }
    ]

    unfoldable pub play : Hook V → Hook V
    unfolding schedule_next
    play h =
        if h.state.active
        then set_state (λ prev. record prev { playback = playing })
            (if is_replay h.state.mode
              then schedule_next h.state.current_seq h.state.speed h
              else h)
        else h

    abbrev is_playing : CinemaState V → Bool
    is_playing s = elim s.playback [ playing ↦ is_replay s.mode | _ ↦ false ]

    -- The callback of a timer, at the time `now`: the timer is no longer set.
    unfoldable pub fire : ℕ → Timer V → Hook V → Hook V
    unfolding schedule_next
    fire now t h =
        let (state, flow_id) = process_event now t.next h.state h.flow_id in
        let h' = record h {
          state = state;
          flow_id = flow_id;
          timers = filter (λ u. not (u.timer_id == t.timer_id)) h.timers;
        } in
        if is_playing state then schedule_next t.next.seq state.speed h' else h'

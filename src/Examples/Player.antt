-- ===== src/Examples/Player.antt =====
-- web/src/hooks/use-cinema-mode.ts on the replay of a run of two steps.
use meergate.Base.{
  ℕ, ◌*◌, ◌≡◌, refl, String, Bool, true, Option, none, some, List, [], ◌∷◌, ◌++◌, length, nat_eq,
  arith, sort,
}
use meergate.Cinema.{AssertionResult, RunEvent, replay, waiting_nodes, initial_state, waiting_from}
use meergate.Cinema.Controls.{
  Hook, initial_hook, activate, deactivate, pause, reset, play, seek_to, schedule_next, next_event,
  event_delay,
}
use meergate.Cinema.Controls.Seek.{seek_to-process, process_all, events_of, progress}
use meergate.Cinema.Controls.Timers.{
  Reach, Reach-stops, IsSingle, here, next, activating, loading, starting,
}
use meergate.Cinema.Replay.{
  ReplayStep, load_replay_data, replay_events_from, step_events, assertion_events, step_le,
}
use meergate.Cinema.Replay.Numbers.{replay-total_events}

abbrev by_text : String → String → Bool
by_text a b = true

abbrev no_date : String → Option ℕ
no_date s = none

abbrev ok : AssertionResult ℕ
ok = record { name = "status"; passed = true; expected = 200; actual = 200 }

abbrev login : ReplayStep ℕ
login = record {
  step_index = 0;
  step_name = "login";
  status = "passed";
  duration_ms = some 12;
  started_at = none;
  assertions = some (ok ∷ []);
}

abbrev buy : ReplayStep ℕ
buy = record {
  step_index = 1;
  step_name = "buy";
  status = "failed";
  duration_ms = none;
  started_at = none;
  assertions = none;
}

abbrev steps : List (ReplayStep ℕ)
steps = buy ∷ login ∷ []

-- The replay, activated and loaded.
abbrev loaded : Hook ℕ
loaded = load_replay_data by_text steps (activate 2 replay initial_hook)

events_are : Unit {0}
unfolding load_replay_data activate replay_events_from step_events assertion_events step_le sort
    waiting_nodes waiting_from initial_hook initial_state
events_are = tt

loaded_count : length loaded.replay_events ≡ 6
unfolding events_are
loaded_count = refl

-- The loaded events, all at the time 0.
abbrev timed : List (RunEvent ℕ) → List (ℕ × RunEvent ℕ)
timed [] = []
timed (e ∷ es) = (0, e) ∷ timed es

abbrev first_part : List (ℕ × RunEvent ℕ)
first_part = timed (step_events login 0)

abbrev second_part : List (RunEvent ℕ)
second_part = replay_events_from 3 (buy ∷ [])

split : loaded.replay_events ≡ events_of first_part ++ second_part
unfolding events_are
split = refl

seek_to-process_example :
    progress (seek_to 2 3 loaded).state
    ≡ progress (process_all first_part (activate 2 replay loaded).state loaded.flow_id).0
unfolding step_events assertion_events replay_events_from
seek_to-process_example =
    seek_to-process 2 3 loaded first_part second_part split
      (omega arith, (omega arith, (omega arith, tt)))
      (omega arith, (omega arith, (omega arith, tt))) replay

all_events : events_of (timed loaded.replay_events) ≡ loaded.replay_events
unfolding events_are
all_events = refl

abbrev opened : Hook ℕ
opened = activate 2 replay (load_replay_data by_text steps initial_hook)

replay-total_events_example :
    let n = length loaded.replay_events in
    let ended = (process_all (timed loaded.replay_events) loaded.state loaded.flow_id).0 in
    let ended_opened = (process_all (timed loaded.replay_events) opened.state opened.flow_id).0 in
    ((loaded.state.total_events ≡ n) × (ended.current_seq ≡ n) × (ended.total_events ≡ 2 * n))
    × (opened.state.total_events ≡ 0)
    × (ended_opened.current_seq ≡ n)
    × (ended_opened.total_events ≡ n)
unfolding initial_hook load_replay_data activate
replay-total_events_example =
    replay-total_events by_text 2 steps initial_hook (timed loaded.replay_events) all_events

no_timers : loaded.timers ≡ []
unfolding events_are
no_timers = refl

playing_reached : Reach no_date 2 (play no_date loaded)
playing_reached =
    next
      (next (next here (activating replay initial_hook))
        (loading by_text steps (activate 2 replay initial_hook)))
      (starting loaded no_timers)

-- Playing sets one timer.
timer_is_set : length (play no_date loaded).timers ≡ 1
unfolding events_are play schedule_next next_event event_delay
timer_is_set = refl

Reach-stops_example :
    IsSingle (play no_date loaded)
    × ((pause (play no_date loaded)).timers ≡ [])
    × ((reset 2 (play no_date loaded)).timers ≡ [])
    × ((deactivate (play no_date loaded)).timers ≡ [])
Reach-stops_example = Reach-stops no_date 2 (play no_date loaded) playing_reached

-- ===== src/Cinema/Controls/Seek.antt =====
-- web/src/hooks/use-cinema-mode.ts: `seekTo`, which repeats the `switch` of `processEvent`, and
-- playing the events.
use meergate.Base.{
  ℕ, ◌+◌, ◌≤◌, ◌<◌, ◌≡◌, refl, ap, sym, ◌∙◌, Bool, true, List, [], ◌∷◌, ◌++◌, arith, lt→ltb,
  le→not_ltb, length, All,
}
use meergate.Cinema.{
  CinemaState, NodeStates, Payload, RunEvent, Mode, process_event, apply_event, step_started,
  step_completed, assertion_evaluated, data_extracted, run_completed, other,
}
use meergate.Cinema.Controls.{Hook, activate, seek_event, seek_events, seek_to}

module _ {V : Type 0} where
  -- The nodes, and whether the run is completed.
  abbrev pub progress : CinemaState V → NodeStates V × Bool
  progress s = (s.node_states, s.run_completed)

  -- The events of a list processed one after the other, each at its time.
  unfoldable pub process_all : List (ℕ × RunEvent V) → CinemaState V → ℕ → CinemaState V × ℕ
  process_all [] s flow_id = (s, flow_id)
  process_all ((now, evt) ∷ evts) s flow_id =
      let (next, flow_id') = process_event now evt s flow_id in process_all evts next flow_id'

  abbrev pub events_of : List (ℕ × RunEvent V) → List (RunEvent V)
  events_of [] = []
  events_of ((now, evt) ∷ evts) = evt ∷ events_of evts

  apply_event-progress :
      (now : ℕ) (p : Payload V) (s : CinemaState V) (flow_id : ℕ)
      → (progress (apply_event now p s flow_id).0 ≡ seek_event p (progress s))
        × ((apply_event now p s flow_id).0.active ≡ s.active)
        × ((apply_event now p s flow_id).0.total_events ≡ s.total_events)
  unfolding apply_event seek_event
  apply_event-progress now (step_started idx) s flow_id = (refl, refl, refl)
  apply_event-progress now (step_completed idx status d) s flow_id = (refl, refl, refl)
  apply_event-progress now (assertion_evaluated idx name a) s flow_id = (refl, refl, refl)
  apply_event-progress now (data_extracted idx k v) s flow_id = (refl, refl, refl)
  apply_event-progress now run_completed s flow_id = (refl, refl, refl)
  apply_event-progress now other s flow_id = (refl, refl, refl)

  -- One event, while the mode is active.
  pub process_event-progress :
      (now : ℕ) (evt : RunEvent V) (s : CinemaState V) (flow_id : ℕ)
      → s.active ≡ true
      → let next = (process_event now evt s flow_id).0 in
        (progress next ≡ seek_event evt.payload (progress s))
        × (next.active ≡ true)
        × (next.total_events ≡ s.total_events + 1)
        × (next.current_seq ≡ evt.seq)
  unfolding process_event
  process_event-progress now evt s flow_id h =
      let (same, active, total) = apply_event-progress now evt.payload s flow_id in
      simp h (same, active ∙ h, ap (λ (n : ℕ). n + 1) total, refl)

  -- `seekTo` to a number stops before the events behind it.
  pub seek_events-stop :
      (seq : ℕ) (post : List (RunEvent V)) (acc : NodeStates V × Bool)
      → All (λ e. seq < e.seq) post
      → seek_events seq post acc ≡ acc
  unfolding seek_events
  seek_events-stop seq [] acc h = refl
  seek_events-stop seq (e ∷ es) acc h = rw (lt→ltb seq e.seq h.0)

  pub seek_events-step :
      (seq : ℕ) (e : RunEvent V) (es : List (RunEvent V)) (acc : NodeStates V × Bool)
      → e.seq ≤ seq
      → seek_events seq (e ∷ es) acc ≡ seek_events seq es (seek_event e.payload acc)
  unfolding seek_events
  seek_events-step seq e es acc h = rw (le→not_ltb e.seq seq h)

  seek_events-process :
      (seq : ℕ) (pre : List (ℕ × RunEvent V)) (post : List (RunEvent V)) (s : CinemaState V)
      (flow_id : ℕ)
      → s.active ≡ true
      → All (λ e. e.1.seq ≤ seq) pre
      → All (λ e. seq < e.seq) post
      → progress (process_all pre s flow_id).0
        ≡ seek_events seq (events_of pre ++ post) (progress s)
  unfolding process_all
  seek_events-process seq [] post s flow_id h before behind =
      sym (seek_events-stop seq post (progress s) behind)
  seek_events-process seq ((now, e) ∷ pre) post s flow_id h before behind =
      let (same, active, _, _) = process_event-progress now e s flow_id h in
      let next = process_event now e s flow_id in
      seek_events-process seq pre post next.0 next.1 active before.1 behind
      ∙ (rw same (sym (seek_events-step seq e (events_of pre ++ post) (progress s) before.0)))

  -- Seeking to a number leaves the nodes, and the end of the run, as they are after activating the
  -- replay and playing the loaded events up to that number, at any times.
  pub seek_to-process :
      (total_steps seq : ℕ) (h : Hook V) (pre : List (ℕ × RunEvent V)) (post : List (RunEvent V))
      → h.replay_events ≡ events_of pre ++ post
      → All (λ e. e.1.seq ≤ seq) pre
      → All (λ e. seq < e.seq) post
      → (mode : Mode)
      → progress (seek_to total_steps seq h).state
        ≡ progress (process_all pre (activate total_steps mode h).state h.flow_id).0
  unfolding seek_to activate
  seek_to-process total_steps seq h pre post loaded before behind mode = rw loaded (
      sym (
        seek_events-process seq pre post (activate total_steps mode h).state h.flow_id refl before
          behind))

  -- Processing events while active adds their number to `totalEvents`.
  pub process_all-total :
      (evts : List (ℕ × RunEvent V)) (s : CinemaState V) (flow_id : ℕ)
      → s.active ≡ true
      → (process_all evts s flow_id).0.total_events ≡ s.total_events + length evts
  unfolding process_all
  process_all-total [] s flow_id h = omega arith
  process_all-total ((now, e) ∷ es) s flow_id h =
      let (_, active, total, _) = process_event-progress now e s flow_id h in
      let next = process_event now e s flow_id in
      omega (arith, process_all-total es next.0 next.1 active, total)

-- ===== src/Cinema/Replay/Numbers.antt =====
-- web/src/hooks/use-cinema-mode.ts: the sequence numbers of the loaded events, and what playing
-- them does to `totalEvents`.
use meergate.Base.{
  ℕ, suc, ◌+◌, ◌*◌, ◌≤◌, ◌≡◌, refl, ap, sym, subst, ◌∙◌, String, Bool, true, List, [], ◌∷◌, ◌++◌,
  length, length-append, or_else, All, sort, arith,
}
use meergate.Cinema.{AssertionResult, CinemaState, RunEvent, replay, process_event}
use meergate.Cinema.Controls.{Hook, activate}
use meergate.Cinema.Controls.Seek.{
  process_all, events_of, process_event-progress, process_all-total,
}
use meergate.Cinema.Replay.{
  ReplayStep, assertion_events, step_events, replay_events_from, load_replay_data, step_le,
}

module _ {V : Type 0} where
  -- The events are numbered from `n + 1` on, without a gap.
  abbrev pub IsNumbered : ℕ → List (RunEvent V) → Type 0
  IsNumbered n [] = Unit
  IsNumbered n (e ∷ es) = (e.seq ≡ n + 1) × IsNumbered (n + 1) es

  IsNumbered-append :
      (n : ℕ) (xs ys : List (RunEvent V))
      → IsNumbered n xs
      → IsNumbered (n + length xs) ys
      → IsNumbered n (xs ++ ys)
  IsNumbered-append n [] ys h k = subst (λ m. IsNumbered m ys) (omega arith) k
  IsNumbered-append n (x ∷ xs) ys h k =
      (h.0, IsNumbered-append (n + 1) xs ys h.1 (subst (λ m. IsNumbered m ys) (omega arith) k))

  assertion_events-IsNumbered :
      (step : ReplayStep V) (n : ℕ) (as' : List (AssertionResult V))
      → IsNumbered n (assertion_events step n as')
  unfolding assertion_events
  assertion_events-IsNumbered step n [] = tt
  assertion_events-IsNumbered step n (a ∷ as') =
      (refl, assertion_events-IsNumbered step (n + 1) as')

  length-assertion_events :
      (step : ReplayStep V) (n : ℕ) (as' : List (AssertionResult V))
      → length (assertion_events step n as') ≡ length as'
  unfolding assertion_events
  length-assertion_events step n [] = refl
  length-assertion_events step n (a ∷ as') = ap suc (length-assertion_events step (n + 1) as')

  step_events-IsNumbered : (step : ReplayStep V) (n : ℕ) → IsNumbered n (step_events step n)
  unfolding step_events
  step_events-IsNumbered step n =
      let results = or_else step.assertions [] in
      (
        refl,
        IsNumbered-append (n + 1) (assertion_events step (n + 1) results) _
            (assertion_events-IsNumbered step (n + 1) results)
            (omega (arith, length-assertion_events step (n + 1) results), tt),
      )

  length-step_events :
      (step : ReplayStep V) (n : ℕ)
      → length (step_events step n) ≡ 2 + length (or_else step.assertions [])
  unfolding step_events
  length-step_events step n =
      let results = or_else step.assertions [] in
      omega (
        arith,
        length-append {0} (assertion_events step (n + 1) results),
        length-assertion_events step (n + 1) results,
      )

  pub replay_events_from-IsNumbered :
      (n : ℕ) (steps : List (ReplayStep V)) → IsNumbered n (replay_events_from n steps)
  unfolding replay_events_from
  replay_events_from-IsNumbered n [] = (refl, tt)
  replay_events_from-IsNumbered n (step ∷ steps) =
      let m = n + 2 + length (or_else step.assertions []) in
      IsNumbered-append n (step_events step n) (replay_events_from m steps)
        (step_events-IsNumbered step n)
        (subst (λ k. IsNumbered k (replay_events_from m steps))
          (omega (arith, length-step_events step n)) (replay_events_from-IsNumbered m steps))

  -- Numbered events lie within their length.
  pub IsNumbered-le :
      (n k : ℕ) (es : List (RunEvent V))
      → IsNumbered n es
      → n + length es ≤ k
      → All (λ e. e.seq ≤ k) es
  IsNumbered-le n k [] h le = tt
  IsNumbered-le n k (e ∷ es) h le =
      (omega (arith, h.0), IsNumbered-le (n + 1) k es h.1 (omega arith))

  -- After numbered events the current number is that of the last.
  process_all-seq :
      (n : ℕ) (evts : List (ℕ × RunEvent V)) (s : CinemaState V) (flow_id : ℕ)
      → s.active ≡ true
      → s.current_seq ≡ n
      → IsNumbered n (events_of evts)
      → (process_all evts s flow_id).0.current_seq ≡ n + length evts
  unfolding process_all
  process_all-seq n [] s flow_id h e k = omega (arith, e)
  process_all-seq n ((now, evt) ∷ evts) s flow_id h e k =
      let (_, active, _, seq) = process_event-progress now evt s flow_id h in
      let next = process_event now evt s flow_id in
      omega (arith, process_all-seq (n + 1) evts next.0 next.1 active (seq ∙ k.0) k.1)

  length-events_of : (evts : List (ℕ × RunEvent V)) → length (events_of evts) ≡ length evts
  length-events_of [] = refl
  length-events_of ((now, e) ∷ evts) = ap suc (length-events_of evts)

  -- Playing all the events of a loaded run, at any times, ends at their number. If the replay was
  -- activated before they were loaded, `totalEvents` is then twice that number, since they are
  -- counted once when they are loaded and once more when they are played; if it was activated
  -- after, which sets the count back to 0, it is that number, and it is 0 before they are played.
  pub replay-total_events :
      (at_most : String → String → Bool) (total_steps : ℕ) (steps : List (ReplayStep V))
      (h : Hook V) (evts : List (ℕ × RunEvent V))
      → events_of evts ≡ (load_replay_data at_most steps h).replay_events
      → let loaded = load_replay_data at_most steps (activate total_steps replay h) in
        let opened = activate total_steps replay (load_replay_data at_most steps h) in
        let n = length (load_replay_data at_most steps h).replay_events in
        let ended = (process_all evts loaded.state loaded.flow_id).0 in
        let ended_opened = (process_all evts opened.state opened.flow_id).0 in
        ((loaded.state.total_events ≡ n) × (ended.current_seq ≡ n) × (ended.total_events ≡ 2 * n))
        × (opened.state.total_events ≡ 0)
        × (ended_opened.current_seq ≡ n)
        × (ended_opened.total_events ≡ n)
  unfolding load_replay_data activate
  replay-total_events at_most total_steps steps h evts same =
      let loaded = load_replay_data at_most steps (activate total_steps replay h) in
      let opened = activate total_steps replay (load_replay_data at_most steps h) in
      let numbered =
        subst (IsNumbered 0) (sym same)
          (replay_events_from-IsNumbered 0 (sort (step_le at_most) steps)) in
      let count : length evts ≡ length (load_replay_data at_most steps h).replay_events =
        sym (length-events_of evts) ∙ ap length same in
      (
        (
          refl,
          omega
              (arith, process_all-seq 0 evts loaded.state loaded.flow_id refl refl numbered, count),
          omega (arith, process_all-total evts loaded.state loaded.flow_id refl, count),
        ),
        refl,
        omega (arith, process_all-seq 0 evts opened.state opened.flow_id refl refl numbered, count),
        omega (arith, process_all-total evts opened.state opened.flow_id refl, count),
      )

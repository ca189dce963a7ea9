-- ===== src/Cinema/Controls/Timers.antt =====
-- web/src/hooks/use-cinema-mode.ts: the timers of the replay. The code can clear only the timer
-- that it set last.
use meergate.Base.{
  ℕ, ◌≡◌, refl, ap, ◌⊎◌, inl, inr, String, Bool, true, false, not, Option, none, some, List, [],
  ◌∷◌, ◌++◌, filter, arith, ◌==◌, if◌then◌else◌, Option-cases,
}
use meergate.Cinema.{RunEvent, Mode, process_event}
use meergate.Cinema.Replay.{ReplayStep, load_replay_data}
use meergate.Cinema.Controls.{
  Hook, Timer, initial_hook, activate, deactivate, pause, reset, set_speed, seek_to, play, fire,
  schedule_next, clear_timer, next_event, is_replay, new_timer, is_playing, receive,
}

self_eq : (k : ℕ) → (k == k) ≡ true
self_eq k = ground arith

module _ {V : Type 0} where
  -- No timer is set, or one is and it is the one that the code remembers.
  abbrev pub IsSingle : Hook V → Type 0
  IsSingle h =
      (h.timers ≡ []) ⊎ ((t : Timer V) × (h.timers ≡ t ∷ []) × (h.replay_timer ≡ some t.timer_id))

  IsSingle-if : (b : Bool) (x y : Hook V) → IsSingle x → IsSingle y → IsSingle (if b then x else y)
  IsSingle-if true x y p q = p
  IsSingle-if false x y p q = q

  clear_timer-nil : (h : Hook V) → IsSingle h → (clear_timer h).timers ≡ []
  unfolding clear_timer
  clear_timer-nil h (inl e) = ground arith
  clear_timer-nil h (inr (t, e, k)) = ground arith

  -- Pausing, resetting or leaving the mode, where no timer but the remembered one is set, leaves
  -- none that could fire.
  pub stop-no_timers :
      (total_steps : ℕ) (h : Hook V)
      → IsSingle h
      → ((pause h).timers ≡ []) × ((reset total_steps h).timers ≡ []) × ((deactivate h).timers ≡ [])
  unfolding pause reset deactivate
  stop-no_timers total_steps h s = (clear_timer-nil h s, clear_timer-nil h s, clear_timer-nil h s)

  module _ (millis : String → Option ℕ) where
    schedule_next-IsSingle :
        (seq speed : ℕ) (h : Hook V) → h.timers ≡ [] → IsSingle (schedule_next millis seq speed h)
    unfolding schedule_next
    schedule_next-IsSingle seq speed h e =
        elim (Option-cases (next_event seq none h.replay_events)) [
          | inl n ↦ rw (n, schedule_next) (inl e)
          | inr ((before, next), n) ↦
              rw (n, schedule_next)
                (inr (
                  new_timer millis before next speed h,
                  ap (λ l. l ++ new_timer millis before next speed h ∷ []) e,
                  refl,
                ))
        ]

    -- Playing with no timer set, and the firing of the one that is set, leave one at most.
    pub play-IsSingle : (h : Hook V) → h.timers ≡ [] → IsSingle (play millis h)
    unfolding play
    play-IsSingle h e =
        IsSingle-if h.state.active _ h
          (IsSingle-if (is_replay h.state.mode)
            (schedule_next millis h.state.current_seq h.state.speed h) h
            (schedule_next-IsSingle h.state.current_seq h.state.speed h e) (inl e))
          (inl e)

    fire-IsSingle :
        (now : ℕ) (t : Timer V) (h : Hook V) → h.timers ≡ t ∷ [] → IsSingle (fire millis now t h)
    unfolding fire
    fire-IsSingle now t h e =
        let cleared : filter (λ u. not (u.timer_id == t.timer_id)) h.timers ≡ [] =
          rw e (rw (self_eq t.timer_id)) in
        IsSingle-if (is_playing millis (process_event now t.next h.state h.flow_id).0) _ _
          (schedule_next-IsSingle t.next.seq _ _ cleared) (inl cleared)

  module _ (millis : String → Option ℕ) (total_steps : ℕ) where
    -- One use of a control, or the firing of a timer. The scrubber offers to play only where
    -- nothing plays, so here no timer is set then.
    pub data Step : Hook V → Hook V → Type 0 where
      activating : (mode : Mode) (h : Hook V) → Step h (activate total_steps mode h)
      deactivating : (h : Hook V) → Step h (deactivate h)
      pausing : (h : Hook V) → Step h (pause h)
      resetting : (h : Hook V) → Step h (reset total_steps h)
      seeking : (seq : ℕ) (h : Hook V) → Step h (seek_to total_steps seq h)
      speeding : (speed : ℕ) (h : Hook V) → Step h (set_speed speed h)
      loading :
          (at_most : String → String → Bool) (steps : List (ReplayStep V)) (h : Hook V)
          → Step h (load_replay_data at_most steps h)
      receiving : (now : ℕ) (evt : RunEvent V) (h : Hook V) → Step h (receive now evt h)
      starting : (h : Hook V) → h.timers ≡ [] → Step h (play millis h)
      firing :
          (now : ℕ) (t : Timer V) (h : Hook V) → h.timers ≡ t ∷ [] → Step h (fire millis now t h)

    pub data Reach : Hook V → Type 0 where
      here : Reach initial_hook
      next : {h k : Hook V} → Reach h → Step h k → Reach k

    Step-IsSingle : {h k : Hook V} → Step h k → IsSingle h → IsSingle k
    unfolding activate deactivate pause reset seek_to set_speed load_replay_data receive
    Step-IsSingle (activating mode h) s = s
    Step-IsSingle (deactivating h) s = inl (clear_timer-nil h s)
    Step-IsSingle (pausing h) s = inl (clear_timer-nil h s)
    Step-IsSingle (resetting h) s = inl (clear_timer-nil h s)
    Step-IsSingle (seeking seq h) s = s
    Step-IsSingle (speeding speed h) s = s
    Step-IsSingle (loading at_most steps h) s = s
    Step-IsSingle (receiving now evt h) s = s
    Step-IsSingle (starting h e) s = play-IsSingle millis h e
    Step-IsSingle (firing now t h e) s = fire-IsSingle millis now t h e

    Reach-IsSingle : {h : Hook V} → Reach h → IsSingle h
    unfolding initial_hook
    Reach-IsSingle here = inl refl
    Reach-IsSingle (next r s) = Step-IsSingle s (Reach-IsSingle r)

    -- In every state that the controls reach, where playing starts with no timer set, at most one
    -- timer is set, and after pausing, resetting or leaving the mode none is.
    pub Reach-stops :
        (h : Hook V)
        → Reach h
        → IsSingle h
          × ((pause h).timers ≡ [])
          × ((reset total_steps h).timers ≡ [])
          × ((deactivate h).timers ≡ [])
    Reach-stops h r =
        let s = Reach-IsSingle r in let (p, q, d) = stop-no_timers total_steps h s in (s, p, q, d)

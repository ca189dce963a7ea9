-- ===== src/RunEvents/Retries.antt =====
-- web/src/hooks/use-run-events.ts: the attempts to reconnect, and the end of the effect.
use native.Mathlib.Nat.{one-le-pow}
use meergate.Base.{
  ℕ, suc, zero, ◌+◌, ◌*◌, ◌^◌, ◌≤◌, ◌<◌, ◌≡◌, refl, ap, ◌∙◌, true, false, none, some, List, [], ◌∷◌,
  arith, lt→ltb, min,
}
use meergate.RunEvents.{
  Stream, Message, connect, on_open, on_message, on_error, on_close, unmount, backoff,
}

-- What can call into the effect.
pub data Call (V : Type 0) : Type 0 where
  opened : Call V
  received : Message V → Call V
  failed : Call V
  closed : Call V
  timer_fired : Call V

module _ {V : Type 0} where
  -- An attempt to connect that fails: the timer fires, and the socket closes without opening.
  abbrev pub failed_attempt : Stream V → Stream V
  failed_attempt s = on_close (connect s)

  failed_attempt-room :
      (s : Stream V)
      → s.unmounted ≡ false
      → s.retries < 10
      → ((failed_attempt s).retries ≡ s.retries + 1)
        × ((failed_attempt s).unmounted ≡ false)
        × ((failed_attempt s).reconnect_timer ≡ some (backoff s.retries))
  unfolding on_close connect
  failed_attempt-room s h le = simp (h, lt→ltb s.retries 10 le) (refl, refl, refl)

  failed_attempt-last :
      (s : Stream V)
      → s.unmounted ≡ false
      → s.retries ≡ 10
      → ((failed_attempt s).reconnect_timer ≡ none)
        × ((failed_attempt s).error ≡ some "WebSocket connection failed after 10 retries")
  unfolding on_close connect
  failed_attempt-last s h e = simp (h, e) (refl, refl)

  -- Attempts that fail one after the other.
  unfoldable pub failed_attempts : ℕ → Stream V → Stream V
  failed_attempts zero s = s
  failed_attempts (suc n) s = failed_attempt (failed_attempts n s)

  retries_after :
      (n : ℕ) (s : Stream V)
      → s.unmounted ≡ false
      → s.retries ≡ 0
      → n ≤ 10
      → ((failed_attempts n s).retries ≡ n) × ((failed_attempts n s).unmounted ≡ false)
  unfolding failed_attempts
  retries_after zero s h e le = (e, h)
  retries_after (suc n) s h e le =
      let (same, mounted) = retries_after n s h e (omega arith) in
      let (more, still, _) =
        failed_attempt-room (failed_attempts n s) mounted (omega (arith, same)) in
      (omega (arith, more, same), still)

  -- From a stream with no retries, each of the first ten attempts that fail sets the timer of the
  -- next one, after twice the delay of the one before but from 1 to 10 seconds.
  pub failed_attempts-backoff :
      (n : ℕ) (s : Stream V)
      → s.unmounted ≡ false
      → s.retries ≡ 0
      → n < 10
      → ((failed_attempts (suc n) s).reconnect_timer ≡ some (min (1000 * 2 ^ n) 10000))
        × (1000 ≤ min (1000 * 2 ^ n) 10000)
        × (min (1000 * 2 ^ n) 10000 ≤ 10000)
  unfolding failed_attempts
  failed_attempts-backoff n s h e le =
      let (same, mounted) = retries_after n s h e (omega arith) in
      let (_, _, timer) = failed_attempt-room (failed_attempts n s) mounted (omega (arith, same)) in
      (
        timer ∙ ap (λ r. some (backoff r)) same,
        omega (arith, one-le-pow n 2 (omega arith)),
        omega arith,
      )

  -- The eleventh attempt that fails in a row is the last: no timer is set, and the error says so.
  pub failed_attempts-end :
      (s : Stream V)
      → s.unmounted ≡ false
      → s.retries ≡ 0
      → ((failed_attempts 11 s).reconnect_timer ≡ none)
        × ((failed_attempts 11 s).error ≡ some "WebSocket connection failed after 10 retries")
  unfolding failed_attempts
  failed_attempts-end s h e =
      let (same, mounted) = retries_after 10 s h e (omega arith) in
      failed_attempt-last (failed_attempts 10 s) mounted same

  unfoldable pub handle : Call V → Stream V → Stream V
  handle opened s = on_open s
  handle (received m) s = on_message m s
  handle failed s = on_error s
  handle closed s = on_close s
  handle timer_fired s = connect s

  unfoldable pub handle_all : List (Call V) → Stream V → Stream V
  handle_all [] s = s
  handle_all (c ∷ cs) s = handle_all cs (handle c s)

  handle-unmounted : (c : Call V) (s : Stream V) → s.unmounted ≡ true → handle c s ≡ s
  unfolding handle on_open on_message on_error on_close connect
  handle-unmounted opened s h = simp h refl
  handle-unmounted (received m) s h = simp h refl
  handle-unmounted failed s h = simp h refl
  handle-unmounted closed s h = simp h refl
  handle-unmounted timer_fired s h = simp h refl

  handle_all-unmounted :
      (cs : List (Call V)) (s : Stream V) → s.unmounted ≡ true → handle_all cs s ≡ s
  unfolding handle_all
  handle_all-unmounted [] s h = refl
  handle_all-unmounted (c ∷ cs) s h = rw (handle-unmounted c s h) (handle_all-unmounted cs s h)

  -- After the effect has ended, no timer is set and no socket is held, and whatever still arrives
  -- from the socket or a timer changes nothing and reaches no listener.
  pub unmount-silent :
      (cs : List (Call V)) (s : Stream V)
      → (handle_all cs (unmount s) ≡ unmount s)
        × ((unmount s).reconnect_timer ≡ none)
        × ((unmount s).has_socket ≡ false)
  unfolding unmount
  unmount-silent cs s = (handle_all-unmounted cs (unmount s) refl, refl, refl)

-- ===== src/RunEvents.antt =====
-- web/src/hooks/use-run-events.ts: the events of a live run over a WebSocket. The state is that of
-- one run of the effect: the React state, the refs, the timer of the next attempt, and the flag
-- `unmounted`. A message is what `JSON.parse` makes of its text, or unreadable. The URL and the
-- ping, which change nothing here, are left out.
pub mod Merge
pub mod Retries
use meergate.Base.{
  ℕ, ◌+◌, ◌*◌, ◌^◌, min, String, Bool, true, false, not, Option, none, some, List, [], ◌∷◌, ◌++◌,
  ltb, leb, ◌==◌, any, filter, if◌then◌else◌, or_else, sort,
}
use meergate.Cinema.{RunEvent}

pub data Message (V : Type 0) : Type 0 where
  connected_message : Option (List (RunEvent V)) → Message V
  pong : Message V
  event : RunEvent V → Message V
  unreadable : Message V

pub record Stream (V : Type 0) : Type 0 where
  pub events : List (RunEvent V)
  pub connected : Bool
  pub error : Option String
  pub retries : ℕ
  -- A socket is in `wsRef`, and the delay of the timer that is set, if one is.
  pub has_socket : Bool
  pub reconnect_timer : Option ℕ
  pub unmounted : Bool
  -- The events that `onEvent` was called with.
  pub delivered : List (RunEvent V)

-- The milliseconds before the next attempt.
abbrev pub backoff : ℕ → ℕ
backoff retries = min (1000 * 2 ^ retries) 10000

module _ {V : Type 0} where
  abbrev pub has_seq : ℕ → List (RunEvent V) → Bool
  has_seq seq events = any (λ e. e.seq == seq) events

  abbrev pub seq_le : RunEvent V → RunEvent V → Bool
  seq_le a b = leb a.seq b.seq

  -- The buffered events whose numbers have not been seen.
  abbrev pub new_events : List (RunEvent V) → List (RunEvent V) → List (RunEvent V)
  new_events prev buffered = filter (λ e. not (has_seq e.seq prev)) buffered

  -- With nothing new the events are left as they are, and otherwise all are sorted.
  unfoldable pub merge_new : List (RunEvent V) → List (RunEvent V) → List (RunEvent V)
  unfolding sort
  merge_new prev [] = prev
  merge_new prev (e ∷ es) = sort seq_le (prev ++ e ∷ es)

  unfoldable pub merge : List (RunEvent V) → List (RunEvent V) → List (RunEvent V)
  unfolding merge_new
  merge prev buffered = merge_new prev (new_events prev buffered)

  -- The effect with no run or not enabled.
  unfoldable pub reset_stream : Stream V → Stream V
  reset_stream s = record s { events = []; connected = false; error = none; retries = 0 }

  unfoldable pub connect : Stream V → Stream V
  connect s = if s.unmounted then s else record s { has_socket = true; reconnect_timer = none }

  -- The effect with a run.
  unfoldable pub mount : Stream V → Stream V
  unfolding connect
  mount s = connect (record s { unmounted = false; reconnect_timer = none })

  unfoldable pub on_open : Stream V → Stream V
  on_open s = if s.unmounted then s else record s { connected = true; error = none; retries = 0 }

  abbrev receive_message : Message V → Stream V → Stream V
  receive_message (connected_message buffered) s =
      let evts = or_else buffered [] in
      record s { events = merge s.events evts; delivered = s.delivered ++ new_events s.events evts }
  receive_message pong s = s
  receive_message (event evt) s = record s {
    events = s.events ++ evt ∷ [];
    delivered = s.delivered ++ evt ∷ [];
  }
  receive_message unreadable s = s

  unfoldable pub on_message : Message V → Stream V → Stream V
  on_message m s = if s.unmounted then s else receive_message m s

  unfoldable pub on_error : Stream V → Stream V
  on_error s = if s.unmounted then s else record s { error = some "WebSocket error" }

  unfoldable pub on_close : Stream V → Stream V
  on_close s =
      let closed = record s { connected = false; has_socket = false } in
      if s.unmounted
      then s
      else if ltb s.retries 10
      then record closed { reconnect_timer = some (backoff s.retries); retries = s.retries + 1 }
      else record closed { error = some "WebSocket connection failed after 10 retries" }

  -- The function that the effect returns.
  unfoldable pub unmount : Stream V → Stream V
  unmount s = record s { unmounted = true; reconnect_timer = none; has_socket = false }

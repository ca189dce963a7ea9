-- ===== src/Examples/Live.antt =====
-- web/src/hooks/use-run-events.ts on a few events.
use meergate.Base.{
  ℕ, ◌*◌, ◌^◌, ◌≤◌, ◌≡◌, refl, min, arith, true, false, none, some, List, [], ◌∷◌, if◌then◌else◌,
  sort, IsSorted,
}
use meergate.Cinema.{RunEvent, run_completed}
use meergate.RunEvents.{
  Stream, merge, merge_new, has_seq, seq_le, mount, unmount, on_message, connected_message, event,
}
use meergate.RunEvents.Merge.{occurs, occurs-merge, merge-IsSorted, second_run-drops}
use meergate.RunEvents.Retries.{
  failed_attempts, failed_attempts-backoff, Call, opened, received, closed, handle_all,
  unmount-silent,
}

abbrev at : ℕ → RunEvent ℕ
at seq = record { payload = run_completed; ts = ""; seq = seq }

abbrev fresh : Stream ℕ
fresh = record {
  events = at 1 ∷ at 3 ∷ [];
  connected = false;
  error = none;
  retries = 0;
  has_socket = true;
  reconnect_timer = none;
  unmounted = false;
  delivered = [];
}

merged : merge fresh.events (at 3 ∷ at 4 ∷ at 2 ∷ []) ≡ at 1 ∷ at 2 ∷ at 3 ∷ at 4 ∷ []
unfolding merge merge_new sort
merged = refl

occurs-merge_example :
    occurs 2 (merge fresh.events (at 3 ∷ at 2 ∷ []))
    ≡ (if has_seq 2 fresh.events then occurs 2 fresh.events else occurs 2 (at 3 ∷ at 2 ∷ []))
occurs-merge_example = occurs-merge 2 fresh.events (at 3 ∷ at 2 ∷ [])

merge-IsSorted_example : IsSorted seq_le (merge fresh.events (at 3 ∷ at 2 ∷ []))
merge-IsSorted_example = merge-IsSorted fresh.events (at 3 ∷ at 2 ∷ []) ((refl, tt), (tt, tt))

second_run-drops_example :
    ((on_message (connected_message (some (at 1 ∷ []))) (mount (unmount fresh))).events
      ≡ fresh.events)
    × ((on_message (connected_message (some (at 1 ∷ []))) (mount (unmount fresh))).delivered
        ≡ fresh.delivered)
second_run-drops_example = second_run-drops fresh (at 1 ∷ []) (refl, tt)

failed_attempts-backoff_example :
    ((failed_attempts 3 fresh).reconnect_timer ≡ some (min (1000 * 2 ^ 2) 10000))
    × (1000 ≤ min (1000 * 2 ^ 2) 10000)
    × (min (1000 * 2 ^ 2) 10000 ≤ 10000)
failed_attempts-backoff_example = failed_attempts-backoff 2 fresh refl refl (omega arith)

abbrev late_calls : List (Call ℕ)
late_calls = opened ∷ received (event (at 7)) ∷ closed ∷ []

unmount-silent_example :
    (handle_all late_calls (unmount fresh) ≡ unmount fresh)
    × ((unmount fresh).reconnect_timer ≡ none)
    × ((unmount fresh).has_socket ≡ false)
unmount-silent_example = unmount-silent late_calls fresh

-- ===== src/RunEvents/Merge.antt =====
-- web/src/hooks/use-run-events.ts: the merge of the buffered events of a reconnection.
use meergate.Base.{
  ℕ, ◌+◌, ◌≡◌, refl, ap, ◌∙◌, true, false, not, List, [], ◌∷◌, ◌++◌, length, filter, if◌then◌else◌,
  Bool-cases, inl, inr, arith, ◌==◌, sort, insert_sorted, IsSorted, IsTotal, sort-IsSorted, ◌⊎◌,
  All, some,
}
use meergate.Cinema.{RunEvent}
use meergate.RunEvents.{
  Stream, on_message, mount, connect, unmount, connected_message, has_seq, seq_le, new_events,
  merge, merge_new,
}

module _ {V : Type 0} where
  -- How many events have a number.
  abbrev pub occurs : ℕ → List (RunEvent V) → ℕ
  occurs seq events = length (filter (λ e. e.seq == seq) events)

  seq_le-IsTotal : IsTotal {A = RunEvent V} seq_le
  seq_le-IsTotal = record { total = λ a b h. ground arith; trans = λ a b c h k. ground arith }

  occurs-insert_sorted :
      (seq : ℕ) (e : RunEvent V) (es : List (RunEvent V))
      → occurs seq (insert_sorted seq_le e es) ≡ occurs seq (e ∷ es)
  unfolding insert_sorted
  occurs-insert_sorted seq e [] = refl
  occurs-insert_sorted seq e (x ∷ xs) = ground (arith, occurs-insert_sorted seq e xs)

  occurs-sort : (seq : ℕ) (es : List (RunEvent V)) → occurs seq (sort seq_le es) ≡ occurs seq es
  unfolding sort
  occurs-sort seq [] = refl
  occurs-sort seq (e ∷ es) =
      ground (arith, occurs-insert_sorted seq e (sort seq_le es), occurs-sort seq es)

  occurs-append :
      (seq : ℕ) (xs ys : List (RunEvent V)) → occurs seq (xs ++ ys) ≡ occurs seq xs + occurs seq ys
  occurs-append seq [] ys = omega arith
  occurs-append seq (x ∷ xs) ys = ground (arith, occurs-append seq xs ys)

  has_seq-occurs : (seq : ℕ) (es : List (RunEvent V)) → has_seq seq es ≡ not (occurs seq es == 0)
  has_seq-occurs seq [] = ground arith
  has_seq-occurs seq (e ∷ es) = ground (arith, has_seq-occurs seq es)

  occurs-new_events :
      (seq : ℕ) (prev es : List (RunEvent V))
      → occurs seq (new_events prev es) ≡ (if has_seq seq prev then 0 else occurs seq es)
  occurs-new_events seq prev [] = ground arith
  occurs-new_events seq prev (e ∷ es) = elim (Bool-cases (e.seq == seq)) [
    | inl h ↦
        let same : e.seq ≡ seq = ground arith in
        let seen : has_seq e.seq prev ≡ has_seq seq prev = ap (λ n. has_seq n prev) same in
        ground (arith, occurs-new_events seq prev es, seen)
    | inr h ↦ ground (arith, occurs-new_events seq prev es)
  ]

  unseen-occurs : (seq : ℕ) (es : List (RunEvent V)) → has_seq seq es ≡ false → occurs seq es ≡ 0
  unseen-occurs seq es h = ground (arith, has_seq-occurs seq es)

  occurs-all :
      (seq : ℕ) (prev es : List (RunEvent V))
      → occurs seq (prev ++ new_events prev es)
        ≡ (if has_seq seq prev then occurs seq prev else occurs seq es)
  occurs-all seq prev es = ground (
    arith,
    occurs-append seq prev (new_events prev es),
    occurs-new_events seq prev es,
    unseen-occurs seq prev,
  )

  -- Either nothing is new, or the events are sorted together.
  merge_new-cases :
      (prev es : List (RunEvent V))
      → ((es ≡ []) × (merge_new prev es ≡ prev)) ⊎ (merge_new prev es ≡ sort seq_le (prev ++ es))
  unfolding merge_new
  merge_new-cases prev [] = inl (refl, refl)
  merge_new-cases prev (e ∷ es) = inr refl

  -- After a reconnection a number that had been received occurs as often as before, and one that
  -- had not occurs as often as among the buffered events: no event is lost and none is repeated.
  pub occurs-merge :
      (seq : ℕ) (prev buffered : List (RunEvent V))
      → occurs seq (merge prev buffered)
        ≡ (if has_seq seq prev then occurs seq prev else occurs seq buffered)
  unfolding merge
  occurs-merge seq prev buffered = elim (merge_new-cases prev (new_events prev buffered)) [
    | inl (nothing, same) ↦ ground (
      arith,
      same,
      ap (occurs seq) nothing,
      occurs-new_events seq prev buffered,
      unseen-occurs seq prev,
    )
    | inr sorted ↦
        rw sorted
          (occurs-sort seq (prev ++ new_events prev buffered) ∙ occurs-all seq prev buffered)
  ]

  -- If the events are in the order of their numbers, they still are after a reconnection.
  pub merge-IsSorted :
      (prev buffered : List (RunEvent V))
      → IsSorted seq_le prev
      → IsSorted seq_le (merge prev buffered)
  unfolding merge
  merge-IsSorted prev buffered h = elim (merge_new-cases prev (new_events prev buffered)) [
    | inl (nothing, same) ↦ rw same h
    | inr sorted ↦
        rw sorted (sort-IsSorted seq_le seq_le-IsTotal (prev ++ new_events prev buffered))
  ]

  nothing_new :
      (prev buffered : List (RunEvent V))
      → All (λ e. has_seq e.seq prev ≡ true) buffered
      → new_events prev buffered ≡ []
  nothing_new prev [] h = refl
  nothing_new prev (e ∷ es) h = rw h.0 (nothing_new prev es h.1)

  append_nil : (xs : List (RunEvent V)) → xs ++ [] ≡ xs
  append_nil [] = refl
  append_nil (x ∷ xs) = ap (λ l. x ∷ l) (append_nil xs)

  -- Where the effect ends and starts again for another run, the events of the first run are still
  -- there: buffered events of the second run whose numbers the first run had are not delivered, and
  -- the list stays that of the first run.
  pub second_run-drops :
      (s : Stream V) (buffered : List (RunEvent V))
      → All (λ e. has_seq e.seq s.events ≡ true) buffered
      → let t = on_message (connected_message (some buffered)) (mount (unmount s)) in
        (t.events ≡ s.events) × (t.delivered ≡ s.delivered)
  unfolding on_message mount connect unmount merge merge_new
  second_run-drops s buffered h =
      simp (nothing_new s.events buffered h) (refl, append_nil s.delivered)

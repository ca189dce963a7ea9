-- ===== src/Builder/Run/Polling.antt =====
-- web/src/app/builder/page.tsx: the polling of a run implements its specification, the last answer
-- that decides, and asks no more after the first.
use meergate.Base.{
  ◌+◌, ◌≡◌, refl, ap, sym, ◌∙◌, inl, inr, arith, String, Option, none, some, List, [], ◌∷◌, length,
  Option-cases,
}
use meergate.Base.Outcome.{Outcome, resolved, thrown}
use meergate.Builder.Run.{
  RunStatus, error, RunDetail, RunNode, RunPanel, StepResult, terminal, on_poll, RunWatch, Polls,
  ask, receive, waiting, asking, receiving, result_of, apply_run_results,
}

-- What is seen of a run, the interval and the status, after an answer that may decide.
abbrev pub after : Option String × RunStatus → Option RunStatus → Option String × RunStatus
after seen none = seen
after seen (some s) = (none, s)

abbrev pub or_earlier : Option RunStatus → Option RunStatus → Option RunStatus
or_earlier none earlier = earlier
or_earlier (some s) earlier = some s

after_twice :
    (seen : Option String × RunStatus) (earlier later : Option RunStatus)
    → after (after seen earlier) later ≡ after seen (or_earlier later earlier)
after_twice seen earlier none = refl
after_twice seen none (some s) = refl
after_twice seen (some t) (some s) = refl

cleared-after :
    (seen : Option String × RunStatus) (o : Option RunStatus)
    → seen.0 ≡ none
    → (after seen o).0 ≡ none
cleared-after seen none h = h
cleared-after seen (some s) h = refl

module _ {A : Type 0} where
  -- What one answer decides.
  abbrev pub decides : Outcome (RunDetail A) → Option RunStatus
  decides (resolved detail) = terminal detail.status
  decides (thrown msg) = some error

  -- The specification: the last answer that decides.
  abbrev pub verdict : List (Outcome (RunDetail A)) → Option RunStatus
  verdict [] = none
  verdict (a ∷ rest) = or_earlier (verdict rest) (decides a)

  abbrev pub view : RunPanel A → Option String × RunStatus
  view p = (p.polling, p.run_status)

  on_poll-view :
      (a : Outcome (RunDetail A)) (p : RunPanel A) → view (on_poll a p) ≡ after (view p) (decides a)
  unfolding on_poll apply_run_results
  on_poll-view (thrown msg) p = refl
  on_poll-view (resolved detail) p = elim (Option-cases (terminal detail.status)) [
    | inl k ↦ rw k refl
    | inr k ↦ rw k.1 refl
  ]

  -- However requests and answers interleave, the panel shows what the last deciding answer says.
  pub Polls-view :
      (w : RunWatch A) (answers : List (Outcome (RunDetail A))) (w' : RunWatch A)
      → Polls w answers w'
      → view w'.panel ≡ after (view w.panel) (verdict answers)
  unfolding receive
  Polls-view w _ _ (waiting _) = refl
  Polls-view w answers w' (asking _ _ _ id h r) = Polls-view (ask w) answers w' r
  Polls-view w _ w' (receiving _ a answers _ n h r) =
      Polls-view (receive a n w) answers w' r
      ∙ ap (λ seen. after seen (verdict answers)) (on_poll-view a w.panel)
      ∙ after_twice (view w.panel) (decides a) (verdict answers)

  -- Without the interval, every answer that arrives is one that was awaited.
  pub Polls-cleared :
      (w : RunWatch A) (answers : List (Outcome (RunDetail A))) (w' : RunWatch A)
      → Polls w answers w'
      → w.panel.polling ≡ none
      → (length answers + w'.in_flight ≡ w.in_flight) × (w'.panel.polling ≡ none)
  unfolding receive
  Polls-cleared w _ _ (waiting _) c = (omega arith, c)
  Polls-cleared w answers w' (asking _ _ _ id h r) c = cc (sym c ∙ h)
  Polls-cleared w _ w' (receiving _ a answers _ n h r) c =
      let still : (on_poll a w.panel).polling ≡ none =
        ap (λ v. v.0) (on_poll-view a w.panel) ∙ cleared-after (view w.panel) (decides a) c in
      let rest = Polls-cleared (receive a n w) answers w' r still in
      (omega (arith, rest.0, h), rest.1)

  -- A node shows the whole result that a run has under its name, and otherwise what it showed.
  pub ShowsResult : Option (StepResult A) → RunNode A → RunNode A → Type 0
  ShowsResult none before now = now ≡ before
  ShowsResult (some r) before now =
      (now.name ≡ before.name)
      × (now.run_status ≡ some r.status)
      × (now.run_duration_ms ≡ r.duration_ms)
      × (now.run_assertions ≡ r.assertions)
      × (now.run_error ≡ r.error)

  pub AllShow : RunDetail A → List (RunNode A) → List (RunNode A) → Type 0
  AllShow detail [] [] = Unit
  AllShow detail [] (k ∷ ks) = ⊥
  AllShow detail (n ∷ ns) [] = ⊥
  AllShow detail (n ∷ ns) (k ∷ ks) =
      ShowsResult (result_of detail.steps n) n k × AllShow detail ns ks

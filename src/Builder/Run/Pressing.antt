-- ===== src/Builder/Run/Pressing.antt =====
-- web/src/app/builder/page.tsx: a run from the press of the button on.
use meergate.Base.{
  ℕ, ◌+◌, [], ◌∷◌, length, arith, ◌≡◌, refl, ap, ◌∙◌, String, Bool, false, ◌||◌, Option, none, some,
  List, str_eq, is_some, is_none, or_else,
}
use meergate.Base.Outcome.{Outcome, resolved, thrown}
use meergate.Builder.Run.{
  RunStatus, running, error, RunDetail, RunPanel, handle_run, is_busy, given_id, poll_run_result,
  clear_run_results, RunWatch, Polls, follow, follow_given, follow_found, after_start, after_save,
  show_running,
}
use meergate.Builder.Run.Polling.{view, after, verdict, Polls-view, Polls-cleared}

abbrev first_id : Option String → Option String → Option String
first_id none other = other
first_id (some id) other = some id

-- The run that is started: both calls succeed, and there is an id.
abbrev pub found_id : Outcome (Option String) → Option String
found_id (resolved found) = first_id (given_id found) none
found_id (thrown msg) = none

abbrev pub started_id :
    String → Outcome {0} Unit → (started found : Outcome (Option String)) → Option String
started_id builder_run_id (thrown msg) started found = none
started_id builder_run_id (resolved u) (thrown msg) found = none
started_id builder_run_id (resolved u) (resolved id) found =
    first_id (given_id (some (or_else id builder_run_id))) (found_id found)

-- A run that is followed, and one that is not.
abbrev pub followed : Option String → Option String × RunStatus
followed none = (none, error)
followed (some id) = (some id, running)

module _ {A : Type 0} where
  -- What the panel shows of a start: the run and its status, and whether there is a message.
  abbrev start_view : RunPanel A → (Option String × RunStatus) × Bool
  start_view p = (view p, is_some p.run_error)

  module _ (p : RunPanel A) (fresh : p.polling ≡ none) (polls : p.cinema_enabled ≡ false)
      (silent : p.run_error ≡ none) (going : p.run_status ≡ running) where
    follow-view : (id : String) → start_view (follow id p) ≡ (followed (some id), false)
    unfolding poll_run_result
    follow-view id = rw (polls, silent, going) refl

    follow_given-view :
        (q : RunPanel A) (other o : Option String)
        → start_view q ≡ (followed other, is_none other)
        → start_view (follow_given q o p)
          ≡ (followed (first_id o other), is_none (first_id o other))
    follow_given-view q other none h = h
    follow_given-view q other (some id) h = follow-view id

    follow_found-view :
        (found : Outcome (Option String))
        → start_view (follow_found found p) ≡ (followed (found_id found), is_none (found_id found))
    follow_found-view (thrown msg) = rw fresh refl
    follow_found-view (resolved found) = follow_given-view _ none (given_id found) (rw fresh refl)

    after_start-view :
        (builder_run_id : String) (started found : Outcome (Option String))
        → start_view (after_start builder_run_id started found p) ≡ (
          followed (started_id builder_run_id (resolved tt) started found),
          is_none (started_id builder_run_id (resolved tt) started found),
        )
    after_start-view builder_run_id (thrown msg) found = rw fresh refl
    after_start-view builder_run_id (resolved id) found =
        follow_given-view _ (found_id found) _ (follow_found-view found)

  after_save-view :
      (q : RunPanel A) (builder_run_id : String) (saved : Outcome {0} Unit)
      (started found : Outcome (Option String))
      → q.polling ≡ none
      → q.cinema_enabled ≡ false
      → q.run_error ≡ none
      → start_view (after_save builder_run_id saved started found q) ≡ (
        followed (started_id builder_run_id saved started found),
        is_none (started_id builder_run_id saved started found),
      )
  after_save-view q builder_run_id (thrown msg) started found fresh polls silent = rw fresh refl
  after_save-view q builder_run_id (resolved u) started found fresh polls silent =
      after_start-view (show_running q) fresh polls silent refl builder_run_id started found

  handle_run-view :
      (p : RunPanel A) (test_id builder_run_id : String) (saved : Outcome {0} Unit)
      (started found : Outcome (Option String))
      → is_busy p.run_status || str_eq test_id "" ≡ false
      → p.polling ≡ none
      → p.cinema_enabled ≡ false
      → start_view (handle_run test_id builder_run_id saved started found p) ≡ (
        followed (started_id builder_run_id saved started found),
        is_none (started_id builder_run_id saved started found),
      )
  unfolding handle_run clear_run_results
  handle_run-view p test_id builder_run_id saved started found ready fresh polls =
      rw ready (after_save-view _ builder_run_id saved started found fresh polls refl)

-- What a run comes to, by the run that was started and what the answers decide.
abbrev pub run_end : Option String → Option RunStatus → Option String × RunStatus
run_end none v = (none, error)
run_end (some id) v = after (some id, running) v

no_answers : {B : Type 0} (xs : List B) (n : ℕ) → length xs + n ≡ 0 → xs ≡ []
no_answers [] n h = refl
no_answers (x ∷ xs) n h = ground (arith, h)

Polls-followed :
    {A : Type 0} (p : RunPanel A) (answers : List (Outcome (RunDetail A))) (w : RunWatch A)
    (o : Option String)
    → Polls (record { panel = p; in_flight = 0 }) answers w
    → view p ≡ followed o
    → view w.panel ≡ run_end o (verdict answers)
Polls-followed p answers w none r h =
    let from : RunWatch _ = record { panel = p; in_flight = 0 } in
    let silent =
      no_answers answers w.in_flight (Polls-cleared from answers w r (ap (λ v. v.0) h)).0 in
    Polls-view from answers w r ∙ ap (λ as'. after (view p) (verdict as')) silent ∙ h
Polls-followed p answers w (some id) r h =
    Polls-view (record { panel = p; in_flight = 0 }) answers w r
    ∙ ap (λ v. after v (verdict answers)) h

-- A press of the button where no run goes on, the test has an id, cinema mode is off and no answer
-- of an earlier run is awaited: however the requests of the interval and their answers interleave,
-- the panel shows the status of the last deciding answer that has arrived and asks no more once one
-- has, and until then asks and shows that the run goes on. Where the test is not saved or no run is
-- started, it shows an error and does not ask.
pub handle_run-verdict :
    {A : Type 0} (p : RunPanel A) (test_id builder_run_id : String) (saved : Outcome {0} Unit)
    (started found : Outcome (Option String)) (answers : List (Outcome (RunDetail A)))
    (w : RunWatch A)
    → is_busy p.run_status || str_eq test_id "" ≡ false
    → p.polling ≡ none
    → p.cinema_enabled ≡ false
    → Polls
        (record { panel = handle_run test_id builder_run_id saved started found p; in_flight = 0 })
        answers
        w
    → view w.panel ≡ run_end (started_id builder_run_id saved started found) (verdict answers)
handle_run-verdict p test_id builder_run_id saved started found answers w ready fresh polls r =
    Polls-followed (handle_run test_id builder_run_id saved started found p) answers w
      (started_id builder_run_id saved started found) r
      (ap (λ v. v.0)
        (handle_run-view p test_id builder_run_id saved started found ready fresh polls))

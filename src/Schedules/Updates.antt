-- ===== src/Schedules/Updates.antt =====
-- web/src/app/schedules/page.tsx: what an edited schedule keeps. The server writes the fields that
-- an update has, and leaves the others: api/internal/handler/schedule.go.
use meergate.Base.{
  ◌≡◌, refl, ◌∙◌, inl, inr, String, Bool, true, false, not, none, List, [], ◌∷◌, ◌++◌, lookup,
  insert, lookup-insert, Dict, str_eq, string_eq, Bool-cases,
}
use meergate.Schedules.{
  ScheduleForm, ScheduleTarget, tests, session, FormValue, handle_submit, switch_to_tests,
  switch_to_session, optional, target_fields, is_filled, text, texts, tags_from,
}

-- An update of a stored record.
pub updated : Dict String FormValue → Dict String FormValue → Dict String FormValue
updated [] stored = stored
updated ((k, v) ∷ fields) stored = updated fields (insert k v stored)

lookup-updated :
    (k : String) (fields stored : Dict String FormValue)
    → lookup k fields ≡ none
    → lookup k (updated fields stored) ≡ lookup k stored
unfolding lookup updated
lookup-updated k [] stored h = refl
lookup-updated k ((j, v) ∷ fields) stored h = elim (Bool-cases (str_eq j k)) [
  | inl e ↦ cc (rw e at h)
  | inr e ↦
      lookup-updated k fields (insert j v stored) (rw e at h)
      ∙ (lookup-insert j k v stored ∙ rw e refl)
]

absent-append :
    (k : String) (xs ys : Dict String FormValue)
    → lookup k xs ≡ none
    → lookup k ys ≡ none
    → lookup k (xs ++ ys) ≡ none
unfolding lookup
absent-append k [] ys h q = q
absent-append k ((j, v) ∷ xs) ys h q = elim (Bool-cases (str_eq j k)) [
  | inl e ↦ cc (rw e at h)
  | inr e ↦ rw e (absent-append k xs ys (rw e at h) q)
]

absent-optional :
    (k j : String) (b : Bool) (v : FormValue)
    → str_eq j k ≡ false
    → lookup k (optional j b v) ≡ none
unfolding lookup
absent-optional k j false v h = refl
absent-optional k j true v h = rw h refl

module _ (split_comma : String → List String) (trim : String → String) where
  -- A field that only the parts which may be left out could have.
  absent-handle_submit :
      (k : String) (f : ScheduleForm)
      → (str_eq "name" k ≡ false)
        × (str_eq "cron" k ≡ false)
        × (str_eq "mode" k ≡ false)
        × (str_eq "enabled" k ≡ false)
        × (str_eq "rerun_on_fail" k ≡ false)
        × (str_eq "max_reruns" k ≡ false)
      → lookup k (optional "notify_url" (not (str_eq f.notify_url "")) (text f.notify_url)) ≡ none
      → lookup k (target_fields split_comma trim f) ≡ none
      → lookup k (handle_submit split_comma trim f) ≡ none
  unfolding lookup handle_submit
  absent-handle_submit k f (a, b, c, d, e, g) h t =
      rw (a, b, c, d)
        (absent-append k _ _ h
          (rw e (absent-append k _ _ (absent-optional k "max_reruns" f.rerun_on_fail _ g) t)))

  absent-tests :
      (k : String) (f : ScheduleForm)
      → str_eq "test_ids" k ≡ false
      → str_eq "tags" k ≡ false
      → lookup k (target_fields split_comma trim (record f { schedule_target = tests })) ≡ none
  absent-tests k f h q =
      absent-append k
        (optional "test_ids" (is_filled f.selected_test_ids) (texts f.selected_test_ids))
        (optional "tags" (not (str_eq f.tags_str ""))
          (texts (tags_from split_comma trim f.tags_str)))
        (absent-optional k "test_ids" (is_filled f.selected_test_ids) _ h)
        (absent-optional k "tags" (not (str_eq f.tags_str "")) _ q)

  absent-target :
      (k : String) (f : ScheduleForm) (t : ScheduleTarget)
      → f.schedule_target ≡ t
      → str_eq "session_id" k ≡ false
      → str_eq "test_ids" k ≡ false
      → str_eq "tags" k ≡ false
      → lookup k (target_fields split_comma trim f) ≡ none
  absent-target k f tests e a b c = rw e (absent-tests k f b c)
  absent-target k f session e a b c =
      rw e (absent-optional k "session_id" (not (str_eq f.selected_session_id "")) _ a)

  absent-session :
      (k : String) (f : ScheduleForm)
      → str_eq "session_id" k ≡ false
      → lookup k (target_fields split_comma trim (switch_to_session f)) ≡ none
  absent-session k f h = absent-optional k "session_id" (not (str_eq f.selected_session_id "")) _ h

  -- An edited schedule keeps its notification URL when that is cleared, its session when it is
  -- switched to tests, and its tests and tags when it is switched to a session: those fields are
  -- left out of the update.
  pub handle_submit-keeps :
      (f : ScheduleForm) (stored : Dict String FormValue)
      → (lookup "notify_url"
            (updated (handle_submit split_comma trim (record f { notify_url = "" })) stored)
          ≡ lookup "notify_url" stored)
        × (lookup "session_id" (updated (handle_submit split_comma trim (switch_to_tests f)) stored)
            ≡ lookup "session_id" stored)
        × (lookup "test_ids" (updated (handle_submit split_comma trim (switch_to_session f)) stored)
            ≡ lookup "test_ids" stored)
        × (lookup "tags" (updated (handle_submit split_comma trim (switch_to_session f)) stored)
            ≡ lookup "tags" stored)
  unfolding lookup
  handle_submit-keeps f stored = (
    lookup-updated "notify_url" _ stored (
        absent-handle_submit "notify_url" (record f { notify_url = "" })
          (refl, refl, refl, refl, refl, refl) refl
          (absent-target "notify_url" f f.schedule_target refl refl refl refl)),
    lookup-updated "session_id" _ stored (
        absent-handle_submit "session_id" (switch_to_tests f) (refl, refl, refl, refl, refl, refl)
          (absent-optional "session_id" "notify_url" _ _ refl)
          (absent-tests "session_id" (switch_to_tests f) refl refl)),
    lookup-updated "test_ids" _ stored (
        absent-handle_submit "test_ids" (switch_to_session f) (refl, refl, refl, refl, refl, refl)
          (absent-optional "test_ids" "notify_url" _ _ refl) (absent-session "test_ids" f refl)),
    lookup-updated "tags" _ stored (
        absent-handle_submit "tags" (switch_to_session f) (refl, refl, refl, refl, refl, refl)
          (absent-optional "tags" "notify_url" _ _ refl) (absent-session "tags" f refl)),
  )

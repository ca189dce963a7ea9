-- ===== src/Schedules.antt =====
-- web/src/app/schedules/page.tsx: the form of a schedule. Parameters are `split(',')` and `trim`.
-- A set of ids is a list in the order of insertion.
pub mod Updates
use meergate.Base.{
  ℕ, String, join, Bool, true, false, not, Option, none, some, List, [], ◌∷◌, ◌++◌, map, filter,
  any, or_else, is_some, Dict, lookup, insert, str_eq, string_eq, if◌then◌else◌,
}
use meergate.Utils.{join_with}
use meergate.Data.{ScheduleItem}

pub data ScheduleTarget : Type 0 where
  tests session : ScheduleTarget

pub record ScheduleForm : Type 0 where
  pub name : String
  pub cron_expr : String
  pub tags_str : String
  pub selected_test_ids : List String
  pub mode : String
  pub enabled : Bool
  pub notify_url : String
  pub rerun_on_fail : Bool
  pub max_reruns : ℕ
  pub selected_session_id : String
  pub schedule_target : ScheduleTarget

-- `if (o)` of a text: one that is there and not empty.
abbrev pub is_truthy : Option String → Bool
is_truthy none = false
is_truthy (some s) = not (str_eq s "")

-- The form that the dialog starts with.
unfoldable pub open_form : Option ScheduleItem → ScheduleForm
open_form none = record {
  name = "";
  cron_expr = "*/30 * * * *";
  tags_str = "";
  selected_test_ids = [];
  mode = "real";
  enabled = true;
  notify_url = "";
  rerun_on_fail = false;
  max_reruns = 1;
  selected_session_id = "";
  schedule_target = tests;
}
open_form (some item) = record {
  name = item.name;
  cron_expr = item.cron;
  tags_str = join_with ", " item.tags;
  selected_test_ids = item.test_ids;
  mode = item.mode;
  enabled = item.enabled;
  notify_url = or_else item.notify_url "";
  rerun_on_fail = item.rerun_on_fail;
  max_reruns = item.max_reruns;
  selected_session_id = or_else item.session_id "";
  schedule_target = if is_truthy item.session_id then session else tests;
}

abbrev pub toggle_id : String → List String → List String
toggle_id id ids =
    if any (λ x. str_eq x id) ids then filter (λ x. not (str_eq x id)) ids else ids ++ id ∷ []

abbrev pub toggle_test : String → ScheduleForm → ScheduleForm
toggle_test id f = record f { selected_test_ids = toggle_id id f.selected_test_ids }

abbrev pub switch_to_tests : ScheduleForm → ScheduleForm
switch_to_tests f = record f { schedule_target = tests; selected_session_id = "" }

abbrev pub switch_to_session : ScheduleForm → ScheduleForm
switch_to_session f = record f { schedule_target = session; selected_test_ids = []; tags_str = "" }

-- A value of the data that is sent.
pub data FormValue : Type 0 where
  text : String → FormValue
  texts : List String → FormValue
  flag : Bool → FormValue
  number : ℕ → FormValue

-- A field that may be undefined, and then is not in the JSON.
abbrev pub optional : String → Bool → FormValue → Dict String FormValue
optional k false v = []
optional k true v = (k, v) ∷ []

abbrev pub is_filled : List String → Bool
is_filled [] = false
is_filled (x ∷ xs) = true

module _ (split_comma : String → List String) (trim : String → String) where
  abbrev pub tags_from : String → List String
  tags_from s = filter (λ tag. not (str_eq tag "")) (map trim (split_comma s))

  -- The part of the data that depends on what the schedule runs.
  abbrev pub target_fields : ScheduleForm → Dict String FormValue
  target_fields f = elim f.schedule_target [
    | session ↦
        optional "session_id" (not (str_eq f.selected_session_id "")) (text f.selected_session_id)
    | tests ↦
        optional "test_ids" (is_filled f.selected_test_ids) (texts f.selected_test_ids)
        ++ optional "tags" (not (str_eq f.tags_str "")) (texts (tags_from f.tags_str))
  ]

  -- The data that `handleSubmit` sends, as the fields of its JSON.
  unfoldable pub handle_submit : ScheduleForm → Dict String FormValue
  handle_submit f =
      ("name", text f.name)
      ∷ ("cron", text f.cron_expr)
      ∷ ("mode", text f.mode)
      ∷ ("enabled", flag f.enabled)
      ∷ (optional "notify_url" (not (str_eq f.notify_url "")) (text f.notify_url)
          ++ (("rerun_on_fail", flag f.rerun_on_fail)
              ∷ (optional "max_reruns" f.rerun_on_fail (number f.max_reruns) ++ target_fields f)))

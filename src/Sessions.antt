-- ===== src/Sessions.antt =====
-- web/src/app/sessions/[id]/page.tsx: the runs of a session by test, and the selection of the tests
-- to run in it. `newest_first` says that `localeCompare` of the start times of two runs, the later
-- first, is at most 0. A set of ids is a list.
pub mod Groups
use meergate.Base.{
  ℕ, String, Bool, true, false, not, ◌||◌, Option, none, some, List, [], ◌∷◌, ◌++◌, map, filter,
  any, length, or_else, Dict, str_eq, string_eq, if◌then◌else◌, ◌==◌, sort, is_some,
}
use meergate.Base.Grouping.{group_from}
use meergate.Base.Outcome.{Outcome, resolved, thrown}
use meergate.Data.{TestItem}

pub record RunRow : Type 0 where
  pub id : String
  pub test_id : String
  pub status : String
  pub started_at : Option String

pub record TestGroup : Type 0 where
  pub test_id : String
  pub runs : List RunRow
  pub passed : ℕ
  pub failed : ℕ
  pub error : ℕ
  pub latest : Option RunRow

abbrev pub count_of : String → List RunRow → ℕ
count_of status runs = length (filter (λ r. str_eq r.status status) runs)

abbrev pub first_of : List RunRow → Option RunRow
first_of [] = none
first_of (r ∷ rs) = some r

-- `(b.started_at ?? '').localeCompare(a.started_at ?? '')` is at most 0.
abbrev pub run_le : (String → String → Bool) → RunRow → RunRow → Bool
run_le at_most a b = at_most (or_else b.started_at "") (or_else a.started_at "")

abbrev pub group_of : (String → String → Bool) → String × List RunRow → TestGroup
group_of at_most entry =
    let sorted = sort (run_le at_most) entry.1 in
    record {
      test_id = entry.0;
      runs = sorted;
      passed = count_of "passed" sorted;
      failed = count_of "failed" sorted;
      error = count_of "error" sorted;
      latest = first_of sorted;
    }

unfoldable pub groups : (String → String → Bool) → List RunRow → List TestGroup
groups at_most runs = map (group_of at_most) (group_from (λ r. r.test_id) runs [])

-- The panel that runs tests in the session.
pub record RunInSession : Type 0 where
  pub tests : List TestItem
  pub search : String
  pub selected : List String
  pub running : Bool
  pub ran_tests : List String
  pub message : Option String

-- `matches lower_search text` is `text.toLowerCase().includes(search.toLowerCase())`.
unfoldable pub filtered : (String → String → Bool) → RunInSession → List TestItem
filtered matches p =
    filter (λ test. str_eq p.search "" || (matches p.search test.id || matches p.search test.name))
      p.tests

abbrev pub has_id : List String → String → Bool
has_id ids id = any (λ x. str_eq x id) ids

unfoldable pub toggle : String → RunInSession → RunInSession
toggle id p = record p {
  selected =
      if has_id p.selected id
      then filter (λ x. not (str_eq x id)) p.selected
      else p.selected ++ id ∷ [];
}

-- The ids of tests are distinct, so the set of them is their list.
unfoldable pub select_all : (String → String → Bool) → RunInSession → RunInSession
unfolding filtered
select_all matches p =
    if length p.selected == length (filtered matches p)
    then record p { selected = [] }
    else record p { selected = map (λ test. test.id) (filtered matches p) }

-- `Promise.all` of the starts, as the first that fails.
unfoldable pub handle_run : Outcome {0} Unit → RunInSession → RunInSession
handle_run started p = elim p.selected [
  | [] ↦ p
  | id ∷ ids ↦ elim started [
    | resolved u ↦ record p { running = false; ran_tests = id ∷ ids }
    | thrown msg ↦ record p { running = false; message = some msg }
  ]
]

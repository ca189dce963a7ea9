-- ===== src/TestList.antt =====
-- web/src/components/test-list.tsx: the list of tests, filtered, sorted and grouped by service, and
-- the set of tests that run. Parameters are `toLowerCase`, and `localeCompare` as the test that it
-- is at most 0. A set of strings is a list in the order of insertion.
pub mod Groups
pub mod Filters
pub mod Watching
use text.Mathlib.Text.{find?}
use meergate.Base.{
  ℕ, suc, String, Bool, true, false, not, ◌&&◌, ◌||◌, Option, none, some, List, [], ◌∷◌, ◌++◌, map,
  filter, find, any, Dict, lookup, insert, or_else, is_some, str_eq, string_eq, if◌then◌else◌, ltb,
  leb, sort,
}
use meergate.Base.Grouping.{group_from}
use meergate.Data.{TestItem, CatalogEntry, CoverageReport}
use meergate.GateStatus.{test_service_map}

abbrev pub generic_tags : List String
generic_tags = "smoke" ∷ "regression" ∷ "grpc" ∷ "ws" ∷ "rest" ∷ "e2e" ∷ "integration" ∷ "unit" ∷ []

abbrev pub has_text : List String → String → Bool
has_text xs x = any (λ y. str_eq y x) xs

-- `text.includes(part)`.
abbrev pub includes : String → String → Bool
includes text part = is_some (find? text part)

abbrev pub tags_of : TestItem → List String
tags_of test = or_else test.tags []

abbrev pub first_or : String → List String → String
first_or d [] = d
first_or d (x ∷ xs) = x

abbrev pub domain_endpoint : List String → List String → String
domain_endpoint tags [] = first_or "general" tags
domain_endpoint tags (tag ∷ domain_tags) =
    or_else (find (λ t. includes t "-") (tag ∷ domain_tags)) tag

unfoldable pub derive_endpoint : TestItem → String
derive_endpoint test =
    domain_endpoint (tags_of test) (filter (λ t. not (has_text generic_tags t)) (tags_of test))

pub data ValueFilter : Type 0 where
  all failing passing generated manual critical flaky : ValueFilter

abbrev pub status_is : String → TestItem → Bool
status_is s test = elim test.last_run_status [ none ↦ false | some st ↦ str_eq st s ]

unfoldable pub passes : ValueFilter → TestItem → Bool
passes all test = true
passes failing test = status_is "failed" test || status_is "error" test
passes passing test = status_is "passed" test
passes critical test = has_text (tags_of test) "critical"
passes flaky test = ltb 30 (or_else test.flake_score 0)
passes generated test = has_text (tags_of test) "generated"
passes manual test = not (has_text (tags_of test) "generated")

abbrev pub matches : (String → String) → String → TestItem → Bool
matches lower q test =
    includes (lower test.name) q
    || (includes (lower test.id) q
        || (includes (lower (derive_endpoint test)) q
            || any (λ tag. includes (lower tag) q) (tags_of test)))

unfoldable pub filtered : (String → String) → String → ValueFilter → List TestItem → List TestItem
filtered lower search value_filter tests =
    let found = if str_eq search "" then tests else filter (matches lower (lower search)) tests in
    filter (passes value_filter) found

pub data SortField : Type 0 where
  name endpoint status last_run pass_rate flake_score owner : SortField

pub data SortDir : Type 0 where
  asc desc : SortDir

abbrev pub text_of : Option String → String
text_of o = or_else o ""

-- A number that may be missing, which counts as -1.
abbrev pub from_minus_one : Option ℕ → ℕ
from_minus_one none = 0
from_minus_one (some n) = suc n

module _ (at_most : String → String → Bool) where
  -- The first comparison, and the second where it is 0.
  abbrev pub then_at_most : String → String → Bool → Bool
  then_at_most a b next = if at_most a b then if at_most b a then next else true else false

  unfoldable pub field_le : SortField → TestItem → TestItem → Bool
  field_le name a b = at_most a.name b.name
  field_le endpoint a b =
      then_at_most (derive_endpoint a) (derive_endpoint b) (at_most a.name b.name)
  field_le status a b = at_most (text_of a.last_run_status) (text_of b.last_run_status)
  field_le last_run a b = at_most (text_of a.last_run_at) (text_of b.last_run_at)
  field_le pass_rate a b = leb (from_minus_one a.pass_rate) (from_minus_one b.pass_rate)
  field_le flake_score a b = leb (from_minus_one a.flake_score) (from_minus_one b.flake_score)
  field_le owner a b = at_most (text_of a.owner) (text_of b.owner)

  unfoldable pub item_le : SortField → SortDir → TestItem → TestItem → Bool
  item_le field asc a b = field_le field a b
  item_le field desc a b = field_le field b a

  unfoldable pub sorted : SortField → SortDir → List TestItem → List TestItem
  sorted field dir tests = sort (item_le field dir) tests

  -- The group of the tests without a service comes last.
  unfoldable pub group_le : String → String × List TestItem → String × List TestItem → Bool
  group_le unassigned a b =
      if str_eq a.0 unassigned
      then false
      else if str_eq b.0 unassigned
      then true
      else at_most a.0 b.0

  unfoldable pub test_groups :
      (String → Option String) → String → List TestItem → Dict String (List TestItem)
  test_groups service_for_test unassigned tests =
      sort (group_le unassigned)
        (group_from (λ t. or_else (service_for_test t.id) unassigned) tests [])

-- `new Map(gateCatalog.map((c) => [c.id, c.name || c.id]))`.
abbrev pub add_names : List CatalogEntry → Dict String String → Dict String String
add_names [] m = m
add_names (c ∷ cs) m = add_names cs (insert c.id (if str_eq c.name "" then c.id else c.name) m)

unfoldable pub service_for_test : Option CoverageReport → List CatalogEntry → String → Option String
service_for_test coverage catalog test_id = elim (lookup test_id (test_service_map coverage)) [
  | none ↦ none
  | some sid ↦
      if str_eq sid "" then none else some (or_else (lookup sid (add_names catalog [])) sid)
]

pub record Sorting : Type 0 where
  pub field : SortField
  pub dir : SortDir

abbrev pub flip : SortDir → SortDir
flip asc = desc
flip desc = asc

abbrev pub same_field : SortField → SortField → Bool
same_field name name = true
same_field endpoint endpoint = true
same_field status status = true
same_field last_run last_run = true
same_field pass_rate pass_rate = true
same_field flake_score flake_score = true
same_field owner owner = true
same_field other another = false

unfoldable pub toggle_sort : SortField → Sorting → Sorting
toggle_sort field s =
    if same_field s.field field
    then record s { dir = flip s.dir }
    else record { field = field; dir = asc }

-- The tests, and which of them run.
pub record Watch : Type 0 where
  pub tests : List TestItem
  pub running : List String

abbrev pub add_id : String → List String → List String
add_id id ids = if has_text ids id then ids else ids ++ id ∷ []

-- The first lines of `handleRun`.
unfoldable pub run_test : String → Watch → Watch
run_test id w = record w { running = add_id id w.running }

abbrev pub is_pending : Option String → Bool
is_pending none = true
is_pending (some st) = str_eq st "" || (str_eq st "running" || str_eq st "pending")

abbrev pub is_running : List TestItem → String → Bool
is_running fresh id = elim (find (λ f. str_eq f.id id) fresh) [
  | none ↦ false
  | some item ↦ is_pending item.last_run_status
]

-- An answer to the interval that was set when `running_tests` ran.
unfoldable pub on_tick : List String → List TestItem → Watch → Watch
on_tick running_tests fresh w = record w {
  tests = fresh;
  running = filter (is_running fresh) running_tests;
}

-- The interval is set while a test runs.
abbrev pub polls : Watch → Bool
polls w = elim w.running [ [] ↦ false | id ∷ ids ↦ true ]

-- ===== src/TestList/Filters.antt =====
-- web/src/components/test-list.tsx: what the filters of the list select.
use mathlib.Core.List.{Perm}
use meergate.Base.{
  ◌≡◌, ◌+◌, ◌≤◌, refl, arith, inl, inr, String, Bool, true, false, not, ◌||◌, Option-cases, List,
  [], ◌∷◌, filter, length, eq_iff, str_eq, if◌then◌else◌, Bool-cases, IsSorted, IsTotal,
  sort-IsSorted, sort-perm,
}
use meergate.Data.{TestItem}
use meergate.TestList.{
  all, failing, passing, generated, manual, passes, filtered, matches, SortField, then_at_most,
  field_le, item_le, sorted, endpoint, status, last_run, asc, desc, SortDir,
}

filter-split :
    {A : Type 0} (p q r : A → Bool) (xs : List A)
    → ((x : A) → r x ≡ true)
    → ((x : A) → q x ≡ not (p x))
    → length (filter p xs) + length (filter q xs) ≡ length (filter r xs)
filter-split p q r [] h k = omega arith
filter-split p q r (x ∷ xs) h k = elim (Bool-cases (p x)) [
  | inl e ↦ rw (k x, e, h x) (omega (arith, filter-split p q r xs h k))
  | inr e ↦ rw (k x, e, h x) (omega (arith, filter-split p q r xs h k))
]

filter-apart :
    {A : Type 0} (p q r : A → Bool) (xs : List A)
    → ((x : A) → r x ≡ true)
    → ((x : A) → p x ≡ true → q x ≡ false)
    → length (filter p xs) + length (filter q xs) ≤ length (filter r xs)
filter-apart p q r [] h k = omega arith
filter-apart p q r (x ∷ xs) h k = elim (Bool-cases (p x)) [
  | inl e ↦ rw (e, k x e, h x) (omega (arith, filter-apart p q r xs h k))
  | inr e ↦ elim (Bool-cases (q x)) [
    | inl f ↦ rw (e, f, h x) (omega (arith, filter-apart p q r xs h k))
    | inr f ↦ rw (e, f, h x) (omega (arith, filter-apart p q r xs h k))
  ]
]

apart : (s : String) → str_eq s "passed" ≡ true → str_eq s "failed" || str_eq s "error" ≡ false
apart s h = ground (
  arith,
  h,
  eq_iff s "passed",
  eq_iff s "failed",
  eq_iff s "error",
  eq_iff "passed" "failed",
  eq_iff "passed" "error",
)

passing-not_failing : (test : TestItem) → passes passing test ≡ true → passes failing test ≡ false
unfolding passes
passing-not_failing test h = elim (Option-cases test.last_run_status) [
  | inl e ↦ rw e refl
  | inr e ↦ rw e.1 (apart e.0 (rw e.1 at h))
]

-- Of the tests that a search finds, each is shown by just one of the filters `generated` and
-- `manual`, and none by both `passing` and `failing`.
pub filtered_lem :
    (lower : String → String) (search : String) (tests : List TestItem)
    → (length (filtered lower search generated tests) + length (filtered lower search manual tests)
        ≡ length (filtered lower search all tests))
      × (length (filtered lower search passing tests) + length (filtered lower search failing tests)
          ≤ length (filtered lower search all tests))
unfolding filtered passes
filtered_lem lower search tests =
    let found = if str_eq search "" then tests else filter (matches lower (lower search)) tests in
    (
      filter-split (passes generated) (passes manual) (passes all) found (λ t. refl) (λ t. refl),
      filter-apart (passes passing) (passes failing) (passes all) found (λ t. refl)
          passing-not_failing,
    )

module _ (at_most : String → String → Bool) (t : IsTotal at_most) where
  then_at_most-total :
      (a b x y : String)
      → then_at_most at_most a b (at_most x y) ≡ false
      → then_at_most at_most b a (at_most y x) ≡ true
  then_at_most-total a b x y h = ground (arith, t.total a b, t.total b a, t.total x y)

  then_at_most_trans :
      (a b c x y z : String)
      → then_at_most at_most a b (at_most x y) ≡ true
      → then_at_most at_most b c (at_most y z) ≡ true
      → then_at_most at_most a c (at_most x z) ≡ true
  then_at_most_trans a b c x y z h k =
      ground (arith, t.trans a b c, t.trans c a b, t.trans b c a, t.trans x y z)

  field_le-IsTotal : (field : SortField) → IsTotal (field_le at_most field)
  unfolding field_le
  field_le-IsTotal SortField.name = record {
    total = λ a b. t.total _ _;
    trans = λ a b c. t.trans _ _ _;
  }
  field_le-IsTotal status = record { total = λ a b. t.total _ _; trans = λ a b c. t.trans _ _ _ }
  field_le-IsTotal last_run = record { total = λ a b. t.total _ _; trans = λ a b c. t.trans _ _ _ }
  field_le-IsTotal SortField.owner = record {
    total = λ a b. t.total _ _;
    trans = λ a b c. t.trans _ _ _;
  }
  field_le-IsTotal SortField.pass_rate = record {
    total = λ a b h. ground arith;
    trans = λ a b c h k. ground arith;
  }
  field_le-IsTotal SortField.flake_score = record {
    total = λ a b h. ground arith;
    trans = λ a b c h k. ground arith;
  }
  field_le-IsTotal endpoint = record {
    total = λ a b. then_at_most-total _ _ _ _;
    trans = λ a b c. then_at_most_trans _ _ _ _ _ _;
  }

  item_le-IsTotal : (field : SortField) (dir : SortDir) → IsTotal (item_le at_most field dir)
  unfolding item_le
  item_le-IsTotal field asc = field_le-IsTotal field
  item_le-IsTotal field desc =
      let up = field_le-IsTotal field in
      record { total = λ a b. up.total b a; trans = λ a b c h k. up.trans c b a k h }

  -- The list is in the order of the chosen field, upwards or downwards, and has the same tests.
  pub sorted_lem :
      (field : SortField) (dir : SortDir) (tests : List TestItem)
      → IsSorted (item_le at_most field dir) (sorted at_most field dir tests)
        × Perm (sorted at_most field dir tests) tests
  unfolding sorted
  sorted_lem field dir tests = (
    sort-IsSorted (item_le at_most field dir) (item_le-IsTotal field dir) tests,
    sort-perm (item_le at_most field dir) tests,
  )

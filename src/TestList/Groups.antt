-- ===== src/TestList/Groups.antt =====
-- web/src/components/test-list.tsx: the groups hold every test once, each group those of its service
-- in the order of the list, and the group without a service is the last.
use mathlib.Core.List.{Perm, perm_middle}
use mathlib.Core.List.Perm
use meergate.Base.{
  ◌≡◌, refl, arith, inl, inr, String, Bool, true, false, Option, none, List, [], ◌∷◌, ◌++◌, filter,
  All, All-sort, Dict, lookup, or_else, str_eq, string_eq, eq_iff, Bool-cases, sort, insert_sorted,
}
use meergate.Base.Grouping.{group_from, group_from_lem, group_from-IsMap, items_of, IsMap}
use meergate.Data.{TestItem}
use meergate.TestList.{group_le, test_groups}

-- Two lists in front of a third change places.
append-swap : {A : Type 0} (xs ys zs : List A) → Perm (xs ++ (ys ++ zs)) (ys ++ (xs ++ zs))
append-swap [] ys zs = Perm.refl _
append-swap (x ∷ xs) ys zs =
    Perm.trans (Perm.cons x (append-swap xs ys zs)) (Perm.symm (perm_middle ys (xs ++ zs)))

module _ (le : String × List TestItem → String × List TestItem → Bool) where
  items-insert_sorted :
      (g : String × List TestItem) (m : Dict String (List TestItem))
      → Perm (items_of (insert_sorted le g m)) (g.1 ++ items_of m)
  unfolding insert_sorted
  items-insert_sorted g [] = Perm.refl _
  items-insert_sorted g (h ∷ m) = elim (Bool-cases (le g h)) [
    | inl e ↦ rw e (Perm.refl _)
    | inr e ↦ rw e (
        Perm.trans (Perm.append_left h.1 (items-insert_sorted g m))
          (append-swap h.1 g.1 (items_of m)))
  ]

  items-sort : (m : Dict String (List TestItem)) → Perm (items_of (sort le m)) (items_of m)
  unfolding sort
  items-sort [] = Perm.refl _
  items-sort (g ∷ m) =
      Perm.trans (items-insert_sorted g (sort le m)) (Perm.append_left g.1 (items-sort m))

-- Nothing comes after the group of a key.
abbrev pub IsLast : String → Dict String (List TestItem) → Type 0
IsLast k [] = Unit
IsLast k (g ∷ m) = (g.0 ≡ k → m ≡ []) × IsLast k m

no_key : (k : String) (g : String × List TestItem) → str_eq g.0 k ≡ false → g.0 ≡ k → ⊥
no_key k g h e = cc (h, (eq_iff g.0 k).1 e)

module _ (at_most : String → String → Bool) (k : String) where
  -- The group of the key is put behind every other.
  insert_own-IsLast :
      (g : String × List TestItem) (m : Dict String (List TestItem))
      → str_eq g.0 k ≡ true
      → All (λ h. str_eq h.0 k ≡ false) m
      → IsLast k (insert_sorted (group_le at_most k) g m)
  unfolding insert_sorted group_le
  insert_own-IsLast g [] h o = ((λ e. refl), tt)
  insert_own-IsLast g (y ∷ m) h o =
      rw h ((λ e. elim (no_key k y o.0 e) [ ]), insert_own-IsLast g m h o.1)

  before_key :
      (g y : String × List TestItem)
      → str_eq g.0 k ≡ false
      → y.0 ≡ k
      → group_le at_most k g y ≡ false
      → ⊥
  unfolding group_le
  before_key g y h q e = ground (arith, h, e, (eq_iff y.0 k).1 q)

  insert_other-IsLast :
      (g : String × List TestItem) (m : Dict String (List TestItem))
      → str_eq g.0 k ≡ false
      → IsLast k m
      → IsLast k (insert_sorted (group_le at_most k) g m)
  unfolding insert_sorted group_le
  insert_other-IsLast g [] h l = ((λ e. refl), tt)
  insert_other-IsLast g (y ∷ m) h l = elim (Bool-cases (group_le at_most k g y)) [
    | inl e ↦ rw e ((λ q. elim (no_key k g h q) [ ]), l)
    | inr e ↦ rw e ((λ q. elim (before_key g y h q e) [ ]), insert_other-IsLast g m h l.1)
  ]

  no_others :
      (m : Dict String (List TestItem)) → lookup k m ≡ none → All (λ g. str_eq g.0 k ≡ false) m
  unfolding lookup
  no_others [] h = tt
  no_others (g ∷ m) h = elim (Bool-cases (str_eq g.0 k)) [
    | inl e ↦ cc (rw e at h)
    | inr e ↦ (e, no_others m (rw e at h))
  ]

  sort-IsLast : (m : Dict String (List TestItem)) → IsMap m → IsLast k (sort (group_le at_most k) m)
  unfolding sort
  sort-IsLast [] h = tt
  sort-IsLast (g ∷ m) h = elim (Bool-cases (str_eq g.0 k)) [
    | inl e ↦
        insert_own-IsLast g _ e
          (All-sort (group_le at_most k) _ m (no_others m (rw ((eq_iff g.0 k).0 e) at h.0)))
    | inr e ↦ insert_other-IsLast g _ e (sort-IsLast m h.1)
  ]

-- Every test of the list is in one group, a group has the tests of its service in their order, and
-- the group of the tests without a service is the last.
pub test_groups_lem :
    (at_most : String → String → Bool) (service : String → Option String) (unassigned : String)
    (tests : List TestItem)
    → Perm (items_of (test_groups at_most service unassigned tests)) tests
      × All
          (λ g. g.1 ≡ filter (λ t. str_eq (or_else (service t.id) unassigned) g.0) tests)
          (test_groups at_most service unassigned tests)
      × IsLast unassigned (test_groups at_most service unassigned tests)
unfolding test_groups
test_groups_lem at_most service unassigned tests =
    let key : TestItem → String = λ t. or_else (service t.id) unassigned in
    let made = group_from_lem key tests in
    let le = group_le at_most unassigned in
    (
      Perm.trans (items-sort le (group_from key tests [])) made.1,
      All-sort le _ (group_from key tests []) made.0,
      sort-IsLast at_most unassigned _ (group_from-IsMap key tests [] tt),
    )

-- ===== src/Overview/Board.antt =====
-- web/src/components/service-gate-board.tsx: the groups hold every service once, and a group shows
-- the worst status of its services.
use mathlib.Core.List.{Perm}
use meergate.Base.{
  ◌≡◌, ◌≢◌, ◌⊎◌, ◌≤◌, refl, inl, inr, arith, String, true, Option, List, [], ◌∷◌, map, filter, Dict,
  str_eq, string_eq, sort, insert_sorted, All, All-sort, All-weaken, Any, IsSorted, IsTotal,
  sort-IsSorted, Bool-cases, leb→le,
}
use meergate.Base.Grouping.{group_from_lem, items_of}
use meergate.Data.{CatalogEntry, CoverageReport, GateSummary, GateStatus, not_configured}
use meergate.Overview.{groups, group_rank, rank_le, first_or, status_of, group_status}

-- A group has the services of its target in their order, and every service is in one group.
pub groups_lem :
    (services : List CatalogEntry)
    → All (λ g. g.1 ≡ filter (λ s. str_eq s.target g.0) services) (groups services)
      × Perm (items_of (groups services)) services
unfolding groups
groups_lem services = group_from_lem (λ s. s.target) services

rank_le-IsTotal : IsTotal rank_le
rank_le-IsTotal = record { total = λ a b h. ground arith; trans = λ a b c h k. ground arith }

All-of_insert_sorted :
    (P : GateStatus → Type 0) (x : GateStatus) (xs : List GateStatus)
    → All P (insert_sorted rank_le x xs)
    → P x × All P xs
unfolding insert_sorted
All-of_insert_sorted P x [] h = h
All-of_insert_sorted P x (y ∷ ys) h = elim (Bool-cases (rank_le x y)) [
  | inl e ↦ rw e at h
  | inr e ↦
      let k : P y × All P (insert_sorted rank_le x ys) = rw e at h in
      let r = All-of_insert_sorted P x ys k.1 in (r.0, (k.0, r.1))
]

All-of_sort : (P : GateStatus → Type 0) (xs : List GateStatus) → All P (sort rank_le xs) → All P xs
unfolding sort
All-of_sort P [] h = tt
All-of_sort P (x ∷ xs) h =
    let k = All-of_insert_sorted P x (sort rank_le xs) h in (k.0, All-of_sort P xs k.1)

All-occurs : (xs : List GateStatus) → All (λ x. Any (λ y. y ≡ x) xs) xs
All-occurs [] = tt
All-occurs (x ∷ xs) = (inl refl, All-weaken _ _ xs (λ y h. inr h) (All-occurs xs))

rank_le_refl : (a : GateStatus) → rank_le a a ≡ true
rank_le_refl a = ground arith

first-least :
    (d : GateStatus) (xs : List GateStatus)
    → IsSorted rank_le xs
    → All (λ y. rank_le (first_or d xs) y ≡ true) xs
first-least d [] h = tt
first-least d (x ∷ xs) h = (rank_le_refl x, h.0)

All-first :
    (P : GateStatus → Type 0) (d : GateStatus) (xs : List GateStatus)
    → All P xs
    → (xs ≡ []) ⊎ P (first_or d xs)
All-first P d [] h = inl refl
All-first P d (x ∷ xs) h = inr h.0

insert_sorted-ne : (x : GateStatus) (xs : List GateStatus) → insert_sorted rank_le x xs ≢ []
unfolding insert_sorted
insert_sorted-ne x [] h = cc
insert_sorted-ne x (y ∷ ys) h = elim (Bool-cases (rank_le x y)) [
  | inl e ↦ cc (rw e at h)
  | inr e ↦ cc (rw e at h)
]

-- The first of the sorted statuses is the least, and one of them.
sort-first :
    (d x : GateStatus) (xs : List GateStatus)
    → All (λ y. rank_le (first_or d (sort rank_le (x ∷ xs))) y ≡ true) (x ∷ xs)
      × Any (λ y. y ≡ first_or d (sort rank_le (x ∷ xs))) (x ∷ xs)
unfolding sort
sort-first d x xs =
    let l = sort rank_le (x ∷ xs) in
    (
      All-of_sort _ (x ∷ xs) (first-least d l (sort-IsSorted rank_le rank_le-IsTotal (x ∷ xs))),
      elim (All-first _ d l (All-sort rank_le _ (x ∷ xs) (All-occurs (x ∷ xs)))) [
        | inl h ↦ elim (insert_sorted-ne x (sort rank_le xs) h) [ ]
        | inr h ↦ h
      ],
    )

All-of_map :
    (f : CatalogEntry → GateStatus) (P : GateStatus → Type 0) (xs : List CatalogEntry)
    → All P (map f xs)
    → All (λ x. P (f x)) xs
All-of_map f P [] h = tt
All-of_map f P (x ∷ xs) h = (h.0, All-of_map f P xs h.1)

Any-of_map :
    (f : CatalogEntry → GateStatus) (P : GateStatus → Type 0) (xs : List CatalogEntry)
    → Any P (map f xs)
    → Any (λ x. P (f x)) xs
Any-of_map f P [] h = elim h [ ]
Any-of_map f P (x ∷ xs) (inl h) = inl h
Any-of_map f P (x ∷ xs) (inr h) = inr (Any-of_map f P xs h)

-- The status of a group that has services is that of one of them, and none has a worse one.
pub group_status-worst :
    (gates : Dict String GateSummary) (coverage : Option CoverageReport) (s : CatalogEntry)
    (ss : List CatalogEntry)
    → All
        (λ svc.
          group_rank (group_status gates coverage (s ∷ ss))
          ≤ group_rank (status_of gates coverage svc))
        (s ∷ ss)
      × Any (λ svc. status_of gates coverage svc ≡ group_status gates coverage (s ∷ ss)) (s ∷ ss)
unfolding group_status
group_status-worst gates coverage s ss =
    let status = status_of gates coverage in
    let first = sort-first not_configured (status s) (map status ss) in
    (
      All-weaken _ _ (s ∷ ss) (λ svc h. leb→le _ _ h) (All-of_map status _ (s ∷ ss) first.0),
      Any-of_map status _ (s ∷ ss) first.1,
    )

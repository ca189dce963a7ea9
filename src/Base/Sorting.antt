-- ===== src/Base/Sorting.antt =====
-- `sort` of the source as a stable insertion sort, and what it keeps.
use mathlib.Core.Path.{◌≡◌, refl, ap, ◌∙◌}
use mathlib.Core.Logic.{inl, inr}
use mathlib.Core.Bool.{Bool, true, false}
use mathlib.Core.List.{List, [], ◌∷◌, Perm}
use mathlib.Core.List.Perm
use meergate.Base.Tests.{if◌then◌else◌, Bool-cases}
use meergate.Base.Lists.{All, filter}

-- `sort`, which is stable: `le a b` says that the comparator of `a` and `b` is at most 0.
module _ {ℓ} {A : Type ℓ} (le : A → A → Bool) where
  unfoldable pub insert_sorted : A → List A → List A
  insert_sorted x [] = x ∷ []
  insert_sorted x (y ∷ ys) = if le x y then x ∷ y ∷ ys else y ∷ insert_sorted x ys

  unfoldable pub sort : List A → List A
  unfolding insert_sorted
  sort [] = []
  sort (x ∷ xs) = insert_sorted x (sort xs)

  insert_sorted-perm : (x : A) (xs : List A) → Perm (insert_sorted x xs) (x ∷ xs)
  unfolding insert_sorted
  insert_sorted-perm x [] = Perm.refl _
  insert_sorted-perm x (y ∷ ys) = elim (Bool-cases (le x y)) [
    | inl h ↦ rw h (Perm.refl _)
    | inr h ↦ rw h (Perm.trans (Perm.cons y (insert_sorted-perm x ys)) (Perm.swap x y ys))
  ]

  pub sort-perm : (xs : List A) → Perm (sort xs) xs
  unfolding sort
  sort-perm [] = Perm.refl _
  sort-perm (x ∷ xs) = Perm.trans (insert_sorted-perm x (sort xs)) (Perm.cons x (sort-perm xs))

  -- Each element is at most the next.
  abbrev pub IsSorted : List A → Type 0
  IsSorted [] = Unit
  IsSorted (x ∷ xs) = All (λ y. le x y ≡ true) xs × IsSorted xs

  module _ (P : A → Type 0) where
    All-insert_sorted : (x : A) (xs : List A) → P x → All P xs → All P (insert_sorted x xs)
    unfolding insert_sorted
    All-insert_sorted x [] p h = (p, tt)
    All-insert_sorted x (y ∷ ys) p h = elim (Bool-cases (le x y)) [
      | inl e ↦ rw e (p, h)
      | inr e ↦ rw e (h.0, All-insert_sorted x ys p h.1)
    ]

    pub All-sort : (xs : List A) → All P xs → All P (sort xs)
    unfolding sort
    All-sort [] h = tt
    All-sort (x ∷ xs) h = All-insert_sorted x (sort xs) h.0 (All-sort xs h.1)

-- The comparator is a total preorder.
pub record IsTotal {ℓ} {A : Type ℓ} (le : A → A → Bool) : Type ℓ where
  pub total : (a b : A) → le a b ≡ false → le b a ≡ true
  pub trans : (a b c : A) → le a b ≡ true → le b c ≡ true → le a c ≡ true

module _ {ℓ} {A : Type ℓ} (le : A → A → Bool) (t : IsTotal le) where
  All-le :
      (x y : A) (ys : List A)
      → le x y ≡ true
      → All (λ z. le y z ≡ true) ys
      → All (λ z. le x z ≡ true) ys
  All-le x y [] p h = tt
  All-le x y (z ∷ zs) p h = (t.trans x y z p h.0, All-le x y zs p h.1)

  insert_sorted-IsSorted :
      (x : A) (xs : List A) → IsSorted le xs → IsSorted le (insert_sorted le x xs)
  unfolding insert_sorted
  insert_sorted-IsSorted x [] h = (tt, tt)
  insert_sorted-IsSorted x (y ∷ ys) h = elim (Bool-cases (le x y)) [
    | inl e ↦ rw e ((e, All-le x y ys e h.0), h)
    | inr e ↦ rw e (
      All-insert_sorted le (λ z. le y z ≡ true) x ys (t.total x y e) h.0,
      insert_sorted-IsSorted x ys h.1,
    )
  ]

  pub sort-IsSorted : (xs : List A) → IsSorted le (sort le xs)
  unfolding sort
  sort-IsSorted [] = tt
  sort-IsSorted (x ∷ xs) = insert_sorted-IsSorted x (sort le xs) (sort-IsSorted xs)

module _ {ℓ} {A : Type ℓ} (le : A → A → Bool) where
  -- A list in order is left as it is.
  pub sort_of_IsSorted : (xs : List A) → IsSorted le xs → sort le xs ≡ xs
  unfolding sort insert_sorted
  sort_of_IsSorted [] h = refl
  sort_of_IsSorted (x ∷ []) h = refl
  sort_of_IsSorted (x ∷ y ∷ ys) h = rw (sort_of_IsSorted (y ∷ ys) h.1, h.0.0)

-- Sorting keeps the elements that pass a test, if there is no more than one of them.
module _ {ℓ} {A : Type ℓ} (le : A → A → Bool) (p : A → Bool) where
  filter-insert_sorted_out :
      (x : A) (ys : List A) → p x ≡ false → filter p (insert_sorted le x ys) ≡ filter p ys
  unfolding insert_sorted
  filter-insert_sorted_out x [] h = rw h
  filter-insert_sorted_out x (y ∷ ys) h = elim (Bool-cases (le x y)) [
    | inl e ↦ rw (e, h)
    | inr e ↦ rw e (rw (filter-insert_sorted_out x ys h))
  ]

  filter-insert_sorted_in :
      (x : A) (ys : List A)
      → p x ≡ true
      → filter p ys ≡ []
      → filter p (insert_sorted le x ys) ≡ x ∷ []
  unfolding insert_sorted
  filter-insert_sorted_in x [] h k = rw h
  filter-insert_sorted_in x (y ∷ ys) h k = elim (Bool-cases (le x y)) [
    | inl e ↦ rw (e, h) (ap (λ l. x ∷ l) k)
    | inr e ↦ elim (Bool-cases (p y)) [
      | inl py ↦ cc (rw py at k)
      | inr py ↦ rw (e, py) (filter-insert_sorted_in x ys h (rw py at k))
    ]
  ]

  pub filter-sort_nil : (xs : List A) → filter p xs ≡ [] → filter p (sort le xs) ≡ []
  unfolding sort
  filter-sort_nil [] h = refl
  filter-sort_nil (x ∷ xs) h = elim (Bool-cases (p x)) [
    | inl e ↦ cc (rw e at h)
    | inr e ↦ filter-insert_sorted_out x (sort le xs) e ∙ filter-sort_nil xs (rw e at h)
  ]

  pub filter-sort_one :
      (xs : List A) (a : A) → filter p xs ≡ a ∷ [] → filter p (sort le xs) ≡ a ∷ []
  unfolding sort
  filter-sort_one [] a h = cc
  filter-sort_one (x ∷ xs) a h = elim (Bool-cases (p x)) [
    | inl e ↦
        let k = rw e at h in
        filter-insert_sorted_in x (sort le xs) e (filter-sort_nil xs (cc k)) ∙ cc k
    | inr e ↦ filter-insert_sorted_out x (sort le xs) e ∙ filter-sort_one xs a (rw e at h)
  ]

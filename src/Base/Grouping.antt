-- ===== src/Base/Grouping.antt =====
-- Grouping by a key with a `Map` of lists, as the pages do it: every element is pushed to the list
-- of its key, which is made when the key is new.
use mathlib.Core.Path.{◌≡◌, refl, sym, ap, ◌∙◌}
use mathlib.Core.Logic.{inl, inr}
use mathlib.Core.Option.{none, some}
use mathlib.Core.List.{List, [], ◌∷◌, ◌++◌, Perm}
use mathlib.Core.List.Perm
use mathlib.Core.List.{append-nil, append_assoc, perm_middle}
use native.Mathlib.Omega.{arith}
use meergate.Base.Tests.{if◌then◌else◌, Eq, or_else, Bool-cases}
use meergate.Base.Lists.{filter, All, All-weaken}
use meergate.Base.Maps.{Dict, lookup, insert, lookup-insert, beq_refl}

module _ {ℓ κ} {K : Type ℓ} {A : Type κ} ⦃e : Eq K⦄ where
  unfoldable pub push_to : K → A → Dict K (List A) → Dict K (List A)
  push_to k x m = insert k (or_else (lookup k m) [] ++ x ∷ []) m

  -- Every element of a list is pushed, from a map on.
  unfoldable pub group_from : (A → K) → List A → Dict K (List A) → Dict K (List A)
  unfolding push_to
  group_from key [] m = m
  group_from key (x ∷ xs) m = group_from key xs (push_to (key x) x m)

  abbrev pub items_of : Dict K (List A) → List A
  items_of [] = []
  items_of ((k, xs) ∷ m) = xs ++ items_of m

-- No key occurs twice.
abbrev pub IsMap {ℓ κ} : {K : Type ℓ} {V : Type κ} ⦃e : Eq K⦄ → Dict K V → Type κ
IsMap [] = Unit
IsMap ((k, v) ∷ m) = (lookup k m ≡ none) × IsMap m

module _ {ℓ κ} {K : Type ℓ} {V : Type κ} ⦃e : Eq K⦄ where
  pub insert-IsMap : (k : K) (v : V) (m : Dict K V) → IsMap m → IsMap (insert k v m)
  unfolding lookup insert
  insert-IsMap k v [] h = (refl, tt)
  insert-IsMap k v ((j, w) ∷ m) h = elim (Bool-cases (e.beq j k)) [
    | inl p ↦ rw p h
    | inr p ↦ rw p (
      rw (lookup-insert k j v m) (grind (arith, p, h.0, e.beq_iff j k, e.beq_iff k j)),
      insert-IsMap k v m h.1,
    )
  ]

  -- The value of a pair is the one that is found under its key.
  lookup-none_ne :
      (j : K) (w : V) (g : K × V) (m : Dict K V)
      → lookup j m ≡ none
      → lookup g.0 m ≡ some g.1
      → lookup g.0 ((j, w) ∷ m) ≡ some g.1
  unfolding lookup
  lookup-none_ne j w g m h p = elim (Bool-cases (e.beq j g.0)) [
    | inl q ↦ cc (rw ((e.beq_iff j g.0).0 q) at h)
    | inr q ↦ rw q p
  ]

  pub IsMap-lookup : (m : Dict K V) → IsMap m → All (λ g. lookup g.0 m ≡ some g.1) m
  unfolding lookup
  IsMap-lookup [] h = tt
  IsMap-lookup ((j, w) ∷ m) h = (
    rw (beq_refl j) refl,
    All-weaken _ _ m (λ g. lookup-none_ne j w g m h.0) (IsMap-lookup m h.1),
  )

module _ {ℓ κ} {K : Type ℓ} {A : Type κ} ⦃e : Eq K⦄ where
  lookup-push_to :
      (j k : K) (x : A) (m : Dict K (List A))
      → or_else (lookup j (push_to k x m)) []
        ≡ (if e.beq k j then or_else (lookup j m) [] ++ x ∷ [] else or_else (lookup j m) [])
  unfolding push_to
  lookup-push_to j k x m = elim (Bool-cases (e.beq k j)) [
    | inl p ↦
        rw (lookup-insert k j (or_else (lookup k m) [] ++ x ∷ []) m, p) (rw ((e.beq_iff k j).0 p))
    | inr p ↦ rw (lookup-insert k j (or_else (lookup k m) [] ++ x ∷ []) m, p)
  ]

  module _ (key : A → K) where
    lookup-group_from :
        (j : K) (xs : List A) (m : Dict K (List A))
        → or_else (lookup j (group_from key xs m)) []
          ≡ or_else (lookup j m) [] ++ filter (λ x. e.beq (key x) j) xs
    unfolding group_from
    lookup-group_from j [] m = sym (append-nil _)
    lookup-group_from j (x ∷ xs) m = elim (Bool-cases (e.beq (key x) j)) [
      | inl p ↦
          rw (lookup-group_from j xs (push_to (key x) x m), lookup-push_to j (key x) x m, p)
            (append_assoc _ (x ∷ []) _)
      | inr p ↦ rw (lookup-group_from j xs (push_to (key x) x m), lookup-push_to j (key x) x m, p)
    ]

    pub group_from-IsMap :
        (xs : List A) (m : Dict K (List A)) → IsMap m → IsMap (group_from key xs m)
    unfolding group_from push_to
    group_from-IsMap [] m h = h
    group_from-IsMap (x ∷ xs) m h = group_from-IsMap xs _ (insert-IsMap (key x) _ m h)

    items-insert :
        (k : K) (x : A) (v : List A) (m : Dict K (List A))
        → or_else (lookup k m) [] ≡ v
        → Perm (items_of (insert k (v ++ x ∷ []) m)) (x ∷ items_of m)
    unfolding insert lookup
    items-insert k x v [] h = rw (sym h) (Perm.refl _)
    items-insert k x v ((j, w) ∷ m) h = elim (Bool-cases (e.beq j k)) [
      | inl p ↦
          let same : w ≡ v = rw p at h in
          rw (p, sym same, append_assoc w (x ∷ []) (items_of m)) (perm_middle w (items_of m))
      | inr p ↦
          let below : or_else (lookup k m) [] ≡ v = rw p at h in
          rw p (
            Perm.trans (Perm.append_left w (items-insert k x v m below))
              (perm_middle w (items_of m)))
    ]

    group_from-perm :
        (xs : List A) (m : Dict K (List A))
        → Perm (items_of (group_from key xs m)) (items_of m ++ xs)
    unfolding group_from push_to
    group_from-perm [] m = rw (append-nil (items_of m)) (Perm.refl _)
    group_from-perm (x ∷ xs) m = Perm.trans (group_from-perm xs _) (
        Perm.trans (Perm.append_right xs (items-insert (key x) x _ m refl))
          (Perm.symm (perm_middle (items_of m) xs)))

    -- The elements of a group are those with its key, in order, and every element is in one group.
    pub group_from_lem :
        (xs : List A)
        → All (λ g. g.1 ≡ filter (λ x. e.beq (key x) g.0) xs) (group_from key xs [])
          × Perm (items_of (group_from key xs [])) xs
    unfolding lookup
    group_from_lem xs = (
      All-weaken _ _ (group_from key xs [])
          (λ g h. sym (ap (λ o. or_else o []) h) ∙ lookup-group_from g.0 xs [])
          (IsMap-lookup _ (group_from-IsMap xs [] tt)),
      group_from-perm xs [],
    )

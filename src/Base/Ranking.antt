-- ===== src/Base/Ranking.antt =====
-- The first elements of a sorted list, `sort(...).slice(0, n)`.
use Prim.Native.Nat.{ℕ, zero, suc, ◌≤◌}
use mathlib.Core.Path.{◌≡◌}
use mathlib.Core.Bool.{Bool, true}
use mathlib.Core.List.{List, [], ◌∷◌}
use native.Mathlib.Omega.{arith}
use meergate.Base.Lists.{length, All}
use meergate.Base.Sorting.{sort, IsSorted, IsTotal, sort-IsSorted}

module _ {ℓ} {A : Type ℓ} where
  abbrev pub take : ℕ → List A → List A
  take zero xs = []
  take (suc n) [] = []
  take (suc n) (x ∷ xs) = x ∷ take n xs

  abbrev pub drop : ℕ → List A → List A
  drop zero xs = xs
  drop (suc n) [] = []
  drop (suc n) (x ∷ xs) = drop n xs

  length-take-le : (n : ℕ) (xs : List A) → length (take n xs) ≤ n
  length-take-le zero xs = omega arith
  length-take-le (suc n) [] = omega arith
  length-take-le (suc n) (x ∷ xs) = omega (arith, length-take-le n xs)

  All-drop : (P : A → Type 0) (n : ℕ) (xs : List A) → All P xs → All P (drop n xs)
  All-drop P zero xs h = h
  All-drop P (suc n) [] h = h
  All-drop P (suc n) (x ∷ xs) h = All-drop P n xs h.1

  module _ (le : A → A → Bool) where
    take-before_drop :
        (n : ℕ) (xs : List A)
        → IsSorted le xs
        → All (λ x. All (λ y. le x y ≡ true) (drop n xs)) (take n xs)
    take-before_drop zero xs h = tt
    take-before_drop (suc n) [] h = tt
    take-before_drop (suc n) (x ∷ xs) h =
        (All-drop (λ y. le x y ≡ true) n xs h.0, take-before_drop n xs h.1)

    -- Of a sorted list, no more than n elements are shown, and none of the others comes before one.
    pub take-sort :
        (t : IsTotal le) (n : ℕ) (xs : List A)
        → (length (take n (sort le xs)) ≤ n)
          × All (λ x. All (λ y. le x y ≡ true) (drop n (sort le xs))) (take n (sort le xs))
    take-sort t n xs =
        (length-take-le n (sort le xs), take-before_drop n (sort le xs) (sort-IsSorted le t xs))

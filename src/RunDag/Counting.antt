-- ===== src/RunDag/Counting.antt =====
-- Lists of indices: occurrences, distinct lists, and deleting an element.
use mathlib.Core.List.{Perm}
use mathlib.Core.List.Perm
use meergate.Base.{
  ℕ, zero, suc, ◌+◌, ◌≤◌, ◌<◌, ◌≡◌, ◌≢◌, refl, sym, ap, inl, inr, Bool, not, List, [], ◌∷◌, ◌++◌,
  filter, length, All, Any, arith, ◌==◌, if◌then◌else◌, Bool-cases,
}
use meergate.RunDag.{Graph, targets, delete, indices_from}

unfoldable pub count : ℕ → List ℕ → ℕ
count t [] = 0
count t (x ∷ xs) = if x == t then suc (count t xs) else count t xs

pub count-append : (t : ℕ) (xs ys : List ℕ) → count t (xs ++ ys) ≡ count t xs + count t ys
unfolding count
count-append t [] ys = omega arith
count-append t (x ∷ xs) ys = ground (arith, count-append t xs ys)

-- The number of edges to `t` from the steps of a list.
unfoldable pub edges_to : Graph → ℕ → List ℕ → ℕ
edges_to g t [] = 0
edges_to g t (n ∷ ns) = count t (targets g n) + edges_to g t ns

abbrev pub Misses : ℕ → List ℕ → Type 0
Misses n ns = All (λ m. m ≢ n) ns

abbrev pub IsDistinct : List ℕ → Type 0
IsDistinct [] = Unit
IsDistinct (n ∷ ns) = Misses n ns × IsDistinct ns

abbrev pub Has : ℕ → List ℕ → Type 0
Has n ns = Any (λ m. m ≡ n) ns

delete_of_Misses : (n : ℕ) (ns : List ℕ) → Misses n ns → delete n ns ≡ ns
delete_of_Misses n [] h = refl
delete_of_Misses n (m ∷ ns) h = ground (arith, delete_of_Misses n ns h.1)

All-filter {ℓ} :
    {A : Type ℓ} (P : A → Type 0) (p : A → Bool) (xs : List A) → All P xs → All P (filter p xs)
All-filter P p [] h = tt
All-filter P p (x ∷ xs) h = elim (Bool-cases (p x)) [
  | inl e ↦ rw e (h.0, All-filter P p xs h.1)
  | inr e ↦ rw e (All-filter P p xs h.1)
]

pub filter-IsDistinct : (p : ℕ → Bool) (ns : List ℕ) → IsDistinct ns → IsDistinct (filter p ns)
filter-IsDistinct p [] h = tt
filter-IsDistinct p (n ∷ ns) h = elim (Bool-cases (p n)) [
  | inl e ↦ rw e (All-filter (λ m. m ≢ n) p ns h.0, filter-IsDistinct p ns h.1)
  | inr e ↦ rw e (filter-IsDistinct p ns h.1)
]

pub delete-IsDistinct : (n : ℕ) (ns : List ℕ) → IsDistinct ns → IsDistinct (delete n ns)
delete-IsDistinct n ns h = filter-IsDistinct (λ m. not (m == n)) ns h

-- Deleting an element of a distinct list takes just that one out.
pub delete-perm : (n : ℕ) (ns : List ℕ) → IsDistinct ns → Has n ns → Perm ns (n ∷ delete n ns)
delete-perm n [] h m = elim m [ ]
delete-perm n (k ∷ ns) h m = elim (Bool-cases (k == n)) [
  | inl e ↦
      let same : k ≡ n = ground arith in
      rw (e, same) (rw (delete_of_Misses n ns (rw same at h.0)) (Perm.refl (n ∷ ns)))
  | inr e ↦
      let rest : Has n ns = ground arith in
      rw e (Perm.trans (Perm.cons k (delete-perm n ns h.1 rest)) (Perm.swap n k (delete n ns)))
]

pub edges_to-delete :
    (g : Graph) (t n : ℕ) (ns : List ℕ)
    → IsDistinct ns
    → Has n ns
    → edges_to g t ns ≡ count t (targets g n) + edges_to g t (delete n ns)
unfolding edges_to
edges_to-delete g t n [] h m = elim m [ ]
edges_to-delete g t n (k ∷ ns) h m = elim (Bool-cases (k == n)) [
  | inl e ↦
      let same : k ≡ n = ground arith in rw (e, same) (rw (delete_of_Misses n ns (rw same at h.0)))
  | inr e ↦
      let rest : Has n ns = ground arith in rw e (omega (arith, edges_to-delete g t n ns h.1 rest))
]

pub length-delete :
    (n : ℕ) (ns : List ℕ) → IsDistinct ns → Has n ns → length ns ≡ suc (length (delete n ns))
length-delete n [] h m = elim m [ ]
length-delete n (k ∷ ns) h m = elim (Bool-cases (k == n)) [
  | inl e ↦
      let same : k ≡ n = ground arith in
      rw e (ap suc (ap length (sym (delete_of_Misses n ns (rw same at h.0)))))
  | inr e ↦ let rest : Has n ns = ground arith in rw e (ap suc (length-delete n ns h.1 rest))
]

pub Has-delete : (n k : ℕ) (ns : List ℕ) → Has k ns → k ≢ n → Has k (delete n ns)
Has-delete n k [] h d = h
Has-delete n k (m ∷ ns) h d = elim (Bool-cases (m == n)) [
  | inl e ↦ rw e (Has-delete n k ns (ground arith) d)
  | inr e ↦ rw e (elim h [ inl x ↦ inl x | inr x ↦ inr (Has-delete n k ns x d) ])
]

-- The indices from `i` on are distinct, and are the numbers of their range.
indices_from-ge : (i j n : ℕ) → j < i → Misses j (indices_from i n)
unfolding indices_from
indices_from-ge i j zero h = tt
indices_from-ge i j (suc n) h = (omega arith, indices_from-ge (i + 1) j n (omega arith))

pub indices_from-IsDistinct : (i n : ℕ) → IsDistinct (indices_from i n)
unfolding indices_from
indices_from-IsDistinct i zero = tt
indices_from-IsDistinct i (suc n) =
    (indices_from-ge (i + 1) i n (omega arith), indices_from-IsDistinct (i + 1) n)

pub indices_from-Has : (i n k : ℕ) → i ≤ k → k < i + n → Has k (indices_from i n)
unfolding indices_from
indices_from-Has i zero k h l = absurd (omega arith)
indices_from-Has i (suc n) k h l = elim (Bool-cases (i == k)) [
  | inl e ↦ inl (ground arith)
  | inr e ↦ inr (indices_from-Has (i + 1) n k (ground arith) (omega arith))
]

pub length-indices_from : (i n : ℕ) → length (indices_from i n) ≡ n
unfolding indices_from
length-indices_from i zero = refl
length-indices_from i (suc n) = ap suc (length-indices_from (i + 1) n)

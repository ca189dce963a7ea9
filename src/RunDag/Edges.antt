-- ===== src/RunDag/Edges.antt =====
-- web/src/components/run-dag-viewer.tsx: the graph has one edge for each dependency that names a
-- step, and the in-degrees count the edges.
use meergate.Base.{
  ℕ, zero, suc, ◌+◌, ◌≤◌, ◌<◌, ◌≡◌, refl, sym, ◌∙◌, inl, inr, String, Option, none, some, List, [],
  ◌∷◌, ◌++◌, length, arith, ◌==◌, if◌then◌else◌, Bool-cases, or_else, lookup, insert, lookup-insert,
  Dict, nat_eq, string_eq,
}
use meergate.RunDag.{
  ManifestStep, Graph, targets, degree, add_edge, add_resolved, add_deps, add_steps, name_to_idx,
  name_index, build_graph, indices_from, zero_degrees,
}
use meergate.RunDag.Counting.{
  count, count-append, edges_to, IsDistinct, Misses, Has, indices_from-IsDistinct, indices_from-Has,
}

pub count-add_edge :
    (dep i t m : ℕ) (g : Graph)
    → count t (targets (add_edge dep i g) m) ≡ (
        if dep == m
        then count t (targets g m) + (if i == t then 1 else 0)
        else count t (targets g m))
unfolding add_edge count
count-add_edge dep i t m g = ground (
  arith,
  lookup-insert dep m (targets g dep ++ i ∷ []) g.edges,
  count-append t (targets g dep) (i ∷ []),
)

degree-add_edge :
    (dep i t : ℕ) (g : Graph) → degree (add_edge dep i g) t ≡ degree g t + (if i == t then 1 else 0)
unfolding add_edge
degree-add_edge dep i t g = ground (arith, lookup-insert i t (degree g i + 1) g.in_degree)

-- An edge adds one to the edges from a distinct list that has its source.
edges_to-miss :
    (dep i t : ℕ) (g : Graph) (ns : List ℕ)
    → Misses dep ns
    → edges_to (add_edge dep i g) t ns ≡ edges_to g t ns
unfolding edges_to
edges_to-miss dep i t g [] h = refl
edges_to-miss dep i t g (n ∷ ns) h =
    ground (arith, count-add_edge dep i t n g, edges_to-miss dep i t g ns h.1)

edges_to-add_edge :
    (dep i t : ℕ) (g : Graph) (ns : List ℕ)
    → IsDistinct ns
    → Has dep ns
    → edges_to (add_edge dep i g) t ns ≡ edges_to g t ns + (if i == t then 1 else 0)
unfolding edges_to
edges_to-add_edge dep i t g [] d h = elim h [ ]
edges_to-add_edge dep i t g (n ∷ ns) d h = elim (Bool-cases (n == dep)) [
  | inl e ↦
      let same : n ≡ dep = ground arith in
      ground (arith, count-add_edge dep i t n g, edges_to-miss dep i t g ns (rw same at d.0))
  | inr e ↦
      let rest : Has dep ns = ground arith in
      ground (arith, count-add_edge dep i t n g, edges_to-add_edge dep i t g ns d.1 rest)
]

-- The in-degrees count the edges from the steps of a list.
abbrev pub IsBalanced : Graph → List ℕ → Dict ℕ ℕ → Type 0
IsBalanced g ns deg = (t : ℕ) → or_else (lookup t deg) 0 ≡ edges_to g t ns

-- Every name stands for one of the steps of a list.
abbrev NamesIn : Dict String ℕ → List ℕ → Type 0
NamesIn names ns = (dep : String) (k : ℕ) → lookup dep names ≡ some k → Has k ns

module _ (names : Dict String ℕ) (ns : List ℕ) (d : IsDistinct ns) (h : NamesIn names ns) where
  add_resolved-IsBalanced :
      (i : ℕ) (o : Option ℕ)
      → ((k : ℕ) → o ≡ some k → Has k ns)
      → (g : Graph) → IsBalanced g ns g.in_degree
      → IsBalanced (add_resolved o i g) ns (add_resolved o i g).in_degree
  add_resolved-IsBalanced i none has g b = b
  add_resolved-IsBalanced i (some k) has g b =
      λ t. degree-add_edge k i t g ∙ (rw (b t)) ∙ sym (edges_to-add_edge k i t g ns d (has k refl))

  add_deps-IsBalanced :
      (i : ℕ) (deps : List String) (g : Graph)
      → IsBalanced g ns g.in_degree
      → IsBalanced (add_deps names i deps g) ns (add_deps names i deps g).in_degree
  unfolding add_deps
  add_deps-IsBalanced i [] g b = b
  add_deps-IsBalanced i (dep ∷ deps) g b =
      add_deps-IsBalanced i deps (add_resolved (lookup dep names) i g)
        (add_resolved-IsBalanced i (lookup dep names) (h dep) g b)

  add_steps-IsBalanced :
      (i : ℕ) (steps : List ManifestStep) (g : Graph)
      → IsBalanced g ns g.in_degree
      → IsBalanced (add_steps names i steps g) ns (add_steps names i steps g).in_degree
  unfolding add_steps
  add_steps-IsBalanced i [] g b = b
  add_steps-IsBalanced i (s ∷ ss) g b =
      add_steps-IsBalanced (i + 1) ss (add_deps names i (or_else s.depends_on []) g)
        (add_deps-IsBalanced i (or_else s.depends_on []) g b)

name_to_idx-lt :
    (i n : ℕ) (steps : List ManifestStep) (m : Dict String ℕ) (dep : String) (k : ℕ)
    → i + length steps ≤ n
    → ((j : ℕ) → lookup dep m ≡ some j → j < n)
    → lookup dep (name_to_idx i steps m) ≡ some k
    → k < n
unfolding name_to_idx
name_to_idx-lt i n [] m dep k le h e = h k e
name_to_idx-lt i n (s ∷ ss) m dep k le h e =
    name_to_idx-lt (i + 1) n ss (insert s.name i m) dep k (omega arith)
      (λ j p. ground (arith, lookup-insert s.name dep i m, h j)) e

zero_degrees-zero :
    (i left t : ℕ) (m : Dict ℕ ℕ)
    → or_else (lookup t m) 0 ≡ 0
    → or_else (lookup t (zero_degrees i left m)) 0 ≡ 0
unfolding zero_degrees
zero_degrees-zero i zero t m h = h
zero_degrees-zero i (suc left) t m h =
    zero_degrees-zero (i + 1) left t (insert i 0 m) (ground (arith, lookup-insert i t 0 m))

edges_to-none :
    (t : ℕ) (ns : List ℕ) (deg : Dict ℕ ℕ)
    → edges_to (record { edges = []; in_degree = deg }) t ns ≡ 0
unfolding edges_to lookup count
edges_to-none t [] deg = refl
edges_to-none t (n ∷ ns) deg = omega (arith, edges_to-none t ns deg)

pub build_graph-IsBalanced :
    (steps : List ManifestStep)
    → IsBalanced (build_graph steps) (indices_from 0 (length steps)) (build_graph steps).in_degree
unfolding build_graph name_index lookup
build_graph-IsBalanced steps =
    let n = length steps in
    add_steps-IsBalanced (name_index steps) (indices_from 0 n) (indices_from-IsDistinct 0 n)
      (λ dep k e.
        indices_from-Has 0 n k (omega arith)
          (omega (arith, name_to_idx-lt 0 n steps [] dep k (omega arith) (λ j p. cc) e)))
      0 steps _ (λ t. zero_degrees-zero 0 n t [] refl ∙ sym (edges_to-none t (indices_from 0 n) _))

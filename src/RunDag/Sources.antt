-- ===== src/RunDag/Sources.antt =====
-- web/src/components/run-dag-viewer.tsx: the edges of the graph are the dependencies of the steps.
use meergate.Base.{
  ℕ, zero, suc, ◌+◌, ◌<◌, ◌≡◌, refl, ◌∙◌, String, Bool, false, Option, none, some, List, [], ◌∷◌,
  arith, ◌==◌, if◌then◌else◌, or_else, lookup, Dict, get_elem?, nat_eq, string_eq,
}
use meergate.RunDag.{
  ManifestStep, Graph, targets, add_resolved, add_deps, add_steps, name_index, build_graph,
}
use meergate.RunDag.Counting.{count}
use meergate.RunDag.Edges.{count-add_edge}

abbrev is_at : ℕ → Option ℕ → Bool
is_at k none = false
is_at k (some j) = j == k

-- How many dependencies of a list name step `k`.
pub named : Dict String ℕ → ℕ → List String → ℕ
named names k [] = 0
named names k (dep ∷ deps) =
    if is_at k (lookup dep names) then suc (named names k deps) else named names k deps

abbrev from_step : Dict String ℕ → ℕ → Option ManifestStep → ℕ
from_step names m none = 0
from_step names m (some s) = named names m (or_else s.depends_on [])

-- How many dependencies of step `t` name step `m`; of two steps with one name the later counts.
pub dependencies : List ManifestStep → ℕ → ℕ → ℕ
dependencies steps t m = from_step (name_index steps) m (get_elem? steps t)

count-add_resolved :
    (o : Option ℕ) (i t m : ℕ) (g : Graph)
    → count t (targets (add_resolved o i g) m)
      ≡ count t (targets g m) + (if is_at m o then (if i == t then 1 else 0) else 0)
count-add_resolved none i t m g = omega arith
count-add_resolved (some dep) i t m g = ground (arith, count-add_edge dep i t m g)

module _ (names : Dict String ℕ) where
  count-add_deps :
      (i t m : ℕ) (deps : List String) (g : Graph)
      → count t (targets (add_deps names i deps g) m)
        ≡ count t (targets g m) + (if i == t then named names m deps else 0)
  unfolding add_deps named
  count-add_deps i t m [] g = ground arith
  count-add_deps i t m (dep ∷ deps) g = ground (
    arith,
    count-add_deps i t m deps (add_resolved (lookup dep names) i g),
    count-add_resolved (lookup dep names) i t m g,
  )

  count-add_steps_before :
      (i t m : ℕ) (steps : List ManifestStep) (g : Graph)
      → t < i
      → count t (targets (add_steps names i steps g) m) ≡ count t (targets g m)
  unfolding add_steps
  count-add_steps_before i t m [] g h = refl
  count-add_steps_before i t m (s ∷ ss) g h = ground (
    arith,
    count-add_steps_before (i + 1) t m ss (add_deps names i (or_else s.depends_on []) g),
    count-add_deps i t m (or_else s.depends_on []) g,
  )

  count-add_steps :
      (i j t m : ℕ) (steps : List ManifestStep) (g : Graph)
      → t ≡ i + j
      → count t (targets (add_steps names i steps g) m)
        ≡ count t (targets g m) + from_step names m (get_elem? steps j)
  unfolding add_steps
  count-add_steps i j t m [] g h = omega arith
  count-add_steps i zero t m (s ∷ ss) g h = ground (
    arith,
    count-add_steps_before (i + 1) t m ss (add_deps names i (or_else s.depends_on []) g),
    count-add_deps i t m (or_else s.depends_on []) g,
  )
  count-add_steps i (suc j) t m (s ∷ ss) g h =
      let rest =
        count-add_steps (i + 1) j t m ss (add_deps names i (or_else s.depends_on []) g)
          (omega arith) in
      ground (arith, rest, count-add_deps i t m (or_else s.depends_on []) g)

-- The edges from `m` to `t` are the dependencies of step `t` that name step `m`.
pub count-build_graph :
    (steps : List ManifestStep) (t m : ℕ)
    → count t (targets (build_graph steps) m) ≡ dependencies steps t m
unfolding build_graph dependencies count lookup
count-build_graph steps t m =
    count-add_steps (name_index steps) 0 t t m steps _ (omega arith) ∙ (omega arith)

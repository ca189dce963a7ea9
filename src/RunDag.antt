-- ===== src/RunDag.antt =====
-- web/src/components/run-dag-viewer.tsx, `topologicalBatches`: the batches in which the steps of a
-- run can be executed. Indices are numbers below the number of steps.
pub mod Counting
pub mod Edges
pub mod Sources
pub mod Rounds
pub mod Order
use meergate.Base.{
  ℕ, zero, suc, ◌+◌, ◌-◌, String, Bool, true, false, not, Option, none, some, List, [], ◌∷◌, ◌++◌,
  ◌==◌, if◌then◌else◌, or_else, filter, length, Dict, lookup, insert, nat_eq, string_eq,
}

pub record ManifestStep : Type 0 where
  pub name : String
  pub step_type : String
  pub depends_on : Option (List String)

-- `nameToIdx`: of two steps with one name the later counts.
name_to_idx : ℕ → List ManifestStep → Dict String ℕ → Dict String ℕ
name_to_idx i [] m = m
name_to_idx i (s ∷ ss) m = name_to_idx (i + 1) ss (insert s.name i m)

unfoldable pub name_index : List ManifestStep → Dict String ℕ
unfolding name_to_idx
name_index steps = name_to_idx 0 steps []

-- `edges` and `inDegree`.
pub record Graph : Type 0 where
  pub edges : Dict ℕ (List ℕ)
  pub in_degree : Dict ℕ ℕ

abbrev pub targets : Graph → ℕ → List ℕ
targets g n = or_else (lookup n g.edges) []

abbrev pub degree : Graph → ℕ → ℕ
degree g n = or_else (lookup n g.in_degree) 0

-- An edge from `dep` to `i`.
unfoldable pub add_edge : ℕ → ℕ → Graph → Graph
add_edge dep i g = record {
  edges = insert dep (targets g dep ++ i ∷ []) g.edges;
  in_degree = insert i (degree g i + 1) g.in_degree;
}

-- A name that no step has is passed over.
abbrev pub add_resolved : Option ℕ → ℕ → Graph → Graph
add_resolved none i g = g
add_resolved (some dep_idx) i g = add_edge dep_idx i g

-- The dependencies of step `i`.
unfoldable pub add_deps : Dict String ℕ → ℕ → List String → Graph → Graph
add_deps names i [] g = g
add_deps names i (dep ∷ deps) g = add_deps names i deps (add_resolved (lookup dep names) i g)

unfoldable pub add_steps : Dict String ℕ → ℕ → List ManifestStep → Graph → Graph
add_steps names i [] g = g
add_steps names i (s ∷ ss) g =
    add_steps names (i + 1) ss (add_deps names i (or_else s.depends_on []) g)

zero_degrees : ℕ → ℕ → Dict ℕ ℕ → Dict ℕ ℕ
zero_degrees i zero m = m
zero_degrees i (suc left) m = zero_degrees (i + 1) left (insert i 0 m)

unfoldable pub build_graph : List ManifestStep → Graph
unfolding zero_degrees
build_graph steps =
    add_steps (name_index steps) 0 steps
      (record { edges = []; in_degree = zero_degrees 0 (length steps) [] })

abbrev pub is_ready : Dict ℕ ℕ → ℕ → Bool
is_ready in_degree n = or_else (lookup n in_degree) 0 == 0

-- `remaining.delete(n)`.
abbrev pub delete : ℕ → List ℕ → List ℕ
delete n ns = filter (λ m. not (m == n)) ns

-- The loop over the targets of one step.
unfoldable pub lower : List ℕ → Dict ℕ ℕ → Dict ℕ ℕ
lower [] deg = deg
lower (t ∷ ts) deg = lower ts (insert t (or_else (lookup t deg) 0 - 1) deg)

-- The loop over the batch.
unfoldable pub finish_batch : Graph → List ℕ → List ℕ → Dict ℕ ℕ → List ℕ × Dict ℕ ℕ
finish_batch g [] remaining deg = (remaining, deg)
finish_batch g (n ∷ batch) remaining deg =
    finish_batch g batch (delete n remaining) (lower (targets g n) deg)

abbrev pub is_empty {ℓ} : {A : Type ℓ} → List A → Bool
is_empty [] = true
is_empty (x ∷ xs) = false

-- The `while` loop; none is the fuel running out.
unfoldable pub batches_from : ℕ → Graph → List ℕ → Dict ℕ ℕ → Option (List (List ℕ))
batches_from zero g remaining deg = none
batches_from (suc fuel) g remaining deg =
    let batch = filter (is_ready deg) remaining in
    let (remaining', deg') = finish_batch g batch remaining deg in
    let rest = batches_from fuel g remaining' deg' in
    if is_empty remaining
    then some []
    else if is_empty batch
    then some (remaining ∷ [])
    else elim rest [ none ↦ none | some batches ↦ some (batch ∷ batches) ]

unfoldable pub indices_from : ℕ → ℕ → List ℕ
indices_from i zero = []
indices_from i (suc left) = i ∷ indices_from (i + 1) left

-- Every round but the last removes a step, so one more round than there are steps is fuel enough.
unfoldable pub topological_batches : List ManifestStep → Option (List (List ℕ))
topological_batches steps =
    let g = build_graph steps in
    batches_from (suc (length steps)) g (indices_from 0 (length steps)) g.in_degree

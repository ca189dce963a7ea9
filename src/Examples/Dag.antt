-- ===== src/Examples/Dag.antt =====
-- web/src/components/run-dag-viewer.tsx on a run of four steps, and on a cycle.
use mathlib.Core.List.{Perm}
use meergate.Base.{ℕ, String, some, List, [], ◌∷◌, ◌≡◌, refl, length, lookup, insert}
use meergate.RunDag.{
  ManifestStep, topological_batches, batches_from, finish_batch, lower, build_graph, add_steps,
  add_deps, add_edge, name_index, indices_from,
}
use meergate.RunDag.Order.{topological_batches_lem, dependencies_on}
use meergate.RunDag.Rounds.{flatten, IsOrdered}

abbrev step : String → List String → ManifestStep
step name deps = record { name = name; step_type = "apiCall"; depends_on = some deps }

abbrev diamond : List ManifestStep
diamond =
    step "sell" ("buy" ∷ "wallet" ∷ [])
    ∷ step "login" []
    ∷ step "buy" ("login" ∷ [])
    ∷ step "wallet" ("login" ∷ "gone" ∷ [])
    ∷ []

abbrev cycle : List ManifestStep
cycle = step "a" [] ∷ step "b" ("c" ∷ []) ∷ step "c" ("b" ∷ "a" ∷ []) ∷ []

batches_of : Unit {0}
unfolding topological_batches batches_from finish_batch lower build_graph add_steps add_deps
    add_edge name_index indices_from lookup insert
batches_of = tt

diamond_batches : topological_batches diamond ≡ some ((1 ∷ []) ∷ (2 ∷ 3 ∷ []) ∷ (0 ∷ []) ∷ [])
unfolding batches_of
diamond_batches = refl

cycle_batches : topological_batches cycle ≡ some ((0 ∷ []) ∷ (1 ∷ 2 ∷ []) ∷ [])
unfolding batches_of
cycle_batches = refl

topological_batches_lem_example :
    (batches : List (List ℕ)) × (topological_batches cycle ≡ some batches)
    × Perm (indices_from 0 (length cycle)) (flatten batches)
    × IsOrdered (dependencies_on cycle) batches
topological_batches_lem_example = topological_batches_lem cycle

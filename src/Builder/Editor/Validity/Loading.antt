-- ===== src/Builder/Editor/Validity/Loading.antt =====
-- web/src/app/builder/page.tsx: the validity of the diagram that `manifestToNodes` makes.
use meergate.Base.{
  ℕ, zero, suc, ◌+◌, ◌≤◌, ◌<◌, ◌≡◌, refl, String, Bool, true, false, Option, none, some, List, [],
  ◌∷◌, ◌==◌, length, All, IfKnown, Bool-cases, inl, inr, arith, subst, Option-cases, All-append,
}
use meergate.Builder.{
  Step, Node, nodes_from, node_of_step, edges_from, edges_of_step, dependency_edges, find_step,
  previous_edge, is_named, edge_to,
}
use meergate.Builder.Editor.{Editor, apply_manifest}
use meergate.Builder.Editor.Validity.{has_node, IsDistinct, IsAttached, IsValid}

module _ {V : Type 0} where
  module _ (truthy : V → Bool) where
    has_node-nodes_from :
        (i k : ℕ) (ss : List (Step V))
        → i < k
        → k ≤ i + length ss
        → has_node k (nodes_from truthy i ss) ≡ true
    unfolding nodes_from node_of_step
    has_node-nodes_from i k [] h le = ground arith
    has_node-nodes_from i k (s ∷ ss) h le = elim (Bool-cases (i + 1 == k)) [
      | inl e ↦ rw e refl
      | inr e ↦ rw e (has_node-nodes_from (i + 1) k ss (ground arith) (omega arith))
    ]

    has_node-below :
        (i k : ℕ) (ss : List (Step V)) → k ≤ i → has_node k (nodes_from truthy i ss) ≡ false
    unfolding nodes_from node_of_step
    has_node-below i k [] h = refl
    has_node-below i k (s ∷ ss) h = ground (arith, has_node-below (i + 1) k ss)

    nodes_from-IsDistinct : (i : ℕ) (ss : List (Step V)) → IsDistinct (nodes_from truthy i ss)
    unfolding nodes_from node_of_step
    nodes_from-IsDistinct i [] = tt
    nodes_from-IsDistinct i (s ∷ ss) =
        (has_node-below (i + 1) (i + 1) ss (omega arith), nodes_from-IsDistinct (i + 1) ss)

    nodes_from-le :
        (i k : ℕ) (ss : List (Step V))
        → i + length ss ≤ k
        → All (λ n. n.id ≤ k) (nodes_from truthy i ss)
    unfolding nodes_from node_of_step
    nodes_from-le i k [] h = tt
    nodes_from-le i k (s ∷ ss) h = (omega arith, nodes_from-le (i + 1) k ss (omega arith))

  find_step-lt :
      (i : ℕ) (dep : String) (ss : List (Step V))
      → IfKnown (λ j. j < i + length ss) (find_step i dep ss)
  unfolding find_step
  find_step-lt i dep [] = tt
  find_step-lt i dep (s ∷ ss) = elim (Bool-cases (is_named dep s)) [
    | inl e ↦ rw e (omega arith)
    | inr e ↦ rw e (
        subst (λ m. IfKnown (λ j. j < m) (find_step (i + 1) dep ss)) (omega arith)
          (find_step-lt (i + 1) dep ss))
  ]

  -- The edges of a manifest join its nodes.
  module _ (truthy : V → Bool) (all : List (Step V)) where
    nodes : List (Node V)
    nodes = nodes_from truthy 0 all

    joins :
        (i j : ℕ)
        → i < length all
        → j < length all
        → IsAttached nodes (record { source = j + 1; target = i + 1 })
    unfolding nodes
    joins i j h k = (
      has_node-nodes_from truthy 0 (j + 1) all (omega arith) (omega arith),
      has_node-nodes_from truthy 0 (i + 1) all (omega arith) (omega arith),
    )

    edge_to-IsAttached :
        (i : ℕ) (o : Option ℕ)
        → i < length all
        → IfKnown (λ j. j < 0 + length all) o
        → All (IsAttached nodes) (edge_to i o)
    edge_to-IsAttached i none h k = tt
    edge_to-IsAttached i (some j) h k = (joins i j h (omega arith), tt)

    dependency_edges-IsAttached :
        (i : ℕ) (deps : List String)
        → i < length all
        → All (IsAttached nodes) (dependency_edges all i deps)
    unfolding dependency_edges
    dependency_edges-IsAttached i [] h = tt
    dependency_edges-IsAttached i (dep ∷ deps) h =
        All-append (IsAttached nodes) (edge_to i (find_step 0 dep all)) _
          (edge_to-IsAttached i (find_step 0 dep all) h (find_step-lt 0 dep all))
          (dependency_edges-IsAttached i deps h)

    previous_edge-IsAttached : (i : ℕ) → i < length all → All (IsAttached nodes) (previous_edge i)
    previous_edge-IsAttached zero h = tt
    previous_edge-IsAttached (suc i) h = (joins (suc i) i h (omega arith), tt)

    edges_of_step-IsAttached :
        (i : ℕ) (s : Step V) → i < length all → All (IsAttached nodes) (edges_of_step all i s)
    unfolding edges_of_step
    edges_of_step-IsAttached i s h = elim (Option-cases s.depends_on) [
      | inl e ↦ rw e (previous_edge-IsAttached i h)
      | inr (deps, e) ↦ rw e (dependency_edges-IsAttached i deps h)
    ]

    edges_from-IsAttached :
        (i : ℕ) (ss : List (Step V))
        → i + length ss ≤ length all
        → All (IsAttached nodes) (edges_from all i ss)
    unfolding edges_from
    edges_from-IsAttached i [] h = tt
    edges_from-IsAttached i (s ∷ ss) h =
        All-append (IsAttached nodes) (edges_of_step all i s) _
          (edges_of_step-IsAttached i s (omega arith))
          (edges_from-IsAttached (i + 1) ss (omega arith))

  pub apply_manifest-IsValid :
      (truthy : V → Bool) (steps : List (Step V)) (b : Editor V)
      → IsValid (apply_manifest truthy steps b)
  unfolding apply_manifest nodes
  apply_manifest-IsValid truthy steps b = record {
    distinct = nodes_from-IsDistinct truthy 0 steps;
    counted = nodes_from-le truthy 0 _ steps (omega arith);
    attached = edges_from-IsAttached truthy steps 0 steps (omega arith);
    selection = tt;
  }

-- ===== src/Builder/Editor/Validity.antt =====
-- web/src/app/builder/page.tsx: when the diagram of the builder is valid.
pub mod Loading
pub mod Changes
pub mod Reaching
use meergate.Base.{
  ℕ, zero, suc, ◌+◌, ◌≤◌, ◌<◌, ◌≡◌, refl, ap, max, sym, ◌∙◌, String, Bool, true, false, not, ◌&&◌,
  Option, none, some, List, [], ◌∷◌, ◌++◌, ◌==◌, filter, map, any, length, All, IfKnown,
  if◌then◌else◌, Bool-cases, inl, inr, arith, str_eq, subst, Option-cases, All-append, All-weaken,
}
use meergate.Builder.{
  Step, StepData, Node, Edge, nodes_from, node_of_step, edges_from, edges_of_step, dependency_edges,
  find_step, previous_edge, is_named, edge_to,
}
use meergate.Builder.Editor.{
  Editor, initial_editor, apply_manifest, add_step, delete_node, update_node, update_node_data,
  unselect, on_node_click, on_pane_click,
}

module _ {V : Type 0} where
  abbrev pub has_node : ℕ → List (Node V) → Bool
  has_node k nodes = any (λ n. n.id == k) nodes

  abbrev pub IsDistinct : List (Node V) → Type 0
  IsDistinct [] = Unit
  IsDistinct (n ∷ ns) = (has_node n.id ns ≡ false) × IsDistinct ns

  -- Both ends of an edge are nodes.
  abbrev pub IsAttached : List (Node V) → Edge → Type 0
  IsAttached nodes e = (has_node e.source nodes ≡ true) × (has_node e.target nodes ≡ true)

  -- No two nodes have one id, no id is above the counter, edges join nodes, and the selected id,
  -- whose node may be gone, is not above the counter either.
  pub record IsValid (b : Editor V) : Type 0 where
    pub distinct : IsDistinct b.nodes
    pub counted : All (λ n. n.id ≤ b.node_id_counter) b.nodes
    pub attached : All (IsAttached b.nodes) b.edges
    pub selection : IfKnown (λ k. k ≤ b.node_id_counter) b.selected

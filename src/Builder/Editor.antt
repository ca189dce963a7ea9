-- ===== src/Builder/Editor.antt =====
-- web/src/app/builder/page.tsx: the state of the builder's diagram and the operations on it.
pub mod Validity
use meergate.Base.{
  ℕ, ◌+◌, ◌*◌, max, String, join, Bool, true, false, not, ◌&&◌, Option, none, some, List, [], ◌∷◌,
  ◌++◌, ◌==◌, filter, map, length, if◌then◌else◌,
}
use meergate.Builder.{Step, StepData, Node, Edge, nodes_from, edges_from}

pub record Editor (V : Type 0) : Type 0 where
  pub nodes : List (Node V)
  pub edges : List Edge
  pub selected : Option ℕ
  pub node_id_counter : ℕ

unfoldable pub initial_editor : {V : Type 0} → Editor V
initial_editor = record { nodes = []; edges = []; selected = none; node_id_counter = 0 }

abbrev pub unselect : ℕ → Option ℕ → Option ℕ
unselect id none = none
unselect id (some k) = if k == id then none else some k

module _ {V : Type 0} where
  -- `applyManifest`, on the diagram.
  unfoldable pub apply_manifest : (V → Bool) → List (Step V) → Editor V → Editor V
  apply_manifest truthy steps b = record b {
    nodes = nodes_from truthy 0 steps;
    edges = edges_from steps 0 steps;
    selected = none;
    node_id_counter = max b.node_id_counter (length steps);
  }

  unfoldable pub add_step : String → Editor V → Editor V
  add_step t b =
      let id = b.node_id_counter + 1 in
      record b {
        nodes =
            b.nodes
            ++ record {
              id = id;
              y = length b.nodes * 120 + 50;
              data' = record {
                step_id = id;
                name = join "New " (join t " Step");
                step_type = t;
                config = [];
                extract = [];
                assertions = [];
              };
            }
              ∷ [];
        selected = some id;
        node_id_counter = id;
      }

  unfoldable pub delete_node : ℕ → Editor V → Editor V
  delete_node id b = record b {
    nodes = filter (λ n. not (n.id == id)) b.nodes;
    edges = filter (λ e. not (e.source == id) && not (e.target == id)) b.edges;
    selected = unselect id b.selected;
  }

  -- React Flow's own deletion of a node, by the keyboard: its changes remove the node and the edges
  -- at it, and the selection of the page stays.
  unfoldable pub remove_node : ℕ → Editor V → Editor V
  remove_node id b = record b {
    nodes = filter (λ n. not (n.id == id)) b.nodes;
    edges = filter (λ e. not (e.source == id) && not (e.target == id)) b.edges;
  }

  -- Its changes of the edges keep some of them.
  unfoldable pub keep_edges : (Edge → Bool) → Editor V → Editor V
  keep_edges kept b = record b { edges = filter kept b.edges }

  abbrev pub with_edges : List Edge → Editor V → Editor V
  with_edges es b = record b { edges = es }

  -- The partial data that is spread over a node's is a function here.
  abbrev pub update_node : ℕ → (StepData V → StepData V) → Node V → Node V
  update_node id f n = if n.id == id then record n { data' = f n.data' } else n

  unfoldable pub update_node_data : ℕ → (StepData V → StepData V) → Editor V → Editor V
  update_node_data id f b = record b { nodes = map (update_node id f) b.nodes }

  -- A click on a node of the diagram, and one beside all of them.
  unfoldable pub on_node_click : Node V → Editor V → Editor V
  on_node_click n b = record b { selected = some n.id }

  unfoldable pub on_pane_click : Editor V → Editor V
  on_pane_click b = record b { selected = none }

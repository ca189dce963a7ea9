-- ===== src/Examples/Diagram.antt =====
-- web/src/app/builder/page.tsx on a diagram of a few nodes. A value is a number, and 0 is falsy.
use meergate.Base.{
  ℕ, ◌≡◌, refl, String, Bool, not, none, some, List, [], ◌∷◌, ◌==◌, length, lookup, insert,
  if◌then◌else◌, Any, string_eq,
}
use meergate.Builder.{
  Step, Node, Edge, node_of_step, step_of_node, build_steps, nodes_from, edges_from, edges_of_step,
  dependency_edges, find_step, pick, name_of, depends_on_of,
}
use meergate.Builder.Editor.{
  Editor, remove_node, initial_editor, apply_manifest, add_step, delete_node,
}
use meergate.Builder.Editor.Validity.{IsValid}
use meergate.Builder.Editor.Validity.Reaching.{
  Reach, AddsOnly, removing, Reach-IsValid, here, loading, adding, deleting,
}
use meergate.Builder.Sequence.{build_steps-sequence, sequence_edge}
use meergate.Builder.RoundTrip.{
  node_of_step-step_of_node, is_key, keep, AllReduced, survives, fields_of_type,
}

abbrev truthy : ℕ → Bool
truthy v = not (v == 0)

abbrev node : ℕ → String → Node ℕ
node id name = record {
  id = id;
  y = 0;
  data' = record {
    step_id = id;
    name = name;
    step_type = "waitUntil";
    config = ("waitMs", 500) ∷ ("method", 1) ∷ [];
    extract = [];
    assertions = [];
  };
}

abbrev edges : List Edge
edges = record { source = 1; target = 3 } ∷ []

abbrev nodes : List (Node ℕ)
nodes = node 1 "a" ∷ node 2 "b" ∷ node 3 "c" ∷ []

read_back : Unit {0}
unfolding build_steps step_of_node depends_on_of name_of pick apply_manifest nodes_from node_of_step
    edges_from edges_of_step dependency_edges find_step lookup insert add_step initial_editor
    delete_node
read_back = tt

-- The node 3 depends on 1 alone, and 2, which depended on nothing, now follows 1.
edges_read_back :
    (apply_manifest truthy (build_steps truthy truthy nodes edges) initial_editor).edges
    ≡ record { source = 1; target = 2 } ∷ record { source = 1; target = 3 } ∷ []
unfolding read_back
edges_read_back = refl

build_steps-sequence_example :
    Any
      (λ e. e ≡ sequence_edge 0)
      (apply_manifest truthy (build_steps truthy truthy nodes edges) initial_editor).edges
build_steps-sequence_example =
    build_steps-sequence truthy truthy [] (node 1 "a") (node 2 "b") (node 3 "c" ∷ []) edges
      initial_editor refl

node_of_step-step_of_node_example :
    let n = node 1 "a" in
    let back = (node_of_step truthy 0 (step_of_node truthy truthy nodes edges n)).data' in
    (back.name ≡ n.data'.name)
    × (back.step_type ≡ n.data'.step_type)
    × (back.extract ≡ n.data'.extract)
    × AllReduced n.data'.assertions back.assertions
    × (lookup "waitMs" back.config ≡ (
        if is_key "waitMs" (fields_of_type n.data'.step_type)
        then keep (survives truthy truthy "waitMs") (lookup "waitMs" n.data'.config)
        else none))
node_of_step-step_of_node_example =
    node_of_step-step_of_node truthy truthy nodes edges 0 (node 1 "a") "waitMs"

abbrev steps : List (Step ℕ)
steps = build_steps truthy truthy nodes edges

abbrev edited : Editor ℕ
edited = delete_node 2 (add_step "apiCall" (apply_manifest truthy steps initial_editor))

abbrev push_edge : Edge → List Edge → List Edge
push_edge e es = e ∷ es

abbrev move_edge : Edge → Edge → List Edge → List Edge
move_edge old e es = e ∷ es

push_edge-AddsOnly : AddsOnly push_edge
unfolding AddsOnly
push_edge-AddsOnly P e es h k = (h, k)

move_edge-AddsOnly : (old : Edge) → AddsOnly (move_edge old)
unfolding AddsOnly
move_edge-AddsOnly old P e es h k = (h, k)

edited_reached : Reach truthy push_edge move_edge edited
edited_reached = deleting 2 (add_step "apiCall" (apply_manifest truthy steps initial_editor)) (
    adding "apiCall" (apply_manifest truthy steps initial_editor)
      (loading steps initial_editor here))

edited_sizes : (length edited.nodes ≡ 3) × (length edited.edges ≡ 1) × (edited.selected ≡ some 4)
unfolding read_back
edited_sizes = (refl, refl, refl)

-- The selected node is deleted by the keyboard, and stays selected.
selected_gone : (remove_node 4 edited).selected ≡ some 4
unfolding read_back remove_node
selected_gone = refl

Reach-IsValid_example : IsValid (remove_node 4 edited)
Reach-IsValid_example =
    Reach-IsValid truthy push_edge move_edge push_edge-AddsOnly move_edge-AddsOnly
      (remove_node 4 edited) (removing 4 edited edited_reached)

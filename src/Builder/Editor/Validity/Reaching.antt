-- ===== src/Builder/Editor/Validity/Reaching.antt =====
-- web/src/app/builder/page.tsx: the diagrams that the operations of the page and of the library of
-- the diagram lead to.
use meergate.Base.{
  ℕ, ◌≤◌, ◌≡◌, String, Bool, true, Option, none, some, List, [], ◌∷◌, ◌==◌, filter, All, IfKnown,
  Bool-cases, inl, inr, arith,
}
use meergate.Builder.{Step, StepData, Node, Edge}
use meergate.Builder.Editor.{
  Editor, remove_node, keep_edges, with_edges, initial_editor, apply_manifest, add_step,
  delete_node, update_node_data, on_node_click, on_pane_click,
}
use meergate.Builder.Editor.Validity.{has_node, IsAttached, IsValid}
use meergate.Builder.Editor.Validity.Loading.{apply_manifest-IsValid}
use meergate.Builder.Editor.Validity.Changes.{
  add_step-IsValid, remove_node-IsValid, delete_node-IsValid, update_node_data-IsValid,
}

All-kept :
    (P : Edge → Type 0) (kept : Edge → Bool) (es : List Edge) → All P es → All P (filter kept es)
All-kept P kept [] h = tt
All-kept P kept (e ∷ es) h = elim (Bool-cases (kept e)) [
  | inl k ↦ rw k (h.0, All-kept P kept es h.1)
  | inr k ↦ rw k (All-kept P kept es h.1)
]

module _ {V : Type 0} where
  with_edges-IsValid :
      (es : List Edge) (b : Editor V)
      → All (IsAttached b.nodes) es
      → IsValid b
      → IsValid (with_edges es b)
  with_edges-IsValid es b h v = record {
    distinct = v.distinct;
    counted = v.counted;
    attached = h;
    selection = v.selection;
  }

  select-IsValid :
      (o : Option ℕ) (b : Editor V)
      → IfKnown (λ k. k ≤ b.node_id_counter) o
      → IsValid b
      → IsValid (record b { selected = o })
  select-IsValid o b h v = record {
    distinct = v.distinct;
    counted = v.counted;
    attached = v.attached;
    selection = h;
  }

  -- An id of a node is not above the counter.
  has_node-le :
      (k c : ℕ) (ns : List (Node V)) → All (λ n. n.id ≤ c) ns → has_node k ns ≡ true → k ≤ c
  has_node-le k c [] h e = cc
  has_node-le k c (n ∷ ns) h e = elim (Bool-cases (n.id == k)) [
    | inl p ↦ ground (arith, h.0, p)
    | inr p ↦ has_node-le k c ns h.1 (rw p at e)
  ]

-- What the library of the diagram makes of the edges: the new one and edges that were there.
unfoldable pub AddsOnly : (Edge → List Edge → List Edge) → Type 1
AddsOnly add = (P : Edge → Type 0) (e : Edge) (es : List Edge) → P e → All P es → All P (add e es)

-- What is done to the diagram, one thing after the other. A connection joins two nodes that are
-- there; `add_edge` and `reconnect_edge` are those of the library.
module _ {V : Type 0} (truthy : V → Bool) (add_edge : Edge → List Edge → List Edge)
    (reconnect_edge : Edge → Edge → List Edge → List Edge) where
  pub data Reach : Editor V → Type 0 where
    here : Reach initial_editor
    loading :
        (steps : List (Step V)) (b : Editor V) → Reach b → Reach (apply_manifest truthy steps b)
    adding : (t : String) (b : Editor V) → Reach b → Reach (add_step t b)
    deleting : (id : ℕ) (b : Editor V) → Reach b → Reach (delete_node id b)
    removing : (id : ℕ) (b : Editor V) → Reach b → Reach (remove_node id b)
    keeping : (kept : Edge → Bool) (b : Editor V) → Reach b → Reach (keep_edges kept b)
    connecting :
        (e : Edge) (b : Editor V)
        → IsAttached b.nodes e
        → Reach b
        → Reach (with_edges (add_edge e b.edges) b)
    reconnecting :
        (old e : Edge) (b : Editor V)
        → IsAttached b.nodes e
        → Reach b
        → Reach (with_edges (reconnect_edge old e b.edges) b)
    updating :
        (id : ℕ) (f : StepData V → StepData V) (b : Editor V)
        → Reach b
        → Reach (update_node_data id f b)
    clicking :
        (n : Node V) (b : Editor V)
        → has_node n.id b.nodes ≡ true
        → Reach b
        → Reach (on_node_click n b)
    leaving : (b : Editor V) → Reach b → Reach (on_pane_click b)

  -- Where adding and reconnecting an edge puts in no edge but the new one: whatever manifests are
  -- loaded, whatever nodes are added, changed, selected and deleted, by the page or by the keyboard,
  -- and whatever edges between nodes are added, moved and deleted, no two nodes have one id, no id
  -- of a node and no selected id is above the counter of the next, and every edge joins two nodes of
  -- the diagram.
  pub Reach-IsValid :
      AddsOnly add_edge
      → ((old : Edge) → AddsOnly (reconnect_edge old))
      → (b : Editor V) → Reach b
      → IsValid b
  unfolding initial_editor on_node_click on_pane_click keep_edges AddsOnly
  Reach-IsValid adds moves _ here = record {
    distinct = tt;
    counted = tt;
    attached = tt;
    selection = tt;
  }
  Reach-IsValid adds moves _ (loading steps b r) = apply_manifest-IsValid truthy steps b
  Reach-IsValid adds moves _ (adding t b r) = add_step-IsValid t b (Reach-IsValid adds moves b r)
  Reach-IsValid adds moves _ (deleting id b r) =
      delete_node-IsValid id b (Reach-IsValid adds moves b r)
  Reach-IsValid adds moves _ (removing id b r) =
      remove_node-IsValid id b (Reach-IsValid adds moves b r)
  Reach-IsValid adds moves _ (keeping kept b r) =
      let v = Reach-IsValid adds moves b r in
      with_edges-IsValid (filter kept b.edges) b
        (All-kept (IsAttached b.nodes) kept b.edges v.attached) v
  Reach-IsValid adds moves _ (connecting e b h r) =
      let v = Reach-IsValid adds moves b r in
      with_edges-IsValid (add_edge e b.edges) b (adds (IsAttached b.nodes) e b.edges h v.attached) v
  Reach-IsValid adds moves _ (reconnecting old e b h r) =
      let v = Reach-IsValid adds moves b r in
      with_edges-IsValid (reconnect_edge old e b.edges) b
        (moves old (IsAttached b.nodes) e b.edges h v.attached) v
  Reach-IsValid adds moves _ (updating id f b r) =
      update_node_data-IsValid id f b (Reach-IsValid adds moves b r)
  Reach-IsValid adds moves _ (clicking n b h r) =
      let v = Reach-IsValid adds moves b r in
      select-IsValid (some n.id) b (has_node-le n.id b.node_id_counter b.nodes v.counted h) v
  Reach-IsValid adds moves _ (leaving b r) = select-IsValid none b tt (Reach-IsValid adds moves b r)

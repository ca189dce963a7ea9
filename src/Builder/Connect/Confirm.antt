-- ===== src/Builder/Connect/Confirm.antt =====
-- The mapped fields after a connection of web/src/app/builder/page.tsx is confirmed.
use meergate.Base.{
  String, ◌≡◌, refl, ◌∙◌, false, inl, inr, ◌≢◌, Option, none, some, List, [], ◌∷◌, ==_iff, All,
  arith, lookup-insert_self, map, string_eq, Bool-cases, ltb, length,
}
use meergate.Builder.{Node, Edge}
use meergate.Builder.Mapping.{
  Json, Fields, text, tree, Mapping, split_dots, placeholder, get_path, set_nested_value,
  set_mappings,
}
use meergate.Builder.Mapping.Paths.{Apart, get_parts-set_parts, get_parts-set-Apart}
use meergate.Builder.Connect.{
  Pending, Connecting, message_of, with_message, map_into, map_nodes, handle_connection_confirm,
  on_connect, handle_connection_skip, connect_nodes, connect_now, connect_found, node_at,
}

-- Neither field of a message is in the other.
unfoldable pub ApartFields : String → String → Type 0
ApartFields s t = Apart (split_dots s).0 (split_dots s).1 (split_dots t).0 (split_dots t).1

unfoldable pub AllApart : List Mapping → Type 0
AllApart [] = Unit
AllApart (m ∷ ms) = All (λ m'. ApartFields m'.target_field m.target_field) ms × AllApart ms

-- The text that extracts the value of a mapping is in its field.
pub Reads : {A : Type 0} → Fields A → Mapping → Type 0
Reads fs m = get_path m.target_field fs ≡ some (text (placeholder m.source_key))

module _ {A : Type 0} where
  get_path-set_mappings-Apart :
      (ms : List Mapping) (t : String) (fs : Fields A)
      → All (λ m. ApartFields m.target_field t) ms
      → get_path t (set_mappings ms fs) ≡ get_path t fs
  unfolding set_mappings set_nested_value ApartFields
  get_path-set_mappings-Apart [] t fs h = refl
  get_path-set_mappings-Apart (m ∷ ms) t fs h =
      let path = split_dots m.target_field in
      get_path-set_mappings-Apart ms t
        (set_nested_value m.target_field (placeholder m.source_key) fs) h.1
      ∙ get_parts-set-Apart path.0 path.1 (split_dots t).0 (split_dots t).1
          (placeholder m.source_key) fs h.0

  set_mappings-Reads :
      (ms : List Mapping) (fs : Fields A) → AllApart ms → All (Reads (set_mappings ms fs)) ms
  unfolding AllApart Reads set_mappings set_nested_value
  set_mappings-Reads [] fs h = tt
  set_mappings-Reads (m ∷ ms) fs h =
      let path = split_dots m.target_field in
      let fs' = set_nested_value m.target_field (placeholder m.source_key) fs in
      (
        get_path-set_mappings-Apart ms m.target_field fs' h.0
            ∙ get_parts-set_parts path.0 path.1 (placeholder m.source_key) fs,
        set_mappings-Reads ms fs' h.1,
      )

  pub message_of-with_message :
      (fs : Fields A) (n : Node (Json A)) → message_of (with_message fs n) ≡ fs
  message_of-with_message fs n = rw (lookup-insert_self "message" (tree false fs) n.data'.config)

  mapped_node-Reads :
      (p : Pending A) (ms : List Mapping) (n : Node (Json A))
      → AllApart ms
      → n.id ≡ p.target_node.id
      → All (Reads (message_of (map_into p ms n))) ms
  unfolding map_into
  mapped_node-Reads p ms n apart is_target =
      let fs = set_mappings ms (message_of p.target_node) in
      rw ((==_iff n.id p.target_node.id).1 is_target, message_of-with_message fs n)
        (set_mappings-Reads ms (message_of p.target_node) apart)

  other_node-map_into :
      (p : Pending A) (ms : List Mapping) (n : Node (Json A))
      → n.id ≢ p.target_node.id
      → map_into p ms n ≡ n
  unfolding map_into
  other_node-map_into p ms n not_target = ground (arith, ==_iff n.id p.target_node.id)

  -- The node of the target reads the mappings; any other is kept.
  pub IsMapped : Pending A → List Mapping → Node (Json A) → Node (Json A) → Type 0
  IsMapped p ms before after =
      (before.id ≡ p.target_node.id → All (Reads (message_of after)) ms)
      × (before.id ≢ p.target_node.id → after ≡ before)

  pub NodesMapped : Pending A → List Mapping → List (Node (Json A)) → List (Node (Json A)) → Type 0
  NodesMapped p ms [] [] = Unit
  NodesMapped p ms [] (n ∷ ns) = ⊥
  NodesMapped p ms (n ∷ ns) [] = ⊥
  NodesMapped p ms (n ∷ ns) (k ∷ ks) = IsMapped p ms n k × NodesMapped p ms ns ks

  NodesMapped-same : (p : Pending A) (ns : List (Node (Json A))) → NodesMapped p [] ns ns
  unfolding NodesMapped IsMapped
  NodesMapped-same p [] = tt
  NodesMapped-same p (n ∷ ns) = ((λ h. tt, λ h. refl), NodesMapped-same p ns)

  NodesMapped-map :
      (p : Pending A) (ms : List Mapping) (ns : List (Node (Json A)))
      → AllApart ms
      → NodesMapped p ms ns (map (map_into p ms) ns)
  unfolding NodesMapped IsMapped
  NodesMapped-map p ms [] apart = tt
  NodesMapped-map p ms (n ∷ ns) apart = (
    (λ h. mapped_node-Reads p ms n apart h, λ h. other_node-map_into p ms n h),
    NodesMapped-map p ms ns apart,
  )

  NodesMapped-map_nodes :
      (add_edge : Edge → List Edge → List Edge) (p : Pending A) (ms : List Mapping)
      → (ns : List (Node (Json A))) → AllApart ms
      → NodesMapped p ms ns (map_nodes add_edge p ms ns)
  NodesMapped-map_nodes add_edge p [] ns apart = NodesMapped-same p ns
  NodesMapped-map_nodes add_edge p (m ∷ ms) ns apart = NodesMapped-map p (m ∷ ms) ns apart

  -- Where a connection is pending and no target field is in another, confirming the mappings adds
  -- the connection once and closes the dialog; each mapped field of the target's message then has
  -- the text that extracts its value, and every other node is kept.
  pub handle_connection_confirm-NodesMapped :
      (add_edge : Edge → List Edge → List Edge) (ms : List Mapping) (s : Connecting A)
      → (p : Pending A) → s.pending ≡ some p
      → AllApart ms
      → let s' = handle_connection_confirm add_edge ms s in
        (s'.pending ≡ none)
        × (s'.editor.edges ≡ add_edge p.connection s.editor.edges)
        × NodesMapped p ms s.editor.nodes s'.editor.nodes
  unfolding handle_connection_confirm
  handle_connection_confirm-NodesMapped add_edge ms s p is_pending apart =
      rw is_pending (refl, refl, NodesMapped-map_nodes add_edge p ms s.editor.nodes apart)

  -- Both ways out of the dialog, from the state after a connection.
  pub IsSettled :
      (Edge → List Edge → List Edge) → Edge → List Mapping → Connecting A → Connecting A → Type 0
  IsSettled add_edge c ms s asked =
      let confirmed = handle_connection_confirm add_edge ms asked in
      let skipped = handle_connection_skip add_edge asked in
      (confirmed.editor.edges ≡ add_edge c s.editor.edges)
      × (skipped.editor.edges ≡ add_edge c s.editor.edges)
      × (skipped.editor.nodes ≡ s.editor.nodes)
      × (confirmed.pending ≡ none)
      × (skipped.pending ≡ none)

  module _ (add_edge : Edge → List Edge → List Edge) (c : Edge) (ms : List Mapping) where
    connect_now-IsSettled :
        (s : Connecting A) → s.pending ≡ none → IsSettled add_edge c ms s (connect_now add_edge c s)
    unfolding IsSettled handle_connection_confirm handle_connection_skip
    connect_now-IsSettled s h = rw h (refl, refl, refl, refl, refl)

    connect_nodes-IsSettled :
        (source target : Node (Json A)) (s : Connecting A)
        → s.pending ≡ none
        → IsSettled add_edge c ms s (connect_nodes add_edge c source target s)
    unfolding IsSettled handle_connection_confirm handle_connection_skip
    connect_nodes-IsSettled source target s h =
        elim (Bool-cases (ltb 0 (length source.data'.extract))) [
          | inl asks ↦ rw asks (refl, refl, refl, refl, refl)
          | inr asks_not ↦ rw asks_not (connect_now-IsSettled s h)
        ]

    connect_found-IsSettled :
        (source target : Option (Node (Json A))) (s : Connecting A)
        → s.pending ≡ none
        → IsSettled add_edge c ms s (connect_found add_edge c source target s)
    connect_found-IsSettled none target s h = connect_now-IsSettled s h
    connect_found-IsSettled (some source) none s h = connect_now-IsSettled s h
    connect_found-IsSettled (some source) (some target) s h =
        connect_nodes-IsSettled source target s h

    -- Where no connection is pending, connecting two steps and then either confirming any mappings
    -- or skipping them adds the edge once and leaves no connection pending; skipping keeps the
    -- nodes.
    pub on_connect-IsSettled :
        (s : Connecting A) → s.pending ≡ none → IsSettled add_edge c ms s (on_connect add_edge c s)
    unfolding on_connect
    on_connect-IsSettled s h =
        connect_found-IsSettled (node_at c.source s.editor) (node_at c.target s.editor) s h

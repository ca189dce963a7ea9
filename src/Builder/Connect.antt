-- ===== src/Builder/Connect.antt =====
-- web/src/app/builder/page.tsx: the connection of two steps on the diagram. The library that draws
-- it gives `addEdge` and `reconnectEdge`, the parameters `add_edge` and `reconnect_edge`; an edge
-- is its two ends. The characters of a text are taken to be single units of UTF-16.
pub mod Confirm
use meergate.Base.{
  ℕ, ◌+◌, String, decimal, Bool, true, false, Option, none, some, List, [], ◌∷◌, ◌++◌, ◌==◌, find,
  filter, length, ltb, map, if◌then◌else◌, or_else, lookup, insert, string_eq,
}
use meergate.Builder.{Node, Edge, incoming}
use meergate.Builder.Editor.{Editor, with_edges}
use meergate.Builder.Mapping.{
  Json, Fields, plain, text, tree, end, field, Mapping, set_mappings, get_path,
}

pub record Pending (A : Type 0) : Type 0 where
  pub connection : Edge
  pub source_node : Node (Json A)
  pub target_node : Node (Json A)

pub record Connecting (A : Type 0) : Type 0 where
  pub editor : Editor (Json A)
  pub pending : Option (Pending A)

-- An extracted value that a step may use: the name of its step, its key and its path.
pub record ConnectedExtract : Type 0 where
  pub step_name : String
  pub key : String
  pub path : String

-- The own fields of a text, from the index `i` on.
abbrev pub spread_text : ℕ → String → {A : Type 0} → Fields A
spread_text i String.[] = end
spread_text i (String.◌∷◌ c s) = field (decimal i) (text (String.◌∷◌ c "")) (spread_text (i + 1) s)

abbrev pub extracts_of : String → List (String × String) → List ConnectedExtract
extracts_of name [] = []
extracts_of name ((k, path) ∷ es) =
    record { step_name = name; key = k; path = path } ∷ extracts_of name es

module _ {A : Type 0} where
  -- `{ ...value }`.
  abbrev pub spread_value : Json A → Fields A
  spread_value (plain x) = end
  spread_value (text s) = spread_text 0 s
  spread_value (tree is_array fs) = fs

  -- `{ ...(config.message ?? {}) }`.
  abbrev pub spread_message : Option (Json A) → Fields A
  spread_message none = end
  spread_message (some v) = spread_value v

  abbrev pub message_of : Node (Json A) → Fields A
  message_of n = spread_message (lookup "message" n.data'.config)

  abbrev pub node_at : ℕ → Editor (Json A) → Option (Node (Json A))
  node_at id b = find (λ n. n.id == id) b.nodes

  abbrev pub with_message : Fields A → Node (Json A) → Node (Json A)
  with_message fs n = record n {
    data' = record n.data' { config = insert "message" (tree false fs) n.data'.config };
  }

  -- The node after the mappings into the message that the target had when it was connected.
  unfoldable pub map_into : Pending A → List Mapping → Node (Json A) → Node (Json A)
  unfolding set_mappings
  map_into p ms n =
      if n.id == p.target_node.id
      then with_message (set_mappings ms (message_of p.target_node)) n
      else n

  unfoldable pub connected_extracts_from : Editor (Json A) → List Edge → List ConnectedExtract
  connected_extracts_from b [] = []
  connected_extracts_from b (e ∷ es) =
      let rest = connected_extracts_from b es in
      elim (node_at e.source b) [
        | none ↦ rest
        | some n ↦ extracts_of n.data'.name n.data'.extract ++ rest
      ]

  unfoldable pub connected_extracts : Editor (Json A) → List ConnectedExtract
  unfolding connected_extracts_from
  connected_extracts b = elim b.selected [
    | none ↦ []
    | some id ↦ connected_extracts_from b (incoming id b.edges)
  ]

  module _ (add_edge : Edge → List Edge → List Edge) where
    abbrev pub connect_now : Edge → Connecting A → Connecting A
    connect_now c s = record s { editor = with_edges (add_edge c s.editor.edges) s.editor }

    -- The mapping is asked for where the source has extracted values.
    abbrev pub connect_nodes : Edge → Node (Json A) → Node (Json A) → Connecting A → Connecting A
    connect_nodes c source target s =
        if ltb 0 (length source.data'.extract)
        then record s {
          pending = some (record { connection = c; source_node = source; target_node = target });
        }
        else connect_now c s

    abbrev pub connect_found :
        Edge → Option (Node (Json A)) → Option (Node (Json A)) → Connecting A → Connecting A
    connect_found c none t s = connect_now c s
    connect_found c (some source) none s = connect_now c s
    connect_found c (some source) (some target) s = connect_nodes c source target s

    unfoldable pub on_connect : Edge → Connecting A → Connecting A
    on_connect c s = connect_found c (node_at c.source s.editor) (node_at c.target s.editor) s

    abbrev pub map_nodes : Pending A → List Mapping → List (Node (Json A)) → List (Node (Json A))
    map_nodes p [] ns = ns
    map_nodes p (m ∷ ms) ns = map (map_into p (m ∷ ms)) ns

    unfoldable pub handle_connection_confirm : List Mapping → Connecting A → Connecting A
    unfolding map_into
    handle_connection_confirm ms s = elim s.pending [
      | none ↦ s
      | some p ↦ record {
        editor = record s.editor {
          edges = add_edge p.connection s.editor.edges;
          nodes = map_nodes p ms s.editor.nodes;
        };
        pending = none;
      }
    ]

    unfoldable pub handle_connection_skip : Connecting A → Connecting A
    handle_connection_skip s = elim s.pending [
      | none ↦ s
      | some p ↦ record (connect_now p.connection s) { pending = none }
    ]

  abbrev pub on_reconnect :
      (Edge → Edge → List Edge → List Edge) → Edge → Edge → Connecting A → Connecting A
  on_reconnect reconnect_edge old_edge c s = record s {
    editor = with_edges (reconnect_edge old_edge c s.editor.edges) s.editor;
  }

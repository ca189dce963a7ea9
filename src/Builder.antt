-- ===== src/Builder.antt =====
-- web/src/app/builder/page.tsx: the nodes and edges of the test builder, and the manifests that
-- they are read from and written to. The id `step-k` of a node is the number k. A value of unknown
-- type is of the parameter `V`; `truthy` says whether it counts as true, and `has_keys` whether
-- `Object.keys` of it is not empty.
pub mod Editor
pub mod Mapping
pub mod Connect
pub mod Run
pub mod Sequence
pub mod RoundTrip
use meergate.Base.{
  ℕ, zero, suc, ◌+◌, ◌*◌, max, String, join, decimal, Bool, true, false, not, ◌&&◌, ◌||◌, Option,
  none, some, List, [], ◌∷◌, ◌++◌, ◌==◌, filter, any, map, length, if◌then◌else◌, or_else, is_some,
  Dict, lookup, insert, str_eq, string_eq,
}

pub record Assertion (V : Type 0) : Type 0 where
  pub assertion_type : Option String
  pub path : Option String
  pub expected : Option V
  pub schema : Option String
  pub ignore : Option (List String)
  pub tolerance : Option ℕ

-- A step of a manifest: its name, type, dependencies, and its further fields.
pub record Step (V : Type 0) : Type 0 where
  pub name : Option String
  pub step_type : Option String
  pub fields : Dict String V
  pub depends_on : Option (List String)
  pub extract : Option (Dict String String)
  pub assertions : Option (List (Assertion V))

pub record StepData (V : Type 0) : Type 0 where
  pub step_id : ℕ
  pub name : String
  pub step_type : String
  pub config : Dict String V
  pub extract : Dict String String
  pub assertions : List (Assertion V)

pub record Node (V : Type 0) : Type 0 where
  pub id : ℕ
  pub y : ℕ
  pub data' : StepData V

pub record Edge : Type 0 where
  pub source : ℕ
  pub target : ℕ

-- The fields that `manifestToNodes` copies for each type of step.
abbrev pub loaded_keys : String → List String
loaded_keys t =
    if str_eq t "apiCall"
    then "method" ∷ "path" ∷ "baseUrl" ∷ "signed" ∷ "body" ∷ "headers" ∷ []
    else if str_eq t "grpcCall"
    then "service" ∷ "rpcMethod" ∷ "protoFile" ∷ "message" ∷ []
    else if str_eq t "wsSubscribe"
    then "channel" ∷ "waitMs" ∷ []
    else if str_eq t "waitUntil"
    then "waitMs" ∷ []
    else if str_eq t "browserAction"
    then "action" ∷ "url" ∷ "selector" ∷ "value" ∷ "screenshotName" ∷ []
    else []

-- Those that `buildManifest` copies.
abbrev pub written_keys : String → List String
written_keys t =
    if str_eq t "apiCall"
    then "method" ∷ "path" ∷ "baseUrl" ∷ "signed" ∷ "body" ∷ "headers" ∷ []
    else if str_eq t "grpcCall"
    then "service" ∷ "rpcMethod" ∷ "protoFile" ∷ "message" ∷ []
    else if str_eq t "wsSubscribe"
    then "channel" ∷ "waitMs" ∷ []
    else if str_eq t "waitUntil"
    then "waitMs" ∷ []
    else if str_eq t "browserAction"
    then "action" ∷ "url" ∷ "selector" ∷ "value" ∷ "screenshotName" ∷ []
    else []

-- The fields whose empty object is left out of a manifest.
abbrev pub is_object_key : String → Bool
is_object_key k = str_eq k "body" || str_eq k "headers" || str_eq k "message"

abbrev pub is_named : {V : Type 0} → String → Step V → Bool
is_named dep s = elim s.name [ none ↦ false | some n ↦ str_eq n dep ]

-- `steps.findIndex((s) => s.name === dep)`, from the index `i` on.
unfoldable pub find_step : {V : Type 0} → ℕ → String → List (Step V) → Option ℕ
find_step i dep [] = none
find_step i dep (s ∷ ss) = if is_named dep s then some i else find_step (i + 1) dep ss

abbrev pub edge_to : ℕ → Option ℕ → List Edge
edge_to index none = []
edge_to index (some i) = record { source = i + 1; target = index + 1 } ∷ []

-- The edges of the dependencies of the step `index`: names that no step has are passed over.
unfoldable pub dependency_edges : {V : Type 0} → List (Step V) → ℕ → List String → List Edge
dependency_edges steps index [] = []
dependency_edges steps index (dep ∷ deps) =
    edge_to index (find_step 0 dep steps) ++ dependency_edges steps index deps

-- A step without dependencies follows the one before it.
abbrev pub previous_edge : ℕ → List Edge
previous_edge zero = []
previous_edge (suc i) = record { source = i + 1; target = suc i + 1 } ∷ []

unfoldable pub edges_of_step : {V : Type 0} → List (Step V) → ℕ → Step V → List Edge
unfolding dependency_edges find_step
edges_of_step steps index s = elim s.depends_on [
  | some deps ↦ dependency_edges steps index deps
  | none ↦ previous_edge index
]

unfoldable pub edges_from : {V : Type 0} → List (Step V) → ℕ → List (Step V) → List Edge
unfolding edges_of_step
edges_from steps index [] = []
edges_from steps index (s ∷ ss) = edges_of_step steps index s ++ edges_from steps (index + 1) ss

-- The edges that lead to a node.
abbrev pub incoming : ℕ → List Edge → List Edge
incoming id edges = filter (λ e. e.target == id) edges

abbrev pub unless_empty {ℓ} : {A : Type ℓ} → List A → Option (List A)
unless_empty [] = none
unless_empty (x ∷ xs) = some (x ∷ xs)

module _ {V : Type 0} where
  -- `if (step.k) config.k = step.k`.
  abbrev pub put_if : (String → V → Bool) → String → Option V → Dict String V → Dict String V
  put_if test k none acc = acc
  put_if test k (some v) acc = if test k v then insert k v acc else acc

  -- The fields of `keys` that pass the test.
  unfoldable pub pick :
      (String → V → Bool) → List String → Dict String V → Dict String V → Dict String V
  pick test [] fields acc = acc
  pick test (k ∷ ks) fields acc = pick test ks fields (put_if test k (lookup k fields) acc)

  -- What `manifestToNodes` keeps of an assertion.
  unfoldable pub load_assertion : Assertion V → Assertion V
  load_assertion a = record {
    assertion_type = some (or_else a.assertion_type "statusCode");
    path = a.path;
    expected = a.expected;
    schema = none;
    ignore = none;
    tolerance = none;
  }

  module _ (truthy : V → Bool) where
    unfoldable pub node_of_step : ℕ → Step V → Node V
    unfolding pick load_assertion
    node_of_step index s =
        let t = or_else s.step_type "apiCall" in
        record {
          id = index + 1;
          y = index * 140 + 50;
          data' = record {
            step_id = index + 1;
            name = or_else s.name (join "Step " (decimal (index + 1)));
            step_type = t;
            config = pick (λ k v. truthy v) (loaded_keys t) s.fields [];
            extract = or_else s.extract [];
            assertions = map load_assertion (or_else s.assertions []);
          };
        }

    unfoldable pub nodes_from : ℕ → List (Step V) → List (Node V)
    unfolding node_of_step
    nodes_from index [] = []
    nodes_from index (s ∷ ss) = node_of_step index s ∷ nodes_from (index + 1) ss

  -- The name of a node, or its id if there is none.
  unfoldable pub name_of : ℕ → List (Node V) → String
  name_of id [] = join "step-" (decimal id)
  name_of id (n ∷ ns) = if n.id == id then n.data'.name else name_of id ns

  unfoldable pub depends_on_of : List (Node V) → List Edge → Option (List String)
  unfolding name_of
  depends_on_of nodes [] = none
  depends_on_of nodes (e ∷ es) = some (map (λ f. name_of f.source nodes) (e ∷ es))

  module _ (truthy : V → Bool) (has_keys : V → Bool) where
    abbrev pub is_written : String → V → Bool
    is_written k v = truthy v && (not (is_object_key k) || has_keys v)

    unfoldable pub step_of_node : List (Node V) → List Edge → Node V → Step V
    unfolding depends_on_of pick
    step_of_node nodes edges n = record {
      name = some n.data'.name;
      step_type = some n.data'.step_type;
      fields = pick is_written (written_keys n.data'.step_type) n.data'.config [];
      depends_on = depends_on_of nodes (incoming n.id edges);
      extract = unless_empty n.data'.extract;
      assertions = unless_empty n.data'.assertions;
    }

    unfoldable pub build_steps : List (Node V) → List Edge → List (Step V)
    unfolding step_of_node
    build_steps nodes edges = map (step_of_node nodes edges) nodes

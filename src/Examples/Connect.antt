-- ===== src/Examples/Connect.antt =====
-- web/src/app/builder/page.tsx, the connection of two steps: the first extracts a token, which goes
-- into a nested field of the message of the second; and web/src/lib/catalog-to-step.ts, the steps of
-- a method and of an endpoint. A value that is no object is a number.
use meergate.Base.{
  true, ℕ, ◌≡◌, refl, String, false, some, none, List, [], ◌∷◌, ◌++◌, Dict, ◌≢◌, inl, eq_iff, arith,
}
use meergate.Builder.{Node, Edge}
use meergate.Builder.Mapping.{
  get, Json, Fields, plain, text, tree, end, field, Mapping, split_dots, set_nested_value,
}
use meergate.CatalogSteps.{
  ProtoField, default_message, grpc_method_to_full_step_config, rest_endpoint_to_step_config,
}
use meergate.CatalogSteps.Defaults.{last_named, default_of, get-default_message}
use meergate.Builder.Mapping.Paths.{Apart}
use meergate.Builder.Connect.{
  Pending, Connecting, on_connect, handle_connection_confirm, handle_connection_skip,
  connected_extracts,
}
use meergate.Builder.Connect.Confirm.{
  AllApart, ApartFields, IsSettled, NodesMapped, handle_connection_confirm-NodesMapped,
  on_connect-IsSettled,
}

abbrev node : ℕ → Dict String (Json ℕ) → Dict String String → Node (Json ℕ)
node id config extract = record {
  id = id;
  y = 0;
  data' = record {
    step_id = id;
    name = "step";
    step_type = "grpcCall";
    config = config;
    extract = extract;
    assertions = [];
  };
}

abbrev message : Fields ℕ
message = field "user" (plain 0) (field "auth" (tree false (field "kind" (plain 1) end)) end)

abbrev source : Node (Json ℕ)
source = node 1 [] (("token", "$.token") ∷ [])

abbrev target : Node (Json ℕ)
target = node 2 (("message", tree false message) ∷ []) []

abbrev connection : Edge
connection = record { source = 1; target = 2 }

abbrev append_edge : Edge → List Edge → List Edge
append_edge e es = es ++ e ∷ []

abbrev before : Connecting ℕ
before = record {
  editor = record {
    nodes = source ∷ target ∷ [];
    edges = [];
    selected = some 2;
    node_id_counter = 2;
  };
  pending = none;
}

abbrev pending : Pending ℕ
pending = record { connection = connection; source_node = source; target_node = target }

abbrev asked : Connecting ℕ
asked = record before { pending = some pending }

abbrev mappings : List Mapping
mappings =
    record { source_key = "token"; target_field = "auth.token" }
    ∷ record { source_key = "token"; target_field = "user.name" }
    ∷ []

asked_first : on_connect append_edge connection before ≡ asked
unfolding on_connect
asked_first = refl

split_auth : split_dots "auth.token" ≡ ("auth", "token" ∷ [])
unfolding split_dots
split_auth = refl

set_auth :
    set_nested_value "auth.token" "x" message
    ≡ field "user"
        (plain 0)
        (field "auth" (tree false (field "kind" (plain 1) (field "token" (text "x") end))) end)
unfolding set_nested_value
set_auth = refl

extracts_after :
    connected_extracts (handle_connection_skip append_edge asked).editor
    ≡ record { step_name = "step"; key = "token"; path = "$.token" } ∷ []
unfolding connected_extracts handle_connection_skip
extracts_after = refl

user-auth : ◌≢◌ {A = String} "user" "auth"
user-auth h = ground (arith, (eq_iff "user" "auth").1 h)

mappings_apart : AllApart mappings
unfolding AllApart ApartFields Apart split_dots
mappings_apart = ((inl user-auth, tt), (tt, tt))

handle_connection_confirm-NodesMapped_example :
    let s' = handle_connection_confirm append_edge mappings asked in
    (s'.pending ≡ none)
    × (s'.editor.edges ≡ connection ∷ [])
    × NodesMapped pending mappings asked.editor.nodes s'.editor.nodes
handle_connection_confirm-NodesMapped_example =
    handle_connection_confirm-NodesMapped append_edge mappings asked pending refl mappings_apart

on_connect-IsSettled_example :
    IsSettled append_edge connection mappings before (on_connect append_edge connection before)
on_connect-IsSettled_example = on_connect-IsSettled append_edge connection mappings before refl

abbrev proto_fields : List ProtoField
proto_fields =
    record { name = "ids"; field_type = "string"; repeated = true }
    ∷ record { name = "page"; field_type = "message"; repeated = false }
    ∷ []

last_ids :
    last_named "ids" proto_fields
    ≡ some (record { name = "ids"; field_type = "string"; repeated = true })
unfolding last_named
last_ids = refl

config_of_list :
    grpc_method_to_full_step_config {A = ℕ} 0 "Users"
      (record { name = "List"; proto_file = some ""; request_fields = some proto_fields })
    ≡ field "service" (text "Users") (
        field "rpcMethod" (text "List") (
          field "message"
            (tree false (field "ids" (text "") (field "page" (tree false end) end)))
            end))
unfolding grpc_method_to_full_step_config
config_of_list = refl

config_of_post :
    rest_endpoint_to_step_config {A = ℕ}
      (record { id = "s1"; target = "http://users" })
      (record {
        http_method = "POST";
        path = "/users";
        request_body =
            some (
              tree false (field "properties" (tree false (field "name" (tree false end) end)) end));
      })
    ≡ field "method" (text "POST") (
        field "path" (text "/users") (
          field "baseUrl" (text "http://users") (
            field "_catalogService"
              (text "s1")
              (field "body" (tree false (field "name" (text "") end)) end))))
unfolding rest_endpoint_to_step_config
config_of_post = refl

get-default_message_example :
    get "ids" (default_message 0 proto_fields end)
    ≡ default_of 0 (last_named "ids" proto_fields) (get {A = ℕ} "ids" end)
get-default_message_example = get-default_message 0 "ids" proto_fields end

-- ===== src/CatalogSteps.antt =====
-- web/src/lib/catalog-to-step.ts: the fields of a step that is made from a REST endpoint or from a
-- method of a gRPC service. An object has its own fields in order. The parameter `no` is the value
-- `false`.
pub mod Defaults
use meergate.Base.{
  String, Bool, true, false, Option, none, some, List, [], ◌∷◌, if◌then◌else◌, str_eq, or_else,
}
use meergate.Builder.Mapping.{Json, Fields, plain, text, tree, end, field, get, set}

-- What the two functions read of a field of a message, a method, a service and an endpoint.
pub record ProtoField : Type 0 where
  pub name : String
  pub field_type : String
  pub repeated : Bool

pub record ProtoMethodInfo : Type 0 where
  pub name : String
  pub proto_file : Option String
  pub request_fields : Option (List ProtoField)

pub record RestServiceInfo : Type 0 where
  pub id : String
  pub target : String

pub record RestEndpointInfo (A : Type 0) : Type 0 where
  pub http_method : String
  pub path : String
  pub request_body : Option (Json A)

module _ {A : Type 0} where
  abbrev pub no_fields : Json A
  no_fields = tree false end

  -- Every key of a schema's properties, with an empty text.
  abbrev pub blank_body : Fields A → Fields A → Fields A
  blank_body end body = body
  blank_body (field k v fs) body = blank_body fs (set k (text "") body)

  -- Texts have no properties of this name, and their absence changes nothing.
  abbrev pub put_body : Option (Json A) → Fields A → Fields A
  put_body (some (tree is_array fs)) updates = set "body" (tree false (blank_body fs end)) updates
  put_body (some (plain x)) updates = updates
  put_body (some (text s)) updates = updates
  put_body none updates = updates

  abbrev pub put_request_body : Option (Json A) → Fields A → Fields A
  put_request_body (some (tree is_array fs)) updates = put_body (get "properties" fs) updates
  put_request_body (some (plain x)) updates = updates
  put_request_body (some (text s)) updates = updates
  put_request_body none updates = updates

  unfoldable pub rest_endpoint_to_step_config : RestServiceInfo → RestEndpointInfo A → Fields A
  unfolding get set
  rest_endpoint_to_step_config service endpoint = put_request_body endpoint.request_body (
      field "method" (text endpoint.http_method) (
        field "path" (text endpoint.path)
          (field "baseUrl" (text service.target) (field "_catalogService" (text service.id) end))))

  module _ (no : A) where
    abbrev pub default_value : ProtoField → Json A
    default_value f =
        if str_eq f.field_type "string"
        then text ""
        else if str_eq f.field_type "bool"
        then plain no
        else if str_eq f.field_type "message"
        then no_fields
        else if f.repeated
        then tree true end
        else text ""

    unfoldable pub default_message : List ProtoField → Fields A → Fields A
    unfolding set
    default_message [] message = message
    default_message (f ∷ fs) message = default_message fs (set f.name (default_value f) message)

    -- An empty file name counts as none.
    abbrev pub put_proto_file : Option String → Fields A → Fields A
    put_proto_file none updates = updates
    put_proto_file (some file) updates =
        if str_eq file "" then updates else set "protoFile" (text file) updates

    unfoldable pub grpc_method_to_step_config : ProtoMethodInfo → Fields A
    unfolding default_message
    grpc_method_to_step_config method = put_proto_file method.proto_file (
        field "rpcMethod" (text method.name) (
          field "message" (tree false (default_message (or_else method.request_fields []) end))
            end))

    unfoldable pub grpc_method_to_full_step_config : String → ProtoMethodInfo → Fields A
    unfolding grpc_method_to_step_config
    grpc_method_to_full_step_config service_fqn method =
        field "service" (text service_fqn) (grpc_method_to_step_config method)

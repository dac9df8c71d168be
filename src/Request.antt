-- ===== src/Request.antt =====
-- request_types.go: resources and requests.
pub mod Valid
pub mod Construct
pub mod Attributes
use treetop_client_go.Base.{Bytes, List, Option, String, [], lookup, put, ◌∷◌}
use treetop_client_go.Errors.{
  Check, Message, Result, lit, nil, ok, pass, quoted, text, wrap, ◌>>=◌, ◌>>◌,
}
use treetop_client_go.Validation.{Net, validate_attribute_name}
use treetop_client_go.Cedar.{
  EntityId, EntityType, new_entity_id, new_entity_type, unset_id, validate_id, validate_type,
}
use treetop_client_go.Attr.{AttrValue, attr_runs, validate_attr}
use treetop_client_go.Options.{Setter, apply_all}
use treetop_client_go.Entities.{
  Action, Principal, entities_run, validate_action, validate_principal,
}

abbrev pub Attrs : Type 0
Attrs = List (Bytes × AttrValue)

pub record Resource : Type 0 where
  pub kind : EntityType
  pub id : EntityId
  pub attrs : Attrs

abbrev pub zero_resource : Resource
zero_resource = record { kind = record { name = [] }; id = unset_id; attrs = [] }

pub record Request : Type 0 where
  pub principal : Principal
  pub action : Action
  pub resource : Resource

module _ (net : Net) where
  pub resource_with_attribute : Bytes → AttrValue → Resource → Result Resource
  resource_with_attribute name value resource = do
    validate_attribute_name (text "resource.attrs") name
    validate_attr net value
    ok (record resource { attrs = put name value resource.attrs })

  -- The entries are taken in the order of the list, which stands for the order of `range`.
  pub resource_with_attributes : Attrs → Resource → Result Resource
  resource_with_attributes [] resource = ok resource
  resource_with_attributes ((name, value) ∷ attrs) resource =
      resource_with_attribute name value resource >>= resource_with_attributes attrs

  -- The loop of `Resource.Validate` over the attributes, and with `field` and `label` those of
  -- `AuthRequest.Validate` and of `WithContext`.
  pub validate_attrs : Message → String → Attrs → Check
  validate_attrs field label [] = pass
  validate_attrs field label ((name, value) ∷ attrs) = do
    validate_attribute_name field name
    wrap (lit label ∷ quoted name ∷ []) (validate_attr net value)
    validate_attrs field label attrs

  -- `Resource.Validate`
  pub validate_resource : Resource → Check
  validate_resource r = do
    validate_type (text "resource.kind") r.kind
    validate_id (text "resource.id") r.id
    validate_attrs (text "resource.attrs") "resource attribute" r.attrs

  pub new_resource_with_type : EntityType → Bytes → List (Setter Resource) → Result Resource
  new_resource_with_type kind id options = do
    validate_type (text "resource.kind") kind
    validated ← new_entity_id (text "resource.id") id
    resource ←
        apply_all "nil resource option" options (record { kind = kind; id = validated; attrs = [] })
    validate_resource resource
    ok resource

  pub new_resource : Bytes → Bytes → List (Setter Resource) → Result Resource
  new_resource kind id options = do
    entity_type ← wrap (text "resource entity type") (new_entity_type kind)
    new_resource_with_type entity_type id options

  -- `Request.Validate`
  pub validate_request : Request → Check
  validate_request r = do
    validate_principal r.principal
    validate_action r.action
    validate_resource r.resource

  pub new_request : Principal → Action → Resource → Result Request
  new_request p a r =
      let request : Request = record { principal = p; action = a; resource = r } in
      validate_request request >> ok request

-- `Resource.Attribute`
pub attribute : Resource → Bytes → Option AttrValue
attribute r name = lookup name r.attrs

-- The definitions of this file, for a test by evaluation.
unfoldable pub request_runs : Unit {0}
unfolding entities_run attr_runs lookup put resource_with_attribute resource_with_attributes
    validate_attrs validate_resource new_resource_with_type new_resource validate_request
    new_request attribute
request_runs = tt

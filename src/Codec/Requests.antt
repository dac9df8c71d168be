-- ===== src/Codec/Requests.antt =====
-- request_types.go: the JSON form of resources and requests.
pub mod RoundTrip
use treetop_client_go.Base.{Bytes, [], codes, some, ◌∷◌}
use treetop_client_go.Entities.{Action, Principal, zero_action, zero_principal}
use treetop_client_go.Request.{
  Attrs, Request, Resource, new_request, new_resource_with_type, resource_with_attributes,
  validate_request, validate_resource, zero_resource,
}
use treetop_client_go.Json.{
  Json, Members, member, nested, no_members, object, read_string, string_json,
}
use treetop_client_go.Json.Fields.{
  each_field, members_of, pointer_field, read_map, required, value_field,
}
use treetop_client_go.Codec.Attributes.{attr_from_json, attr_json}
use treetop_client_go.Codec.Names.{entity_type_from_json, entity_type_json}
use treetop_client_go.Text.Runes.Utf8.{coerced}
use treetop_client_go.Codec.Entities.{
  action_from_json, action_json, is_required, principal_from_json, principal_json,
}
use treetop_client_go.Errors.{Result, ok, ◌>>=◌, ◌>>◌}
use treetop_client_go.Validation.{Net}

module _ (net : Net) where
  -- A map of attributes, in the order of the list; the package sorts the entries by their names.
  pub attrs_members : Attrs → Result Members
  attrs_members [] = ok no_members
  attrs_members ((name, value) ∷ attrs) = nested "AttrValue" (attr_json net value) >>= λ j.
      attrs_members attrs >>= λ ms. ok (member (coerced name) j ms)

  -- A field of a map with `omitempty`, before the members `rest`.
  pub attrs_field : Bytes → Attrs → Members → Result Members
  attrs_field name [] rest = ok rest
  attrs_field name (e ∷ attrs) rest =
      attrs_members (e ∷ attrs) >>= λ ms. ok (member name (object ms) rest)

  -- `Resource.MarshalJSON`
  pub resource_json : Resource → Result Json
  resource_json r = do
    validate_resource net r
    kind ← nested "EntityType" (entity_type_json r.kind)
    attrs ← attrs_field (codes "attrs") r.attrs no_members
    ok (object (member (codes "kind") kind (member (codes "id") (string_json r.id.value) attrs)))

  -- `Resource.UnmarshalJSON`
  pub resource_from_json : Json → Result Resource
  resource_from_json v = do
    ms ← members_of v
    kind ← pointer_field (codes "kind") entity_type_from_json ms
    id ← pointer_field (codes "id") read_string ms
    attrs ← each_field (codes "attrs") (read_map (attr_from_json net)) ms []
    kind' ← required (is_required "resource.kind") kind
    id' ← required (is_required "resource.id") id
    new_resource_with_type net kind' id' (some (resource_with_attributes net attrs) ∷ [])

  -- `Request.MarshalJSON`
  pub request_json : Request → Result Json
  request_json r = do
    validate_request net r
    p ← nested "Principal" (principal_json r.principal)
    a ← nested "Action" (action_json r.action)
    s ← nested "Resource" (resource_json r.resource)
    ok (
        object (
          member (codes "principal") p
            (member (codes "action") a (member (codes "resource") s no_members))))

  -- `Request.UnmarshalJSON`
  pub request_from_json : Json → Result Request
  request_from_json v = do
    ms ← members_of v
    p ← value_field (codes "principal") principal_from_json zero_principal ms
    a ← value_field (codes "action") action_from_json zero_action ms
    s ← value_field (codes "resource") resource_from_json zero_resource ms
    new_request net p a s

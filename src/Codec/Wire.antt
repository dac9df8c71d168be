-- ===== src/Codec/Wire.antt =====
-- wire_types.go: what encoding/json writes of the wire values, by their tags.
use treetop_client_go.Text.Runes.Utf8.{coerced}
pub mod Same
use treetop_client_go.Base.{Bytes, List, Option, [], codes, none, some, ◌∷◌}
use treetop_client_go.Errors.{Result, ok, ◌>>=◌, ◌>>◌}
use treetop_client_go.Validation.{Net}
use treetop_client_go.Attr.{set_type}
use treetop_client_go.Wire.{
  ActionWire, AttrMapWire, AttrWire, AttrWires, AuthRequestWire, GroupWire, PrincipalWire,
  ResourceWire, UserWire, end, next, plain, raw, set,
}
use treetop_client_go.Json.{
  Json, Jsons, Members, array, element, member, no_elements, no_members, object, string_json,
}
use treetop_client_go.Codec.Names.{strings_json}
use treetop_client_go.Codec.Attributes.{attrs_json, scalar_json, tagged_json}
use treetop_client_go.Codec.Batches.{id_field}

group_wire_json : GroupWire → Json
group_wire_json w = object (
    member (codes "id") (string_json w.id)
      (member (codes "namespace") (array (strings_json w.namespace)) no_members))

group_wires_json : List GroupWire → Jsons
group_wires_json [] = no_elements
group_wires_json (w ∷ ws) = element (group_wire_json w) (group_wires_json ws)

user_wire_json : UserWire → Json
user_wire_json w = object (
    member (codes "id") (string_json w.id) (
      member (codes "namespace") (array (strings_json w.namespace))
        (member (codes "groups") (array (group_wires_json w.groups)) no_members)))

-- A pointer field with `omitempty`.
pointer_member {ℓ} : {A : Type ℓ} → Bytes → (A → Json) → Option A → Members → Members
pointer_member name json none rest = rest
pointer_member name json (some w) rest = member name (json w) rest

principal_wire_json : PrincipalWire → Json
principal_wire_json w = object (
    pointer_member (codes "User") user_wire_json w.user
      (pointer_member (codes "Group") group_wire_json w.group no_members))

action_wire_json : ActionWire → Json
action_wire_json w = object (
    member (codes "id") (string_json w.id)
      (member (codes "namespace") (array (strings_json w.namespace)) no_members))

module _ (net : Net) where
  -- Attribute values in a slice that is not converted are written by their own `MarshalJSON`.
  mutual
    attr_wire_json : AttrWire → Result Json
    attr_wire_json (plain kind x) = ok (tagged_json kind (scalar_json x))
    attr_wire_json (raw kind vs) =
        attrs_json net vs >>= λ items. ok (tagged_json kind (array items))
    attr_wire_json (set ws) =
        attr_wires_json ws >>= λ items. ok (tagged_json set_type (array items))

    attr_wires_json : AttrWires → Result Jsons
    attr_wires_json end = ok no_elements
    attr_wires_json (next w ws) =
        attr_wire_json w >>= λ j. attr_wires_json ws >>= λ js. ok (element j js)

  attr_map_json : AttrMapWire → Result Members
  attr_map_json [] = ok no_members
  attr_map_json ((name, w) ∷ ws) =
      attr_wire_json w >>= λ j. attr_map_json ws >>= λ ms. ok (member (coerced name) j ms)

  -- A map field with `omitempty`, before the members `rest`.
  attr_map_field : Bytes → AttrMapWire → Members → Result Members
  attr_map_field name [] rest = ok rest
  attr_map_field name (w ∷ ws) rest =
      attr_map_json (w ∷ ws) >>= λ ms. ok (member name (object ms) rest)

  resource_wire_json : ResourceWire → Result Json
  resource_wire_json w = do
    attrs ← attr_map_field (codes "attrs") w.attrs no_members
    ok (
        object (
          member (codes "kind") (string_json w.kind)
            (member (codes "id") (string_json w.id) attrs)))

  auth_request_wire_json : AuthRequestWire → Result Json
  auth_request_wire_json w = do
    s ← resource_wire_json w.resource
    ms ← attr_map_field (codes "context") w.context (
        member (codes "principal") (principal_wire_json w.principal) (
          member (codes "action") (action_wire_json w.action)
            (member (codes "resource") s no_members)))
    ok (object (id_field w.id ms))

  auth_request_wires_json : List AuthRequestWire → Result Jsons
  auth_request_wires_json [] = ok no_elements
  auth_request_wires_json (w ∷ ws) =
      auth_request_wire_json w >>= λ j. auth_request_wires_json ws >>= λ js. ok (element j js)

  -- The `authorizeRequestWire` with these requests.
  pub batch_wire_json : List AuthRequestWire → Result Json
  batch_wire_json ws = auth_request_wires_json ws >>= λ js.
      ok (object (member (codes "requests") (array js) no_members))

-- ===== src/Codec/Wire/Same.antt =====
-- The wire values are written as the `MarshalJSON` methods write what they stand for.
use treetop_client_go.Codec.Batches.{batch_json}
use treetop_client_go.Base.{All, Bytes, List, [], codes, refl, some, sym, ◌∷◌, ◌≡◌}
use treetop_client_go.Errors.{ok, pass}
use treetop_client_go.Validation.{Net}
use treetop_client_go.Attr.{
  AttrValue, AttrValues, attr, attr_set, bool_type, empty, ip_type, item, long_type, other_type,
  set_type, string_type,
}
use treetop_client_go.Attr.Validate.{AllWellTyped, WellTyped}
use treetop_client_go.Request.{Attrs}
use treetop_client_go.Request.Valid.{IsEntry}
use treetop_client_go.Entities.{
  Group, PrincipalKind, User, principal_group, principal_user, unset_kind,
}
use treetop_client_go.Entities.Valid.{IsOfKind}
use treetop_client_go.Batch.{AuthRequest, validate_batch}
use treetop_client_go.Batch.Unique.{IsAuthRequest, validate_batch_iff}
use treetop_client_go.Wire.{
  to_action_wire, to_attr_map_wire, to_attr_wire, to_attr_wires, to_auth_request_wire,
  to_authorize_request_wire, to_group_wire, to_group_wires, to_principal_wire, to_resource_wire,
  to_user_wire, wire_of_kind,
}
use treetop_client_go.Json.{Members, no_members}
use treetop_client_go.Codec.Attributes.RoundTrip.{attr_form, attrs_form}
use treetop_client_go.Codec.Entities.RoundTrip.{groups_form, kind_form}
use treetop_client_go.Codec.Requests.RoundTrip.{entries_form, field_form}
use treetop_client_go.Codec.Batches.RoundTrip.{batch_json-batch_form, item_form, items_form}
use treetop_client_go.Codec.Wire.{
  action_wire_json, attr_map_field, attr_map_json, attr_wire_json, attr_wires_json,
  auth_request_wire_json, auth_request_wires_json, batch_wire_json, group_wire_json,
  group_wires_json, pointer_member, principal_wire_json, resource_wire_json, user_wire_json,
}

group_wires_json-groups_form :
    (gs : List Group) → group_wires_json (to_group_wires gs) ≡ groups_form gs
unfolding group_wires_json group_wire_json to_group_wires to_group_wire groups_form
group_wires_json-groups_form [] = refl
group_wires_json-groups_form (g ∷ gs) = rw (group_wires_json-groups_form gs)

kind_json :
    (k : PrincipalKind) (u : User) (g : Group)
    → IsOfKind k u g
    → principal_wire_json (wire_of_kind k u g) ≡ kind_form k u g
unfolding principal_wire_json pointer_member user_wire_json group_wire_json wire_of_kind
    to_user_wire to_group_wire
kind_json principal_user u g h = rw (group_wires_json-groups_form u.groups)
kind_json principal_group u g h = refl
kind_json unset_kind u g h = absurd h

module _ (net : Net) where
  mutual
    unfolding attr_wire_json to_attr_wire attr_form

    attr_wire_json-attr_form :
        (v : AttrValue) → WellTyped net v → attr_wire_json net (to_attr_wire v) ≡ ok (attr_form v)
    attr_wire_json-attr_form (attr string_type x) h = refl
    attr_wire_json-attr_form (attr bool_type x) h = refl
    attr_wire_json-attr_form (attr long_type x) h = refl
    attr_wire_json-attr_form (attr ip_type x) h = refl
    attr_wire_json-attr_form (attr set_type x) h = absurd h
    attr_wire_json-attr_form (attr (other_type s) x) h = refl
    attr_wire_json-attr_form (attr_set set_type vs) h = rw (attr_wires_json-attrs_form vs h)
    attr_wire_json-attr_form (attr_set string_type vs) h = absurd h
    attr_wire_json-attr_form (attr_set bool_type vs) h = absurd h
    attr_wire_json-attr_form (attr_set long_type vs) h = absurd h
    attr_wire_json-attr_form (attr_set ip_type vs) h = absurd h
    attr_wire_json-attr_form (attr_set (other_type s) vs) h = absurd h

    attr_wires_json-attrs_form :
        (vs : AttrValues)
        → AllWellTyped net vs
        → attr_wires_json net (to_attr_wires vs) ≡ ok (attrs_form vs)
    attr_wires_json-attrs_form empty h = refl
    attr_wires_json-attrs_form (item v vs) (p, h) =
        rw (attr_wire_json-attr_form v p, attr_wires_json-attrs_form vs h)

  attr_map_json-entries_form :
      (m : Attrs)
      → All (IsEntry net) m
      → attr_map_json net (to_attr_map_wire m) ≡ ok (entries_form m)
  unfolding attr_map_json to_attr_map_wire entries_form
  attr_map_json-entries_form [] h = refl
  attr_map_json-entries_form ((name, v) ∷ m) ((_, p), h) =
      rw (attr_wire_json-attr_form v p, attr_map_json-entries_form m h)

  attr_map_field-field_form :
      (name : Bytes) (m : Attrs) (rest : Members)
      → All (IsEntry net) m
      → attr_map_field net name (to_attr_map_wire m) rest ≡ ok (field_form name m rest)
  unfolding attr_map_field to_attr_map_wire
  attr_map_field-field_form name [] rest h = refl
  attr_map_field-field_form name (e ∷ m) rest h = rw (attr_map_json-entries_form (e ∷ m) h)

  auth_request_wire_json-item_form :
      (r : AuthRequest)
      → IsAuthRequest net r
      → auth_request_wire_json net (to_auth_request_wire r) ≡ ok (item_form r)
  unfolding auth_request_wire_json resource_wire_json action_wire_json to_auth_request_wire
      to_principal_wire to_action_wire to_resource_wire
  auth_request_wire_json-item_form r h = rw (
    kind_json r.request.principal.kind r.request.principal.user r.request.principal.group h.2.0,
    attr_map_field-field_form (codes "attrs") r.request.resource.attrs no_members h.2.2.2,
    attr_map_field-field_form (codes "context") r.context _ h.1,
  )

  auth_request_wires_json-items_form :
      (rs : List AuthRequest)
      → All (IsAuthRequest net) rs
      → auth_request_wires_json net (to_authorize_request_wire rs) ≡ ok (items_form rs)
  unfolding auth_request_wires_json to_authorize_request_wire items_form
  auth_request_wires_json-items_form [] h = refl
  auth_request_wires_json-items_form (r ∷ rs) (p, h) =
      rw (auth_request_wire_json-item_form r p, auth_request_wires_json-items_form rs h)

  -- A valid batch is sent, by its wire values, as the same JSON that its own `MarshalJSON` writes.
  pub batch_wire_json-batch_json :
      (rs : List AuthRequest)
      → validate_batch net (some rs) ≡ pass
      → batch_wire_json net (to_authorize_request_wire rs) ≡ batch_json net rs
  unfolding batch_wire_json
  batch_wire_json-batch_json rs v =
      let (h, _) = (validate_batch_iff net rs).0 v in
      rw (auth_request_wires_json-items_form rs h) (sym (batch_json-batch_form net rs h))

-- ===== src/Wire.antt =====
-- wire_types.go: the plain values that a validated batch is turned into before it is encoded.
pub mod Lossless
use treetop_client_go.Base.{Bytes, List, Option, [], none, some, ◌∷◌}
use treetop_client_go.Cedar.{segments}
use treetop_client_go.Attr.{
  AttrType, AttrValue, AttrValues, Scalar, attr, attr_set, empty, item, set_type,
}
use treetop_client_go.Entities.{
  Action, Group, Principal, PrincipalKind, User, principal_group, principal_user, unset_kind,
}
use treetop_client_go.Request.{Attrs, Resource}
use treetop_client_go.Batch.{AuthRequest}

pub record GroupWire : Type 0 where
  pub id : Bytes
  pub namespace : List Bytes

pub record UserWire : Type 0 where
  pub id : Bytes
  pub namespace : List Bytes
  pub groups : List GroupWire

-- `User` and `Group` are pointers with `omitempty`.
pub record PrincipalWire : Type 0 where
  pub user : Option UserWire
  pub group : Option GroupWire

pub record ActionWire : Type 0 where
  pub id : Bytes
  pub namespace : List Bytes

-- A tag with a scalar or with a raw slice of attribute values (the tag is no set's then), or a set.
mutual
  pub data AttrWire : Type 0 where
    plain : AttrType → Scalar → AttrWire
    raw : AttrType → AttrValues → AttrWire
    set : AttrWires → AttrWire

  pub data AttrWires : Type 0 where
    end : AttrWires
    next : AttrWire → AttrWires → AttrWires

abbrev pub AttrMapWire : Type 0
AttrMapWire = List (Bytes × AttrWire)

pub record ResourceWire : Type 0 where
  pub kind : Bytes
  pub id : Bytes
  pub attrs : AttrMapWire

pub record AuthRequestWire : Type 0 where
  pub id : Bytes
  pub context : AttrMapWire
  pub principal : PrincipalWire
  pub action : ActionWire
  pub resource : ResourceWire

unfoldable mutual
  pub to_attr_wire : AttrValue → AttrWire
  to_attr_wire (attr set_type x) = set end
  to_attr_wire (attr kind x) = plain kind x
  to_attr_wire (attr_set set_type vs) = set (to_attr_wires vs)
  to_attr_wire (attr_set kind vs) = raw kind vs

  pub to_attr_wires : AttrValues → AttrWires
  to_attr_wires empty = end
  to_attr_wires (item v vs) = next (to_attr_wire v) (to_attr_wires vs)

-- The empty list stands for nil too: `omitempty` leaves both out.
unfoldable pub to_attr_map_wire : Attrs → AttrMapWire
to_attr_map_wire [] = []
to_attr_map_wire ((name, value) ∷ attrs) = (name, to_attr_wire value) ∷ to_attr_map_wire attrs

unfoldable pub to_group_wire : Group → GroupWire
to_group_wire g = record { id = g.id.value; namespace = segments g.namespace }

unfoldable pub to_group_wires : List Group → List GroupWire
to_group_wires [] = []
to_group_wires (g ∷ gs) = to_group_wire g ∷ to_group_wires gs

unfoldable pub to_user_wire : User → UserWire
to_user_wire u = record {
  id = u.id.value;
  namespace = segments u.namespace;
  groups = to_group_wires u.groups;
}

unfoldable pub wire_of_kind : PrincipalKind → User → Group → PrincipalWire
wire_of_kind principal_user u g = record { user = some (to_user_wire u); group = none }
wire_of_kind principal_group u g = record { user = none; group = some (to_group_wire g) }
wire_of_kind unset_kind u g = record { user = none; group = none }

unfoldable pub to_principal_wire : Principal → PrincipalWire
to_principal_wire p = wire_of_kind p.kind p.user p.group

unfoldable pub to_action_wire : Action → ActionWire
to_action_wire a = record { id = a.id.value; namespace = segments a.namespace }

unfoldable pub to_resource_wire : Resource → ResourceWire
to_resource_wire r = record {
  kind = r.kind.name;
  id = r.id.value;
  attrs = to_attr_map_wire r.attrs;
}

unfoldable pub to_auth_request_wire : AuthRequest → AuthRequestWire
to_auth_request_wire r = record {
  id = r.id.value;
  context = to_attr_map_wire r.context;
  principal = to_principal_wire r.request.principal;
  action = to_action_wire r.request.action;
  resource = to_resource_wire r.request.resource;
}

unfoldable pub to_authorize_request_wire : List AuthRequest → List AuthRequestWire
to_authorize_request_wire [] = []
to_authorize_request_wire (r ∷ rs) = to_auth_request_wire r ∷ to_authorize_request_wire rs

-- The definitions of this file, for a test by evaluation.
unfoldable pub wire_runs : Unit {0}
unfolding to_attr_wire to_attr_map_wire to_group_wire to_group_wires to_user_wire wire_of_kind
    to_principal_wire to_action_wire to_resource_wire to_auth_request_wire to_authorize_request_wire
wire_runs = tt

-- ===== src/Wire/Lossless.antt =====
-- The wire values keep everything that a valid request holds: they can be read back.
use treetop_client_go.Text.Split.{join}
use treetop_client_go.Base.{
  All, Bool, Bytes, List, Option, [], ap, none, refl, some, sym, true, ◌∙◌, ◌∷◌, ◌≡◌,
}
use treetop_client_go.Cedar.Namespaces.{join-segments}
use treetop_client_go.Cedar.{EntityId, EntityType, Namespace, segments}
use mathlib.Core.Path.{ap₂}
use treetop_client_go.Entities.Valid.{IsGroup, IsOfKind, IsUser}
use treetop_client_go.Cedar.Valid.{IsId}
use treetop_client_go.Validation.{Net}
use treetop_client_go.Attr.{
  AttrValue, AttrValues, attr, attr_set, bool_type, empty, ip_type, item, long_type, other_type,
  set_type, string_type,
}
use treetop_client_go.Attr.Validate.{AllWellTyped, WellTyped}
use treetop_client_go.Entities.{
  Action, Group, Principal, PrincipalKind, User, group_principal, principal_group, principal_user,
  unset_kind, user_principal, zero_principal,
}
use treetop_client_go.Request.{Attrs, Request, Resource}
use treetop_client_go.Request.Valid.{IsEntry, IsRequest}
use treetop_client_go.Wire.{
  ActionWire, AttrMapWire, AttrWire, AttrWires, GroupWire, PrincipalWire, ResourceWire, UserWire,
  end, next, plain, raw, set, to_action_wire, to_attr_map_wire, to_attr_wire, to_attr_wires,
  to_group_wire, to_group_wires, to_principal_wire, to_resource_wire, to_user_wire, wire_of_kind,
}

mutual
  pub of_attr : AttrWire → AttrValue
  of_attr (plain kind x) = attr kind x
  of_attr (raw kind vs) = attr_set kind vs
  of_attr (set ws) = attr_set set_type (of_attrs ws)

  pub of_attrs : AttrWires → AttrValues
  of_attrs end = empty
  of_attrs (next w ws) = item (of_attr w) (of_attrs ws)

pub of_map : AttrMapWire → Attrs
of_map [] = []
of_map ((name, w) ∷ ws) = (name, of_attr w) ∷ of_map ws

abbrev of_id : Bytes → EntityId
of_id s = record { value = s; set = true }

abbrev of_namespace : List Bytes → Namespace
of_namespace ss = record { path = join ss }

abbrev of_group : GroupWire → Group
of_group w = record { id = of_id w.id; namespace = of_namespace w.namespace }

of_groups : List GroupWire → List Group
of_groups [] = []
of_groups (w ∷ ws) = of_group w ∷ of_groups ws

abbrev of_user : UserWire → User
of_user w = record {
  id = of_id w.id;
  namespace = of_namespace w.namespace;
  groups = of_groups w.groups;
}

pub of_principal : Option UserWire → Option GroupWire → Principal
of_principal (some u) g = user_principal (of_user u)
of_principal none (some g) = group_principal (of_group g)
of_principal none none = zero_principal

abbrev pub of_action : ActionWire → Action
of_action w = record { id = of_id w.id; namespace = of_namespace w.namespace }

abbrev pub of_resource : ResourceWire → Resource
of_resource w = record { kind = record { name = w.kind }; id = of_id w.id; attrs = of_map w.attrs }

-- The request that three wire values are read as.
abbrev pub of_wire : PrincipalWire → ActionWire → ResourceWire → Request
of_wire p a r = record {
  principal = of_principal p.user p.group;
  action = of_action a;
  resource = of_resource r;
}

mutual
  unfolding of_attr to_attr_wire

  of_attr-to_attr_wire :
      (net : Net) (v : AttrValue) → WellTyped net v → of_attr (to_attr_wire v) ≡ v
  of_attr-to_attr_wire net (attr string_type x) h = refl
  of_attr-to_attr_wire net (attr bool_type x) h = refl
  of_attr-to_attr_wire net (attr long_type x) h = refl
  of_attr-to_attr_wire net (attr ip_type x) h = refl
  of_attr-to_attr_wire net (attr set_type x) h = absurd h
  of_attr-to_attr_wire net (attr (other_type s) x) h = refl
  of_attr-to_attr_wire net (attr_set set_type vs) h =
      ap (attr_set set_type) (of_attrs-to_attr_wires net vs h)
  of_attr-to_attr_wire net (attr_set string_type vs) h = refl
  of_attr-to_attr_wire net (attr_set bool_type vs) h = refl
  of_attr-to_attr_wire net (attr_set long_type vs) h = refl
  of_attr-to_attr_wire net (attr_set ip_type vs) h = refl
  of_attr-to_attr_wire net (attr_set (other_type s) vs) h = refl

  of_attrs-to_attr_wires :
      (net : Net) (vs : AttrValues) → AllWellTyped net vs → of_attrs (to_attr_wires vs) ≡ vs
  of_attrs-to_attr_wires net empty h = refl
  of_attrs-to_attr_wires net (item v vs) (p, h) =
      rw (of_attr-to_attr_wire net v p, of_attrs-to_attr_wires net vs h)

of_map-to_attr_map_wire :
    (net : Net) (m : Attrs) → All (IsEntry net) m → of_map (to_attr_map_wire m) ≡ m
unfolding of_map to_attr_map_wire
of_map-to_attr_map_wire net [] h = refl
of_map-to_attr_map_wire net ((name, v) ∷ m) ((_, p), h) =
    rw (of_attr-to_attr_wire net v p, of_map-to_attr_map_wire net m h)

abbrev id_with : Bytes → Bool → EntityId
id_with v b = record { value = v; set = b }

of_id_lem : (id : EntityId) → IsId id → of_id id.value ≡ id
of_id_lem id (s, _) = ap (id_with id.value) (sym s)

namespace-segments : (n : Namespace) → of_namespace (segments n) ≡ n
namespace-segments n = ap (λ p. record { path = p }) (join-segments n)

abbrev group_with : EntityId → Namespace → Group
group_with i n = record { id = i; namespace = n }

of_group_lem : (g : Group) → IsGroup g → of_group (to_group_wire g) ≡ g
unfolding to_group_wire
of_group_lem g (i, _) = ap₂ group_with (of_id_lem g.id i) (namespace-segments g.namespace)

of_groups_lem : (gs : List Group) → All IsGroup gs → of_groups (to_group_wires gs) ≡ gs
unfolding of_groups to_group_wires
of_groups_lem [] h = refl
of_groups_lem (g ∷ gs) (p, h) = rw (of_group_lem g p, of_groups_lem gs h)

abbrev user_with : List Group → EntityId → Namespace → User
user_with gs i n = record { id = i; namespace = n; groups = gs }

of_user_lem : (u : User) → IsUser u → of_user (to_user_wire u) ≡ u
unfolding to_user_wire
of_user_lem u (i, _, gs) =
    ap₂ (user_with _) (of_id_lem u.id i) (namespace-segments u.namespace)
    ∙ ap (λ gs. user_with gs u.id u.namespace) (of_groups_lem u.groups gs)

abbrev action_with : EntityId → Namespace → Action
action_with i n = record { id = i; namespace = n }

abbrev resource_with : EntityType → EntityId → Attrs → Resource
resource_with k i m = record { kind = k; id = i; attrs = m }

-- The principal without the member that its kind does not name.
abbrev pub named_member : PrincipalKind → User → Group → Principal
named_member principal_user u g = user_principal u
named_member principal_group u g = group_principal g
named_member unset_kind u g = zero_principal

of_principal_lem :
    (k : PrincipalKind) (u : User) (g : Group)
    → IsOfKind k u g
    → of_principal (wire_of_kind k u g).user (wire_of_kind k u g).group ≡ named_member k u g
unfolding of_principal wire_of_kind
of_principal_lem principal_user u g h = ap user_principal (of_user_lem u h)
of_principal_lem principal_group u g h = ap group_principal (of_group_lem g h)
of_principal_lem unset_kind u g h = absurd h

abbrev request_with : Principal → Action → Resource → Request
request_with p a r = record { principal = p; action = a; resource = r }

-- The wire values of a valid request can be read back: they give the request, with nothing lost but
-- the member of the principal that its kind does not name.
pub of_wire_lem :
    (net : Net) (r : Request)
    → IsRequest net r
    → of_wire
        (to_principal_wire r.principal)
        (to_action_wire r.action)
        (to_resource_wire r.resource)
      ≡ record r { principal = named_member r.principal.kind r.principal.user r.principal.group }
unfolding to_principal_wire to_action_wire to_resource_wire
of_wire_lem net r (p, a, v) =
    let member = of_principal_lem r.principal.kind r.principal.user r.principal.group p in
    let action : of_action (to_action_wire r.action) ≡ r.action =
      ap₂ action_with (of_id_lem r.action.id a.0) (namespace-segments r.action.namespace) in
    let resource : of_resource (to_resource_wire r.resource) ≡ r.resource =
      ap₂ (resource_with r.resource.kind) (of_id_lem r.resource.id v.1)
        (of_map-to_attr_map_wire net r.resource.attrs v.2) in
    ap₂ (λ x y. request_with x y (of_resource (to_resource_wire r.resource))) member action
    ∙ ap (request_with _ _) resource

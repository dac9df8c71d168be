-- ===== src/Codec/Entities/RoundTrip.antt =====
-- Groups, users, principals and actions are decoded from their JSON forms.
use treetop_client_go.Wire.Lossless.{named_member}
use treetop_client_go.Entities.Construct.{new_action_lem, new_group_lem, new_user_lem}
use treetop_client_go.Base.{All, List, [], bytes_eq, codes, put, refl, true, ◌∷◌, ◌≡◌}
use treetop_client_go.Entities.{
  Action, Group, Principal, PrincipalKind, User, principal_group, principal_user, unset_kind,
}
use treetop_client_go.Errors.{ok}
use treetop_client_go.Text.Runes.{runes}
use treetop_client_go.Text.Runes.Utf8.{coerced-valid, utf8_runs, valid_utf8}
use treetop_client_go.Entities.Valid.{
  IsAction, IsGroup, IsOfKind, IsPrincipal, IsUser, validate_action_iff, validate_group_iff,
  validate_principal_iff, validate_user_iff,
}
use treetop_client_go.Json.{
  Json, Jsons, array, element, member, no_elements, no_members, object, read_pointer, read_string,
  string_json,
}
use treetop_client_go.Json.Fields.{
  each_field, map_entries, matches, members_of, pointer_field, read_array, read_items, read_map,
  required,
}
use treetop_client_go.Codec.Names.RoundTrip.{
  namespace_form, namespace_from_json-form, namespace_json-form,
}
use treetop_client_go.Codec.Entities.{
  action_from_json, action_json, group_from_json, group_json, group_variant, groups_json,
  member_json, principal_from_json, principal_json, read_variant, user_from_json, user_json,
  user_variant,
}

-- Every text is UTF-8. Namespaces are ASCII.
abbrev pub IsWritableGroup : Group → Type 0
IsWritableGroup g = valid_utf8 g.id.value ≡ true

abbrev pub IsWritableUser : User → Type 0
IsWritableUser u = (valid_utf8 u.id.value ≡ true) × All IsWritableGroup u.groups

abbrev pub IsWritableKind : PrincipalKind → User → Group → Type 0
IsWritableKind principal_user u g = IsWritableUser u
IsWritableKind principal_group u g = IsWritableGroup g
IsWritableKind unset_kind u g = Unit

abbrev pub IsWritablePrincipal : Principal → Type 0
IsWritablePrincipal p = IsWritableKind p.kind p.user p.group

abbrev pub IsWritableAction : Action → Type 0
IsWritableAction a = valid_utf8 a.id.value ≡ true

-- The JSON forms of values that are valid.
abbrev pub group_form : Group → Json
group_form g = object (
    member (codes "id") (string_json g.id.value)
      (member (codes "namespace") (namespace_form g.namespace) no_members))

unfoldable pub groups_form : List Group → Jsons
groups_form [] = no_elements
groups_form (g ∷ gs) = element (group_form g) (groups_form gs)

abbrev pub user_form : User → Json
user_form u = object (
    member (codes "id") (string_json u.id.value) (
      member (codes "namespace") (namespace_form u.namespace)
        (member (codes "groups") (array (groups_form u.groups)) no_members)))

abbrev pub kind_form : PrincipalKind → User → Group → Json
kind_form principal_user u g = object (member (codes "User") (user_form u) no_members)
kind_form _ u g = object (member (codes "Group") (group_form g) no_members)

abbrev pub principal_form : Principal → Json
principal_form p = kind_form p.kind p.user p.group

abbrev pub action_form : Action → Json
action_form a = object (
    member (codes "id") (string_json a.id.value)
      (member (codes "namespace") (namespace_form a.namespace) no_members))

pub group_json-group_form : (g : Group) → IsGroup g → group_json g ≡ ok (group_form g)
unfolding group_json
group_json-group_form g h = rw ((validate_group_iff g).1 h, namespace_json-form g.namespace h.1)

groups_json-groups_form : (gs : List Group) → All IsGroup gs → groups_json gs ≡ ok (groups_form gs)
unfolding groups_json groups_form
groups_json-groups_form [] h = refl
groups_json-groups_form (g ∷ gs) (p, h) =
    rw (group_json-group_form g p, groups_json-groups_form gs h)

pub user_json-user_form : (u : User) → IsUser u → user_json u ≡ ok (user_form u)
unfolding user_json
user_json-user_form u h = rw (
  (validate_user_iff u).1 h,
  namespace_json-form u.namespace h.1,
  groups_json-groups_form u.groups h.2,
)

member_json-kind_form :
    (k : PrincipalKind) (u : User) (g : Group)
    → IsOfKind k u g
    → member_json k u g ≡ ok (kind_form k u g)
unfolding member_json
member_json-kind_form principal_user u g h = rw (user_json-user_form u h)
member_json-kind_form principal_group u g h = rw (group_json-group_form g h)
member_json-kind_form unset_kind u g h = absurd h

pub principal_json-principal_form :
    (p : Principal) → IsPrincipal p → principal_json p ≡ ok (principal_form p)
unfolding principal_json
principal_json-principal_form p h =
    rw ((validate_principal_iff p).1 h) (member_json-kind_form p.kind p.user p.group h)

pub action_json-action_form : (a : Action) → IsAction a → action_json a ≡ ok (action_form a)
unfolding action_json
action_json-action_form a h = rw ((validate_action_iff a).1 h, namespace_json-form a.namespace h.1)

-- A well-formed group that can be written is decoded from its JSON form.
pub group_from_json-group_form :
    (g : Group) → IsGroup g → IsWritableGroup g → group_from_json (group_form g) ≡ ok g
unfolding group_from_json members_of pointer_field each_field required matches runes utf8_runs
    bytes_eq read_string read_pointer string_json
group_from_json-group_form g h w =
    rw (coerced-valid g.id.value w, namespace_from_json-form g.namespace h.1) (new_group_lem g h)

read_items-groups_form :
    (gs : List Group)
    → All IsGroup gs
    → All IsWritableGroup gs
    → read_items group_from_json (groups_form gs) ≡ ok gs
unfolding read_items groups_form
read_items-groups_form [] h w = refl
read_items-groups_form (g ∷ gs) (p, h) (q, w) =
    rw (group_from_json-group_form g p q, read_items-groups_form gs h w)

-- A well-formed user that can be written is decoded from its JSON form.
pub user_from_json-user_form :
    (u : User) → IsUser u → IsWritableUser u → user_from_json (user_form u) ≡ ok u
unfolding user_from_json read_array members_of pointer_field each_field required matches runes
    utf8_runs bytes_eq read_string read_pointer string_json
user_from_json-user_form u h w =
    rw
      (
        coerced-valid u.id.value w.0,
        namespace_from_json-form u.namespace h.1,
        read_items-groups_form u.groups h.2 w.1,
      )
      (new_user_lem u h)

kind_lem :
    (k : PrincipalKind) (u : User) (g : Group)
    → IsOfKind k u g
    → IsWritableKind k u g
    → principal_from_json (kind_form k u g) ≡ ok (named_member k u g)
unfolding principal_from_json read_map map_entries put read_variant user_variant group_variant
    bytes_eq
kind_lem principal_user u g h w =
    rw (user_from_json-user_form u h w) (rw ((validate_user_iff u).1 h))
kind_lem principal_group u g h w =
    rw (group_from_json-group_form g h w) (rw ((validate_group_iff g).1 h))
kind_lem unset_kind u g h w = absurd h

-- A well-formed principal that can be written is decoded from its JSON form, without the member that
-- its kind does not name.
pub principal_from_json-principal_form :
    (p : Principal)
    → IsPrincipal p
    → IsWritablePrincipal p
    → principal_from_json (principal_form p) ≡ ok (named_member p.kind p.user p.group)
principal_from_json-principal_form p h w = kind_lem p.kind p.user p.group h w

-- A well-formed action that can be written is decoded from its JSON form.
pub action_from_json-action_form :
    (a : Action) → IsAction a → IsWritableAction a → action_from_json (action_form a) ≡ ok a
unfolding action_from_json members_of pointer_field each_field required matches runes utf8_runs
    bytes_eq read_string read_pointer string_json
action_from_json-action_form a h w =
    rw (coerced-valid a.id.value w, namespace_from_json-form a.namespace h.1) (new_action_lem a h)

-- ===== src/Codec/Entities.antt =====
-- request_types.go: the JSON form of groups, users, principals and actions.
pub mod RoundTrip
use treetop_client_go.Base.{Bytes, List, String, [], bytes_eq, codes, if◌then◌else◌, some, ◌∷◌}
use treetop_client_go.Errors.{Err, Result, err, invalid, ok, text, ◌>>=◌, ◌>>◌}
use treetop_client_go.Entities.{
  Action, Group, Principal, PrincipalKind, User, action_with_namespace, group_principal,
  group_with_namespace, new_action, new_group, new_user, principal_user, user_principal,
  user_with_groups, user_with_namespace, validate_action, validate_group, validate_principal,
  validate_user,
}
use treetop_client_go.Json.{
  Json, Jsons, array, element, member, nested, no_elements, no_members, object, read_string,
  string_json,
}
use treetop_client_go.Json.Fields.{members_of, pointer_field, read_array, read_map, required}
use treetop_client_go.Codec.Names.{namespace_from_json, namespace_json}

pub is_required : String → Err
is_required field = invalid (text field) [] "is required"

-- `Group.MarshalJSON`
pub group_json : Group → Result Json
group_json g = do
  validate_group g
  n ← nested "Namespace" (namespace_json g.namespace)
  ok (
      object
        (member (codes "id") (string_json g.id.value) (member (codes "namespace") n no_members)))

-- `Group.UnmarshalJSON`
pub group_from_json : Json → Result Group
group_from_json v = do
  ms ← members_of v
  id ← pointer_field (codes "id") read_string ms
  namespace ← pointer_field (codes "namespace") namespace_from_json ms
  id' ← required (is_required "group.id") id
  n ← required (is_required "group.namespace") namespace
  new_group id' (some (group_with_namespace n) ∷ [])

groups_json : List Group → Result Jsons
groups_json [] = ok no_elements
groups_json (g ∷ gs) =
    nested "Group" (group_json g) >>= λ j. groups_json gs >>= λ js. ok (element j js)

-- `User.MarshalJSON`
pub user_json : User → Result Json
user_json u = do
  validate_user u
  n ← nested "Namespace" (namespace_json u.namespace)
  gs ← groups_json u.groups
  ok (
      object (
        member (codes "id") (string_json u.id.value)
          (member (codes "namespace") n (member (codes "groups") (array gs) no_members))))

-- `User.UnmarshalJSON`
pub user_from_json : Json → Result User
user_from_json v = do
  ms ← members_of v
  id ← pointer_field (codes "id") read_string ms
  namespace ← pointer_field (codes "namespace") namespace_from_json ms
  groups ← pointer_field (codes "groups") (read_array group_from_json) ms
  id' ← required (is_required "user.id") id
  n ← required (is_required "user.namespace") namespace
  gs ← required (is_required "user.groups") groups
  new_user id' (some (user_with_namespace n) ∷ some (user_with_groups gs) ∷ [])

member_json : PrincipalKind → User → Group → Result Json
member_json principal_user u g =
    nested "User" (user_json u) >>= λ j. ok (object (member (codes "User") j no_members))
member_json _ u g =
    nested "Group" (group_json g) >>= λ j. ok (object (member (codes "Group") j no_members))

-- `Principal.MarshalJSON`
pub principal_json : Principal → Result Json
principal_json p = validate_principal p >> member_json p.kind p.user p.group

variant_error : Err
variant_error = invalid (text "principal") [] "must contain exactly one of User or Group"

user_variant : Json → Result Principal
user_variant v = do u ← user_from_json v; validate_user u; ok (user_principal u)

group_variant : Json → Result Principal
group_variant v = do g ← group_from_json v; validate_group g; ok (group_principal g)

-- The variants, on the only entry of the map.
read_variant : List (Bytes × Json) → Result Principal
read_variant ((key, v) ∷ []) =
    if bytes_eq key (codes "User")
    then user_variant v
    else if bytes_eq key (codes "Group")
    then group_variant v
    else err (invalid (text "principal") [] "unknown principal variant")
read_variant _ = err variant_error

-- `Principal.UnmarshalJSON`
pub principal_from_json : Json → Result Principal
principal_from_json v = read_map (λ j. ok j) v [] >>= read_variant

-- `Action.MarshalJSON`
pub action_json : Action → Result Json
action_json a = do
  validate_action a
  n ← nested "Namespace" (namespace_json a.namespace)
  ok (
      object
        (member (codes "id") (string_json a.id.value) (member (codes "namespace") n no_members)))

-- `Action.UnmarshalJSON`
pub action_from_json : Json → Result Action
action_from_json v = do
  ms ← members_of v
  id ← pointer_field (codes "id") read_string ms
  namespace ← pointer_field (codes "namespace") namespace_from_json ms
  id' ← required (is_required "action.id") id
  n ← required (is_required "action.namespace") namespace
  new_action id' (some (action_with_namespace n) ∷ [])

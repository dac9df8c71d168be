-- ===== src/Entities.antt =====
-- request_types.go: groups, users, principals and actions.
pub mod Valid
pub mod Construct
use treetop_client_go.Base.{Bytes, List, [], codes, map, refl, some, ◌++◌, ◌∷◌, ◌≡◌}
use treetop_client_go.Errors.{Check, Result, err, invalid, nil, ok, pass, text, ◌>>=◌, ◌>>◌}
use treetop_client_go.Cedar.{
  EntityId, Namespace, cedar_runs, global, new_entity_id, unset_id, validate_id, validate_ns,
}
use treetop_client_go.Options.{Setter, apply_all}

pub record Group : Type 0 where
  pub id : EntityId
  pub namespace : Namespace

abbrev pub zero_group : Group
zero_group = record { id = unset_id; namespace = global }

-- `GroupWithNamespace`
pub group_with_namespace : Namespace → Group → Result Group
group_with_namespace n group =
    validate_ns (text "group.namespace") n >> ok (record group { namespace = n })

-- `Group.Validate`
pub validate_group : Group → Check
validate_group g = do
  validate_id (text "group.id") g.id
  validate_ns (text "group.namespace") g.namespace

pub new_group : Bytes → List (Setter Group) → Result Group
new_group id options = do
  validated ← new_entity_id (text "group.id") id
  group ← apply_all "nil group option" options (record { id = validated; namespace = global })
  validate_group group
  ok group

pub record User : Type 0 where
  pub id : EntityId
  pub namespace : Namespace
  pub groups : List Group

abbrev pub zero_user : User
zero_user = record { id = unset_id; namespace = global; groups = [] }

pub user_with_namespace : Namespace → User → Result User
user_with_namespace n user =
    validate_ns (text "user.namespace") n >> ok (record user { namespace = n })

pub validate_groups : List Group → Check
validate_groups [] = pass
validate_groups (g ∷ gs) = validate_group g >> validate_groups gs

pub user_with_groups : List Group → User → Result User
user_with_groups groups user =
    validate_groups groups >> ok (record user { groups = user.groups ++ groups })

-- The loop over the names, after the groups `done`.
groups_named : List Bytes → List Group → Result (List Group)
groups_named [] done = ok done
groups_named (name ∷ names) done = new_group name [] >>= λ g. groups_named names (done ++ g ∷ [])

pub user_with_group_names : List Bytes → User → Result User
user_with_group_names names user = do
  groups ← groups_named names []
  ok (record user { groups = user.groups ++ groups })

-- `User.Validate`
pub validate_user : User → Check
validate_user u = do
  validate_id (text "user.id") u.id
  validate_ns (text "user.namespace") u.namespace
  validate_groups u.groups

pub new_user : Bytes → List (Setter User) → Result User
new_user id options = do
  validated ← new_entity_id (text "user.id") id
  user ←
      apply_all "nil user option" options
        (record { id = validated; namespace = global; groups = [] })
  validate_user user
  ok user

-- `principalKind`; `unset_kind` is the zero value.
pub data PrincipalKind : Type 0 where
  unset_kind principal_user principal_group : PrincipalKind

pub record Principal : Type 0 where
  pub kind : PrincipalKind
  pub user : User
  pub group : Group

abbrev pub zero_principal : Principal
zero_principal = record { kind = unset_kind; user = zero_user; group = zero_group }

unfoldable pub user_principal : User → Principal
user_principal u = record { kind = principal_user; user = u; group = zero_group }

unfoldable pub group_principal : Group → Principal
group_principal g = record { kind = principal_group; user = zero_user; group = g }

validate_kind : PrincipalKind → User → Group → Check
validate_kind principal_user u g = validate_user u
validate_kind principal_group u g = validate_group g
validate_kind unset_kind u g =
    err (invalid (text "principal") [] "must contain exactly one of User or Group")

-- `Principal.Validate`
pub validate_principal : Principal → Check
validate_principal p = validate_kind p.kind p.user p.group

pub record Action : Type 0 where
  pub id : EntityId
  pub namespace : Namespace

abbrev pub zero_action : Action
zero_action = record { id = unset_id; namespace = global }

pub action_with_namespace : Namespace → Action → Result Action
action_with_namespace n action =
    validate_ns (text "action.namespace") n >> ok (record action { namespace = n })

-- `Action.Validate`
pub validate_action : Action → Check
validate_action a = do
  validate_id (text "action.id") a.id
  validate_ns (text "action.namespace") a.namespace

pub new_action : Bytes → List (Setter Action) → Result Action
new_action id options = do
  validated ← new_entity_id (text "action.id") id
  action ← apply_all "nil action option" options (record { id = validated; namespace = global })
  validate_action action
  ok action

-- The definitions of this file, for a test by evaluation.
unfoldable pub entities_run : Unit {0}
unfolding cedar_runs apply_all group_with_namespace validate_group new_group user_with_namespace
    validate_groups user_with_groups groups_named user_with_group_names validate_user new_user
    user_principal group_principal validate_kind validate_principal action_with_namespace
    validate_action new_action
entities_run = tt

user_runs :
    (new_user
        (codes "alice")
        (some (user_with_group_names (codes "admins" ∷ codes "dev" ∷ [])) ∷ [])
      >>= λ u. ok (map (λ (g : Group). g.id.value) u.groups))
    ≡ ok (codes "admins" ∷ codes "dev" ∷ [])
unfolding entities_run
user_runs = refl

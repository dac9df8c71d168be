-- ===== src/Input.antt =====
-- request_input.go: requests from raw input.
pub mod Sound
use treetop_client_go.Base.{Bytes, List, Option, [], if◌then◌else◌, is_empty, map, none, some, ◌∷◌}
use treetop_client_go.Errors.{Result, ◌>>=◌, ◌>>◌}
use treetop_client_go.Validation.{Net}
use treetop_client_go.Cedar.{new_namespace, segments}
use treetop_client_go.Options.{Setter}
use treetop_client_go.Entities.{
  Action, Group, User, action_with_namespace, group_with_namespace, new_group,
  user_with_group_names, user_with_groups, user_with_namespace,
}
use treetop_client_go.Request.{Attrs, Request, Resource, resource_with_attributes}
use treetop_client_go.Builder.{
  RequestBuilder, build_request, builder_runs, new_request_builder, set_action, set_group,
  set_resource, set_user,
}

pub record GroupInput : Type 0 where
  pub name : Bytes
  pub namespace : List Bytes

pub record UserInput : Type 0 where
  pub name : Bytes
  pub namespace : List Bytes
  pub group_names : List Bytes
  pub groups : List GroupInput

-- `PrincipalInput`, a sealed interface: a user or a group, by value or by a pointer that is not nil, or
-- `no_input`, which is nil or a nil pointer.
pub data PrincipalInput : Type 0 where
  no_input : PrincipalInput
  user_input : UserInput → PrincipalInput
  group_input : GroupInput → PrincipalInput

-- `attributes` is `none` for a nil map.
pub record ResourceInput : Type 0 where
  pub kind : Bytes
  pub id : Bytes
  pub attributes : Option Attrs

pub record RequestInput : Type 0 where
  pub principal : PrincipalInput
  pub action : Bytes
  pub action_namespace : List Bytes
  pub resource : ResourceInput

pub user_namespace_input : List Bytes → Setter User
user_namespace_input segments =
    some (λ user. new_namespace segments >>= λ n. user_with_namespace n user)

pub group_namespace_input : List Bytes → Setter Group
group_namespace_input segments =
    some (λ group. new_namespace segments >>= λ n. group_with_namespace n group)

pub action_namespace_input : List Bytes → Setter Action
action_namespace_input segments =
    some (λ action. new_namespace segments >>= λ n. action_with_namespace n action)

pub group_from_input : GroupInput → Result Group
group_from_input input = do
  namespace ← new_namespace input.namespace
  new_group input.name (some (group_with_namespace namespace) ∷ [])

-- The option that `applyUserInput` makes of one of the groups.
group_option : GroupInput → Setter User
group_option group =
    some (λ user. group_from_input group >>= λ validated. user_with_groups (validated ∷ []) user)

-- The options of `applyUserInput`.
pub input_options : UserInput → List (Setter User)
input_options input =
    user_namespace_input input.namespace
    ∷ (if is_empty input.group_names
        then map group_option input.groups
        else some (user_with_group_names input.group_names) ∷ map group_option input.groups)

pub apply_user_input : UserInput → RequestBuilder → RequestBuilder
apply_user_input input builder = set_user input.name (input_options input) builder

-- The `switch` on the principal.
apply_principal : PrincipalInput → RequestBuilder → RequestBuilder
apply_principal no_input builder = builder
apply_principal (user_input u) builder = apply_user_input u builder
apply_principal (group_input g) builder =
    set_group g.name (group_namespace_input g.namespace ∷ []) builder

pub attributes_option : Net → Option Attrs → List (Setter Resource)
attributes_option net none = []
attributes_option net (some attrs) = some (resource_with_attributes net attrs) ∷ []

-- The builder that `NewRequestFrom` fills.
pub input_builder : Net → RequestInput → RequestBuilder
input_builder net input =
    set_resource input.resource.kind input.resource.id
      (attributes_option net input.resource.attributes)
      (set_action input.action (action_namespace_input input.action_namespace ∷ [])
        (apply_principal input.principal new_request_builder))

pub new_request_from : Net → RequestInput → Result Request
new_request_from net input = build_request net (some (input_builder net input))

-- The definitions of this file, for a test by evaluation.
unfoldable pub input_runs : Unit {0}
unfolding builder_runs user_namespace_input group_namespace_input action_namespace_input
    group_from_input group_option input_options apply_user_input apply_principal attributes_option
    input_builder new_request_from
input_runs = tt

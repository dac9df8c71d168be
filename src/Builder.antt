-- ===== src/Builder.antt =====
-- request_builder.go: the request builder.
pub mod Outcome
pub mod Parts
pub mod Twice
use treetop_client_go.Base.{
  Bool, Bytes, List, Option, String, [], false, if◌then◌else◌, none, not, some, true, ◌++◌, ◌∷◌,
}
use treetop_client_go.Errors.{
  Err, Errs, Result, build, configuration, cons, err, invalid, lit, nil, ok, text, wrap, wrapped,
  ◌>>=◌,
}
use treetop_client_go.Validation.{Net}
use treetop_client_go.Options.{Setter}
use treetop_client_go.Entities.{
  Action, Group, Principal, User, group_principal, new_action, new_group, new_user, user_principal,
  zero_action, zero_principal,
}
use treetop_client_go.Request.{
  Request, Resource, new_request, new_resource, request_runs, zero_resource,
}

-- `requestBuilderPrincipal`
pub data BuilderPrincipal : Type 0 where
  no_principal builder_user builder_group : BuilderPrincipal

pub record RequestBuilder : Type 0 where
  pub principal_kind : BuilderPrincipal
  pub principal_id : Bytes
  pub user_options : List (Setter User)
  pub group_options : List (Setter Group)
  pub action_id : Bytes
  pub action_options : List (Setter Action)
  pub resource_type : Bytes
  pub resource_id : Bytes
  pub resource_options : List (Setter Resource)
  pub action_set : Bool
  pub resource_set : Bool
  pub input_errors : List Err

pub new_request_builder : RequestBuilder
new_request_builder = record {
  principal_kind = no_principal;
  principal_id = [];
  user_options = [];
  group_options = [];
  action_id = [];
  action_options = [];
  resource_type = [];
  resource_id = [];
  resource_options = [];
  action_set = false;
  resource_set = false;
  input_errors = [];
}

duplicate_error : String → Err
duplicate_error field =
    configuration (lit "request builder " ∷ lit field ∷ lit " was set more than once" ∷ [])

-- `duplicate`
duplicate : String → RequestBuilder → RequestBuilder
duplicate field b = record b { input_errors = b.input_errors ++ duplicate_error field ∷ [] }

is_unset : BuilderPrincipal → Bool
is_unset no_principal = true
is_unset _ = false

-- The methods on a builder that is not nil; on a nil builder each of them returns nil.
pub set_user : Bytes → List (Setter User) → RequestBuilder → RequestBuilder
set_user id options b =
    if is_unset b.principal_kind
    then record b { principal_kind = builder_user; principal_id = id; user_options = options }
    else duplicate "principal" b

pub set_group : Bytes → List (Setter Group) → RequestBuilder → RequestBuilder
set_group id options b =
    if is_unset b.principal_kind
    then record b { principal_kind = builder_group; principal_id = id; group_options = options }
    else duplicate "principal" b

pub set_action : Bytes → List (Setter Action) → RequestBuilder → RequestBuilder
set_action id options b =
    if b.action_set
    then duplicate "action" b
    else record b { action_set = true; action_id = id; action_options = options }

pub set_resource : Bytes → Bytes → List (Setter Resource) → RequestBuilder → RequestBuilder
set_resource kind id options b = if b.resource_set then duplicate "resource" b else record b {
  resource_set = true;
  resource_type = kind;
  resource_id = id;
  resource_options = options;
}

-- The three parts of `Build`: a value, or the error that is appended.
principal_part : BuilderPrincipal → RequestBuilder → Result Principal
principal_part builder_user b =
    wrap (text "principal") (new_user b.principal_id b.user_options >>= λ u. ok (user_principal u))
principal_part builder_group b =
    wrap (text "principal")
      (new_group b.principal_id b.group_options >>= λ g. ok (group_principal g))
principal_part no_principal b = err (invalid (text "principal") [] "must be set with User or Group")

pub build_principal : RequestBuilder → Result Principal
build_principal b = principal_part b.principal_kind b

pub build_action : RequestBuilder → Result Action
build_action b =
    if b.action_set
    then wrap (text "action") (new_action b.action_id b.action_options)
    else err (invalid (text "action") [] "must be set")

pub build_resource : Net → RequestBuilder → Result Resource
build_resource net b =
    if b.resource_set
    then wrap (text "resource") (new_resource net b.resource_type b.resource_id b.resource_options)
    else err (invalid (text "resource") [] "must be set")

-- What a part appends to the errors, and what it leaves in its variable.
pub failure {ℓ} : {A : Type ℓ} → Result A → List Err
failure (ok a) = []
failure (err e) = e ∷ []

value_or {ℓ} : {A : Type ℓ} → A → Result A → A
value_or unset (ok a) = a
value_or unset (err e) = unset

pub to_errs : List Err → Errs
to_errs [] = nil
to_errs (e ∷ es) = cons e (to_errs es)

-- The last step, on the collected errors.
finish : Net → List Err → Principal → Action → Resource → Result Request
finish net (e ∷ errors) p a r = err (build (to_errs (e ∷ errors)))
finish net [] p a r = elim (new_request net p a r) [
  | ok request ↦ ok request
  | err e ↦ err (build (cons (wrapped (text "request") e) nil))
]

-- `RequestBuilder.Build`; `none` is a nil builder.
pub build_request : Net → Option RequestBuilder → Result Request
build_request net none = err (configuration (text "request builder must not be nil"))
build_request net (some b) =
    finish net
      (b.input_errors
        ++ (failure (build_principal b)
            ++ (failure (build_action b) ++ failure (build_resource net b))))
      (value_or zero_principal (build_principal b)) (value_or zero_action (build_action b))
      (value_or zero_resource (build_resource net b))

-- The definitions of this file, for a test by evaluation.
unfoldable pub builder_runs : Unit {0}
unfolding request_runs new_request_builder duplicate_error duplicate is_unset set_user set_group
    set_action set_resource principal_part build_principal build_action build_resource failure
    value_or to_errs finish build_request
builder_runs = tt

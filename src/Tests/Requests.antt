-- ===== src/Tests/Requests.antt =====
-- Instances of the theorems on requests, and on what builds them.
use treetop_client_go.Base.{Bytes, List, [], codes, refl, some, ◌∷◌, ◌≡◌, ◌≢◌}
use treetop_client_go.Builder.Twice.{
  action, build_request-perform_all, group, perform_all, resource, user,
}
use treetop_client_go.Entities.{user_principal, user_with_group_names, user_with_namespace}
use treetop_client_go.Errors.{ok}
use treetop_client_go.Request.{Resource, request_runs, resource_with_attribute}
use treetop_client_go.Request.Valid.{IsRequest, validate_request_iff}
use treetop_client_go.Wire.{to_action_wire, to_principal_wire, to_resource_wire}
use treetop_client_go.Wire.Lossless.{of_wire, of_wire_lem}
use treetop_client_go.Builder.{
  RequestBuilder, build_request, builder_runs, new_request_builder, set_action, set_resource,
  set_user,
}
use treetop_client_go.Builder.Outcome.{HasAction, HasPrincipal, HasResource, build_request_iff}
use treetop_client_go.Input.{RequestInput, input_runs, user_input}
use treetop_client_go.Input.Sound.{action_of, new_request_from_iff, principal_of, resource_of}
use treetop_client_go.Tests.{id_of, net, sizes, view_photo}

abbrev core : List Bytes
core = codes "App" ∷ codes "Core" ∷ []

validate_request_iff_example : IsRequest net view_photo
unfolding request_runs
validate_request_iff_example = (validate_request_iff net view_photo).0 refl

of_wire_lem_example :
    of_wire
      (to_principal_wire view_photo.principal)
      (to_action_wire view_photo.action)
      (to_resource_wire view_photo.resource)
    ≡ view_photo
unfolding user_principal
of_wire_lem_example = of_wire_lem net view_photo validate_request_iff_example

abbrev filled_builder : RequestBuilder
filled_builder =
    set_resource (codes "App::Photo") (codes "p1")
      (some (resource_with_attribute net (codes "sizes") sizes) ∷ [])
      (set_action (codes "view") [] (
        set_user (codes "alice")
          (some (user_with_namespace (record { path = codes "App::Core" }))
            ∷ some (user_with_group_names (codes "admins" ∷ []))
            ∷ [])
          new_request_builder))

build_request_iff_example :
    (filled_builder.input_errors ≡ [])
    × HasPrincipal filled_builder view_photo.principal
    × HasAction filled_builder view_photo.action
    × HasResource net filled_builder view_photo.resource
unfolding builder_runs
build_request_iff_example = (build_request_iff net filled_builder view_photo).0 refl

abbrev input : RequestInput
input = record {
  principal = user_input (record {
    name = codes "alice";
    namespace = core;
    group_names = codes "admins" ∷ [];
    groups = [];
  });
  action = codes "view";
  action_namespace = [];
  resource = record {
    kind = codes "App::Photo";
    id = codes "p1";
    attributes = some ((codes "sizes", sizes) ∷ []);
  };
}

new_request_from_iff_example :
    (principal_of input.principal ≡ ok view_photo.principal)
    × (action_of input ≡ ok view_photo.action)
    × (resource_of net input ≡ ok view_photo.resource)
unfolding input_runs
new_request_from_iff_example = (new_request_from_iff net input view_photo).0 refl

abbrev bare : Resource
bare = record { kind = record { name = codes "App::Photo" }; id = id_of (codes "p1"); attrs = [] }

build_request-perform_all_example :
    build_request net (
      some (
        perform_all
          (user (codes "alice") []
            ∷ action (codes "view") []
            ∷ group (codes "admins") []
            ∷ resource (codes "T") (codes "p1") []
            ∷ [])
          new_request_builder))
    ≢ ok view_photo
build_request-perform_all_example =
    build_request-perform_all net [] (action (codes "view") [] ∷ [])
      (resource (codes "T") (codes "p1") [] ∷ []) (user (codes "alice") [])
      (group (codes "admins") []) new_request_builder view_photo refl

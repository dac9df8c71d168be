-- ===== src/Request/Construct.antt =====
-- Whatever its options do, the constructor of resources returns only what its validator accepts, and
-- the constructor of requests returns its arguments.
use treetop_client_go.Base.{Bytes, List, refl, ◌≡◌}
use treetop_client_go.Errors.{>>=-eq-ok, >>_iff, ok, text, wrap}
use treetop_client_go.Validation.{Net}
use treetop_client_go.Cedar.{EntityType, new_entity_id, new_entity_type, validate_type}
use treetop_client_go.Options.{Setter, apply_all}
use treetop_client_go.Entities.{Action, Principal}
use treetop_client_go.Entities.Construct.{checked}
use treetop_client_go.Request.{
  Resource, new_request, new_resource, new_resource_with_type, validate_resource,
}
use treetop_client_go.Request.Valid.{
  IsRequest, IsResource, validate_request_iff, validate_resource_iff,
}

module _ (net : Net) where
  new_resource_with_type-IsResource :
      (kind : EntityType) (id : Bytes) (options : List (Setter Resource)) (r : Resource)
      → new_resource_with_type net kind id options ≡ ok r
      → IsResource net r
  unfolding new_resource_with_type
  new_resource_with_type-IsResource kind id options r h =
      let (_, h1) = (>>_iff (validate_type (text "resource.kind") kind) _).0 h in
      let (vid, _, h2) = >>=-eq-ok (new_entity_id (text "resource.id") id) _ h1 in
      (validate_resource_iff net r).0 (checked (validate_resource net) (apply_all _ options _) r h2)

  -- Whatever its options do, a resource that `NewResource` returns is valid: a Cedar type, a safe ID,
  -- and well-typed attributes under safe names.
  pub new_resource-IsResource :
      (kind id : Bytes) (options : List (Setter Resource)) (r : Resource)
      → new_resource net kind id options ≡ ok r
      → IsResource net r
  unfolding new_resource
  new_resource-IsResource kind id options r h =
      let (t, _, h') = >>=-eq-ok (wrap (text "resource entity type") (new_entity_type kind)) _ h in
      new_resource_with_type-IsResource t id options r h'

  pub new_request_lem :
      (p : Principal) (a : Action) (r : Resource)
      → IsRequest net (record { principal = p; action = a; resource = r })
      → new_request net p a r ≡ ok (record { principal = p; action = a; resource = r })
  unfolding new_request
  new_request_lem p a r v =
      (>>_iff _ _).1
        ((validate_request_iff net (record { principal = p; action = a; resource = r })).1 v, refl)

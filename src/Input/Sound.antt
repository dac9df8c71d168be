-- ===== src/Input/Sound.antt =====
-- When `NewRequestFrom` succeeds, and with what.
use treetop_client_go.Builder.Parts.{build_parts_iff}
use treetop_client_go.Entities.{
  Action, Principal, group_principal, new_action, new_group, new_user, user_principal,
}
use treetop_client_go.Request.{Request, Resource, new_resource}
use treetop_client_go.Builder.{
  RequestBuilder, build_action, build_principal, build_resource, new_request_builder, set_action,
  set_resource,
}
use treetop_client_go.Base.{[], refl, sym, ◌↔◌, ◌∙◌, ◌∷◌, ◌≡◌}
use treetop_client_go.Errors.{Result, err, invalid, ok, text, wrap, ◌>>=◌}
use treetop_client_go.Validation.{Net}
use treetop_client_go.Input.{
  PrincipalInput, RequestInput, action_namespace_input, apply_principal, attributes_option,
  group_input, group_namespace_input, input_builder, input_options, input_runs, new_request_from,
  no_input, user_input,
}

-- The principal of an input, constructed by itself.
abbrev pub principal_of : PrincipalInput → Result Principal
principal_of no_input = err (invalid (text "principal") [] "must be set with User or Group")
principal_of (user_input u) =
    wrap (text "principal") (new_user u.name (input_options u) >>= λ x. ok (user_principal x))
principal_of (group_input g) =
    wrap (text "principal")
      (new_group g.name (group_namespace_input g.namespace ∷ []) >>= λ x. ok (group_principal x))

abbrev pub action_of : RequestInput → Result Action
action_of input =
    wrap (text "action")
      (new_action input.action (action_namespace_input input.action_namespace ∷ []))

abbrev pub resource_of : Net → RequestInput → Result Resource
resource_of net input = wrap (text "resource") (
    new_resource net input.resource.kind input.resource.id
      (attributes_option net input.resource.attributes))

abbrev filled : Net → RequestInput → PrincipalInput → RequestBuilder
filled net input p =
    set_resource input.resource.kind input.resource.id
      (attributes_option net input.resource.attributes)
      (set_action input.action (action_namespace_input input.action_namespace ∷ [])
        (apply_principal p new_request_builder))

-- No part is set twice, and each part is built from its own input.
filled_lem :
    (net : Net) (input : RequestInput) (p : PrincipalInput)
    → ((filled net input p).input_errors ≡ [])
      × (build_principal (filled net input p) ≡ principal_of p)
      × (build_action (filled net input p) ≡ action_of input)
      × (build_resource net (filled net input p) ≡ resource_of net input)
unfolding input_runs
filled_lem net input no_input = (refl, refl, refl, refl)
filled_lem net input (user_input u) = (refl, refl, refl, refl)
filled_lem net input (group_input g) = (refl, refl, refl, refl)

-- `NewRequestFrom` sets nothing twice: it succeeds exactly when the principal, the action and the
-- resource of the input are each constructed, and the request is made of these three. No principal is
-- an error.
pub new_request_from_iff :
    (net : Net) (input : RequestInput) (q : Request)
    → (new_request_from net input ≡ ok q) ↔ (
        (principal_of input.principal ≡ ok q.principal)
        × (action_of input ≡ ok q.action)
        × (resource_of net input ≡ ok q.resource))
unfolding new_request_from input_builder
new_request_from_iff net input q =
    let (none_twice, p, a, r) = filled_lem net input input.principal in
    let (to, from) = build_parts_iff net (filled net input input.principal) q in
    (
      λ h. let (_, hp, ha, hr) = to h in (sym p ∙ hp, sym a ∙ ha, sym r ∙ hr),
      λ (hp, ha, hr). from (none_twice, p ∙ hp, a ∙ ha, r ∙ hr),
    )

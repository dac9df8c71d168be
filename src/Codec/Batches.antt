-- ===== src/Codec/Batches.antt =====
-- authorization_request.go: the JSON form of batch items and of batches.
pub mod RoundTrip
use treetop_client_go.Json.{
  Json, Jsons, Members, array, element, member, nested, no_elements, no_members, object,
  read_string, string_json,
}
use treetop_client_go.Request.{Attrs, Resource, new_request, zero_resource}
use treetop_client_go.Entities.{Action, Principal, zero_action, zero_principal}
use treetop_client_go.Base.{Bytes, List, Option, [], codes, none, some, ◌++◌, ◌∷◌}
use treetop_client_go.Errors.{Result, invalid, ok, text, ◌>>=◌, ◌>>◌}
use treetop_client_go.Validation.{Net}
use treetop_client_go.Options.{Setter}
use treetop_client_go.Batch.{
  AuthRequest, new_auth_request, validate_auth_request, validate_batch, with_context,
  with_request_id,
}
use treetop_client_go.Json.Fields.{
  each_field, members_of, pointer_field, read_array, read_map, required, value_field,
}
use treetop_client_go.Codec.Attributes.{attr_from_json}
use treetop_client_go.Codec.Entities.{
  action_from_json, action_json, principal_from_json, principal_json,
}
use treetop_client_go.Codec.Requests.{attrs_field, resource_from_json, resource_json}

-- A string field with `omitempty`.
pub id_field : Bytes → Members → Members
id_field [] rest = rest
id_field (b ∷ s) rest = member (codes "id") (string_json (b ∷ s)) rest

module _ (net : Net) where
  -- `AuthRequest.MarshalJSON`
  pub auth_request_json : AuthRequest → Result Json
  auth_request_json r = do
    validate_auth_request net r
    p ← nested "Principal" (principal_json r.request.principal)
    a ← nested "Action" (action_json r.request.action)
    s ← nested "Resource" (resource_json net r.request.resource)
    ms ← attrs_field net (codes "context") r.context (
        member (codes "principal") p
          (member (codes "action") a (member (codes "resource") s no_members)))
    ok (object (id_field r.id.value ms))

  id_options : Option Bytes → List (Setter AuthRequest)
  id_options none = []
  id_options (some id) = some (with_request_id id) ∷ []

  context_options : Attrs → List (Setter AuthRequest)
  context_options [] = []
  context_options (e ∷ context) = some (with_context net (e ∷ context)) ∷ []

  -- `AuthRequest.UnmarshalJSON`
  pub auth_request_from_json : Json → Result AuthRequest
  auth_request_from_json v = do
    ms ← members_of v
    id ← pointer_field (codes "id") read_string ms
    context ← each_field (codes "context") (read_map (attr_from_json net)) ms []
    p ← value_field (codes "principal") principal_from_json zero_principal ms
    a ← value_field (codes "action") action_from_json zero_action ms
    s ← value_field (codes "resource") (resource_from_json net) zero_resource ms
    request ← new_request net p a s
    new_auth_request net request (id_options id ++ context_options context)

  auth_requests_json : List AuthRequest → Result Jsons
  auth_requests_json [] = ok no_elements
  auth_requests_json (r ∷ rs) = nested "AuthRequest" (auth_request_json r) >>= λ j.
      auth_requests_json rs >>= λ js. ok (element j js)

  -- `AuthorizeRequest.MarshalJSON`
  pub batch_json : List AuthRequest → Result Json
  batch_json requests = auth_requests_json requests >>= λ js.
      ok (object (member (codes "requests") (array js) no_members))

  -- `AuthorizeRequest.UnmarshalJSON`
  pub batch_from_json : Json → Result (List AuthRequest)
  batch_from_json v = do
    ms ← members_of v
    requests ← pointer_field (codes "requests") (read_array auth_request_from_json) ms
    requests' ←
        required (invalid (text "authorize request") [] "must contain a requests array") requests
    validate_batch net (some requests')
    ok requests'

-- ===== src/Request/Valid.antt =====
-- What the validators of attributes, resources and requests accept.
use treetop_client_go.Base.{All, Bytes, String, [], refl, ◌↔◌, ◌∷◌, ◌≡◌}
use treetop_client_go.Errors.{>>_iff_×₃, Message, iff_trans, pass, wrap_iff}
use treetop_client_go.Text.Split.{split}
use treetop_client_go.Validation.{Net}
use treetop_client_go.Validation.Identifier.{IsIdentifier}
use treetop_client_go.Validation.Entity.{IsName, validate_attribute_name_iff}
use treetop_client_go.Cedar.Valid.{IsId, validate_id_iff, validate_type_iff}
use treetop_client_go.Attr.{AttrValue}
use treetop_client_go.Attr.Validate.{WellTyped, validate_attr_iff}
use treetop_client_go.Entities.Valid.{
  IsAction, IsPrincipal, validate_action_iff, validate_principal_iff,
}
use treetop_client_go.Request.{
  Attrs, Request, Resource, validate_attrs, validate_request, validate_resource,
}

module _ (net : Net) where
  abbrev pub IsEntry : Bytes × AttrValue → Type 0
  IsEntry (name, value) = IsName name × WellTyped net value

  abbrev pub IsResource : Resource → Type 0
  IsResource r = All IsIdentifier (split r.kind.name) × IsId r.id × All IsEntry r.attrs

  abbrev pub IsRequest : Request → Type 0
  IsRequest r = IsPrincipal r.principal × IsAction r.action × IsResource r.resource

  pub validate_attrs_iff :
      (field : Message) (label : String) (attrs : Attrs)
      → (validate_attrs net field label attrs ≡ pass) ↔ All IsEntry attrs
  unfolding validate_attrs
  validate_attrs_iff field label [] = (λ h. tt, λ h. refl)
  validate_attrs_iff field label ((name, value) ∷ attrs) =
      iff_trans
        (>>_iff_×₃ (validate_attribute_name_iff field name)
          (wrap_iff _ (validate_attr_iff net value)) (validate_attrs_iff field label attrs))
        (λ w. ((w.0, w.1), w.2), λ w. (w.0.0, w.0.1, w.1))

  pub validate_resource_iff : (r : Resource) → (validate_resource net r ≡ pass) ↔ IsResource r
  unfolding validate_resource
  validate_resource_iff r =
      >>_iff_×₃ (validate_type_iff _ r.kind) (validate_id_iff _ r.id)
        (validate_attrs_iff _ _ r.attrs)

  -- `Request.Validate` accepts exactly the well-formed requests: a user or a group with safe IDs and
  -- identifiers for namespaces, a safe action, a resource of a Cedar type with a safe ID and
  -- well-typed attributes under safe names.
  pub validate_request_iff : (r : Request) → (validate_request net r ≡ pass) ↔ IsRequest r
  unfolding validate_request
  validate_request_iff r =
      >>_iff_×₃ (validate_principal_iff r.principal) (validate_action_iff r.action)
        (validate_resource_iff r.resource)

-- ===== src/Request/Attributes.antt =====
-- The attributes of a resource under `ResourceWithAttribute`.
use treetop_client_go.Options.{apply_all}
use treetop_client_go.Cedar.Valid.{new_entity_id_lem, validate_type_iff}
use treetop_client_go.Cedar.{EntityId, EntityType}
use treetop_client_go.Base.{
  All, All-put, Bytes, IsMap, [], bytes_eq, if◌then◌else◌, lookup-put, put, puts, puts-IsMap, refl,
  some, ◌∷◌, ◌≡◌,
}
use treetop_client_go.Errors.{>>_iff, ok, text}
use treetop_client_go.Validation.{Net, validate_attribute_name}
use treetop_client_go.Validation.Entity.{validate_attribute_name_iff}
use treetop_client_go.Attr.{AttrValue, validate_attr}
use treetop_client_go.Attr.Validate.{validate_attr_iff}
use treetop_client_go.Request.{
  Attrs, Resource, attribute, new_resource_with_type, resource_with_attribute,
  resource_with_attributes,
}
use treetop_client_go.Request.Valid.{IsEntry, IsResource, validate_resource_iff}

module _ (net : Net) (name : Bytes) (value : AttrValue) (r r' : Resource) where
  -- What the option has checked, and the resource that it leaves.
  with_attribute :
      resource_with_attribute net name value r ≡ ok r'
      → IsEntry net (name, value) × (record r { attrs = put name value r.attrs } ≡ r')
  unfolding resource_with_attribute
  with_attribute h =
      let (n, h') = (>>_iff (validate_attribute_name (text "resource.attrs") name) _).0 h in
      let (v, e) = (>>_iff (validate_attr net value) _).0 h' in
      (((validate_attribute_name_iff _ name).0 n, (validate_attr_iff net value).0 v), cc e)

  -- After `ResourceWithAttribute`, the name has the new value, and every other name what it had.
  pub attribute-resource_with_attribute :
      resource_with_attribute net name value r ≡ ok r'
      → (other : Bytes)
      → attribute r' other ≡ (if bytes_eq name other then some value else attribute r other)
  unfolding attribute
  attribute-resource_with_attribute h other =
      let (_, e) = with_attribute h in rw (← e) (lookup-put name other value r.attrs)

  -- `ResourceWithAttribute` keeps a resource valid.
  pub resource_with_attribute-IsResource :
      resource_with_attribute net name value r ≡ ok r' → IsResource net r → IsResource net r'
  resource_with_attribute-IsResource h (kind, id, attrs) =
      let (entry, e) = with_attribute h in
      rw (← e) (kind, id, All-put (IsEntry net) name value r.attrs entry attrs)

-- Valid entries are taken over one by one.
resource_with_attributes-puts :
    (net : Net) (m : Attrs) (r : Resource)
    → All (IsEntry net) m
    → resource_with_attributes net m r ≡ ok (record r { attrs = puts m r.attrs })
unfolding resource_with_attributes resource_with_attribute puts
resource_with_attributes-puts net [] r h = refl
resource_with_attributes-puts net ((name, value) ∷ m) r ((n, v), h) =
    rw
      (
        (validate_attribute_name_iff (text "resource.attrs") name).1 n,
        (validate_attr_iff net value).1 v,
      )
      (resource_with_attributes-puts net m (record r { attrs = put name value r.attrs }) h)

abbrev resource_with : EntityType → EntityId → Attrs → Resource
resource_with k i m = record { kind = k; id = i; attrs = m }

-- A well-formed resource is what its constructor makes of its parts.
pub new_resource_with_type_lem :
    (net : Net) (r : Resource)
    → IsResource net r
    → IsMap r.attrs
    → new_resource_with_type net r.kind r.id.value
        (some (resource_with_attributes net r.attrs) ∷ [])
      ≡ ok r
unfolding new_resource_with_type apply_all
new_resource_with_type_lem net r (k, i, h) d =
    rw
      (
        (validate_type_iff (text "resource.kind") r.kind).1 k,
        new_entity_id_lem (text "resource.id") r.id i,
        resource_with_attributes-puts net r.attrs (resource_with r.kind r.id []) h,
        puts-IsMap r.attrs d,
      )
      (rw ((validate_resource_iff net r).1 (k, i, h)))

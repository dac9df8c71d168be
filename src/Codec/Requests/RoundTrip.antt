-- ===== src/Codec/Requests/RoundTrip.antt =====
-- Resources and requests are decoded from their JSON forms.
use treetop_client_go.Cedar.{EntityId, EntityType}
use treetop_client_go.Entities.Valid.{IsOfKind, IsPrincipal}
use treetop_client_go.Entities.{
  Group, PrincipalKind, User, group_principal, principal_group, principal_user, unset_kind,
  user_principal,
}
use treetop_client_go.Base.{
  All, Bytes, IsMap, [], bytes_eq, codes, put, puts, puts-IsMap, refl, true, ◌∷◌, ◌≡◌,
}
use treetop_client_go.Errors.{ok}
use treetop_client_go.Text.Runes.{runes}
use treetop_client_go.Text.Runes.Utf8.{coerced, coerced-valid, utf8_runs, valid_utf8}
use treetop_client_go.Validation.{Net}
use treetop_client_go.Attr.{AttrValue}
use treetop_client_go.Request.{Attrs, Request, Resource}
use treetop_client_go.Request.Valid.{
  IsEntry, IsRequest, IsResource, validate_request_iff, validate_resource_iff,
}
use treetop_client_go.Request.Construct.{new_request_lem}
use treetop_client_go.Request.Attributes.{new_resource_with_type_lem}
use treetop_client_go.Json.{
  Json, Members, member, no_members, object, read_pointer, read_string, string_json,
}
use treetop_client_go.Json.Fields.{
  each_field, map_entries, matches, members_of, pointer_field, read_map, required, value_field,
}
use treetop_client_go.Codec.Names.RoundTrip.{
  entity_type_from_json-form, entity_type_json-form, type_form,
}
use treetop_client_go.Codec.Attributes.{attr_from_json}
use treetop_client_go.Codec.Attributes.RoundTrip.{
  IsWritable, attr_form, attr_from_json-attr_form, attr_json-attr_form,
}
use treetop_client_go.Codec.Entities.RoundTrip.{
  IsWritableAction, IsWritablePrincipal, action_form, action_from_json-action_form,
  action_json-action_form, principal_form, principal_from_json-principal_form,
  principal_json-principal_form,
}
use treetop_client_go.Codec.Requests.{
  attrs_field, attrs_members, request_from_json, request_json, resource_from_json, resource_json,
}
use treetop_client_go.Wire.Lossless.{named_member}

abbrev pub IsWritableEntry : Bytes × AttrValue → Type 0
IsWritableEntry (name, v) = (valid_utf8 name ≡ true) × IsWritable v

-- A map of attributes whose names and texts are UTF-8 and whose numbers have 64 bits.
abbrev pub IsWritableMap : Attrs → Type 0
IsWritableMap m = All IsWritableEntry m × IsMap m

abbrev pub IsWritableResource : Resource → Type 0
IsWritableResource r = (valid_utf8 r.id.value ≡ true) × IsWritableMap r.attrs

abbrev pub IsWritableRequest : Request → Type 0
IsWritableRequest r =
    IsWritablePrincipal r.principal × IsWritableAction r.action × IsWritableResource r.resource

unfoldable pub entries_form : Attrs → Members
entries_form [] = no_members
entries_form ((name, v) ∷ m) = member (coerced name) (attr_form v) (entries_form m)

abbrev pub field_form : Bytes → Attrs → Members → Members
field_form name [] rest = rest
field_form name (e ∷ m) rest = member name (object (entries_form (e ∷ m))) rest

abbrev pub resource_form : Resource → Json
resource_form r = object (
    member (codes "kind") (type_form r.kind) (
      member (codes "id") (string_json r.id.value) (field_form (codes "attrs") r.attrs no_members)))

abbrev pub request_form : Request → Json
request_form r = object (
    member (codes "principal") (principal_form r.principal) (
      member (codes "action") (action_form r.action)
        (member (codes "resource") (resource_form r.resource) no_members)))

-- What a request is decoded as: the member of the principal that its kind does not name is lost.
abbrev pub kept : Request → Request
kept r = record r { principal = named_member r.principal.kind r.principal.user r.principal.group }

module _ (net : Net) where
  attrs_members-entries_form :
      (m : Attrs) → All (IsEntry net) m → attrs_members net m ≡ ok (entries_form m)
  unfolding attrs_members entries_form
  attrs_members-entries_form [] h = refl
  attrs_members-entries_form ((name, v) ∷ m) ((_, p), h) =
      rw (attr_json-attr_form net v p, attrs_members-entries_form m h)

  pub attrs_field-field_form :
      (name : Bytes) (m : Attrs) (rest : Members)
      → All (IsEntry net) m
      → attrs_field net name m rest ≡ ok (field_form name m rest)
  unfolding attrs_field
  attrs_field-field_form name [] rest h = refl
  attrs_field-field_form name (e ∷ m) rest h = rw (attrs_members-entries_form (e ∷ m) h)

  pub resource_json-resource_form :
      (r : Resource) → IsResource net r → resource_json net r ≡ ok (resource_form r)
  unfolding resource_json
  resource_json-resource_form r h = rw (
    (validate_resource_iff net r).1 h,
    entity_type_json-form r.kind h.0,
    attrs_field-field_form (codes "attrs") r.attrs no_members h.2,
  )

  -- `Request.MarshalJSON` writes a well-formed request as the object of its three parts.
  pub request_json-request_form :
      (r : Request) → IsRequest net r → request_json net r ≡ ok (request_form r)
  unfolding request_json
  request_json-request_form r h = rw (
    (validate_request_iff net r).1 h,
    principal_json-principal_form r.principal h.0,
    action_json-action_form r.action h.1,
    resource_json-resource_form r.resource h.2,
  )

  pub map_entries-entries_form :
      (m done : Attrs)
      → All (IsEntry net) m
      → All IsWritableEntry m
      → map_entries (attr_from_json net) (entries_form m) done ≡ ok (puts m done)
  unfolding map_entries entries_form puts
  map_entries-entries_form [] done h w = refl
  map_entries-entries_form ((name, v) ∷ m) done ((_, p), h) ((u, q), w) =
      rw (coerced-valid name u, attr_from_json-attr_form net v p q)
        (map_entries-entries_form m (put name v done) h w)

  resource_lem :
      (k : EntityType) (i : EntityId) (m : Attrs)
      → IsResource net (record { kind = k; id = i; attrs = m })
      → IsWritableResource (record { kind = k; id = i; attrs = m })
      → resource_from_json net (resource_form (record { kind = k; id = i; attrs = m }))
        ≡ ok (record { kind = k; id = i; attrs = m })
  unfolding resource_from_json read_map members_of pointer_field each_field required matches runes
      utf8_runs bytes_eq read_string read_pointer string_json
  resource_lem k i [] h w =
      rw (coerced-valid i.value w.0, entity_type_from_json-form k h.0)
        (new_resource_with_type_lem net (record { kind = k; id = i; attrs = [] }) h w.1.1)
  resource_lem k i (e ∷ m) h w =
      rw
        (
          coerced-valid i.value w.0,
          entity_type_from_json-form k h.0,
          map_entries-entries_form (e ∷ m) [] h.2 w.1.0,
          puts-IsMap (e ∷ m) w.1.1,
        )
        (new_resource_with_type_lem net (record { kind = k; id = i; attrs = e ∷ m }) h w.1.1)

  -- A well-formed resource that can be written is decoded from its JSON form.
  pub resource_from_json-resource_form :
      (r : Resource)
      → IsResource net r
      → IsWritableResource r
      → resource_from_json net (resource_form r) ≡ ok r
  resource_from_json-resource_form r h w = resource_lem r.kind r.id r.attrs h w

  named_member-IsPrincipal :
      (k : PrincipalKind) (u : User) (g : Group) → IsOfKind k u g → IsPrincipal (named_member k u g)
  unfolding user_principal group_principal
  named_member-IsPrincipal principal_user u g h = h
  named_member-IsPrincipal principal_group u g h = h
  named_member-IsPrincipal unset_kind u g h = absurd h

  pub kept-IsRequest : (r : Request) → IsRequest net r → IsRequest net (kept r)
  kept-IsRequest r h =
      (named_member-IsPrincipal r.principal.kind r.principal.user r.principal.group h.0, h.1, h.2)

  -- A well-formed request that can be written is decoded from its JSON form.
  pub request_from_json-request_form :
      (r : Request)
      → IsRequest net r
      → IsWritableRequest r
      → request_from_json net (request_form r) ≡ ok (kept r)
  unfolding request_from_json members_of value_field each_field matches runes utf8_runs bytes_eq
  request_from_json-request_form r h w =
      rw
        (
          principal_from_json-principal_form r.principal h.0 w.0,
          action_from_json-action_form r.action h.1 w.1,
          resource_from_json-resource_form r.resource h.2 w.2,
        )
        (new_request_lem net _ r.action r.resource (kept-IsRequest r h))

-- ===== src/Codec/Batches/RoundTrip.antt =====
-- Batch items and batches are decoded from their JSON forms.
use treetop_client_go.Batch.Items.{
  new_auth_request_lem, plain_item, with_context_lem, with_request_id_lem,
}
use treetop_client_go.Request.Construct.{new_request_lem}
use treetop_client_go.Codec.Requests.{resource_from_json}
use treetop_client_go.Batch.Unique.{
  IsAuthRequest, IsDistinct, given_ids, onto, validate_auth_request_iff, validate_batch_iff,
}
use treetop_client_go.Batch.{AuthRequest, request_id, validate_batch}
use treetop_client_go.Cedar.{RequestId}
use treetop_client_go.Codec.Entities.{action_from_json, principal_from_json}
use treetop_client_go.Base.{
  All, Bool, Bytes, List, [], ap, bytes_eq, codes, false, map, puts-IsMap, refl, some, subst, sym,
  true, ◌∷◌, ◌≡◌,
}
use treetop_client_go.Errors.{>>=-eq-ok, >>_iff, ok, pass, ◌>>=◌}
use treetop_client_go.Text.Runes.{runes}
use treetop_client_go.Text.Runes.Utf8.{coerced-valid, utf8_runs, valid_utf8}
use treetop_client_go.Validation.{Net}
use treetop_client_go.Options.{apply_all}
use treetop_client_go.Request.{Attrs, Request, new_request}
use treetop_client_go.Json.{
  Json, Jsons, array, element, member, no_elements, no_members, object, read_pointer, read_string,
  string_json,
}
use treetop_client_go.Json.Fields.{
  each_field, matches, members_of, pointer_field, read_array, read_items, read_map, required,
  value_field,
}
use treetop_client_go.Codec.Entities.RoundTrip.{
  action_form, action_from_json-action_form, action_json-action_form, principal_form,
  principal_from_json-principal_form, principal_json-principal_form,
}
use treetop_client_go.Codec.Requests.RoundTrip.{
  IsWritableMap, IsWritableRequest, attrs_field-field_form, field_form, kept, kept-IsRequest,
  map_entries-entries_form, resource_form, resource_from_json-resource_form,
  resource_json-resource_form,
}
use treetop_client_go.Codec.Batches.{
  auth_request_from_json, auth_request_json, auth_requests_json, batch_from_json, batch_json,
  context_options, id_field, id_options,
}

-- An ID that the package made: a set one, or the zero value.
abbrev pub IsMade : RequestId → Type 0
IsMade id = id.set ≡ false → id.value ≡ []

abbrev pub IsWritableItem : AuthRequest → Type 0
IsWritableItem r =
    (IsMade r.id × (valid_utf8 r.id.value ≡ true))
    × IsWritableMap r.context
    × IsWritableRequest r.request

-- The three parts of the request, and the two fields that may be left out.
abbrev pub item_form : AuthRequest → Json
item_form r = object (
    id_field r.id.value (
      field_form (codes "context") r.context (
        member (codes "principal") (principal_form r.request.principal) (
          member (codes "action") (action_form r.request.action)
            (member (codes "resource") (resource_form r.request.resource) no_members)))))

unfoldable pub items_form : List AuthRequest → Jsons
items_form [] = no_elements
items_form (r ∷ rs) = element (item_form r) (items_form rs)

abbrev pub batch_form : List AuthRequest → Json
batch_form rs = object (member (codes "requests") (array (items_form rs)) no_members)

abbrev pub kept_item : AuthRequest → AuthRequest
kept_item r = record r { request = kept r.request }

abbrev item : RequestId → Attrs → Request → AuthRequest
item i m r = record { id = i; context = m; request = r }

abbrev rid : Bytes → Bool → RequestId
rid v s = record { value = v; set = s }

module _ (net : Net) where
  pub auth_request_json-item_form :
      (r : AuthRequest) → IsAuthRequest net r → auth_request_json net r ≡ ok (item_form r)
  unfolding auth_request_json
  auth_request_json-item_form r h = rw (
    (validate_auth_request_iff net r).1 h,
    principal_json-principal_form r.request.principal h.2.0,
    action_json-action_form r.request.action h.2.1,
    resource_json-resource_form net r.request.resource h.2.2,
    attrs_field-field_form net (codes "context") r.context _ h.1,
  )

  -- The item that the fields make, once the three parts of the request are decoded.
  fields_lem :
      (v : Bytes) (s : Bool) (m : Attrs) (r : Request)
      → IsAuthRequest net (item (rid v s) m (kept r))
      → IsWritableItem (item (rid v s) m r)
      → principal_from_json (principal_form r.principal) ≡ ok (kept r).principal
      → action_from_json (action_form r.action) ≡ ok r.action
      → resource_from_json net (resource_form r.resource) ≡ ok r.resource
      → new_request net (kept r).principal r.action r.resource ≡ ok (kept r)
      → auth_request_from_json net (item_form (item (rid v s) m r)) ≡ ok (item (rid v s) m (kept r))
  unfolding auth_request_from_json id_field id_options context_options apply_all read_map members_of
      pointer_field value_field each_field matches runes utf8_runs bytes_eq read_string read_pointer
      string_json
  fields_lem [] true m r h w p a s n = absurd (h.0 refl)
  fields_lem (b ∷ v) false m r h w p a s n = cc (w.0.0 refl)
  fields_lem [] false [] r h w p a s n =
      rw (p, a, s, n) (new_auth_request_lem net (kept r) [] _ refl h)
  fields_lem [] false (e ∷ m) r h w p a s n =
      rw (map_entries-entries_form net (e ∷ m) [] h.1 w.1.0, puts-IsMap (e ∷ m) w.1.1, p, a, s, n)
        (new_auth_request_lem net (kept r) _ _
          (rw (with_context_lem net (e ∷ m) (plain_item (kept r)) h.1 w.1.1)) h)
  fields_lem (b ∷ v) true [] r h w p a s n =
      rw (coerced-valid (b ∷ v) w.0.1, p, a, s, n)
        (new_auth_request_lem net (kept r) _ _
          (rw (with_request_id_lem (b ∷ v) (plain_item (kept r)) (h.0 refl))) h)
  fields_lem (b ∷ v) true (e ∷ m) r h w p a s n =
      rw
        (
          coerced-valid (b ∷ v) w.0.1,
          map_entries-entries_form net (e ∷ m) [] h.1 w.1.0,
          puts-IsMap (e ∷ m) w.1.1,
          p,
          a,
          s,
          n,
        )
        (new_auth_request_lem net (kept r) _ _
          (rw (
            with_request_id_lem (b ∷ v) (plain_item (kept r)) (h.0 refl),
            with_context_lem net (e ∷ m) _ h.1 w.1.1,
          ))
          h)

  kept_item-IsAuthRequest :
      (r : AuthRequest) → IsAuthRequest net r → IsAuthRequest net (kept_item r)
  kept_item-IsAuthRequest r h = (h.0, h.1, kept-IsRequest net r.request h.2)

  -- A valid item that can be written is decoded from its JSON form.
  pub auth_request_from_json-item_form :
      (r : AuthRequest)
      → IsAuthRequest net r
      → IsWritableItem r
      → auth_request_from_json net (item_form r) ≡ ok (kept_item r)
  auth_request_from_json-item_form r h w =
      fields_lem r.id.value r.id.set r.context r.request (kept_item-IsAuthRequest r h) w
        (principal_from_json-principal_form r.request.principal h.2.0 w.2.0)
        (action_from_json-action_form r.request.action h.2.1 w.2.1)
        (resource_from_json-resource_form net r.request.resource h.2.2 w.2.2)
        (new_request_lem net _ _ _ (kept-IsRequest net r.request h.2))

  auth_requests_json-items_form :
      (rs : List AuthRequest)
      → All (IsAuthRequest net) rs
      → auth_requests_json net rs ≡ ok (items_form rs)
  unfolding auth_requests_json items_form
  auth_requests_json-items_form [] h = refl
  auth_requests_json-items_form (r ∷ rs) (p, h) =
      rw (auth_request_json-item_form r p, auth_requests_json-items_form rs h)

  read_items-items_form :
      (rs : List AuthRequest)
      → All (IsAuthRequest net) rs
      → All IsWritableItem rs
      → read_items (auth_request_from_json net) (items_form rs) ≡ ok (map kept_item rs)
  unfolding read_items items_form
  read_items-items_form [] h w = refl
  read_items-items_form (r ∷ rs) (p, h) (q, w) =
      rw (auth_request_from_json-item_form r p q, read_items-items_form rs h w)

  -- `AuthorizeRequest.MarshalJSON` writes a batch of valid items as the object of their forms.
  pub batch_json-batch_form :
      (rs : List AuthRequest) → All (IsAuthRequest net) rs → batch_json net rs ≡ ok (batch_form rs)
  unfolding batch_json
  batch_json-batch_form rs h = rw (auth_requests_json-items_form rs h)

  All-kept_item :
      (rs : List AuthRequest)
      → All (IsAuthRequest net) rs
      → All (IsAuthRequest net) (map kept_item rs)
  All-kept_item [] h = tt
  All-kept_item (r ∷ rs) (p, h) = (kept_item-IsAuthRequest r p, All-kept_item rs h)

  given_ids-kept_item : (rs : List AuthRequest) → given_ids (map kept_item rs) ≡ given_ids rs
  unfolding request_id
  given_ids-kept_item [] = refl
  given_ids-kept_item (r ∷ rs) = ap (onto (request_id r)) (given_ids-kept_item rs)

  -- A valid batch is decoded from the JSON that its `MarshalJSON` writes, with nothing lost but the
  -- member of each principal that its kind does not name. The texts are UTF-8, the numbers have 64
  -- bits, no two attributes of a map have the same name, and an ID that is not set is empty.
  pub batch_from_json-batch_json :
      (rs : List AuthRequest)
      → validate_batch net (some rs) ≡ pass
      → All IsWritableItem rs
      → (batch_json net rs >>= batch_from_json net) ≡ ok (map kept_item rs)
  unfolding batch_from_json read_array members_of pointer_field each_field required matches runes
      utf8_runs bytes_eq read_pointer
  batch_from_json-batch_json rs v w =
      let (h, d) = (validate_batch_iff net rs).0 v in
      let v' =
        (validate_batch_iff net (map kept_item rs)).1
          (All-kept_item rs h, subst IsDistinct (sym (given_ids-kept_item rs)) d) in
      rw (batch_json-batch_form rs h, read_items-items_form rs h w) (rw v')

  -- Whatever JSON is decoded as a batch, the batch has valid items with distinct IDs.
  pub batch_from_json-IsAuthRequest :
      (v : Json) (rs : List AuthRequest)
      → batch_from_json net v ≡ ok rs
      → All (IsAuthRequest net) rs × IsDistinct (given_ids rs)
  unfolding batch_from_json
  batch_from_json-IsAuthRequest v rs e =
      let (ms, _, e1) = >>=-eq-ok (members_of v) _ e in
      let (o, _, e2) = >>=-eq-ok (pointer_field (codes "requests") _ ms) _ e1 in
      let (rs', _, e3) = >>=-eq-ok (required _ o) _ e2 in
      let (h, q) = (>>_iff (validate_batch net (some rs')) (ok rs')).0 e3 in
      let same : rs' ≡ rs = cc q in (validate_batch_iff net rs).0 (rw (← same) h)

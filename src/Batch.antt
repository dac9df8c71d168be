-- ===== src/Batch.antt =====
-- authorization_request.go: batch items and batches with their validation.
pub mod Unique
pub mod Items
use treetop_client_go.Base.{
  Bool, Bytes, List, Option, [], bytes_eq, false, if◌then◌else◌, none, not, put, some, ℕ, ◌+◌, ◌||◌,
  ◌∷◌,
}
use treetop_client_go.Base.Int.{pos}
use treetop_client_go.Errors.{
  Check, Result, arg, err, invalid, lit, nil, num, ok, pass, quoted, refuse_if, text, wrap, ◌>>=◌,
  ◌>>◌,
}
use treetop_client_go.Validation.{Net, validate_attribute_name}
use treetop_client_go.Cedar.{RequestId, new_request_id, no_request_id, validate_rid}
use treetop_client_go.Attr.{validate_attr}
use treetop_client_go.Options.{Setter, apply_all}
use treetop_client_go.Request.{
  Attrs, Request, attribute, request_runs, validate_attrs, validate_request,
}

pub record AuthRequest : Type 0 where
  pub id : RequestId
  pub context : Attrs
  pub request : Request

pub with_request_id : Bytes → AuthRequest → Result AuthRequest
with_request_id id r = do validated ← new_request_id id; ok (record r { id = validated })

-- `AuthRequest.ID`
unfoldable pub request_id : AuthRequest → Option Bytes
request_id r = if r.id.set then some r.id.value else none

is_member : Bytes → List Bytes → Bool
is_member id [] = false
is_member id (seen ∷ rest) = bytes_eq seen id || is_member id rest

-- The IDs of the items seen so far, with that of the current item if it has one and it is new.
note_id : Option Bytes → List Bytes → Result (List Bytes)
note_id none seen = ok seen
note_id (some id) seen =
    refuse_if (is_member id seen)
      (invalid (text "request ID") (arg id ∷ []) "is duplicated in the batch")
    >> ok (id ∷ seen)

module _ (net : Net) where
  -- The loop of `WithContext`, with the entries `done` in the new map.
  context_loop : Attrs → Attrs → Result Attrs
  context_loop [] done = ok done
  context_loop ((name, value) ∷ attrs) done = do
    validate_attribute_name (text "auth_request.context") name
    wrap (lit "context attribute" ∷ quoted name ∷ []) (validate_attr net value)
    context_loop attrs (put name value done)

  pub with_context : Attrs → AuthRequest → Result AuthRequest
  with_context context r = do entries ← context_loop context []; ok (record r { context = entries })

  -- `AuthRequest.Validate`
  pub validate_auth_request : AuthRequest → Check
  validate_auth_request r = do
    if r.id.set then validate_rid r.id else pass
    validate_attrs net (text "auth_request.context") "context attribute" r.context
    validate_request net r.request

  pub new_auth_request : Request → List (Setter AuthRequest) → Result AuthRequest
  new_auth_request request options = do
    checked ←
        apply_all "nil authorization request option" options
          (record { id = no_request_id; context = []; request = request })
    validate_auth_request checked
    ok checked

  -- The loop of `AuthorizeRequest.Validate`, at position `i` with the IDs seen so far.
  batch_loop : ℕ → List AuthRequest → List Bytes → Check
  batch_loop i [] seen = pass
  batch_loop i (r ∷ rs) seen = do
    wrap (lit "authorize request" ∷ num (pos i) ∷ []) (validate_auth_request r)
    seen' ← note_id (request_id r) seen
    batch_loop (i + 1) rs seen'

  -- `AuthorizeRequest.Validate`; `none` is a nil pointer.
  pub validate_batch : Option (List AuthRequest) → Check
  validate_batch none = err (invalid (text "authorize request") [] "must not be nil")
  validate_batch (some requests) = batch_loop 0 requests []

  pub new_authorize_request : List AuthRequest → Result (List AuthRequest)
  new_authorize_request requests = validate_batch (some requests) >> ok requests

  pub single_authorize_request : Request → Result (List AuthRequest)
  single_authorize_request request = do
    checked ← new_auth_request request []
    new_authorize_request (checked ∷ [])

  items_of : List Request → List AuthRequest
  items_of [] = []
  items_of (request ∷ rest) =
      record { id = no_request_id; context = []; request = request } ∷ items_of rest

  pub requests_batch : List Request → Result (List AuthRequest)
  requests_batch requests = new_authorize_request (items_of requests)

-- The definitions of this file, for a test by evaluation.
unfoldable pub batch_runs : Unit {0}
unfolding request_runs with_request_id request_id is_member note_id context_loop with_context
    validate_auth_request new_auth_request batch_loop validate_batch new_authorize_request
    single_authorize_request items_of requests_batch
batch_runs = tt

-- ===== src/Batch/Items.antt =====
-- The one-item batch.
use treetop_client_go.Options.{Setter, apply_all}
use treetop_client_go.Batch.Unique.{IsAuthRequest, validate_auth_request_iff}
use treetop_client_go.Cedar.Valid.{new_request_id_lem}
use treetop_client_go.Request.Valid.{IsEntry}
use treetop_client_go.Attr.Validate.{validate_attr_iff}
use treetop_client_go.Cedar.{no_request_id}
use treetop_client_go.Validation.Entity.{IsName, validate_attribute_name_iff}
use treetop_client_go.Base.{
  All, Bytes, IsMap, List, [], put, puts, puts-IsMap, refl, some, true, ◌∷◌, ◌≡◌,
}
use treetop_client_go.Errors.{>>=-eq-ok, >>_iff, ok, pass, text}
use treetop_client_go.Validation.{Net}
use treetop_client_go.Request.{Attrs, Request}
use treetop_client_go.Batch.{
  AuthRequest, context_loop, new_auth_request, new_authorize_request, single_authorize_request,
  validate_auth_request, validate_batch, with_context, with_request_id,
}

abbrev pub plain_item : Request → AuthRequest
plain_item request = record { id = no_request_id; context = []; request = request }

-- A batch that `SingleAuthorizeRequest` returns holds the request alone, with no ID and no context.
pub single_authorize_request-eq-ok :
    (net : Net) (request : Request) (batch : List AuthRequest)
    → single_authorize_request net request ≡ ok batch
    → batch ≡ plain_item request ∷ []
unfolding single_authorize_request new_auth_request new_authorize_request apply_all
single_authorize_request-eq-ok net request batch h =
    let (i, e, h') =
      >>=-eq-ok (new_auth_request net request []) (λ i. new_authorize_request net (i ∷ [])) h in
    let (_, q) =
      (>>_iff (validate_auth_request net (plain_item request)) (ok (plain_item request))).0 e in
    let (_, r) = (>>_iff (validate_batch net (some (i ∷ []))) (ok (i ∷ []))).0 h' in
    let same : plain_item request ≡ i = cc q in rw same (cc r)

-- A request whose plain item is valid makes a batch.
pub single_authorize_request_lem :
    (net : Net) (request : Request)
    → validate_auth_request net (plain_item request) ≡ pass
    → validate_batch net (some (plain_item request ∷ [])) ≡ pass
    → single_authorize_request net request ≡ ok (plain_item request ∷ [])
unfolding single_authorize_request new_auth_request new_authorize_request apply_all
single_authorize_request_lem net request v w = rw (v, w)

-- An ID that is a safe name is taken over.
pub with_request_id_lem :
    (v : Bytes) (r : AuthRequest)
    → IsName v
    → with_request_id v r ≡ ok (record r { id = record { value = v; set = true } })
unfolding with_request_id
with_request_id_lem v r h = rw (new_request_id_lem v h)

context_loop-puts :
    (net : Net) (m done : Attrs) → All (IsEntry net) m → context_loop net m done ≡ ok (puts m done)
unfolding context_loop puts
context_loop-puts net [] done h = refl
context_loop-puts net ((name, value) ∷ m) done ((n, v), h) =
    rw
      (
        (validate_attribute_name_iff (text "auth_request.context") name).1 n,
        (validate_attr_iff net value).1 v,
      )
      (context_loop-puts net m (put name value done) h)

-- A context of valid entries is taken over.
pub with_context_lem :
    (net : Net) (m : Attrs) (r : AuthRequest)
    → All (IsEntry net) m
    → IsMap m
    → with_context net m r ≡ ok (record r { context = m })
unfolding with_context
with_context_lem net m r h d = rw (context_loop-puts net m [] h, puts-IsMap m d)

-- A valid item that the options make is returned.
pub new_auth_request_lem :
    (net : Net) (request : Request) (options : List (Setter AuthRequest)) (r : AuthRequest)
    → apply_all "nil authorization request option" options (plain_item request) ≡ ok r
    → IsAuthRequest net r
    → new_auth_request net request options ≡ ok r
unfolding new_auth_request
new_auth_request_lem net request options r e h = rw e (rw ((validate_auth_request_iff net r).1 h))

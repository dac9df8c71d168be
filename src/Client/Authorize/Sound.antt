-- ===== src/Client/Authorize/Sound.antt =====
-- What a successful authorization has established.
use treetop_client_go.Base.{All, Bytes, List, length, refl, some, ◌↔◌, ◌≡◌}
use treetop_client_go.Base.Int.{max_int64, pos, suc_ℤ, ◌≤ℤ◌}
use treetop_client_go.Errors.{>>=-eq-ok, >>_iff, Result, ok, pass}
use treetop_client_go.Batch.{AuthRequest}
use treetop_client_go.Batch.Unique.{IsAuthRequest, IsDistinct, given_ids, validate_batch_iff}
use treetop_client_go.Limits.{validate_request_limits}
use treetop_client_go.Limits.Within.{ContextFits, validate_limits_iff}
use treetop_client_go.Wire.{to_authorize_request_wire}
use treetop_client_go.Transport.Encode.{encode_json_bounded, encode_json_bounded_iff}
use treetop_client_go.Decision.{AnyDecision}
use treetop_client_go.Response.{AuthorizeResponse}
use treetop_client_go.Response.Consistent.{IsConsistent}
use treetop_client_go.Response.Correlated.{SameIds, validate_authorize_response_iff}
use treetop_client_go.Client.Authorize.{
  Settings, authorize, authorize_items, post_authorization, validate_authorization,
}

module _ (p : Settings) {T : Type 0} (any_of : T → AnyDecision)
    (exchange : Bytes → Result (AuthorizeResponse T)) where
  -- What is sent for a batch, and answered with a response.
  abbrev pub IsAnswered : List AuthRequest → AuthorizeResponse T → Type 0
  IsAnswered requests response =
      (body : Bytes) × (p.encode_batch (to_authorize_request_wire requests) ≡ some body)
      × (pos (length body) ≤ℤ p.max_request_bytes)
      × (exchange body ≡ ok response)

  post_iff :
      (requests : List AuthRequest) (response : AuthorizeResponse T)
      → (post_authorization p any_of exchange requests ≡ ok response) ↔ IsAnswered requests response
  unfolding post_authorization
  post_iff requests response = (
    λ h.
        let (body, e, x) =
          >>=-eq-ok
            (encode_json_bounded p.encode_batch (to_authorize_request_wire requests)
              p.max_request_bytes)
            exchange h in
        let (out, l) = (encode_json_bounded_iff p.encode_batch _ p.max_request_bytes body).0 e in
        (body, out, l, x),
    λ w.
        rw
          ((encode_json_bounded_iff p.encode_batch (to_authorize_request_wire requests)
              p.max_request_bytes w.0).1
            (w.1, w.2))
          w.3,
  )

  -- A batch is answered with a response exactly when the batch is valid, its IDs are distinct, it is
  -- within the limits, its encoding fits the request size and is answered, and the answer is
  -- consistent and carries the IDs of the batch. The limits are those that the configuration lets
  -- through, with `MaxContextBytes` below the greatest int64.
  pub authorize_iff :
      (requests : List AuthRequest) (response : AuthorizeResponse T)
      → suc_ℤ p.limits.max_context_bytes ≤ℤ pos max_int64
      → validate_request_limits p.limits ≡ pass
      → (authorize p any_of exchange (some requests) ≡ ok response) ↔ (
          (All (IsAuthRequest p.net) requests × IsDistinct (given_ids requests))
          × ((pos (length requests) ≤ℤ p.limits.max_batch_size)
              × All (λ r. ContextFits p.encode_context p.limits r.context) requests)
          × IsAnswered requests response
          × (IsConsistent p.is_object any_of response (length requests)
              × SameIds p.is_object any_of response.results requests))
  unfolding authorize validate_authorization authorize_items
  authorize_iff requests response bounded good = (
    λ h.
        let (v, h1) = (>>_iff _ _).0 h in
        let (b, l) = (>>_iff _ _).0 v in
        let (r, s, h2) = >>=-eq-ok (post_authorization p any_of exchange requests) _ h1 in
        let (c, e) = (>>_iff _ _).0 h2 in
        let same : r ≡ response = cc e in
        (
          (validate_batch_iff p.net requests).0 b,
          (validate_limits_iff p.encode_context p.limits requests bounded good).0 l,
          (post_iff requests response).0 (rw (← same) s),
          (validate_authorize_response_iff p.is_object any_of response requests).0 (rw (← same) c),
        ),
    λ w. (>>_iff _ _).1 (
      (>>_iff _ _).1 (
        (validate_batch_iff p.net requests).1 w.0,
        (validate_limits_iff p.encode_context p.limits requests bounded good).1 w.1,
      ),
      rw ((post_iff requests response).1 w.2) (
          (>>_iff _ _).1
            ((validate_authorize_response_iff p.is_object any_of response requests).1 w.3, refl)),
    ),
  )

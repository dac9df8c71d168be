-- ===== src/Client/Authorize.antt =====
-- endpoints.go: `Authorize`, `AuthorizeDetailed` and `IsAllowed`.
pub mod Sound
pub mod Verdict
pub mod Answered
use treetop_client_go.Base.{Bool, Bytes, List, Option, [], false, none, not, some, true, ◌∷◌}
use treetop_client_go.Base.Int.{ℤ}
use treetop_client_go.Errors.{
  Check, Result, arg, err, evaluation, invalid_response, ok, panic, text, ◌>>=◌, ◌>>◌,
}
use treetop_client_go.Validation.{Net}
use treetop_client_go.Request.{Request}
use treetop_client_go.Batch.{AuthRequest, single_authorize_request, validate_batch}
use treetop_client_go.Wire.{AttrMapWire, AuthRequestWire, to_authorize_request_wire}
use treetop_client_go.Transport.Encode.{encode_json_bounded}
use treetop_client_go.Limits.{RequestLimits, limits_run, validate_limits}
use treetop_client_go.Decision.{AnyDecision, AuthorizeDecisionBrief, Decision, allow, brief}
use treetop_client_go.Response.{
  AuthorizeResponse, BatchResult, BatchStatus, IndexedResult, failed, response_runs,
  validate_authorize_response,
}

-- What the client needs of package net, of encoding/json and of its own configuration. The exchange
-- over HTTP, with the decoding of the answer, is the argument `exchange` below.
pub record Settings : Type 0 where
  pub net : Net
  pub is_object : Bytes → Bool
  pub encode_context : AttrMapWire → Option Bytes
  pub encode_batch : List AuthRequestWire → Option Bytes
  pub limits : RequestLimits
  pub max_request_bytes : ℤ

-- `validateAuthorization`; `none` is a nil batch.
validate_authorization : Settings → Option (List AuthRequest) → Check
validate_authorization p none = validate_batch p.net none
validate_authorization p (some requests) =
    validate_batch p.net (some requests) >> validate_limits p.encode_context p.limits requests

module _ (p : Settings) {T : Type 0} (any_of : T → AnyDecision)
    (exchange : Bytes → Result (AuthorizeResponse T)) where
  -- `postAuthorization`, as far as it decides what is sent.
  post_authorization : List AuthRequest → Result (AuthorizeResponse T)
  post_authorization requests = do
    body ←
        encode_json_bounded p.encode_batch (to_authorize_request_wire requests) p.max_request_bytes
    exchange body

  authorize_items : List AuthRequest → Result (AuthorizeResponse T)
  authorize_items requests = do
    response ← post_authorization requests
    validate_authorize_response p.is_object any_of response requests
    ok response

  -- `Client.Authorize` and `Client.AuthorizeDetailed`
  pub authorize : Option (List AuthRequest) → Result (AuthorizeResponse T)
  authorize none = validate_authorization p none >> err panic
  authorize (some requests) = validate_authorization p (some requests) >> authorize_items requests

is_allow : Decision → Bool
is_allow allow = true
is_allow _ = false

-- `item.Result.Decision == DecisionAllow`
decided : Option AuthorizeDecisionBrief → Result Bool
decided none = err panic
decided (some d) = ok (is_allow d.decision)

verdict : BatchStatus → BatchResult AuthorizeDecisionBrief → Result Bool
verdict failed r = err (evaluation (arg r.error ∷ []))
verdict _ r = decided r.result

single_verdict : List (IndexedResult AuthorizeDecisionBrief) → Result Bool
single_verdict (r ∷ []) = verdict r.batch.status r.batch
single_verdict _ =
    err (invalid_response (text "single authorize response does not contain exactly one item"))

-- `Client.IsAllowed`
pub is_allowed :
    Settings → (Bytes → Result (AuthorizeResponse AuthorizeDecisionBrief)) → Request → Result Bool
is_allowed p exchange request = do
  batch ← single_authorize_request p.net request
  response ← authorize p brief exchange (some batch)
  single_verdict response.results

-- The definitions of this file, for a test by evaluation.
unfoldable pub authorize_runs : Unit {0}
unfolding limits_run response_runs validate_authorization post_authorization authorize_items
    authorize is_allow decided verdict single_verdict is_allowed
authorize_runs = tt

-- ===== src/Config/Make.antt =====
-- client.go: the construction of clients and their copies.
use treetop_client_go.Config.Http.{Trust, build_http_client, http_runs}
use treetop_client_go.Config.Url.{Url, Urls, parse_base_url, secure_credential_transport, url_runs}
use treetop_client_go.Config.{
  ClientOption, HttpClient, apply_options, config_runs, validate_correlation_id,
}
use treetop_client_go.Base.Int.{ℤ}
pub mod Secure
use treetop_client_go.Base.{Bool, Bytes, List, Option, [], false, none, not, some, true, ◌&&◌}
use treetop_client_go.Errors.{Result, configuration, err, nil, ok, refuse_if, text, ◌>>=◌, ◌>>◌}
use treetop_client_go.Limits.{RequestLimits}
use treetop_client_go.Token.{Heap, Token}

pub record Client (P : Type 0) : Type 0 where
  pub http : HttpClient P
  pub base_url : Url
  pub max_request_bytes : ℤ
  pub max_response_bytes : ℤ
  pub request_limits : RequestLimits
  pub access_token : Option Token
  pub correlation_id : Bytes
  pub user_agent : Bytes

has_token : Option Token → Bool
has_token none = false
has_token (some t) = true

-- `New`
pub new_client :
    {P : Type 0}
    → Urls
    → Trust P
    → Bytes
    → List (Option (ClientOption P))
    → Heap
    → Result (Client P × Heap)
new_client urls trust base_url options h = do
  base ← parse_base_url urls base_url
  s ← apply_options options h
  refuse_if
      (has_token (s.0).access_token
        && not (secure_credential_transport urls base (s.0).allow_insecure_access))
      (configuration (
        text
          "refusing to send an access token over plaintext HTTP; use HTTPS or DangerouslyAllowInsecureAccessToken"))
  http ← build_http_client trust s.0
  ok (
    record {
      http = http;
      base_url = base;
      max_request_bytes = (s.0).max_request_bytes;
      max_response_bytes = (s.0).max_response_bytes;
      request_limits = (s.0).request_limits;
      access_token = (s.0).access_token;
      correlation_id = (s.0).correlation_id;
      user_agent = (s.0).user_agent;
    },
    s.1,
  )

-- `Client.WithCorrelationID`; `none` is a nil pointer.
pub with_correlation_id_copy : {P : Type 0} → Option (Client P) → Bytes → Result (Client P)
with_correlation_id_copy none id = err (configuration (text "client must not be nil"))
with_correlation_id_copy (some c) id =
    validate_correlation_id id >> ok (record c { correlation_id = id })

-- `Client.WithoutCorrelationID`
pub without_correlation_id : {P : Type 0} → Option (Client P) → Option (Client P)
without_correlation_id none = none
without_correlation_id (some c) = some (record c { correlation_id = [] })

-- The definitions of this file, for a test by evaluation.
unfoldable pub make_runs : Unit {0}
unfolding config_runs url_runs http_runs has_token new_client with_correlation_id_copy
    without_correlation_id
make_runs = tt

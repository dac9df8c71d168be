-- ===== src/Config.antt =====
-- options.go: the configuration of a client and the options that change it.
use treetop_client_go.Limits.{
  RequestLimits, default_request_limits, limits_run, validate_request_limits,
}
use treetop_client_go.Token.{Heap, Token, clone, token_runs, valid_header_value, validate_access}
pub mod Url
pub mod Http
pub mod Make
pub mod Upload
pub mod Query
pub mod Valid
use treetop_client_go.Base.{
  Bool, Bytes, List, Option, String, [], codes, false, is_empty, none, not, some, true, zero, ℕ,
  ◌*◌, ◌++◌, ◌+◌, ◌^◌, ◌||◌, ◌∷◌,
}
use treetop_client_go.Base.Int.{leb_ℤ, ltb_ℤ, pos, ℤ}
use treetop_client_go.Errors.{
  Check, Err, Result, configuration, err, lit, nil, num, ok, refuse_if, text, ◌>>=◌, ◌>>◌,
}

-- A `tls.Config`, of what the client sets and copies: the pool of roots, `none` for nil. `P` stands for
-- `x509.CertPool`.
pub record TlsConfig (P : Type 0) : Type 0 where
  pub min_version : ℕ
  pub root_cas : Option P
  pub insecure_skip_verify : Bool

-- An `http.Transport`, of what the client sets: `none` for a dialer that is not the client's own.
pub record Settings (P : Type 0) : Type 0 where
  pub dial_timeout : Option ℤ
  pub idle_conn_timeout : ℤ
  pub max_idle_conns_per_host : ℤ
  pub force_attempt_http2 : Bool
  pub tls_client_config : Option (TlsConfig P)

-- An `http.RoundTripper`: nil, an `*http.Transport`, or any other.
pub data RoundTripper (P : Type 0) : Type 0 where
  no_transport other_transport : RoundTripper P
  standard_transport : Settings P → RoundTripper P

-- `CheckRedirect`: `use_last_response` is the function that `buildHTTPClient` sets.
pub data Redirects : Type 0 where
  default_redirects use_last_response own_redirects : Redirects

pub record HttpClient (P : Type 0) : Type 0 where
  pub transport : RoundTripper P
  pub timeout : ℤ
  pub check_redirect : Redirects

pub record ClientConfig (P : Type 0) : Type 0 where
  pub http_client : Option (HttpClient P)
  pub connect_timeout : ℤ
  pub request_timeout : ℤ
  pub idle_conn_timeout : ℤ
  pub max_idle_conns_per_host : ℤ
  pub max_request_bytes : ℤ
  pub max_response_bytes : ℤ
  pub request_limits : RequestLimits
  pub access_token : Option Token
  pub allow_insecure_access : Bool
  pub correlation_id : Bytes
  pub root_ca_pem : List Bytes
  pub skip_tls_verify : Bool
  pub user_agent : Bytes
  pub connect_timeout_changed : Bool
  pub idle_timeout_changed : Bool
  pub max_idle_changed : Bool
  pub request_timeout_changed : Bool
  pub tls_options_changed : Bool

-- `time.Second`, in nanoseconds.
abbrev second : ℕ
second = 1000000000

-- `http.DefaultMaxIdleConnsPerHost`
abbrev default_max_idle : ℤ
default_max_idle = pos 2

abbrev default_max_body_bytes : ℤ
default_max_body_bytes = pos (16 * 2 ^ 20)

unfoldable pub default_client_config : {P : Type 0} → ClientConfig P
default_client_config = record {
  http_client = none;
  connect_timeout = pos (5 * second);
  request_timeout = pos (30 * second);
  idle_conn_timeout = pos (90 * second);
  max_idle_conns_per_host = default_max_idle;
  max_request_bytes = default_max_body_bytes;
  max_response_bytes = default_max_body_bytes;
  request_limits = default_request_limits;
  access_token = none;
  allow_insecure_access = false;
  correlation_id = [];
  root_ca_pem = [];
  skip_tls_verify = false;
  user_agent = codes "treetop-client-go";
  connect_timeout_changed = false;
  idle_timeout_changed = false;
  max_idle_changed = false;
  request_timeout_changed = false;
  tls_options_changed = false;
}

-- An `Option`, by the function of the package that made it: no other code can, since `clientConfig` is
-- private to the package. The pointer of `WithHTTPClient` is `none` for nil.
pub data ClientOption (P : Type 0) : Type 0 where
  with_http_client : Option (HttpClient P) → ClientOption P
  with_connect_timeout with_request_timeout with_idle_conn_timeout : ℤ → ClientOption P
  with_max_idle_connections_per_host : ℤ → ClientOption P
  with_max_request_bytes with_max_response_bytes : ℤ → ClientOption P
  with_request_limits : RequestLimits → ClientOption P
  with_access_token : Token → ClientOption P
  dangerously_allow_insecure_access_token dangerously_skip_tls_verification : ClientOption P
  with_correlation_id with_root_ca_pem with_user_agent : Bytes → ClientOption P

-- `validateCorrelationID`
pub validate_correlation_id : Bytes → Check
validate_correlation_id id =
    refuse_if (is_empty id || not (valid_header_value id))
      (configuration (text "correlation ID must be a non-empty valid HTTP header value"))

config_error : String → Err
config_error message = configuration (text message)

module _ {P : Type 0} where
  set_client : Option (HttpClient P) → ClientConfig P → Result (ClientConfig P)
  set_client none c = err (config_error "HTTP client must not be nil")
  set_client (some client) c = ok (record c { http_client = some client })

  set_user_agent : Bytes → ClientConfig P → Result (ClientConfig P)
  set_user_agent value c =
      refuse_if (is_empty value || not (valid_header_value value))
        (config_error "user agent must be a non-empty valid HTTP header value")
      >> ok (record c { user_agent = value })

  -- The function that an option is, on the configuration and the byte arrays of the program.
  apply_option : ClientOption P → ClientConfig P → Heap → Result (ClientConfig P × Heap)
  apply_option (with_http_client client) c h = set_client client c >>= λ c'. ok (c', h)
  apply_option (with_connect_timeout t) c h =
      refuse_if (leb_ℤ t (pos 0)) (config_error "connect timeout must be greater than zero")
      >> ok (record c { connect_timeout = t; connect_timeout_changed = true }, h)
  apply_option (with_request_timeout t) c h =
      refuse_if (leb_ℤ t (pos 0)) (config_error "request timeout must be greater than zero")
      >> ok (record c { request_timeout = t; request_timeout_changed = true }, h)
  apply_option (with_idle_conn_timeout t) c h =
      refuse_if (ltb_ℤ t (pos 0)) (config_error "idle connection timeout must not be negative")
      >> ok (record c { idle_conn_timeout = t; idle_timeout_changed = true }, h)
  apply_option (with_max_idle_connections_per_host n) c h =
      refuse_if (leb_ℤ n (pos 0))
        (config_error "maximum idle connections per host must be greater than zero")
      >> ok (record c { max_idle_conns_per_host = n; max_idle_changed = true }, h)
  apply_option (with_max_request_bytes n) c h =
      refuse_if (leb_ℤ n (pos 0)) (config_error "maximum request size must be greater than zero")
      >> ok (record c { max_request_bytes = n }, h)
  apply_option (with_max_response_bytes n) c h =
      refuse_if (leb_ℤ n (pos 0)) (config_error "maximum response size must be greater than zero")
      >> ok (record c { max_response_bytes = n }, h)
  apply_option (with_request_limits l) c h =
      validate_request_limits l >> ok (record c { request_limits = l }, h)
  apply_option (with_access_token t) c h =
      validate_access t h
      >> (let copy = clone t h in ok (record c { access_token = some copy.0 }, copy.1))
  apply_option dangerously_allow_insecure_access_token c h =
      ok (record c { allow_insecure_access = true }, h)
  apply_option (with_correlation_id id) c h =
      validate_correlation_id id >> ok (record c { correlation_id = id }, h)
  apply_option (with_root_ca_pem pem) c h =
      refuse_if (is_empty pem) (config_error "root CA PEM must not be empty")
      >> ok (record c { root_ca_pem = c.root_ca_pem ++ pem ∷ []; tls_options_changed = true }, h)
  apply_option dangerously_skip_tls_verification c h =
      ok (record c { skip_tls_verify = true; tls_options_changed = true }, h)
  apply_option (with_user_agent value) c h = set_user_agent value c >>= λ c'. ok (c', h)

  -- The loop of `applyOptions`, at position `i`; a nil option is `none`.
  options_loop :
      ℕ → List (Option (ClientOption P)) → ClientConfig P → Heap → Result (ClientConfig P × Heap)
  options_loop i [] c h = ok (c, h)
  options_loop i (none ∷ options) c h =
      err (configuration (lit "option " ∷ num (pos i) ∷ lit " is nil" ∷ []))
  options_loop i (some option ∷ options) c h =
      apply_option option c h >>= λ s. options_loop (i + 1) options s.0 s.1

  -- `applyOptions`
  pub apply_options : List (Option (ClientOption P)) → Heap → Result (ClientConfig P × Heap)
  apply_options options h = do
    s ← options_loop 0 options default_client_config h
    validate_request_limits (s.0).request_limits
    ok s

-- The definitions of this file, for a test by evaluation.
unfoldable pub config_runs : Unit {0}
unfolding token_runs limits_run default_client_config validate_correlation_id config_error
    set_client set_user_agent apply_option options_loop apply_options
config_runs = tt

-- ===== src/Config/Http.antt =====
-- options.go: `buildHTTPClient`. The transport of a caller is copied, so what is built is a new value.
pub mod Built
use treetop_client_go.Errors.{Result, configuration, err, ok, refuse_if, text, ◌>>=◌, ◌>>◌}
use treetop_client_go.Base.{
  Bool, Bytes, List, Option, [], false, if◌then◌else◌, is_empty, none, not, some, true, ℕ, ◌==◌,
  ◌||◌, ◌∷◌,
}
use treetop_client_go.Base.Int.{pos}
use treetop_client_go.Config.{
  ClientConfig, HttpClient, RoundTripper, Settings, TlsConfig, default_redirects, no_transport,
  other_transport, standard_transport, use_last_response,
}

-- Package crypto/x509, and `http.DefaultTransport` where it is an `*http.Transport`.
pub record Trust (P : Type 0) : Type 0 where
  pub system_pool : Option P
  pub empty_pool : P
  pub append_pem : P → Bytes → Option P
  pub default_transport : Option (Settings P)

-- `tls.VersionTLS12`
abbrev pub tls12 : ℕ
tls12 = 0x0303

module _ {P : Type 0} (trust : Trust P) where
  -- The transport that an `http.Client` without one gets.
  initial_settings : Option (Settings P) → Settings P
  initial_settings (some s) = s
  initial_settings none = record {
    dial_timeout = none;
    idle_conn_timeout = pos 0;
    max_idle_conns_per_host = pos 0;
    force_attempt_http2 = true;
    tls_client_config = none;
  }

  -- The loop over the certificates.
  append_pems : P → List Bytes → Result P
  append_pems roots [] = ok roots
  append_pems roots (pem ∷ pems) = elim (trust.append_pem roots pem) [
    | none ↦ err (configuration (text "root CA PEM contains no valid certificates"))
    | some roots' ↦ append_pems roots' pems
  ]

  first_pool : Option P → P
  first_pool (some roots) = roots
  first_pool none = elim trust.system_pool [ some roots ↦ roots | none ↦ trust.empty_pool ]

  -- The roots, if there are certificates to add.
  with_roots : TlsConfig P → List Bytes → Result (TlsConfig P)
  with_roots tls [] = ok tls
  with_roots tls (pem ∷ pems) = append_pems (first_pool tls.root_cas) (pem ∷ pems) >>= λ roots.
      ok (record tls { root_cas = some roots })

  -- The TLS configuration to start from.
  initial_tls : Option (TlsConfig P) → TlsConfig P
  initial_tls none = record { min_version = tls12; root_cas = none; insecure_skip_verify = false }
  initial_tls (some tls) = record tls {
    min_version = if tls.min_version == 0 then tls12 else tls.min_version;
  }

  tls_settings : ClientConfig P → Settings P → Result (Settings P)
  tls_settings c s =
      if not (is_empty c.root_ca_pem) || c.skip_tls_verify
      then (with_roots (initial_tls s.tls_client_config) c.root_ca_pem >>= λ tls. ok (record s {
        tls_client_config = some (record tls { insecure_skip_verify = c.skip_tls_verify });
      }))
      else ok s

  -- The settings of a standard transport; `custom` tells whether the caller gave the client.
  settings_of : Bool → ClientConfig P → Settings P → Result (Settings P)
  settings_of custom c s = tls_settings c (record s {
    dial_timeout =
        if not custom || c.connect_timeout_changed then some c.connect_timeout else s.dial_timeout;
    idle_conn_timeout =
        if not custom || c.idle_timeout_changed then c.idle_conn_timeout else s.idle_conn_timeout;
    max_idle_conns_per_host =
        if not custom || c.max_idle_changed
        then c.max_idle_conns_per_host
        else s.max_idle_conns_per_host;
    force_attempt_http2 = if custom then s.force_attempt_http2 else true;
  })

  transport_of : Bool → ClientConfig P → RoundTripper P → Result (RoundTripper P)
  transport_of custom c no_transport =
      settings_of custom c (initial_settings trust.default_transport) >>= λ s.
      ok (standard_transport s)
  transport_of custom c (standard_transport s) =
      settings_of custom c s >>= λ s'. ok (standard_transport s')
  transport_of custom c other_transport =
      refuse_if
        (c.connect_timeout_changed || c.idle_timeout_changed || c.max_idle_changed
          || c.tls_options_changed)
        (configuration (text "transport options require an *http.Transport"))
      >> ok other_transport

  build_from : Bool → ClientConfig P → HttpClient P → Result (HttpClient P)
  build_from custom c client = do
    transport ← transport_of custom c client.transport
    ok (record {
      transport = transport;
      timeout =
          if not custom || c.request_timeout_changed then c.request_timeout else client.timeout;
      check_redirect = use_last_response;
    })

  -- The `http.Client` to start from, which is a copy of the caller's if there is one.
  built_from : Option (HttpClient P) → ClientConfig P → Result (HttpClient P)
  built_from none c = build_from false c (record {
    transport = no_transport;
    timeout = c.request_timeout;
    check_redirect = default_redirects;
  })
  built_from (some client) c = build_from true c client

  -- `buildHTTPClient`
  pub build_http_client : ClientConfig P → Result (HttpClient P)
  build_http_client c = built_from c.http_client c

-- The definitions of this file, for a test by evaluation.
unfoldable pub http_runs : Unit {0}
unfolding initial_settings append_pems first_pool with_roots initial_tls tls_settings settings_of
    transport_of build_from built_from build_http_client
http_runs = tt

-- ===== src/Config/Http/Built.antt =====
-- What holds of every `http.Client` that the client builds.
use treetop_client_go.Base.{
  Bool, Option, false, if_elim, is_empty, none, not, refl, some, true, ◌||◌, ◌≡◌,
}
use treetop_client_go.Errors.{ok}
use treetop_client_go.Errors.Ensures.{Ensures, ensured, from-Ensures, guard-Ensures, then-Ensures}
use treetop_client_go.Config.{
  ClientConfig, HttpClient, RoundTripper, Settings, TlsConfig, no_transport, other_transport,
  standard_transport, use_last_response,
}
use treetop_client_go.Config.Http.{
  Trust, build_from, build_http_client, built_from, initial_settings, initial_tls, settings_of,
  tls_settings, transport_of, with_roots,
}

module _ {P : Type 0} where
  abbrev VerifiesTls : Option (TlsConfig P) → Type 0
  VerifiesTls none = Unit
  VerifiesTls (some tls) = tls.insecure_skip_verify ≡ false

  abbrev SettingsVerify : Settings P → Type 0
  SettingsVerify s = VerifiesTls s.tls_client_config

  -- A standard transport checks certificates; of another one, nothing is known.
  abbrev pub Verifies : RoundTripper P → Type 0
  Verifies (standard_transport s) = SettingsVerify s
  Verifies no_transport = Unit
  Verifies other_transport = Unit

  -- The transports that the client may start from.
  abbrev pub GivenVerify : Option (HttpClient P) → Type 0
  GivenVerify none = Unit
  GivenVerify (some client) = Verifies client.transport

  abbrev pub DefaultVerifies : Option (Settings P) → Type 0
  DefaultVerifies none = Unit
  DefaultVerifies (some s) = SettingsVerify s

  -- Redirects are not followed, and certificates are checked.
  abbrev pub IsGuarded : HttpClient P → Type 0
  IsGuarded built = (built.check_redirect ≡ use_last_response) × Verifies built.transport

module _ {P : Type 0} (trust : Trust P) (c : ClientConfig P)
    (skip : c.skip_tls_verify ≡ false) where
  tls_settings-Ensures :
      (s : Settings P) → SettingsVerify s → Ensures SettingsVerify (tls_settings trust c s)
  unfolding tls_settings
  tls_settings-Ensures s h =
      if_elim (Ensures SettingsVerify) (not (is_empty c.root_ca_pem) || c.skip_tls_verify)
        (then-Ensures SettingsVerify
          (with_roots trust (initial_tls trust s.tls_client_config) c.root_ca_pem) _ (λ tls. skip))
        h

  initial_verifies :
      (d : Option (Settings P)) → DefaultVerifies d → SettingsVerify (initial_settings trust d)
  unfolding initial_settings
  initial_verifies none h = tt
  initial_verifies (some s) h = h

  settings_of-Ensures :
      (custom : Bool) (s : Settings P)
      → SettingsVerify s
      → Ensures SettingsVerify (settings_of trust custom c s)
  unfolding settings_of
  settings_of-Ensures custom s h = tls_settings-Ensures _ h

  transport_of-Ensures :
      (custom : Bool) (t : RoundTripper P)
      → DefaultVerifies trust.default_transport
      → Verifies t
      → Ensures Verifies (transport_of trust custom c t)
  unfolding transport_of
  transport_of-Ensures custom no_transport d h =
      from-Ensures SettingsVerify Verifies
        (settings_of trust custom c (initial_settings trust trust.default_transport)) _
        (settings_of-Ensures custom _ (initial_verifies trust.default_transport d)) (λ s v. v)
  transport_of-Ensures custom (standard_transport s) d h =
      from-Ensures SettingsVerify Verifies (settings_of trust custom c s) _
        (settings_of-Ensures custom s h) (λ s v. v)
  transport_of-Ensures custom other_transport d h =
      guard-Ensures Verifies _ _ (ok other_transport) (λ _. tt)

  from_client :
      (custom : Bool) (client : HttpClient P)
      → DefaultVerifies trust.default_transport
      → Verifies client.transport
      → Ensures IsGuarded (build_from trust custom c client)
  unfolding build_from
  from_client custom client d h =
      from-Ensures Verifies IsGuarded (transport_of trust custom c client.transport) _
        (transport_of-Ensures custom client.transport d h) (λ t v. (refl, v))

  cases :
      (o : Option (HttpClient P))
      → DefaultVerifies trust.default_transport
      → GivenVerify o
      → Ensures IsGuarded (built_from trust o c)
  unfolding built_from
  cases none d h = from_client false _ d tt
  cases (some client) d h = from_client true client d h

  -- Where certificate checks are not skipped by an option nor by the transport to start from, the
  -- HTTP client that is built checks certificates, and it never follows redirects.
  pub build_http_client-IsGuarded :
      (built : HttpClient P)
      → DefaultVerifies trust.default_transport
      → GivenVerify c.http_client
      → build_http_client trust c ≡ ok built
      → IsGuarded built
  unfolding build_http_client
  build_http_client-IsGuarded built d h e =
      ensured IsGuarded (built_from trust c.http_client c) (cases c.http_client d h) e

-- Whatever its configuration, the `http.Client` that is built does not follow redirects.
pub build_http_client-redirects :
    {P : Type 0} (trust : Trust P) (c : ClientConfig P) (built : HttpClient P)
    → build_http_client trust c ≡ ok built
    → built.check_redirect ≡ use_last_response
unfolding build_http_client built_from build_from
build_http_client-redirects {P} trust c built e =
    ensured Denies (built_from trust c.http_client c) (all c.http_client) e
  where
    Denies : HttpClient P → Type 0
    Denies b = b.check_redirect ≡ use_last_response

    all : (o : Option (HttpClient P)) → Ensures Denies (built_from trust o c)
    all none = then-Ensures Denies (transport_of trust false c no_transport) _ (λ t. refl)
    all (some client) =
        then-Ensures Denies (transport_of trust true c client.transport) _ (λ t. refl)

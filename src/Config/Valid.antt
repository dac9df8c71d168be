-- ===== src/Config/Valid.antt =====
-- Whatever options a client is configured with, its configuration is well-formed.
use treetop_client_go.Errors.Ensures.{Ensures, check-Ensures, ensured, from-Ensures, guard-Ensures}
use treetop_client_go.Config.{
  ClientConfig, ClientOption, apply_option, apply_options, config_error,
  dangerously_allow_insecure_access_token, dangerously_skip_tls_verification, default_client_config,
  options_loop, set_client, set_user_agent, validate_correlation_id, with_access_token,
  with_connect_timeout, with_correlation_id, with_http_client, with_idle_conn_timeout,
  with_max_idle_connections_per_host, with_max_request_bytes, with_max_response_bytes,
  with_request_limits, with_request_timeout, with_root_ca_pem, with_user_agent,
}
use treetop_client_go.Limits.Within.{default_limits}
use treetop_client_go.Token.Bearer.{validate_access_iff}
use treetop_client_go.Token.{
  Heap, Token, exposed, token_runs, valid_bearer_token, valid_header_value, validate_access,
}
use treetop_client_go.Base.Int.{leb_ℤ, ltb_ℤ, pos, ℤ, ◌≤ℤ◌}
use treetop_client_go.Errors.{Err, ok, pass, refuse_if, refuse_iff, ◌>>◌}
use treetop_client_go.Base.{
  All, Bool, Bytes, List, Option, [], arith, false, is_empty, none, not, refl, some, true, ℕ, ◌++◌,
  ◌+◌, ◌||◌, ◌∷◌, ◌≡◌,
}
use treetop_client_go.Limits.{validate_request_limits}
use treetop_client_go.Token.Destroyed.{exposed-clone}

-- A text that can stand in a header.
abbrev pub IsHeader : Bytes → Type 0
IsHeader s = valid_header_value s ≡ true

abbrev pub HasBearer : Option Token → Heap → Type 0
HasBearer none h = Unit
HasBearer (some t) h = valid_bearer_token (exposed t h) ≡ true

positive : (x : ℤ) → leb_ℤ x (pos 0) ≡ false → pos 1 ≤ℤ x
positive x h = ground arith

not_negative : (x : ℤ) → ltb_ℤ x (pos 0) ≡ false → pos 0 ≤ℤ x
not_negative x h = ground arith

header :
    (s : Bytes)
    → (is_empty s || not (valid_header_value s)) ≡ false
    → (is_empty s ≡ false) × IsHeader s
header s h = ground arith

snoc :
    (pems : List Bytes) (pem : Bytes)
    → All (λ pem. is_empty pem ≡ false) pems
    → is_empty pem ≡ false
    → All (λ pem. is_empty pem ≡ false) (pems ++ pem ∷ [])
snoc [] pem h p = (p, tt)
snoc (q ∷ pems) pem (r, h) p = (r, snoc pems pem h p)

correlation : (id : Bytes) → validate_correlation_id id ≡ pass → IsHeader id
unfolding validate_correlation_id
correlation id h = ground arith

module _ {P : Type 0} where
  abbrev pub HasTimes : ClientConfig P → Type 0
  HasTimes c =
      (pos 1 ≤ℤ c.connect_timeout)
      × (pos 1 ≤ℤ c.request_timeout)
      × (pos 0 ≤ℤ c.idle_conn_timeout)
      × (pos 1 ≤ℤ c.max_idle_conns_per_host)

  abbrev pub HasSizes : ClientConfig P → Type 0
  HasSizes c =
      (pos 1 ≤ℤ c.max_request_bytes)
      × (pos 1 ≤ℤ c.max_response_bytes)
      × (validate_request_limits c.request_limits ≡ pass)

  abbrev pub HasTexts : ClientConfig P → Type 0
  HasTexts c =
      (is_empty c.user_agent ≡ false)
      × IsHeader c.user_agent
      × IsHeader c.correlation_id
      × All (λ pem. is_empty pem ≡ false) c.root_ca_pem

  -- Positive connect and request timeouts, an idle timeout that is not negative, at least one idle
  -- connection, positive sizes, limits that are accepted, texts for headers, and a bearer token.
  abbrev pub IsConfig : ClientConfig P × Heap → Type 0
  IsConfig (c, h) = HasTimes c × HasSizes c × HasTexts c × HasBearer c.access_token h

  -- After a guard, its negation holds.
  guarded :
      (b : Bool) (e : Err) (s : ClientConfig P × Heap)
      → (b ≡ false → IsConfig s)
      → Ensures IsConfig (refuse_if b e >> ok s)
  guarded b e s k = check-Ensures IsConfig (refuse_if b e) (ok s) (λ p. k ((refuse_iff b e).0 p))

  set_user_agent-Ensures :
      (value : Bytes) (c : ClientConfig P) (h : Heap)
      → IsConfig (c, h)
      → Ensures (λ c. IsConfig (c, h)) (set_user_agent value c)
  unfolding set_user_agent
  set_user_agent-Ensures value c h (t', s, x, b) =
      guard-Ensures (λ c. IsConfig (c, h)) _ _ (ok (record c { user_agent = value }))
        (λ g. let (e, v) = header value g in (t', s, (e, v, x.2, x.3), b))

  apply_option-IsConfig :
      (o : ClientOption P) (c : ClientConfig P) (h : Heap)
      → IsConfig (c, h)
      → Ensures IsConfig (apply_option o c h)
  unfolding apply_option set_client config_error
  apply_option-IsConfig (with_http_client none) c h i = tt
  apply_option-IsConfig (with_http_client (some client)) c h i = i
  apply_option-IsConfig (with_connect_timeout t) c h (t', s, x, b) =
      guarded _ _ _ (λ g. ((positive t g, t'.1, t'.2, t'.3), s, x, b))
  apply_option-IsConfig (with_request_timeout t) c h (t', s, x, b) =
      guarded _ _ _ (λ g. ((t'.0, positive t g, t'.2, t'.3), s, x, b))
  apply_option-IsConfig (with_idle_conn_timeout t) c h (t', s, x, b) =
      guarded _ _ _ (λ g. ((t'.0, t'.1, not_negative t g, t'.3), s, x, b))
  apply_option-IsConfig (with_max_idle_connections_per_host n) c h (t', s, x, b) =
      guarded _ _ _ (λ g. ((t'.0, t'.1, t'.2, positive n g), s, x, b))
  apply_option-IsConfig (with_max_request_bytes n) c h (t', s, x, b) =
      guarded _ _ _ (λ g. (t', (positive n g, s.1, s.2), x, b))
  apply_option-IsConfig (with_max_response_bytes n) c h (t', s, x, b) =
      guarded _ _ _ (λ g. (t', (s.0, positive n g, s.2), x, b))
  apply_option-IsConfig (with_request_limits l) c h (t', s, x, b) =
      check-Ensures IsConfig (validate_request_limits l) _ (λ v. (t', (s.0, s.1, v), x, b))
  apply_option-IsConfig (with_access_token t) c h (t', s, x, b) =
      check-Ensures IsConfig (validate_access t h) _
        (λ v. (t', s, x, rw (exposed-clone t h) ((validate_access_iff t h).0 v)))
  apply_option-IsConfig dangerously_allow_insecure_access_token c h i = i
  apply_option-IsConfig (with_correlation_id id) c h (t', s, x, b) =
      check-Ensures IsConfig (validate_correlation_id id) _
        (λ v. (t', s, (x.0, x.1, correlation id v, x.3), b))
  apply_option-IsConfig (with_root_ca_pem pem) c h (t', s, x, b) =
      guarded _ _ _ (λ g. (t', s, (x.0, x.1, x.2, snoc c.root_ca_pem pem x.3 g), b))
  apply_option-IsConfig dangerously_skip_tls_verification c h i = i
  apply_option-IsConfig (with_user_agent value) c h (t', s, x, b) =
      from-Ensures (λ c. IsConfig (c, h)) IsConfig (set_user_agent value c) _
        (set_user_agent-Ensures value c h (t', s, x, b)) (λ c v. v)

  options_loop-IsConfig :
      (i : ℕ) (os : List (Option (ClientOption P))) (c : ClientConfig P) (h : Heap)
      → IsConfig (c, h)
      → Ensures IsConfig (options_loop i os c h)
  unfolding options_loop
  options_loop-IsConfig i [] c h v = v
  options_loop-IsConfig i (none ∷ os) c h v = tt
  options_loop-IsConfig i (some o ∷ os) c h v =
      from-Ensures IsConfig IsConfig (apply_option o c h) _ (apply_option-IsConfig o c h v)
        (λ s v'. options_loop-IsConfig (i + 1) os s.0 s.1 v')

default_client_config-IsConfig :
    (P : Type 0) (h : Heap) → IsConfig (default_client_config {P = P}, h)
unfolding default_client_config token_runs
default_client_config-IsConfig P h = (
  (ground arith, ground arith, ground arith, ground arith),
  (ground arith, ground arith, default_limits),
  (refl, refl, refl, tt),
  tt,
)

module _ {P : Type 0} where
  -- Whatever options a client is configured with, the configuration has positive connect and request
  -- timeouts, an idle connection timeout that is not negative, a positive number of idle connections
  -- per host, positive body sizes, limits that are accepted, a user agent that is not empty and a
  -- correlation ID, both of which can stand in headers, no empty certificate text, and, if it has an
  -- access token, one whose bytes are those of a bearer token.
  pub apply_options-IsConfig :
      (os : List (Option (ClientOption P))) (h : Heap) (s : ClientConfig P × Heap)
      → apply_options os h ≡ ok s
      → IsConfig s
  unfolding apply_options
  apply_options-IsConfig os h s e =
      ensured IsConfig (apply_options os h)
        (from-Ensures IsConfig IsConfig (options_loop 0 os default_client_config h) _
          (options_loop-IsConfig 0 os default_client_config h (default_client_config-IsConfig P h))
          (λ s v. check-Ensures IsConfig (validate_request_limits s.0.request_limits) _ (λ _. v)))
        e

-- ===== src/Config/Url.antt =====
-- client.go: base URLs and the URLs of endpoints, and which of them may carry an access token.
use treetop_client_go.Validation.{validate_entity_id, validation_runs}
use treetop_client_go.Base.{
  Bool, Bytes, [], bytes_eq, codes, false, if◌then◌else◌, is_empty, not, true, ◌&&◌, ◌++◌, ◌==◌,
  ◌||◌, ◌∷◌,
}
pub mod Safe
pub mod Segment
use treetop_client_go.Errors.{
  Result, arg, configuration, err, invalid, ok, refuse_if, text, ◌>>=◌, ◌>>◌,
}

-- A `url.URL`; of the user information only whether there is any.
pub record Url : Type 0 where
  pub scheme : Bytes
  pub opaque : Bytes
  pub has_user : Bool
  pub host : Bytes
  pub path : Bytes
  pub raw_path : Bytes
  pub force_query : Bool
  pub raw_query : Bytes
  pub fragment : Bytes

-- What the client calls of packages net and net/url, and `strings.TrimSpace` and `strings.EqualFold`.
-- `is_loopback` is `ip != nil && ip.IsLoopback()` on `net.ParseIP`.
pub record Urls : Type 0 where
  pub trim_space : Bytes → Bytes
  pub parse_url : Bytes → Result Url
  pub hostname : Url → Bytes
  pub equal_fold : Bytes → Bytes → Bool
  pub is_loopback : Bytes → Bool
  pub escaped_path : Url → Bytes
  pub path_escape : Bytes → Bytes

-- `strings.TrimRight(s, "/")`
pub trim_right : Bytes → Bytes
trim_right [] = []
trim_right (b ∷ s) = let rest = trim_right s in if is_empty rest && b == b'/' then [] else b ∷ rest

-- `strings.TrimSuffix(s, "/")`
pub trim_suffix : Bytes → Bytes
trim_suffix [] = []
trim_suffix (b ∷ []) = if b == b'/' then [] else b ∷ []
trim_suffix (b ∷ c ∷ s) = b ∷ trim_suffix (c ∷ s)

-- `strings.TrimPrefix(s, "/")`
pub trim_prefix : Bytes → Bytes
trim_prefix [] = []
trim_prefix (b ∷ s) = if b == b'/' then s else b ∷ s

-- `strings.Split(path, "/")`, each part escaped, and `strings.Join` again: `part` is the part so far.
escape_from : (Bytes → Bytes) → Bytes → Bytes → Bytes
escape_from escape part [] = escape part
escape_from escape part (b ∷ s) = elim (b == b'/') [
  | true ↦ escape part ++ b'/' ∷ escape_from escape [] s
  | false ↦ escape_from escape (part ++ b ∷ []) s
]

-- `escapePath`
escape_path : (Bytes → Bytes) → Bytes → Bytes
escape_path escape path = escape_from escape [] path

module _ (urls : Urls) where
  wrap_parse : Result Url → Result Url
  wrap_parse (ok u) = ok u
  wrap_parse (err e) = err (configuration (text "invalid base URL"))

  -- `parseBaseURL`; the text of the error of `url.Parse`, which stands in the message, is left out.
  pub parse_base_url : Bytes → Result Url
  parse_base_url value = do
    u ← wrap_parse (urls.parse_url (urls.trim_space value))
    refuse_if (not (bytes_eq u.scheme (codes "http")) && not (bytes_eq u.scheme (codes "https")))
        (configuration (text "base URL scheme must be http or https"))
    refuse_if (is_empty u.host || not (is_empty u.opaque))
        (configuration (text "base URL must include a host"))
    refuse_if u.has_user (configuration (text "base URL must not contain credentials"))
    refuse_if (not (is_empty u.raw_query) || u.force_query || not (is_empty u.fragment))
        (configuration (text "base URL must not contain a query string or fragment"))
    ok (record u {
      path = trim_right u.path ++ b'/' ∷ [];
      raw_path = if is_empty u.raw_path then u.raw_path else trim_right u.raw_path ++ b'/' ∷ [];
    })

  -- `secureCredentialTransport`
  pub secure_credential_transport : Url → Bool → Bool
  secure_credential_transport base allow_insecure =
      bytes_eq base.scheme (codes "https")
      || allow_insecure
      || urls.equal_fold (urls.hostname base) (codes "localhost")
      || urls.is_loopback (urls.hostname base)

  -- `Client.rootEndpoint`
  pub root_endpoint : Url → Bytes → Url
  root_endpoint base path = record base {
    path = trim_suffix base.path ++ b'/' ∷ trim_prefix path;
    raw_path =
        trim_suffix (urls.escaped_path base)
        ++ b'/' ∷ escape_path urls.path_escape (trim_prefix path);
    raw_query = [];
    fragment = [];
  }

  -- `Client.endpoint`
  pub endpoint : Url → Bytes → Url
  endpoint base path = root_endpoint base (codes "api/v1/" ++ trim_prefix path)

  -- `Client.userPoliciesEndpoint`
  pub user_policies_endpoint : Url → Bytes → Result Url
  user_policies_endpoint base user = do
    validate_entity_id (text "user policies user") user
    refuse_if (is_empty user || bytes_eq user (codes ".") || bytes_eq user (codes "..")) (
        invalid (text "user policies user") (arg user ∷ [])
          "must be a non-empty endpoint path segment")
    let result : Url = endpoint base (codes "policies/")
    ok (record result {
      path = trim_suffix result.path ++ b'/' ∷ user;
      raw_path = trim_suffix (urls.escaped_path result) ++ b'/' ∷ urls.path_escape user;
    })

-- The definitions of this file, for a test by evaluation.
unfoldable pub url_runs : Unit {0}
unfolding validation_runs trim_right trim_suffix trim_prefix escape_from escape_path wrap_parse
    parse_base_url secure_credential_transport root_endpoint endpoint user_policies_endpoint
url_runs = tt

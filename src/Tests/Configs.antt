-- ===== src/Tests/Configs.antt =====
-- Instances of the theorems on the configuration of clients.
use treetop_client_go.Config.Url.{Url, Urls, url_runs, user_policies_endpoint}
use treetop_client_go.Config.Query.Filters.{IsGivenFilter}
use treetop_client_go.Config.Query.Parameters.{HasParameters, asked, build_user_policies_url_iff}
use treetop_client_go.Config.Query.{
  UserPoliciesOption, filter_groups, filter_namespaces, query_runs, query_values,
}
use treetop_client_go.Config.Upload.Guarded.{IsUploader, new_uploader-IsUploader}
use treetop_client_go.Config.Upload.{Uploader, upload_runs}
use treetop_client_go.Tests.Escapes.{escape, escape-IsPathEscape, unescape}
use treetop_client_go.Config.Url.Segment.{IsBelow, user_policies_endpoint-IsBelow}
use treetop_client_go.Base.{
  All, Bytes, List, Option, [], bytes_eq, codes, false, inr, ◌≡◌, none, refl, some, true, ◌++◌, ◌∷◌,
}
use treetop_client_go.Config.Make.Secure.{IsMade, new_client-IsMade}
use treetop_client_go.Config.{
  ClientConfig, ClientOption, HttpClient, config_runs, default_client_config, standard_transport,
  use_last_response, with_access_token, with_connect_timeout, with_root_ca_pem,
}
use treetop_client_go.Config.Make.{Client, make_runs}
use treetop_client_go.Config.Http.{Trust, http_runs}
use treetop_client_go.Base.Int.{pos}
use treetop_client_go.Errors.{ok}
use treetop_client_go.Token.{Heap, Token}
use treetop_client_go.Config.Valid.{IsConfig, apply_options-IsConfig}
use treetop_client_go.Config.Http.Built.{IsGuarded, build_http_client-IsGuarded}

abbrev parsed : Url
parsed = record {
  scheme = codes "https";
  opaque = [];
  has_user = false;
  host = codes "policy";
  path = codes "/x";
  raw_path = [];
  force_query = false;
  raw_query = [];
  fragment = [];
}

abbrev base : Url
base = record parsed { path = codes "/x/" }

abbrev urls : Urls
urls = record {
  trim_space = λ s. s;
  parse_url = λ s. ok parsed;
  hostname = λ u. u.host;
  equal_fold = bytes_eq;
  is_loopback = λ s. false;
  escaped_path = λ u. u.path;
  path_escape = escape;
}

-- A pool of certificates is the list of their texts.
abbrev trust : Trust (List Bytes)
trust = record {
  system_pool = none;
  empty_pool = [];
  append_pem = λ roots pem. some (pem ∷ roots);
  default_transport = none;
}

abbrev token : Token
token = record { value = some 0 }

abbrev heap : Heap
heap = codes "secret" ∷ []

abbrev options : List (Option (ClientOption (List Bytes)))
options =
    some (with_access_token token)
    ∷ some (with_connect_timeout (pos 9))
    ∷ some (with_root_ca_pem (codes "pem"))
    ∷ []

abbrev config : ClientConfig (List Bytes)
config = record default_client_config {
  access_token = some (record { value = some 1 });
  connect_timeout = pos 9;
  connect_timeout_changed = true;
  root_ca_pem = codes "pem" ∷ [];
  tls_options_changed = true;
}

abbrev later : Heap
later = codes "secret" ∷ codes "secret" ∷ []

apply_options-IsConfig_example : IsConfig (config, later)
unfolding config_runs
apply_options-IsConfig_example = apply_options-IsConfig options heap (config, later) refl

abbrev built : HttpClient (List Bytes)
built = record {
  transport = standard_transport (record {
    dial_timeout = some (pos 9);
    idle_conn_timeout = config.idle_conn_timeout;
    max_idle_conns_per_host = pos 2;
    force_attempt_http2 = true;
    tls_client_config = some (record {
      min_version = 0x0303;
      root_cas = some (codes "pem" ∷ []);
      insecure_skip_verify = false;
    });
  });
  timeout = config.request_timeout;
  check_redirect = use_last_response;
}

build_http_client-IsGuarded_example : IsGuarded built
unfolding config_runs http_runs
build_http_client-IsGuarded_example = build_http_client-IsGuarded trust config refl built tt tt refl

abbrev client : Client (List Bytes)
client = record {
  http = built;
  base_url = base;
  max_request_bytes = config.max_request_bytes;
  max_response_bytes = config.max_response_bytes;
  request_limits = config.request_limits;
  access_token = config.access_token;
  correlation_id = [];
  user_agent = codes "treetop-client-go";
}

new_client-IsMade_example : IsMade urls options heap (client, later)
unfolding make_runs
new_client-IsMade_example =
    new_client-IsMade urls trust (codes "https://policy/x") options heap (client, later) refl

abbrev alice_policies : Url
alice_policies = record base {
  path = codes "/x/api/v1/policies/alice";
  raw_path = codes "/x/api/v1/policies/alice";
}

abbrev nested_policies : Url
nested_policies = record base {
  path = codes "/x/api/v1/policies/x/..";
  raw_path = codes "/x/api/v1/policies/x%2F..";
}

user_policies_endpoint-IsBelow_example : IsBelow unescape base (codes "x/..") nested_policies
unfolding url_runs
user_policies_endpoint-IsBelow_example =
    user_policies_endpoint-IsBelow urls unescape base (codes "x/..") nested_policies
      escape-IsPathEscape (inr refl, refl, refl, refl, refl, refl, refl, (codes "/x", refl, refl))
      refl

abbrev uploader : Uploader (List Bytes)
uploader = record { client = client; token = record { value = some 2 } }

new_uploader-IsUploader_example :
    IsUploader urls client token [] later (uploader, codes "secret" ∷ later)
unfolding upload_runs
new_uploader-IsUploader_example =
    new_uploader-IsUploader urls client token [] later (uploader, codes "secret" ∷ later) refl

abbrev encode_values : List (Bytes × Bytes) → Bytes
encode_values [] = []
encode_values ((key, value) ∷ rest) = key ++ b'=' ∷ value ++ b'&' ∷ encode_values rest

abbrev filters : List (Option UserPoliciesOption)
filters =
    some (filter_namespaces (record { path = codes "App" } ∷ []))
    ∷ some (filter_groups (codes "admins" ∷ []))
    ∷ []

abbrev filtered : Url
filtered = record alice_policies { raw_query = codes "namespaces[]=App&groups[]=admins&" }

build_user_policies_url_iff_example :
    (target : Url) × (user_policies_endpoint urls base (codes "alice") ≡ ok target)
    × All IsGivenFilter filters
    × (filtered ≡ record target { raw_query = encode_values (query_values false (asked filters)) })
    × HasParameters false filters (query_values false (asked filters))
unfolding query_runs
build_user_policies_url_iff_example =
    (build_user_policies_url_iff urls encode_values base (codes "alice") false filters filtered).0
      refl

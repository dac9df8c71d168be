-- ===== src/Config/Query.antt =====
-- endpoints.go: the query for the policies of a user.
use treetop_client_go.Cedar.{Namespace, cedar_runs, global, validate_ns}
use treetop_client_go.Config.Url.{Url, Urls, url_runs, user_policies_endpoint}
use treetop_client_go.Base.{
  Bool, Bytes, List, Option, [], codes, if◌then◌else◌, is_empty, map, none, not, some, ℕ, ◌++◌, ◌+◌,
  ◌∷◌,
}
use treetop_client_go.Errors.{
  Check, Result, configuration, err, invalid, lit, nil, num, ok, pass, refuse_if, text, ◌>>=◌, ◌>>◌,
}
pub mod Filters
pub mod Parameters
use treetop_client_go.Base.Int.{pos}
use treetop_client_go.Validation.{validate_entity_id}

pub record UserPoliciesQuery : Type 0 where
  pub groups : List Bytes
  pub namespaces : List Namespace

-- A `UserPoliciesOption`, by the function of the package that made it: no other code can, since
-- `userPoliciesQuery` is private to the package.
pub data UserPoliciesOption : Type 0 where
  filter_groups : List Bytes → UserPoliciesOption
  filter_namespaces : List Namespace → UserPoliciesOption

check_groups : List Bytes → Check
check_groups [] = pass
check_groups (g ∷ gs) = validate_entity_id (text "user policies group") g >> check_groups gs

check_namespaces : List Namespace → Check
check_namespaces [] = pass
check_namespaces (n ∷ ns) = do
  refuse_if (is_empty n.path)
      (invalid (text "user policies namespace") [] "must not be the global namespace")
  validate_ns (text "user policies namespace") n
  check_namespaces ns

-- The function that an option is.
apply_filter : UserPoliciesOption → UserPoliciesQuery → Result UserPoliciesQuery
apply_filter (filter_groups gs) q = check_groups gs >> ok (record q { groups = q.groups ++ gs })
apply_filter (filter_namespaces ns) q =
    check_namespaces ns >> ok (record q { namespaces = q.namespaces ++ ns })

-- The loop over the options, at position `i`; a nil option is `none`.
pub filters_loop :
    ℕ → List (Option UserPoliciesOption) → UserPoliciesQuery → Result UserPoliciesQuery
filters_loop i [] q = ok q
filters_loop i (none ∷ options) q =
    err (configuration (lit "user policy option " ∷ num (pos i) ∷ lit " is nil" ∷ []))
filters_loop i (some option ∷ options) q = apply_filter option q >>= filters_loop (i + 1) options

-- The parameters of the query, by key, in the order of the calls of `Add` and `Set`.
pub query_values : Bool → UserPoliciesQuery → List (Bytes × Bytes)
query_values raw q =
    map (λ (n : Namespace). (codes "namespaces[]", n.path)) q.namespaces
    ++ (map (λ g. (codes "groups[]", g)) q.groups
        ++ (if raw then (codes "format", codes "raw") ∷ [] else []))

-- `Client.buildUserPoliciesURL`; `encode` is `url.Values.Encode`.
pub build_user_policies_url :
    Urls
    → (List (Bytes × Bytes) → Bytes)
    → Url
    → Bytes
    → Bool
    → List (Option UserPoliciesOption)
    → Result Url
build_user_policies_url urls encode base user raw options = do
  target ← user_policies_endpoint urls base user
  q ← filters_loop 0 options (record { groups = []; namespaces = [] })
  ok (record target { raw_query = encode (query_values raw q) })

-- The definitions of this file, for a test by evaluation.
unfoldable pub query_runs : Unit {0}
unfolding url_runs cedar_runs check_groups check_namespaces apply_filter filters_loop query_values
    build_user_policies_url
query_runs = tt

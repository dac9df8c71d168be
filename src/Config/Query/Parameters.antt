-- ===== src/Config/Query/Parameters.antt =====
-- The URL of a query, and its parameters.
use treetop_client_go.Errors.Ensures.{ok_inj}
use mathlib.Core.List.{append-nil}
use treetop_client_go.Errors.{>>=-eq-ok, ok}
use treetop_client_go.Cedar.{Namespace}
use treetop_client_go.Base.{
  All, Bool, Bool-cases, inl, inr, Bytes, List, Option, [], ap, bytes_eq, codes, false,
  if◌then◌else◌, map, refl, sym, true, ◌++◌, ◌↔◌, ◌∙◌, ◌∷◌, ◌≡◌,
}
use treetop_client_go.Config.Url.{Url, Urls, user_policies_endpoint}
use treetop_client_go.Config.Query.{
  UserPoliciesOption, UserPoliciesQuery, build_user_policies_url, filters_loop, query_values,
}
use treetop_client_go.Config.Query.Filters.{
  IsGivenFilter, filters_loop_iff, given_groups, given_namespaces,
}

-- The values of a key, in their order.
abbrev pub values_of : Bytes → List (Bytes × Bytes) → List Bytes
values_of key [] = []
values_of key ((k, v) ∷ rest) =
    let others = values_of key rest in if bytes_eq k key then v ∷ others else others

values_of-append :
    (key : Bytes) (xs ys : List (Bytes × Bytes))
    → values_of key (xs ++ ys) ≡ values_of key xs ++ values_of key ys
values_of-append key [] ys = refl
values_of-append key ((k, v) ∷ xs) ys = elim (Bool-cases (bytes_eq k key)) [
  | inl t ↦ rw t (ap (λ vs. v ∷ vs) (values_of-append key xs ys))
  | inr f ↦ rw f (values_of-append key xs ys)
]

module _ {A : Type 0} (k key : Bytes) (f : A → Bytes) where
  values_of-own :
      (xs : List A) → bytes_eq k key ≡ true → values_of key (map (λ x. (k, f x)) xs) ≡ map f xs
  values_of-own [] e = refl
  values_of-own (x ∷ xs) e = rw (e, values_of-own xs e) refl

  values_of-other :
      (xs : List A) → bytes_eq k key ≡ false → values_of key (map (λ x. (k, f x)) xs) ≡ []
  values_of-other [] e = refl
  values_of-other (x ∷ xs) e = rw (e, values_of-other xs e) refl

map_id : (xs : List Bytes) → map (λ x. x) xs ≡ xs
map_id [] = refl
map_id (x ∷ xs) = ap (λ ys. x ∷ ys) (map_id xs)

abbrev raw_format : Bool → List (Bytes × Bytes)
raw_format raw = if raw then (codes "format", codes "raw") ∷ [] else []

-- Per key, the values that the options ask for, in their order, and whether the raw form is asked for.
abbrev pub HasParameters : Bool → List (Option UserPoliciesOption) → List (Bytes × Bytes) → Type 0
HasParameters raw options params =
    (values_of (codes "namespaces[]") params
      ≡ map (λ (n : Namespace). n.path) (given_namespaces options))
    × (values_of (codes "groups[]") params ≡ given_groups options)
    × (values_of (codes "format") params ≡ (if raw then codes "raw" ∷ [] else []))

abbrev pub asked : List (Option UserPoliciesOption) → UserPoliciesQuery
asked options = record { groups = given_groups options; namespaces = given_namespaces options }

-- The values of a key are those of the three pieces of the parameters.
pieces :
    (key : Bytes) (raw : Bool) (q : UserPoliciesQuery)
    → values_of key (query_values raw q)
      ≡ values_of key (map (λ (n : Namespace). (codes "namespaces[]", n.path)) q.namespaces)
        ++ (values_of key (map (λ g. (codes "groups[]", g)) q.groups)
            ++ values_of key (raw_format raw))
unfolding query_values
pieces key raw q =
    values_of-append key (map (λ (n : Namespace). (codes "namespaces[]", n.path)) q.namespaces) _
    ∙ ap
        (λ vs.
          values_of key (map (λ (n : Namespace). (codes "namespaces[]", n.path)) q.namespaces)
          ++ vs)
        (values_of-append key (map (λ g. (codes "groups[]", g)) q.groups) (raw_format raw))

-- No piece but its own has values of a key.
format_lem :
    (raw : Bool)
    → (values_of (codes "namespaces[]") (raw_format raw) ≡ [])
      × (values_of (codes "groups[]") (raw_format raw) ≡ [])
      × (values_of (codes "format") (raw_format raw) ≡ (if raw then codes "raw" ∷ [] else []))
unfolding bytes_eq
format_lem true = (refl, refl, refl)
format_lem false = (refl, refl, refl)

module _ (raw : Bool) (q : UserPoliciesQuery) where
  abbrev path_of : Namespace → Bytes
  path_of n = n.path

  namespaces_lem : values_of (codes "namespaces[]") (query_values raw q) ≡ map path_of q.namespaces
  unfolding bytes_eq
  namespaces_lem =
      pieces (codes "namespaces[]") raw q
      ∙ rw
          (
            values_of-own (codes "namespaces[]") (codes "namespaces[]") path_of q.namespaces refl,
            values_of-other (codes "groups[]") (codes "namespaces[]") (λ g. g) q.groups refl,
            (format_lem raw).0,
          )
          (append-nil (map path_of q.namespaces))

  groups_lem : values_of (codes "groups[]") (query_values raw q) ≡ q.groups
  unfolding bytes_eq
  groups_lem =
      pieces (codes "groups[]") raw q
      ∙ rw
          (
            values_of-other (codes "namespaces[]") (codes "groups[]") path_of q.namespaces refl,
            values_of-own (codes "groups[]") (codes "groups[]") (λ g. g) q.groups refl,
            (format_lem raw).1,
            map_id q.groups,
          )
          (append-nil q.groups)

  raw_lem : values_of (codes "format") (query_values raw q) ≡ (if raw then codes "raw" ∷ [] else [])
  unfolding bytes_eq
  raw_lem =
      pieces (codes "format") raw q
      ∙ rw
          (
            values_of-other (codes "namespaces[]") (codes "format") path_of q.namespaces refl,
            values_of-other (codes "groups[]") (codes "format") (λ g. g) q.groups refl,
          )
          (format_lem raw).2

-- A query for the policies of a user is built exactly when the user has an endpoint, no option is nil,
-- the groups of the options are safe IDs and their namespaces are Cedar paths and not global. The URL
-- is then the endpoint with a query whose parameters are, per key, the namespaces and the groups of
-- all options, in their order, and the raw format where it is asked for.
pub build_user_policies_url_iff :
    (urls : Urls) (encode : List (Bytes × Bytes) → Bytes) (base : Url) (user : Bytes) (raw : Bool)
    (options : List (Option UserPoliciesOption)) (u : Url)
    → (build_user_policies_url urls encode base user raw options ≡ ok u) ↔ (
        (target : Url) × (user_policies_endpoint urls base user ≡ ok target)
        × All IsGivenFilter options
        × (u ≡ record target { raw_query = encode (query_values raw (asked options)) })
        × HasParameters raw options (query_values raw (asked options)))
unfolding build_user_policies_url
build_user_policies_url_iff urls encode base user raw options u =
    let start : UserPoliciesQuery = record { groups = []; namespaces = [] } in
    let (to, from) = filters_loop_iff 0 options start (asked options) in
    (
      λ h.
          let (target, t, h1) = >>=-eq-ok (user_policies_endpoint urls base user) _ h in
          let (q, f, h2) = >>=-eq-ok (filters_loop 0 options start) _ h1 in
          let (v, same) = (filters_loop_iff 0 options start q).0 f in
          (
            target,
            t,
            v,
            sym (ok_inj h2)
                ∙ ap (λ r. record target { raw_query = encode (query_values raw r) }) (sym same),
            (
              namespaces_lem raw (asked options),
              groups_lem raw (asked options),
              raw_lem raw (asked options),
            ),
          ),
      λ w. let (target, t, v, e, _) = w in rw (t, from (v, refl)) (ap ok (sym e)),
    )

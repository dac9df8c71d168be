-- ===== src/Config/Query/Filters.antt =====
-- The loop over the options: each must be valid, and the query has the values of all of them.
use treetop_client_go.Errors.Ensures.{ok_inj}
use treetop_client_go.Cedar.{Namespace}
use mathlib.Core.List.{append_assoc, append-nil}
use treetop_client_go.Errors.{
  Check, Result, ok, err, ◌>>=◌, ◌>>◌, >>_iff_×, >>_iff_×₃, iff_trans, pass, refuse_iff,
}
use treetop_client_go.Base.{
  ap, ◌∙◌, All, Bytes, List, Option, [], false, is_empty, none, refl, some, sym, ℕ, ◌++◌, ◌+◌, ◌↔◌,
  ◌∷◌, ◌≡◌,
}
use treetop_client_go.Validation.Entity.{validate_entity_id_iff}
use treetop_client_go.Cedar.Valid.{IsPath, IsSafeId, validate_ns_parts}
use treetop_client_go.Config.Query.{
  UserPoliciesOption, UserPoliciesQuery, apply_filter, check_groups, check_namespaces,
  filter_groups, filter_namespaces, filters_loop,
}

-- What the options ask for, all of them together.
abbrev pub given_groups : List (Option UserPoliciesOption) → List Bytes
given_groups [] = []
given_groups (some (filter_groups gs) ∷ options) = gs ++ given_groups options
given_groups (_ ∷ options) = given_groups options

abbrev pub given_namespaces : List (Option UserPoliciesOption) → List Namespace
given_namespaces [] = []
given_namespaces (some (filter_namespaces ns) ∷ options) = ns ++ given_namespaces options
given_namespaces (_ ∷ options) = given_namespaces options

-- A namespace that is not global and whose parts are identifiers.
abbrev pub IsFilter : Namespace → Type 0
IsFilter n = (is_empty n.path ≡ false) × IsPath n.path

abbrev pub IsGivenFilter : Option UserPoliciesOption → Type 0
IsGivenFilter none = ⊥
IsGivenFilter (some (filter_groups gs)) = All IsSafeId gs
IsGivenFilter (some (filter_namespaces ns)) = All IsFilter ns

check_groups_iff : (gs : List Bytes) → (check_groups gs ≡ pass) ↔ All IsSafeId gs
unfolding check_groups
check_groups_iff [] = (λ _. tt, λ _. refl)
check_groups_iff (g ∷ gs) = >>_iff_× (validate_entity_id_iff _ g) (check_groups_iff gs)

check_namespaces_iff : (ns : List Namespace) → (check_namespaces ns ≡ pass) ↔ All IsFilter ns
unfolding check_namespaces
check_namespaces_iff [] = (λ _. tt, λ _. refl)
check_namespaces_iff (n ∷ ns) =
    iff_trans
      (>>_iff_×₃ (refuse_iff (is_empty n.path) _) (validate_ns_parts _ n) (check_namespaces_iff ns))
      (λ w. ((w.0, w.1), w.2), λ w. (w.0.0, w.0.1, w.1))

-- A query with the values of the options behind its own.
abbrev pub extended : UserPoliciesQuery → List (Option UserPoliciesOption) → UserPoliciesQuery
extended q options = record {
  groups = q.groups ++ given_groups options;
  namespaces = q.namespaces ++ given_namespaces options;
}

extended_groups :
    (q : UserPoliciesQuery) (gs : List Bytes) (options : List (Option UserPoliciesOption))
    → extended (record q { groups = q.groups ++ gs }) options
      ≡ extended q (some (filter_groups gs) ∷ options)
extended_groups q gs options = rw (append_assoc q.groups gs (given_groups options)) refl

extended_namespaces :
    (q : UserPoliciesQuery) (ns : List Namespace) (options : List (Option UserPoliciesOption))
    → extended (record q { namespaces = q.namespaces ++ ns }) options
      ≡ extended q (some (filter_namespaces ns) ∷ options)
extended_namespaces q ns options = rw (append_assoc q.namespaces ns (given_namespaces options)) refl

-- A check before the rest of the loop, whose query is another spelling of the same.
step_iff :
    {P Q : Type 0} (c : Check) (f : UserPoliciesQuery → Result UserPoliciesQuery)
    (a p q r : UserPoliciesQuery)
    → (c ≡ pass) ↔ P
    → (f a ≡ ok r) ↔ (Q × (p ≡ r))
    → p ≡ q
    → (((c >> ok a) >>= f) ≡ ok r) ↔ ((P × Q) × (q ≡ r))
step_iff (ok tt) f a p q r c k e = (
  λ h. let (v, s) = k.0 h in ((c.0 refl, v), sym e ∙ s),
  λ w. let ((t, v), s) = w in k.1 (v, e ∙ s),
)
step_iff (err x) f a p q r c k e = (λ h. cc, λ w. let h : err x ≡ pass = c.1 w.0.0 in cc)

pub filters_loop_iff :
    (i : ℕ) (os : List (Option UserPoliciesOption)) (q r : UserPoliciesQuery)
    → (filters_loop i os q ≡ ok r) ↔ (All IsGivenFilter os × (extended q os ≡ r))
unfolding filters_loop apply_filter
filters_loop_iff i [] q r =
    let same : extended q [] ≡ q = rw (append-nil q.groups, append-nil q.namespaces) refl in
    (λ h. (tt, same ∙ ok_inj h), λ w. ap ok (sym same ∙ w.1))
filters_loop_iff i (none ∷ os) q r = (λ h. cc, λ w. absurd w.0.0)
filters_loop_iff i (some (filter_groups gs) ∷ os) q r =
    let longer : UserPoliciesQuery = record q { groups = q.groups ++ gs } in
    step_iff (check_groups gs) (filters_loop (i + 1) os) longer (extended longer os)
      (extended q (some (filter_groups gs) ∷ os)) r (check_groups_iff gs)
      (filters_loop_iff (i + 1) os longer r) (extended_groups q gs os)
filters_loop_iff i (some (filter_namespaces ns) ∷ os) q r =
    let longer : UserPoliciesQuery = record q { namespaces = q.namespaces ++ ns } in
    step_iff (check_namespaces ns) (filters_loop (i + 1) os) longer (extended longer os)
      (extended q (some (filter_namespaces ns) ∷ os)) r (check_namespaces_iff ns)
      (filters_loop_iff (i + 1) os longer r) (extended_namespaces q ns os)

-- ===== src/Entities/Valid.antt =====
-- What the validators of IDs, namespaces, groups, users, principals and actions accept.
use treetop_client_go.Base.{All, List, [], refl, ◌↔◌, ◌∷◌, ◌≡◌}
use treetop_client_go.Errors.{>>_iff_×, >>_iff_×₃, pass}
use treetop_client_go.Cedar.Valid.{IsId, IsPath, validate_id_iff, validate_ns_parts}
use treetop_client_go.Entities.{
  Action, Group, Principal, PrincipalKind, User, principal_group, principal_user, unset_kind,
  validate_action, validate_group, validate_groups, validate_kind, validate_principal,
  validate_user,
}

abbrev pub IsGroup : Group → Type 0
IsGroup g = IsId g.id × IsPath g.namespace.path

abbrev pub IsUser : User → Type 0
IsUser u = IsId u.id × IsPath u.namespace.path × All IsGroup u.groups

abbrev pub IsAction : Action → Type 0
IsAction a = IsId a.id × IsPath a.namespace.path

abbrev pub IsOfKind : PrincipalKind → User → Group → Type 0
IsOfKind principal_user u g = IsUser u
IsOfKind principal_group u g = IsGroup g
IsOfKind unset_kind u g = ⊥

abbrev pub IsPrincipal : Principal → Type 0
IsPrincipal p = IsOfKind p.kind p.user p.group

pub validate_group_iff : (g : Group) → (validate_group g ≡ pass) ↔ IsGroup g
unfolding validate_group
validate_group_iff g = >>_iff_× (validate_id_iff _ g.id) (validate_ns_parts _ g.namespace)

pub validate_groups_iff : (gs : List Group) → (validate_groups gs ≡ pass) ↔ All IsGroup gs
unfolding validate_groups
validate_groups_iff [] = (λ h. tt, λ h. refl)
validate_groups_iff (g ∷ gs) = >>_iff_× (validate_group_iff g) (validate_groups_iff gs)

pub validate_user_iff : (u : User) → (validate_user u ≡ pass) ↔ IsUser u
unfolding validate_user
validate_user_iff u =
    >>_iff_×₃ (validate_id_iff _ u.id) (validate_ns_parts _ u.namespace)
      (validate_groups_iff u.groups)

pub validate_action_iff : (a : Action) → (validate_action a ≡ pass) ↔ IsAction a
unfolding validate_action
validate_action_iff a = >>_iff_× (validate_id_iff _ a.id) (validate_ns_parts _ a.namespace)

kind_iff :
    (k : PrincipalKind) (u : User) (g : Group) → (validate_kind k u g ≡ pass) ↔ IsOfKind k u g
unfolding validate_kind
kind_iff principal_user u g = validate_user_iff u
kind_iff principal_group u g = validate_group_iff g
kind_iff unset_kind u g = (λ h. cc, λ h. absurd h)

pub validate_principal_iff : (p : Principal) → (validate_principal p ≡ pass) ↔ IsPrincipal p
unfolding validate_principal
validate_principal_iff p = kind_iff p.kind p.user p.group

-- ===== src/Entities/Construct.antt =====
-- Whatever its options do, a constructor returns only what its validator accepts.
use treetop_client_go.Cedar.Valid.{new_entity_id_lem, validate_ns_parts}
use treetop_client_go.Base.{Bytes, List, [], some, ◌∷◌, ◌≡◌}
use treetop_client_go.Errors.{>>=-eq-ok, >>_iff, Check, Result, err, ok, pass, text, ◌>>=◌, ◌>>◌}
use treetop_client_go.Cedar.{new_entity_id}
use treetop_client_go.Options.{Setter, apply_all}
use treetop_client_go.Entities.{
  Action, Group, User, action_with_namespace, group_with_namespace, new_action, new_group, new_user,
  user_with_groups, user_with_namespace, validate_action, validate_group, validate_user,
}
use treetop_client_go.Entities.Valid.{
  IsAction, IsGroup, IsUser, validate_action_iff, validate_group_iff, validate_groups_iff,
  validate_user_iff,
}

-- The last two steps of a constructor: validate, and return.
pub checked {ℓ} :
    {A : Type ℓ} (validate : A → Check) (m : Result A) (a : A)
    → (m >>= λ x. validate x >> ok x) ≡ ok a
    → validate a ≡ pass
checked validate (err e) a h = cc
checked validate (ok x) a h =
    let (v, e) = (>>_iff (validate x) (ok x)).0 h in let same : x ≡ a = cc e in rw (← same) v

pub new_group-IsGroup :
    (id : Bytes) (options : List (Setter Group)) (g : Group)
    → new_group id options ≡ ok g
    → IsGroup g
unfolding new_group
new_group-IsGroup id options g h =
    let (vid, _, h') = >>=-eq-ok (new_entity_id (text "group.id") id) _ h in
    (validate_group_iff g).0 (checked validate_group (apply_all _ options _) g h')

-- Whatever its options do, a user that `NewUser` returns is valid: a safe ID, a global or well-formed
-- namespace, and valid groups.
pub new_user-IsUser :
    (id : Bytes) (options : List (Setter User)) (u : User) → new_user id options ≡ ok u → IsUser u
unfolding new_user
new_user-IsUser id options u h =
    let (vid, _, h') = >>=-eq-ok (new_entity_id (text "user.id") id) _ h in
    (validate_user_iff u).0 (checked validate_user (apply_all _ options _) u h')

pub new_action-IsAction :
    (id : Bytes) (options : List (Setter Action)) (a : Action)
    → new_action id options ≡ ok a
    → IsAction a
unfolding new_action
new_action-IsAction id options a h =
    let (vid, _, h') = >>=-eq-ok (new_entity_id (text "action.id") id) _ h in
    (validate_action_iff a).0 (checked validate_action (apply_all _ options _) a h')

-- A well-formed group is what its constructor makes of its parts.
pub new_group_lem :
    (g : Group)
    → IsGroup g
    → new_group g.id.value (some (group_with_namespace g.namespace) ∷ []) ≡ ok g
unfolding new_group group_with_namespace apply_all
new_group_lem g h =
    rw
      (
        new_entity_id_lem (text "group.id") g.id h.0,
        (validate_ns_parts (text "group.namespace") g.namespace).1 h.1,
      )
      (rw ((validate_group_iff g).1 h))

-- A well-formed user is what its constructor makes of its parts.
pub new_user_lem :
    (u : User)
    → IsUser u
    → new_user u.id.value
        (some (user_with_namespace u.namespace) ∷ some (user_with_groups u.groups) ∷ [])
      ≡ ok u
unfolding new_user user_with_namespace user_with_groups apply_all
new_user_lem u h =
    rw
      (
        new_entity_id_lem (text "user.id") u.id h.0,
        (validate_ns_parts (text "user.namespace") u.namespace).1 h.1,
        (validate_groups_iff u.groups).1 h.2,
      )
      (rw ((validate_user_iff u).1 h))

-- A well-formed action is what its constructor makes of its parts.
pub new_action_lem :
    (a : Action)
    → IsAction a
    → new_action a.id.value (some (action_with_namespace a.namespace) ∷ []) ≡ ok a
unfolding new_action action_with_namespace apply_all
new_action_lem a h =
    rw
      (
        new_entity_id_lem (text "action.id") a.id h.0,
        (validate_ns_parts (text "action.namespace") a.namespace).1 h.1,
      )
      (rw ((validate_action_iff a).1 h))

-- ===== src/Builder/Parts.antt =====
-- `Build` by its errors and its parts.
use treetop_client_go.Base.{
  Bool, List, [], ap, false, if◌then◌else◌, refl, some, subst, true, ◌++◌, ◌↔◌, ◌∙◌, ◌∷◌, ◌≡◌,
}
use treetop_client_go.Errors.{>>=-eq-ok, Err, Message, Result, err, ok, text, wrap}
use treetop_client_go.Validation.{Net}
use treetop_client_go.Entities.{
  Action, Principal, group_principal, new_action, new_group, new_user, user_principal, zero_action,
  zero_principal,
}
use treetop_client_go.Entities.Valid.{IsAction, IsPrincipal}
use treetop_client_go.Entities.Construct.{new_action-IsAction, new_group-IsGroup, new_user-IsUser}
use treetop_client_go.Request.{Request, Resource, new_resource, zero_resource}
use treetop_client_go.Request.Valid.{IsResource}
use treetop_client_go.Request.Construct.{new_request_lem, new_resource-IsResource}
use treetop_client_go.Builder.{
  BuilderPrincipal, RequestBuilder, build_action, build_principal, build_request, build_resource,
  builder_group, builder_user, failure, finish, no_principal, principal_part, value_or,
}

unwrapped {ℓ} : {A : Type ℓ} (m : Message) (r : Result A) {a : A} → wrap m r ≡ ok a → r ≡ ok a
unwrapped m (ok x) h = h
unwrapped m (err e) h = cc

if_ok {ℓ} :
    {A : Type ℓ} (c : Bool) (m : Result A) (e : Err) {a : A}
    → (if c then m else err e) ≡ ok a
    → (c ≡ true) × (m ≡ ok a)
if_ok true m e h = (refl, h)
if_ok false m e h = cc

principal_part-IsPrincipal :
    (k : BuilderPrincipal) (b : RequestBuilder) (p : Principal)
    → principal_part k b ≡ ok p
    → IsPrincipal p
unfolding principal_part user_principal group_principal
principal_part-IsPrincipal no_principal b p h = cc
principal_part-IsPrincipal builder_user b p h =
    let (u, e, q) = >>=-eq-ok (new_user b.principal_id b.user_options) _ (unwrapped _ _ h) in
    let same : user_principal u ≡ p = cc q in
    subst IsPrincipal same (new_user-IsUser b.principal_id b.user_options u e)
principal_part-IsPrincipal builder_group b p h =
    let (g, e, q) = >>=-eq-ok (new_group b.principal_id b.group_options) _ (unwrapped _ _ h) in
    let same : group_principal g ≡ p = cc q in
    subst IsPrincipal same (new_group-IsGroup b.principal_id b.group_options g e)

action-IsAction : (b : RequestBuilder) (a : Action) → build_action b ≡ ok a → IsAction a
unfolding build_action
action-IsAction b a h =
    let (_, made) =
      if_ok b.action_set (wrap (text "action") (new_action b.action_id b.action_options)) _ h in
    new_action-IsAction b.action_id b.action_options a (unwrapped _ _ made)

resource-IsResource :
    (net : Net) (b : RequestBuilder) (r : Resource) → build_resource net b ≡ ok r → IsResource net r
unfolding build_resource
resource-IsResource net b r h =
    let (_, made) =
      if_ok b.resource_set
        (wrap (text "resource") (new_resource net b.resource_type b.resource_id b.resource_options))
        _ h in
    new_resource-IsResource net b.resource_type b.resource_id b.resource_options r
      (unwrapped _ _ made)

-- Every error of a build, in order: those of the calls, the principal's, the action's, the resource's.
abbrev pub collected : Net → RequestBuilder → List Err
collected net b =
    b.input_errors
    ++ (failure (build_principal b) ++ (failure (build_action b) ++ failure (build_resource net b)))

module _ (net : Net) where
  -- The parts are good, so the last check passes.
  finish-ok :
      (p : Principal) (a : Action) (r : Resource)
      → IsPrincipal p
      → IsAction a
      → IsResource net r
      → finish net [] p a r ≡ ok (record { principal = p; action = a; resource = r })
  unfolding finish
  finish-ok p a r hp ha hr = rw (new_request_lem net p a r (hp, ha, hr), finish)

  abbrev outcome : List Err → Result Principal → Result Action → Result Resource → Result Request
  outcome es p a r =
      finish net (es ++ (failure p ++ (failure a ++ failure r))) (value_or zero_principal p)
        (value_or zero_action a) (value_or zero_resource r)

  outcome_iff :
      (es : List Err) (p : Result Principal) (a : Result Action) (r : Result Resource)
      → ((x : Principal) → p ≡ ok x → IsPrincipal x)
      → ((x : Action) → a ≡ ok x → IsAction x)
      → ((x : Resource) → r ≡ ok x → IsResource net x)
      → (q : Request)
      → (outcome es p a r ≡ ok q)
        ↔ ((es ≡ []) × (p ≡ ok q.principal) × (a ≡ ok q.action) × (r ≡ ok q.resource))
  unfolding finish failure value_or
  outcome_iff (e ∷ es) p a r hp ha hr q = (λ h. cc, λ w. cc w.0)
  outcome_iff [] (err e) a r hp ha hr q = (λ h. cc, λ w. cc w.1)
  outcome_iff [] (ok p) (err e) r hp ha hr q = (λ h. cc, λ w. cc w.2)
  outcome_iff [] (ok p) (ok a) (err e) hp ha hr q = (λ h. cc, λ w. cc w.3)
  outcome_iff [] (ok p) (ok a) (ok r) hp ha hr q =
      let made = finish-ok p a r (hp p refl) (ha a refl) (hr r refl) in
      (
        λ h.
            let same : record { principal = p; action = a; resource = r } ≡ q = cc (made, h) in
            (
              refl,
              ap (λ (x : Request). ok x.principal) same,
              ap (λ (x : Request). ok x.action) same,
              ap (λ (x : Request). ok x.resource) same,
            ),
        λ w. made ∙ cc (w.1, w.2, w.3),
      )

-- The errors and the parts of a build decide it.
pub build_parts_iff :
    (net : Net) (b : RequestBuilder) (q : Request)
    → (build_request net (some b) ≡ ok q) ↔ (
        (b.input_errors ≡ [])
        × (build_principal b ≡ ok q.principal)
        × (build_action b ≡ ok q.action)
        × (build_resource net b ≡ ok q.resource))
unfolding build_request build_principal
build_parts_iff net b q =
    outcome_iff net b.input_errors (build_principal b) (build_action b) (build_resource net b)
      (principal_part-IsPrincipal b.principal_kind b) (action-IsAction b)
      (resource-IsResource net b) q

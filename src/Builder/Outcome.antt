-- ===== src/Builder/Outcome.antt =====
-- What `Build` returns.
use treetop_client_go.Builder.Parts.{build_parts_iff}
use treetop_client_go.Base.{
  inl, inr, sym, ◌⊎◌, Bool, [], ap, false, if◌then◌else◌, refl, some, true, ◌↔◌, ◌∙◌, ◌≡◌,
}
use treetop_client_go.Errors.Ensures.{ok_inj}
use treetop_client_go.Errors.{◌>>=◌, Err, Message, Result, err, ok, text, wrap}
use treetop_client_go.Validation.{Net}
use treetop_client_go.Entities.{
  User, Group, Action, Principal, group_principal, new_action, new_group, new_user, user_principal,
}
use treetop_client_go.Request.{Request, Resource, new_resource}
use treetop_client_go.Builder.{
  BuilderPrincipal, RequestBuilder, build_action, build_principal, build_request, build_resource,
  builder_group, builder_user, no_principal, principal_part,
}

-- The principal is set, with `User` or with `Group`, and constructed from what was set.
abbrev pub HasPrincipal : RequestBuilder → Principal → Type 0
HasPrincipal b p =
    ((b.principal_kind ≡ builder_user)
      × (u : User) × (new_user b.principal_id b.user_options ≡ ok u)
      × (p ≡ user_principal u))
    ⊎ ((b.principal_kind ≡ builder_group)
        × (g : Group) × (new_group b.principal_id b.group_options ≡ ok g)
        × (p ≡ group_principal g))

abbrev pub HasAction : RequestBuilder → Action → Type 0
HasAction b a = (b.action_set ≡ true) × (new_action b.action_id b.action_options ≡ ok a)

abbrev pub HasResource : Net → RequestBuilder → Resource → Type 0
HasResource net b r =
    (b.resource_set ≡ true)
    × (new_resource net b.resource_type b.resource_id b.resource_options ≡ ok r)

wrapped_iff {ℓ} : {A : Type ℓ} (m : Message) (r : Result A) (a : A) → (wrap m r ≡ ok a) ↔ (r ≡ ok a)
wrapped_iff m (ok x) a = (λ h. h, λ h. h)
wrapped_iff m (err e) a = (λ h. cc, λ h. cc)

made_iff {ℓ} :
    {A : Type ℓ} (c : Bool) (m : Message) (r : Result A) (e : Err) (a : A)
    → ((if c then wrap m r else err e) ≡ ok a) ↔ ((c ≡ true) × (r ≡ ok a))
made_iff true m r e a = (λ h. (refl, (wrapped_iff m r a).0 h), λ w. (wrapped_iff m r a).1 w.1)
made_iff false m r e a = (λ h. cc, λ w. cc w.0)

-- A principal of one kind, from the value that its constructor gives.
kind_iff :
    {A : Type 0} (m : Message) (r : Result A) (f : A → Principal) (p : Principal)
    → (wrap m (r >>= λ x. ok (f x)) ≡ ok p) ↔ ((x : A) × (r ≡ ok x) × (p ≡ f x))
kind_iff m (ok x) f p =
    (λ h. (x, refl, sym (ok_inj h)), λ w. let (y, e, q) = w in ap ok (ap f (ok_inj e) ∙ sym q))
kind_iff m (err e) f p = (λ h. cc, λ w. let (y, e', q) = w in cc e')

principal_iff :
    (b : RequestBuilder) (p : Principal)
    → (k : BuilderPrincipal)
    → (principal_part k b ≡ ok p) ↔ (
        ((k ≡ builder_user)
          × (u : User) × (new_user b.principal_id b.user_options ≡ ok u)
          × (p ≡ user_principal u))
        ⊎ ((k ≡ builder_group)
            × (g : Group) × (new_group b.principal_id b.group_options ≡ ok g)
            × (p ≡ group_principal g)))
unfolding principal_part
principal_iff b p builder_user =
    let (to, from) =
      kind_iff (text "principal") (new_user b.principal_id b.user_options) user_principal p in
    (
      λ h. let (u, e, q) = to h in inl (refl, u, e, q),
      λ w. elim w [ inl (_, u, e, q) ↦ from (u, e, q) | inr (k, _, _, _) ↦ cc k ],
    )
principal_iff b p builder_group =
    let (to, from) =
      kind_iff (text "principal") (new_group b.principal_id b.group_options) group_principal p in
    (
      λ h. let (g, e, q) = to h in inr (refl, g, e, q),
      λ w. elim w [ inl (k, _, _, _) ↦ cc k | inr (_, g, e, q) ↦ from (g, e, q) ],
    )
principal_iff b p no_principal =
    (λ h. cc, λ w. elim w [ inl (k, _, _, _) ↦ cc k | inr (k, _, _, _) ↦ cc k ])

-- `Build` succeeds exactly when no setter was called twice, the principal is set as a user or as a
-- group, the action and the resource are set, and each of the three is constructed from what was set;
-- the request is then made of these three.
pub build_request_iff :
    (net : Net) (b : RequestBuilder) (q : Request)
    → (build_request net (some b) ≡ ok q) ↔ (
        (b.input_errors ≡ [])
        × HasPrincipal b q.principal
        × HasAction b q.action
        × HasResource net b q.resource)
unfolding build_principal build_action build_resource
build_request_iff net b q =
    let (to, from) = build_parts_iff net b q in
    let (p_to, p_from) = principal_iff b q.principal b.principal_kind in
    let (a_to, a_from) =
      made_iff b.action_set (text "action") (new_action b.action_id b.action_options) _ q.action in
    let (r_to, r_from) =
      made_iff b.resource_set (text "resource")
        (new_resource net b.resource_type b.resource_id b.resource_options) _ q.resource in
    (
      λ h. let (e, p, a, r) = to h in (e, p_to p, a_to a, r_to r),
      λ w. let (e, p, a, r) = w in from (e, p_from p, a_from a, r_from r),
    )

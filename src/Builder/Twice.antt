-- ===== src/Builder/Twice.antt =====
-- A builder remembers what was set twice.
use treetop_client_go.Validation.{Net}
use treetop_client_go.Builder.Parts.{build_parts_iff}
use treetop_client_go.Request.{Request, Resource}
use mathlib.Core.Bool.{false≢true}
use treetop_client_go.Base.{
  Bool-cases, Bytes, List, String, [], ap, arith, false, if_elim, inl, inr, is_empty, refl, some,
  subst, sym, true, ◌++◌, ◌∙◌, ◌∷◌, ◌≡◌, ◌≢◌,
}
use treetop_client_go.Errors.{Err, ok}
use treetop_client_go.Options.{Setter}
use treetop_client_go.Entities.{Action, Group, User}
use treetop_client_go.Builder.{
  RequestBuilder, build_request, duplicate, is_unset, set_action, set_group, set_resource, set_user,
}

-- One call of a method of the builder.
pub data Call : Type 0 where
  user : Bytes → List (Setter User) → Call
  group : Bytes → List (Setter Group) → Call
  action : Bytes → List (Setter Action) → Call
  resource : Bytes → Bytes → List (Setter Resource) → Call

abbrev pub perform : Call → RequestBuilder → RequestBuilder
perform (user id o) b = set_user id o b
perform (group id o) b = set_group id o b
perform (action id o) b = set_action id o b
perform (resource kind id o) b = set_resource kind id o b

abbrev pub perform_all : List Call → RequestBuilder → RequestBuilder
perform_all [] b = b
perform_all (c ∷ cs) b = perform_all cs (perform c b)

-- The three parts of a request.
pub data Part : Type 0 where
  principal_call action_call resource_call : Part

abbrev pub part : Call → Part
part (user id o) = principal_call
part (group id o) = principal_call
part (action id o) = action_call
part (resource kind id o) = resource_call

-- Whether a builder has a part.
abbrev HasPart : Part → RequestBuilder → Type 0
HasPart principal_call b = is_unset b.principal_kind ≡ false
HasPart action_call b = b.action_set ≡ true
HasPart resource_call b = b.resource_set ≡ true

abbrev HasErrors : RequestBuilder → Type 0
HasErrors b = is_empty b.input_errors ≡ false

append-not_empty : (es : List Err) (e : Err) → is_empty (es ++ e ∷ []) ≡ false
append-not_empty [] e = refl
append-not_empty (x ∷ es) e = refl

-- A method that finds its part unset sets it.
perform-HasPart : (c : Call) (b : RequestBuilder) → HasPart (part c) (perform c b)
unfolding set_user set_group set_action set_resource duplicate is_unset
perform-HasPart (user id o) b = elim (Bool-cases (is_unset b.principal_kind)) [
  | inl e ↦ rw e
  | inr e ↦ rw e e
]
perform-HasPart (group id o) b = elim (Bool-cases (is_unset b.principal_kind)) [
  | inl e ↦ rw e
  | inr e ↦ rw e e
]
perform-HasPart (action id o) b = elim (Bool-cases b.action_set) [ inl e ↦ rw e | inr e ↦ rw e ]
perform-HasPart (resource kind id o) b = elim (Bool-cases b.resource_set) [
  | inl e ↦ rw e
  | inr e ↦ rw e
]

again-HasErrors : (c : Call) (b : RequestBuilder) → HasPart (part c) b → HasErrors (perform c b)
unfolding set_user set_group set_action set_resource duplicate
again-HasErrors (user id o) b h = rw h (append-not_empty b.input_errors _)
again-HasErrors (group id o) b h = rw h (append-not_empty b.input_errors _)
again-HasErrors (action id o) b h = rw h (append-not_empty b.input_errors _)
again-HasErrors (resource kind id o) b h = rw h (append-not_empty b.input_errors _)

duplicate-HasErrors : (field : String) (b : RequestBuilder) → HasErrors (duplicate field b)
unfolding duplicate
duplicate-HasErrors field b = append-not_empty b.input_errors _

keeps-HasErrors : (c : Call) (b : RequestBuilder) → HasErrors b → HasErrors (perform c b)
unfolding set_user set_group set_action set_resource
keeps-HasErrors (user id o) b h = if_elim HasErrors _ h (duplicate-HasErrors _ b)
keeps-HasErrors (group id o) b h = if_elim HasErrors _ h (duplicate-HasErrors _ b)
keeps-HasErrors (action id o) b h = if_elim HasErrors _ (duplicate-HasErrors _ b) h
keeps-HasErrors (resource kind id o) b h = if_elim HasErrors _ (duplicate-HasErrors _ b) h

keeps-HasPart : (p : Part) (c : Call) (b : RequestBuilder) → HasPart p b → HasPart p (perform c b)
unfolding set_user set_group set_action set_resource duplicate is_unset
keeps-HasPart principal_call (user id o) b h = ground arith
keeps-HasPart principal_call (group id o) b h = ground arith
keeps-HasPart principal_call (action id o) b h = ground arith
keeps-HasPart principal_call (resource kind id o) b h = ground arith
keeps-HasPart action_call (user id o) b h = ground arith
keeps-HasPart action_call (group id o) b h = ground arith
keeps-HasPart action_call (action id o) b h = ground arith
keeps-HasPart action_call (resource kind id o) b h = ground arith
keeps-HasPart resource_call (user id o) b h = ground arith
keeps-HasPart resource_call (group id o) b h = ground arith
keeps-HasPart resource_call (action id o) b h = ground arith
keeps-HasPart resource_call (resource kind id o) b h = ground arith

all_keep-HasErrors :
    (cs : List Call) (b : RequestBuilder) → HasErrors b → HasErrors (perform_all cs b)
all_keep-HasErrors [] b h = h
all_keep-HasErrors (c ∷ cs) b h = all_keep-HasErrors cs (perform c b) (keeps-HasErrors c b h)

-- The later call meets the part set, whatever stands between.
set_again-HasErrors :
    (between after : List Call) (d : Call) (b : RequestBuilder)
    → HasPart (part d) b
    → HasErrors (perform_all (between ++ d ∷ after) b)
set_again-HasErrors [] after d b h = all_keep-HasErrors after (perform d b) (again-HasErrors d b h)
set_again-HasErrors (c ∷ cs) after d b h =
    set_again-HasErrors cs after d (perform c b) (keeps-HasPart (part d) c b h)

twice-HasErrors :
    (before between after : List Call) (c d : Call) (b : RequestBuilder)
    → part c ≡ part d
    → HasErrors (perform_all (before ++ c ∷ (between ++ d ∷ after)) b)
twice-HasErrors [] between after c d b e =
    set_again-HasErrors between after d (perform c b)
      (subst (λ p. HasPart p (perform c b)) e (perform-HasPart c b))
twice-HasErrors (x ∷ xs) between after c d b e =
    twice-HasErrors xs between after c d (perform x b) e

-- A part that is set twice, at any two places among the calls on a builder, makes `Build` fail: no
-- later call removes the error. A user and a group are the same part.
pub build_request-perform_all :
    (net : Net) (before between after : List Call) (c d : Call) (b : RequestBuilder) (q : Request)
    → part c ≡ part d
    → build_request net (some (perform_all (before ++ c ∷ (between ++ d ∷ after)) b)) ≢ ok q
build_request-perform_all net before between after c d b q e h =
    let calls = before ++ c ∷ (between ++ d ∷ after) in
    let (clean, _, _, _) = (build_parts_iff net (perform_all calls b) q).0 h in
    false≢true (sym (twice-HasErrors before between after c d b e) ∙ ap is_empty clean)

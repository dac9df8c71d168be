-- ===== src/Attr/Validate.antt =====
-- The worklist of `AttrValue.Validate` against a recursive check, and against a typing predicate.
use treetop_client_go.Base.{
  List, [], ap, arith, refl, suc, sym, true, zero, ℕ, ◌+◌, ◌↔◌, ◌∙◌, ◌∷◌, ◌≡◌, ◌≤◌, ◌⊎◌,
}
use treetop_client_go.Errors.{>>_assoc, >>_iff_×, >>_pass, Check, iff_swap, pass, ◌>>=◌, ◌>>◌}
use treetop_client_go.Validation.Entity.{validate_ip_iff}
use treetop_client_go.Validation.{Net}
use treetop_client_go.Attr.Size.{size-pos}
use treetop_client_go.Attr.{
  AttrType, AttrValue, AttrValues, Scalar, attr, attr_set, bool, bool_type, empty, ip_type, item,
  long, long_type, other_type, push_all, set_type, size, size_all, str, string_type, validate_attr,
  validate_loop, visit,
}

module _ (net : Net) where
  -- The same check by recursion; of the members of a set the last is checked first.
  mutual
    pub check : AttrValue → Check
    check (attr kind x) = visit net (attr kind x) [] >>= λ _. pass
    check (attr_set set_type vs) = check_all vs
    check (attr_set kind vs) = visit net (attr_set kind vs) [] >>= λ _. pass

    pub check_all : AttrValues → Check
    check_all empty = pass
    check_all (item v vs) = check_all vs >> check v

  abbrev stack_size : List AttrValue → ℕ
  stack_size [] = 0
  stack_size (v ∷ st) = size v + stack_size st

  abbrev check_stack : List AttrValue → Check
  check_stack [] = pass
  check_stack (v ∷ st) = check v >> check_stack st

  stack_size-push_all :
      (vs : AttrValues) (st : List AttrValue)
      → stack_size (push_all vs st) ≡ size_all vs + stack_size st
  unfolding push_all size
  stack_size-push_all empty st = omega arith
  stack_size-push_all (item v vs) st = omega (arith, stack_size-push_all vs (v ∷ st))

  check_stack-push_all :
      (vs : AttrValues) (st : List AttrValue)
      → check_stack (push_all vs st) ≡ (check_all vs >> check_stack st)
  unfolding push_all check
  check_stack-push_all empty st = refl
  check_stack-push_all (item v vs) st =
      check_stack-push_all vs (v ∷ st) ∙ sym (>>_assoc (check_all vs) (check v) (check_stack st))

  -- A value that is no set: the round leaves the stack as it is, or fails as the check does.
  visit-attr :
      (kind : AttrType) (x : Scalar) (st : List AttrValue) (k : List AttrValue → Check)
      → (visit net (attr kind x) st >>= k) ≡ (check (attr kind x) >> k st)
  unfolding visit check
  visit-attr string_type x st k = ground arith
  visit-attr bool_type x st k = ground arith
  visit-attr long_type x st k = ground arith
  visit-attr ip_type x st k = ground arith
  visit-attr set_type x st k = ground arith
  visit-attr (other_type s) x st k = ground arith

  -- With a round for each value on the stack, the loop ends and is the recursive check of the stack.
  validate_loop-check_stack :
      (fuel : ℕ) (st : List AttrValue)
      → stack_size st ≤ fuel
      → validate_loop net fuel st ≡ check_stack st
  unfolding validate_loop visit check size
  validate_loop-check_stack zero [] h = refl
  validate_loop-check_stack (suc fuel) [] h = refl
  validate_loop-check_stack zero (v ∷ st) h = absurd (omega (arith, size-pos v))
  validate_loop-check_stack (suc fuel) (attr kind x ∷ st) h =
      visit-attr kind x st (validate_loop net fuel)
      ∙ ap (λ k. check (attr kind x) >> k) (validate_loop-check_stack fuel st (omega arith))
  validate_loop-check_stack (suc fuel) (attr_set set_type vs ∷ st) h =
      (validate_loop-check_stack fuel (push_all vs st) (omega (arith, stack_size-push_all vs st))
        ∙ check_stack-push_all vs st)
  validate_loop-check_stack (suc fuel) (attr_set kind vs ∷ st) h = refl

-- The loop of `AttrValue.Validate` ends, and gives the verdict of a recursive check that takes the
-- members of a set from the last to the first: the same acceptance, and the same error.
pub validate_attr-check : (net : Net) (v : AttrValue) → validate_attr net v ≡ check net v
unfolding validate_attr
validate_attr-check net v =
    validate_loop-check_stack net (size v) (v ∷ []) (omega arith) ∙ >>_pass (check net v)

-- A value whose tag fits what it holds, at every level; an IP is one that `net` parses.
abbrev mutual
  pub WellTyped : Net → AttrValue → Type 0
  WellTyped net (attr string_type (str s)) = Unit
  WellTyped net (attr bool_type (bool b)) = Unit
  WellTyped net (attr long_type (long n)) = Unit
  WellTyped net (attr ip_type (str s)) = (net.is_ip s ≡ true) ⊎ (net.is_cidr s ≡ true)
  WellTyped net (attr_set set_type vs) = AllWellTyped net vs
  WellTyped net _ = ⊥

  pub AllWellTyped : Net → AttrValues → Type 0
  AllWellTyped net empty = Unit
  AllWellTyped net (item v vs) = WellTyped net v × AllWellTyped net vs

check-attr_iff :
    (net : Net) (kind : AttrType) (x : Scalar)
    → (check net (attr kind x) ≡ pass) ↔ WellTyped net (attr kind x)
unfolding check visit
check-attr_iff net string_type x = ground arith
check-attr_iff net bool_type x = ground arith
check-attr_iff net long_type x = ground arith
check-attr_iff net ip_type (str s) = ground (arith, validate_ip_iff net s)
check-attr_iff net ip_type x = ground arith
check-attr_iff net set_type x = ground arith
check-attr_iff net (other_type s) x = ground arith

mutual
  unfolding check visit

  check_iff : (net : Net) (v : AttrValue) → (check net v ≡ pass) ↔ WellTyped net v
  check_iff net (attr kind x) = check-attr_iff net kind x
  check_iff net (attr_set set_type vs) = check_all_iff net vs
  check_iff net (attr_set kind vs) = ground arith

  check_all_iff : (net : Net) (vs : AttrValues) → (check_all net vs ≡ pass) ↔ AllWellTyped net vs
  check_all_iff net empty = ground arith
  check_all_iff net (item v vs) = iff_swap (>>_iff_× (check_all_iff net vs) (check_iff net v))

-- `AttrValue.Validate` accepts exactly the values whose tags fit what they hold, at every level.
pub validate_attr_iff : (net : Net) (v : AttrValue) → (validate_attr net v ≡ pass) ↔ WellTyped net v
validate_attr_iff net v = rw validate_attr-check (check_iff net v)

-- ===== src/Attr.antt =====
-- request_types.go: Cedar attribute values, their validation and (authorization_request.go) depth.
mod Size
pub mod Validate
pub mod Depth
use treetop_client_go.Base.{
  Bool, Bytes, List, String, [], codes, if◌then◌else◌, ltb, not, refl, suc, zero, ℕ, ◌+◌, ◌∷◌, ◌≡◌,
}
use treetop_client_go.Base.Int.{pos, ℤ}
use treetop_client_go.Errors.{
  Check, Err, Result, arg, err, invalid, ok, out_of_fuel, pass, text, ◌>>=◌, ◌>>◌,
}
use treetop_client_go.Validation.{Net, validate_ip, validation_runs}

-- The wire tags. `other_type` is any string that is none of the five.
pub data AttrType : Type 0 where
  string_type bool_type long_type ip_type set_type : AttrType
  other_type : Bytes → AttrType

-- `string(kind)`
unfoldable pub type_text : AttrType → Bytes
type_text string_type = codes "String"
type_text bool_type = codes "Bool"
type_text long_type = codes "Long"
type_text ip_type = codes "Ip"
type_text set_type = codes "Set"
type_text (other_type s) = s

-- What a value of type `any` holds here when it is no slice of attribute values; `nothing` is nil.
pub data Scalar : Type 0 where
  nothing : Scalar
  str : Bytes → Scalar
  bool : Bool → Scalar
  long : ℤ → Scalar

-- A tag with a scalar, or with a slice of values. Nothing makes the tag and the value agree.
mutual
  pub data AttrValue : Type 0 where
    attr : AttrType → Scalar → AttrValue
    attr_set : AttrType → AttrValues → AttrValue

  pub data AttrValues : Type 0 where
    empty : AttrValues
    item : AttrValue → AttrValues → AttrValues

pub string_value : Bytes → AttrValue
string_value s = attr string_type (str s)

pub bool_value : Bool → AttrValue
bool_value b = attr bool_type (bool b)

pub long_value : ℤ → AttrValue
long_value n = attr long_type (long n)

pub ip_value : Net → Bytes → Result AttrValue
ip_value net s = validate_ip net s >> ok (attr ip_type (str s))

pub set_value : AttrValues → AttrValue
set_value vs = attr_set set_type vs

pub invalid_attr_type : AttrType → Err
invalid_attr_type kind =
    invalid (text "attribute value") (arg (type_text kind) ∷ []) "does not match its type tag"

pub unsupported_type : AttrType → Err
unsupported_type kind =
    invalid (text "attribute type") (arg (type_text kind) ∷ []) "is not supported"

-- `append(pending, values...)`; the stack has its last element at the head.
push_all : AttrValues → List AttrValue → List AttrValue
push_all empty st = st
push_all (item v vs) st = push_all vs (v ∷ st)

-- One round of the loop of `AttrValue.Validate`, after `current` was popped: the new stack.
visit : Net → AttrValue → List AttrValue → Result (List AttrValue)
visit net (attr string_type (str s)) st = ok st
visit net (attr bool_type (bool b)) st = ok st
visit net (attr long_type (long n)) st = ok st
visit net (attr ip_type (str s)) st = validate_ip net s >> ok st
visit net (attr_set set_type vs) st = ok (push_all vs st)
visit net (attr (other_type s) _) st = err (unsupported_type (other_type s))
visit net (attr_set (other_type s) _) st = err (unsupported_type (other_type s))
visit net (attr kind _) st = err (invalid_attr_type kind)
visit net (attr_set kind _) st = err (invalid_attr_type kind)

validate_loop : Net → ℕ → List AttrValue → Check
validate_loop net fuel [] = pass
validate_loop net zero (v ∷ st) = err out_of_fuel
validate_loop net (suc fuel) (v ∷ st) = visit net v st >>= validate_loop net fuel

-- The number of values in a value, itself included: the rounds of a loop over it.
mutual
  pub size : AttrValue → ℕ
  size (attr kind x) = 1
  size (attr_set kind vs) = suc (size_all vs)

  pub size_all : AttrValues → ℕ
  size_all empty = 0
  size_all (item v vs) = size v + size_all vs

-- `AttrValue.Validate`
pub validate_attr : Net → AttrValue → Check
validate_attr net v = validate_loop net (size v) (v ∷ [])

-- The stack of `attrDepth`: a value with its depth.
push_deeper : AttrValues → ℕ → List (AttrValue × ℕ) → List (AttrValue × ℕ)
push_deeper empty d st = st
push_deeper (item v vs) d st = push_deeper vs d ((v, d) ∷ st)

push_members : AttrValue → ℕ → List (AttrValue × ℕ) → List (AttrValue × ℕ)
push_members (attr_set set_type vs) d st = push_deeper vs (d + 1) st
push_members _ d st = st

-- Without fuel the loop keeps the maximum so far.
depth_loop : ℕ → List (AttrValue × ℕ) → ℕ → ℕ
depth_loop fuel [] maximum = maximum
depth_loop zero (p ∷ st) maximum = maximum
depth_loop (suc fuel) ((v, d) ∷ st) maximum =
    depth_loop fuel (push_members v d st) (if ltb maximum d then d else maximum)

pub attr_depth : AttrValue → ℕ
attr_depth v = depth_loop (size v) ((v, 1) ∷ []) 0

-- The definitions of this file, for a test by evaluation.
unfoldable pub attr_runs : Unit {0}
unfolding validation_runs type_text string_value bool_value long_value ip_value set_value
    invalid_attr_type unsupported_type push_all visit validate_loop size validate_attr push_deeper
    push_members depth_loop attr_depth
attr_runs = tt

abbrev sample : AttrValue
sample = attr_set set_type (
    item (attr set_type nothing)
      (item (attr_set set_type (item (attr long_type (long (pos 3))) empty)) empty))

depth_runs :
    (attr_depth sample ≡ 3)
    × ((net : Net) → validate_attr net sample ≡ err (invalid_attr_type set_type))
unfolding attr_runs
depth_runs = (refl, λ net. refl)

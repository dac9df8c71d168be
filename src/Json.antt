-- ===== src/Json.antt =====
-- JSON values as encoding/json hands them to a decoder, and the rules by which it decodes them. The
use treetop_client_go.Base.{
  Bool, Bytes, List, Option, String, [], false, if◌then◌else◌, ltb, none, some, suc, true, zero, ℕ,
  ◌-◌, ◌^◌, ◌∷◌,
}
-- parser and the printer of the package are not modelled.
pub mod Fields
use treetop_client_go.Base.Int.{max_int64, negsuc, pos, ℤ}
use treetop_client_go.Errors.{Err, Result, err, external, lit, ok, text, wrap, ◌>>=◌}
use treetop_client_go.Text.Runes.Utf8.{coerced}

-- A number that is written with digits alone, by its sign and its magnitude, or any other number.
mutual
  pub data Json : Type 0 where
    null : Json
    boolean : Bool → Json
    integer : Bool → ℕ → Json
    other_number string : Bytes → Json
    array : Jsons → Json
    object : Members → Json

  pub data Jsons : Type 0 where
    no_elements : Jsons
    element : Json → Jsons → Jsons

  pub data Members : Type 0 where
    no_members : Members
    member : Bytes → Json → Members → Members

-- A Go string as it is written.
unfoldable pub string_json : Bytes → Json
string_json s = string (coerced s)

unfoldable pub integer_json : ℤ → Json
integer_json (pos n) = integer false n
integer_json (negsuc n) = integer true (suc n)

-- A value that does not fit the type it is decoded into.
abbrev pub type_error : Err
type_error = external (text "json: cannot unmarshal")

unfoldable pub read_string : Json → Result Bytes
read_string (string s) = ok s
read_string _ = err type_error

unfoldable pub read_bool : Json → Result Bool
read_bool (boolean b) = ok b
read_bool _ = err type_error

-- Into an int or an int64.
unfoldable pub read_int64 : Json → Result ℤ
read_int64 (integer false n) = if ltb max_int64 n then err type_error else ok (pos n)
read_int64 (integer true zero) = ok (pos 0)
read_int64 (integer true (suc n)) = if ltb max_int64 n then err type_error else ok (negsuc n)
read_int64 _ = err type_error

-- Into an unsigned integer of at most `greatest`: a sign is refused.
unfoldable pub read_uint : ℕ → Json → Result ℕ
read_uint greatest (integer false n) = if ltb greatest n then err type_error else ok n
read_uint greatest _ = err type_error

abbrev pub max_uint32 : ℕ
max_uint32 = 2 ^ 32 - 1

abbrev pub max_uint64 : ℕ
max_uint64 = 2 ^ 64 - 1

-- Into a pointer: null is nil.
unfoldable pub read_pointer {ℓ} : {A : Type ℓ} → (Json → Result A) → Json → Result (Option A)
read_pointer read null = ok none
read_pointer read v = read v >>= λ a. ok (some a)

-- The error of a `MarshalJSON` that was called for a part of a value.
abbrev pub nested {ℓ} : {A : Type ℓ} → String → Result A → Result A
nested kind r = wrap (lit "json: error calling MarshalJSON for type treetop." ∷ lit kind ∷ []) r

-- An object of the members that a list names.
unfoldable pub object_of : List (Bytes × Json) → Members
object_of [] = no_members
object_of ((key, v) ∷ ms) = member key v (object_of ms)

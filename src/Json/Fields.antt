-- ===== src/Json/Fields.antt =====
-- How encoding/json decodes an object into a struct: a member goes to the field whose name it has,
use treetop_client_go.Base.{
  Bool, Bytes, List, Option, [], bytes_eq, false, if◌then◌else◌, leb, map, none, put, some, true, ℕ,
  ◌&&◌, ◌+◌, ◌==◌, ◌∷◌,
}
use treetop_client_go.Text.Runes.Utf8.{utf8_runs}
-- whatever the case of its letters; other members are left out, and of several members for one field
-- each is decoded in turn. Where more than one field of a struct fails, the error of the earliest field
-- stands for whichever error the package reports. A slice is decoded into new memory.
pub mod Keeps
use treetop_client_go.Errors.{Err, Result, err, ok, ◌>>=◌}
use treetop_client_go.Text.Runes.{runes}
use treetop_client_go.Json.{
  Json, Jsons, Members, array, element, integer_json, member, no_elements, no_members, null, object,
  object_of, read_bool, read_int64, read_pointer, read_string, read_uint, string_json, type_error,
}

-- `foldName`, on the runes: the letters A to Z, the long s and the Kelvin sign fold to a lower letter.
fold_rune : ℕ → ℕ
fold_rune r =
    if leb b'A' r && leb r b'Z'
    then r + 32
    else if r == 0x17F
    then b's'
    else if r == 0x212A
    then b'k'
    else r

-- `name` is in lower case.
unfoldable pub matches : Bytes → Bytes → Bool
unfolding fold_rune
matches name key = bytes_eq (map fold_rune (runes key)) name

-- The members for one field, one after the other.
unfoldable pub each_field {ℓ} :
    {S : Type ℓ} → Bytes → (Json → S → Result S) → Members → S → Result S
each_field name step no_members s = ok s
each_field name step (member key v ms) s = elim (matches name key) [
  | true ↦ step v s >>= each_field name step ms
  | false ↦ each_field name step ms s
]

-- A pointer field.
unfoldable pub pointer_field {ℓ} :
    {A : Type ℓ} → Bytes → (Json → Result A) → Members → Result (Option A)
pointer_field name read ms = each_field name (λ v _. read_pointer read v) ms none

-- A field that is no pointer, of a type with its own `UnmarshalJSON`; `zero` is its zero value.
unfoldable pub value_field {ℓ} : {A : Type ℓ} → Bytes → (Json → Result A) → A → Members → Result A
value_field name read unset ms = each_field name (λ v _. read v) ms unset

-- Into a value that is no pointer and has no `UnmarshalJSON`: null leaves it as it is.
unfoldable pub keep {ℓ} : {A : Type ℓ} → (Json → Result A) → Json → A → Result A
keep read null a = ok a
keep read v a = read v

unfoldable pub plain_field {ℓ} : {A : Type ℓ} → Bytes → (Json → Result A) → A → Members → Result A
plain_field name read unset ms = each_field name (keep read) ms unset

-- A field of type `json.RawMessage`: the value itself, and `none` where it has no bytes.
unfoldable pub raw_field : Bytes → Members → Result (Option Json)
raw_field name ms = each_field name (λ v _. ok (some v)) ms none

-- Into a pointer to a struct, whose fields are decoded over those that are there.
unfoldable pub over_pointer {ℓ} :
    {A : Type ℓ} → (Json → A → Result A) → A → Json → Option A → Result (Option A)
over_pointer step unset null o = ok none
over_pointer step unset v none = step v unset >>= λ a. ok (some a)
over_pointer step unset v (some a) = step v a >>= λ b. ok (some b)

-- A pointer field of a struct without its own `UnmarshalJSON`.
unfoldable pub struct_field {ℓ} :
    {A : Type ℓ} → Bytes → (Json → A → Result A) → A → Members → Result (Option A)
struct_field name step unset ms = each_field name (over_pointer step unset) ms none

-- The members of an object; null leaves a struct as it is.
unfoldable pub members_of : Json → Result Members
members_of (object ms) = ok ms
members_of null = ok no_members
members_of _ = err type_error

-- `if decoded.F == nil { return e }`
unfoldable pub required {ℓ} : {A : Type ℓ} → Err → Option A → Result A
required e none = err e
required e (some a) = ok a

-- Into a map[string]RawMessage, or a map of any other values by `read`: the last member of a name stays.
unfoldable pub map_entries {ℓ} :
    {A : Type ℓ} → (Json → Result A) → Members → List (Bytes × A) → Result (List (Bytes × A))
map_entries read no_members done = ok done
map_entries read (member key v ms) done = read v >>= λ a. map_entries read ms (put key a done)

-- A map field: null makes it nil, an object adds to it.
unfoldable pub read_map {ℓ} :
    {A : Type ℓ} → (Json → Result A) → Json → List (Bytes × A) → Result (List (Bytes × A))
read_map read null done = ok []
read_map read (object ms) done = map_entries read ms done
read_map read _ done = err type_error

-- Into a slice of values with their own `UnmarshalJSON`.
unfoldable pub read_items {ℓ} : {A : Type ℓ} → (Json → Result A) → Jsons → Result (List A)
read_items read no_elements = ok []
read_items read (element v vs) = read v >>= λ a. read_items read vs >>= λ as'. ok (a ∷ as')

unfoldable pub read_array {ℓ} : {A : Type ℓ} → (Json → Result A) → Json → Result (List A)
read_array read (array vs) = read_items read vs
read_array read _ = err type_error

-- The definitions of this file, for a test by evaluation.
unfoldable pub json_runs : Unit {0}
unfolding utf8_runs runes string_json integer_json read_string read_bool read_int64 read_uint
    read_pointer object_of bytes_eq put fold_rune matches each_field pointer_field value_field keep
    plain_field raw_field over_pointer struct_field members_of required map_entries read_map
    read_items read_array
json_runs = tt

-- ===== src/Codec/Attributes.antt =====
-- request_types.go: the JSON form of attribute values.
pub mod RoundTrip
use treetop_client_go.Validation.{Net}
use treetop_client_go.Base.{
  Bool, Bytes, Option, String, [], bytes_eq, codes, false, if◌then◌else◌, none, some, true, ◌∷◌,
}
use treetop_client_go.Errors.{Err, Result, arg, err, invalid, ok, text, ◌>>=◌, ◌>>◌}
use treetop_client_go.Attr.{
  AttrType, AttrValue, AttrValues, Scalar, attr, attr_set, bool, bool_type, empty, ip_type, item,
  long, long_type, nothing, other_type, set_type, str, string_type, type_text, unsupported_type,
  validate_attr,
}
use treetop_client_go.Json.{
  Json, Jsons, Members, array, boolean, element, integer_json, member, nested, no_elements,
  no_members, null, object, read_bool, read_int64, read_string, string_json, type_error,
}
use treetop_client_go.Json.Fields.{matches, required}

pub scalar_json : Scalar → Json
scalar_json nothing = null
scalar_json (str s) = string_json s
scalar_json (bool b) = boolean b
scalar_json (long n) = integer_json n

pub tagged_json : AttrType → Json → Json
tagged_json kind v =
    object
      (member (codes "type") (string_json (type_text kind)) (member (codes "value") v no_members))

module _ (net : Net) where
  -- `AttrValue.MarshalJSON`, which calls itself on the members of a set.
  mutual
    pub attr_json : AttrValue → Result Json
    attr_json (attr kind x) =
        validate_attr net (attr kind x) >> ok (tagged_json kind (scalar_json x))
    attr_json (attr_set kind vs) =
        validate_attr net (attr_set kind vs)
        >> (attrs_json vs >>= λ items. ok (tagged_json kind (array items)))

    pub attrs_json : AttrValues → Result Jsons
    attrs_json empty = ok no_elements
    attrs_json (item v vs) =
        nested "AttrValue" (attr_json v) >>= λ j. attrs_json vs >>= λ js. ok (element j js)

-- The constants `AttrTypeString` to `AttrTypeSet`.
type_of : Bytes → AttrType
type_of s =
    if bytes_eq s (codes "String")
    then string_type
    else if bytes_eq s (codes "Bool")
    then bool_type
    else if bytes_eq s (codes "Long")
    then long_type
    else if bytes_eq s (codes "Ip")
    then ip_type
    else if bytes_eq s (codes "Set")
    then set_type
    else other_type s

required_attr_value : AttrType → Err
required_attr_value kind =
    invalid (text "attribute value") (arg (type_text kind) ∷ []) "must be present and non-null"

-- The two fields of `header`; the raw value waits for the type that it is decoded by.
record AttrHeader : Type 0 where
  kind : Bytes
  value : Option (AttrType → Result AttrValue)

-- Into the string field `Type`: null leaves it.
type_field : Json → AttrHeader → Result AttrHeader
type_field null h = ok h
type_field v h = read_string v >>= λ s. ok (record h { kind = s })

-- A value that is not null, in a type that holds no other values.
scalar_of : Json → AttrType → Result Scalar
scalar_of v string_type = read_string v >>= λ s. ok (str s)
scalar_of v ip_type = read_string v >>= λ s. ok (str s)
scalar_of v bool_type = read_bool v >>= λ b. ok (bool b)
scalar_of v long_type = read_int64 v >>= λ n. ok (long n)
scalar_of v set_type = err type_error
scalar_of v (other_type s) = err (unsupported_type (other_type s))

plain_value : Json → AttrType → Result AttrValue
plain_value v kind = scalar_of v kind >>= λ x. ok (attr kind x)

unsupported_or : AttrType → Err → Err
unsupported_or (other_type s) e = unsupported_type (other_type s)
unsupported_or _ e = e

module _ (net : Net) where
  -- The end of `UnmarshalJSON`: the raw value by its type, and the check of the outcome.
  decoded_value : AttrHeader → Result AttrValue
  decoded_value h = do
    as_type ← required (required_attr_value (type_of h.kind)) h.value
    v ← as_type (type_of h.kind)
    validate_attr net v
    ok v

  -- `AttrValue.UnmarshalJSON`, and the `switch` in it on a raw value.
  mutual
    pub attr_from_json : Json → Result AttrValue
    attr_from_json (object ms) = header_of ms (record { kind = []; value = none }) >>= decoded_value
    attr_from_json null = decoded_value (record { kind = []; value = none })
    attr_from_json _ = err type_error

    header_of : Members → AttrHeader → Result AttrHeader
    header_of no_members h = ok h
    header_of (member key v ms) h = elim (matches (codes "type") key) [
      | true ↦ type_field v h >>= header_of ms
      | false ↦ elim (matches (codes "value") key) [
        | true ↦ header_of ms (record h { value = some (value_as v) })
        | false ↦ header_of ms h
      ]
    ]

    value_as : Json → AttrType → Result AttrValue
    value_as null kind = err (unsupported_or kind (required_attr_value kind))
    value_as (array vs) set_type = values_from_json vs >>= λ xs. ok (attr_set set_type xs)
    value_as v kind = plain_value v kind

    values_from_json : Jsons → Result AttrValues
    values_from_json no_elements = ok empty
    values_from_json (element v vs) =
        attr_from_json v >>= λ x. values_from_json vs >>= λ xs. ok (item x xs)

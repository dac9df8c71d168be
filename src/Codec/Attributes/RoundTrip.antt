-- ===== src/Codec/Attributes/RoundTrip.antt =====
-- An attribute value is decoded from its JSON form.
use treetop_client_go.Base.{Bytes, arith, bytes_eq, inl, inr, refl, true, ◌∙◌, ◌≡◌, ◌≤◌, ◌⊎◌}
use treetop_client_go.Base.Int.{max_int64, negsuc, pos, ℤ}
use treetop_client_go.Errors.{ok, ◌>>=◌, ◌>>◌}
use treetop_client_go.Text.Runes.Utf8.{coerced-valid, utf8_runs, valid_utf8}
use treetop_client_go.Json.Fields.{matches, required}
use treetop_client_go.Text.Runes.{runes}
use treetop_client_go.Validation.{Net}
use treetop_client_go.Attr.{
  AttrType, AttrValue, AttrValues, attr, attr_set, bool, bool_type, empty, ip_type, item, long,
  long_type, other_type, set_type, str, string_type, type_text, validate_attr,
}
use treetop_client_go.Attr.Validate.{AllWellTyped, WellTyped, validate_attr_iff}
use treetop_client_go.Json.{
  Json, Jsons, array, boolean, element, integer_json, no_elements, read_bool, read_int64,
  read_string, string_json,
}
use treetop_client_go.Codec.Attributes.{
  attr_from_json, attr_json, attrs_json, decoded_value, plain_value, scalar_json, scalar_of,
  tagged_json, type_field, type_of, value_as, values_from_json,
}

abbrev pub IsInt64 : ℤ → Type 0
IsInt64 (pos n) = n ≤ max_int64
IsInt64 (negsuc n) = n ≤ max_int64

-- Every text in the value is UTF-8, and every number a 64-bit integer.
abbrev mutual
  pub IsWritable : AttrValue → Type 0
  IsWritable (attr kind (str s)) = valid_utf8 s ≡ true
  IsWritable (attr kind (long n)) = IsInt64 n
  IsWritable (attr kind x) = Unit
  IsWritable (attr_set kind vs) = AllWritable vs

  pub AllWritable : AttrValues → Type 0
  AllWritable empty = Unit
  AllWritable (item v vs) = IsWritable v × AllWritable vs

-- The JSON form of a value that is valid.
unfoldable mutual
  pub attr_form : AttrValue → Json
  attr_form (attr kind x) = tagged_json kind (scalar_json x)
  attr_form (attr_set kind vs) = tagged_json kind (array (attrs_form vs))

  pub attrs_form : AttrValues → Jsons
  attrs_form empty = no_elements
  attrs_form (item v vs) = element (attr_form v) (attrs_form vs)

mutual
  unfolding attr_json attr_form

  -- A valid value is written, and has that form.
  pub attr_json-attr_form :
      (net : Net) (v : AttrValue) → WellTyped net v → attr_json net v ≡ ok (attr_form v)
  attr_json-attr_form net (attr kind x) h = rw ((validate_attr_iff net (attr kind x)).1 h)
  attr_json-attr_form net (attr_set set_type vs) h =
      rw ((validate_attr_iff net (attr_set set_type vs)).1 h, attrs_json-attrs_form net vs h)
  attr_json-attr_form net (attr_set string_type vs) h = absurd h
  attr_json-attr_form net (attr_set bool_type vs) h = absurd h
  attr_json-attr_form net (attr_set long_type vs) h = absurd h
  attr_json-attr_form net (attr_set ip_type vs) h = absurd h
  attr_json-attr_form net (attr_set (other_type s) vs) h = absurd h

  attrs_json-attrs_form :
      (net : Net) (vs : AttrValues) → AllWellTyped net vs → attrs_json net vs ≡ ok (attrs_form vs)
  attrs_json-attrs_form net empty h = refl
  attrs_json-attrs_form net (item v vs) (p, h) =
      rw (attr_json-attr_form net v p, attrs_json-attrs_form net vs h)

-- The two fields of the form are found, and the value is decoded by its type.
abbrev Finds : Net → AttrType → Json → Type 0
Finds net kind j =
    attr_from_json net (tagged_json kind j)
    ≡ (value_as net j kind >>= λ v. validate_attr net v >> ok v)

finds_lem :
    (net : Net) (j : Json)
    → Finds net string_type j
      × Finds net bool_type j
      × Finds net long_type j
      × Finds net ip_type j
      × Finds net set_type j
unfolding attr_from_json decoded_value type_field type_of tagged_json type_text utf8_runs matches
    runes bytes_eq read_string string_json required
finds_lem net j = (refl, refl, refl, refl, refl)

pub int64_lem : (n : ℤ) → IsInt64 n → read_int64 (integer_json n) ≡ ok n
unfolding read_int64 integer_json
int64_lem (pos n) h = ground arith
int64_lem (negsuc n) h = ground arith

-- What was found is decoded and passes the check.
found :
    (net : Net) (kind : AttrType) (j : Json) (v : AttrValue)
    → Finds net kind j
    → value_as net j kind ≡ ok v
    → WellTyped net v
    → attr_from_json net (tagged_json kind j) ≡ ok v
found net kind j v e f h = e ∙ rw (f, (validate_attr_iff net v).1 h)

module _ (net : Net) where
  value_as_string :
      (s : Bytes) (kind : AttrType)
      → (kind ≡ string_type) ⊎ (kind ≡ ip_type)
      → valid_utf8 s ≡ true
      → value_as net (string_json s) kind ≡ ok (attr kind (str s))
  unfolding value_as plain_value scalar_of read_string string_json
  value_as_string s kind (inl e) w = rw (e, coerced-valid s w)
  value_as_string s kind (inr e) w = rw (e, coerced-valid s w)

  value_as_long :
      (n : ℤ) → IsInt64 n → value_as net (integer_json n) long_type ≡ ok (attr long_type (long n))
  unfolding value_as plain_value scalar_of
  value_as_long (pos n) w = unfold integer_json in rw (int64_lem (pos n) w)
  value_as_long (negsuc n) w = unfold integer_json in rw (int64_lem (negsuc n) w)

  mutual
    unfolding attr_form value_as plain_value scalar_of scalar_json read_bool

    -- The JSON form of a valid value that can be written is decoded to the value.
    pub attr_from_json-attr_form :
        (v : AttrValue) → WellTyped net v → IsWritable v → attr_from_json net (attr_form v) ≡ ok v
    attr_from_json-attr_form (attr string_type (str s)) h w =
        found net string_type _ _ ((finds_lem net _).0) (value_as_string s string_type (inl refl) w)
          h
    attr_from_json-attr_form (attr ip_type (str s)) h w =
        found net ip_type _ _ ((finds_lem net _).3) (value_as_string s ip_type (inr refl) w) h
    attr_from_json-attr_form (attr bool_type (bool b)) h w =
        found net bool_type (boolean b) _ ((finds_lem net _).1) refl h
    attr_from_json-attr_form (attr long_type (long n)) h w =
        found net long_type _ _ ((finds_lem net _).2) (value_as_long n w) h
    attr_from_json-attr_form (attr_set set_type vs) h w =
        found net set_type (array (attrs_form vs)) _ ((finds_lem net _).4)
          (rw (values_from_json-attrs_form vs h w)) h
    attr_from_json-attr_form _ h w = absurd h

    values_from_json-attrs_form :
        (vs : AttrValues)
        → AllWellTyped net vs
        → AllWritable vs
        → values_from_json net (attrs_form vs) ≡ ok vs
    values_from_json-attrs_form empty h w = refl
    values_from_json-attrs_form (item v vs) (p, h) (q, w) =
        rw (attr_from_json-attr_form v p q, values_from_json-attrs_form vs h w)

-- Every well-typed attribute value is decoded from the JSON that its `MarshalJSON` writes. The texts
-- are UTF-8 and the numbers have 64 bits.
pub attr_from_json-attr_json :
    (net : Net) (v : AttrValue)
    → WellTyped net v
    → IsWritable v
    → (attr_json net v >>= attr_from_json net) ≡ ok v
attr_from_json-attr_json net v h w =
    rw (attr_json-attr_form net v h) (attr_from_json-attr_form net v h w)

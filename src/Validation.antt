-- ===== src/Validation.antt =====
-- validation.go: the checks of identifiers, paths, entity and request IDs, attribute names and IPs.
pub mod Identifier
pub mod Path
pub mod Entity
use treetop_client_go.Base.{
  Bool, Bytes, List, [], bytes_eq, codes, drop, false, if◌then◌else◌, is_empty, leb, length, ltb,
  none, not, refl, some, suc, take, true, zero, ℕ, ◌&&◌, ◌==◌, ◌||◌, ◌∷◌, ◌≡◌,
}
use treetop_client_go.Errors.{
  Check, Err, Message, arg, err, invalid, out_of_fuel, pass, refuse_if, text, ◌>>◌,
}
use treetop_client_go.Text.Split.{index_sep}
use treetop_client_go.Text.Runes.{runes}

-- Whether `net.ParseIP(value) != nil` and whether `net.ParseCIDR(value)` has no error.
pub record Net : Type 0 where
  pub is_ip : Bytes → Bool
  pub is_cidr : Bytes → Bool

ascii_letter_or_underscore : ℕ → Bool
ascii_letter_or_underscore b = b == b'_' || leb b'a' b && leb b b'z' || leb b'A' b && leb b b'Z'

ascii_letter_digit_or_underscore : ℕ → Bool
ascii_letter_digit_or_underscore b = ascii_letter_or_underscore b || leb b'0' b && leb b b'9'

-- The cases of the `switch`.
abbrev pub reserved_identifiers : List Bytes
reserved_identifiers =
    codes "true"
    ∷ codes "false"
    ∷ codes "if"
    ∷ codes "then"
    ∷ codes "else"
    ∷ codes "in"
    ∷ codes "like"
    ∷ codes "has"
    ∷ codes "is"
    ∷ codes "__cedar"
    ∷ []

is_one_of : Bytes → List Bytes → Bool
is_one_of value [] = false
is_one_of value (r ∷ rs) = bytes_eq value r || is_one_of value rs

pub is_reserved_cedar_identifier : Bytes → Bool
is_reserved_cedar_identifier value = is_one_of value reserved_identifiers

-- `value == "" || !asciiLetterOrUnderscore(value[0])`
bad_start : Bytes → Bool
bad_start [] = true
bad_start (b ∷ s) = not (ascii_letter_or_underscore b)

-- The loop over `value[1:]`.
check_identifier_tail : Err → Bytes → Check
check_identifier_tail e [] = pass
check_identifier_tail e (b ∷ s) =
    refuse_if (not (ascii_letter_digit_or_underscore b)) e >> check_identifier_tail e s

pub validate_cedar_identifier : Message → Bytes → Check
validate_cedar_identifier field value = do
  refuse_if (is_reserved_cedar_identifier value)
      (invalid field (arg value ∷ []) "uses a reserved Cedar identifier")
  refuse_if (bad_start value) (invalid field (arg value ∷ []) "must be an ASCII Cedar identifier")
  check_identifier_tail (invalid field (arg value ∷ []) "must be an ASCII Cedar identifier")
      (drop 1 value)

-- The `for` loop; each round is shorter by a separator at least.
path_loop : ℕ → Message → Bytes → Check
path_loop zero field value = err out_of_fuel
path_loop (suc fuel) field value = elim (index_sep value) [
  | none ↦ validate_cedar_identifier field value
  | some i ↦
      validate_cedar_identifier field (take i value)
      >> path_loop fuel field (drop (suc (suc i)) value)
]

pub validate_cedar_path : Message → Bytes → Check
validate_cedar_path field value = path_loop (suc (length value)) field value

pub validate_namespace : Message → List Bytes → Check
validate_namespace field [] = pass
validate_namespace field (segment ∷ rest) =
    validate_cedar_identifier field segment >> validate_namespace field rest

-- `unicode.IsControl`
pub is_control : ℕ → Bool
is_control r = ltb r 0x20 || leb 0x7F r && ltb r 0xA0

-- `for _, r := range value { if bad(r) { return e } }`
refuse_runes : (ℕ → Bool) → Err → List ℕ → Check
refuse_runes bad e [] = pass
refuse_runes bad e (r ∷ rs) = refuse_if (bad r) e >> refuse_runes bad e rs

pub unsafe_in_id : ℕ → Bool
unsafe_in_id r = r == b'"' || r == b'\\' || is_control r

pub validate_entity_id : Message → Bytes → Check
validate_entity_id field value =
    refuse_runes unsafe_in_id
      (invalid field (arg value ∷ []) "contains a character that cannot be represented safely")
      (runes value)

pub validate_attribute_name : Message → Bytes → Check
validate_attribute_name field value = do
  refuse_if (is_empty value) (invalid field [] "attribute name must not be empty")
  refuse_runes is_control
      (invalid field (arg value ∷ []) "attribute name contains a control character") (runes value)

pub validate_request_id : Bytes → Check
validate_request_id value = do
  refuse_if (is_empty value)
      (invalid (text "request ID") [] "must be non-empty and safe for correlation")
  refuse_runes is_control (invalid (text "request ID") [] "must not contain control characters")
      (runes value)

pub validate_ip : Net → Bytes → Check
validate_ip net value =
    if net.is_ip value
    then pass
    else if net.is_cidr value
    then pass
    else err
        (invalid (text "IP attribute") (arg value ∷ []) "must be an IP address or CIDR network")

-- The definitions of this file, for a test by evaluation.
unfoldable pub validation_runs : Unit {0}
unfolding ascii_letter_or_underscore ascii_letter_digit_or_underscore is_one_of bytes_eq
    is_reserved_cedar_identifier bad_start check_identifier_tail validate_cedar_identifier index_sep
    path_loop validate_cedar_path validate_namespace is_control refuse_runes unsafe_in_id runes
    validate_entity_id validate_attribute_name validate_request_id validate_ip
validation_runs = tt

path_runs :
    (validate_cedar_path (text "f") (codes "MyApp::_x1") ≡ pass)
    × (validate_cedar_path (text "f") []
        ≡ err (invalid (text "f") (arg [] ∷ []) "must be an ASCII Cedar identifier"))
    × (validate_cedar_path (text "f") (codes "a::if")
        ≡ err (invalid (text "f") (arg (codes "if") ∷ []) "uses a reserved Cedar identifier"))
unfolding validation_runs
path_runs = (refl, refl, refl)

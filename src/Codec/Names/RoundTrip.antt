-- ===== src/Codec/Names/RoundTrip.antt =====
-- Namespaces and entity types are decoded from their JSON forms.
use treetop_client_go.Base.{
  All, Bytes, List, [], ap, arith, inl, refl, subst, ℕ, ◌++◌, ◌<◌, ◌∷◌, ◌≡◌,
}
use treetop_client_go.Errors.{ok, text}
use treetop_client_go.Text.Split.{join, join-split, split}
use treetop_client_go.Text.Runes.Utf8.{coerced, coerced-valid, valid_utf8-ascii}
use treetop_client_go.Validation.Identifier.{IsIdentifier, IsWordByte}
use treetop_client_go.Cedar.{EntityType, Namespace, segments}
use treetop_client_go.Cedar.Namespaces.{join-segments, new_namespace_iff}
use treetop_client_go.Cedar.Valid.{
  IsPath, new_entity_type_lem, segments-IsIdentifier, validate_ns_parts, validate_type_iff,
}
use treetop_client_go.Json.{Json, array, read_string, string_json}
use treetop_client_go.Json.Fields.{read_array, read_items}
use treetop_client_go.Codec.Names.{
  entity_type_from_json, entity_type_json, namespace_from_json, namespace_json, read_plain_string,
  strings_json,
}

ascii_byte : (b : ℕ) → IsWordByte b → b < 0x80
ascii_byte b h = ground arith

ascii_word : (s : Bytes) → All IsWordByte s → All (λ b. b < 0x80) s
ascii_word [] h = tt
ascii_word (b ∷ s) (p, h) = (ascii_byte b p, ascii_word s h)

ascii_identifier : (s : Bytes) → IsIdentifier s → All (λ b. b < 0x80) s
ascii_identifier [] (_, h) = absurd h
ascii_identifier (b ∷ s) (_, (l, h)) = (ascii_byte b (inl l), ascii_word s h)

ascii_join : (ss : List Bytes) → All IsIdentifier ss → All (λ b. b < 0x80) (join ss)
unfolding join
ascii_join [] h = tt
ascii_join (s ∷ []) (p, _) = ascii_identifier s p
ascii_join (s ∷ t ∷ ss) (p, h) =
    All-++ s _ (ascii_identifier s p) (ground arith, (ground arith, ascii_join (t ∷ ss) h))
  where
    All-++ :
        (xs ys : Bytes)
        → All (λ b. b < 0x80) xs
        → All (λ b. b < 0x80) ys
        → All (λ b. b < 0x80) (xs ++ ys)
    All-++ [] ys h k = k
    All-++ (x ∷ xs) ys (p, h) k = (p, All-++ xs ys h k)

-- A Cedar path is ASCII, so it is written as it is.
pub coerced-path : (s : Bytes) → All IsIdentifier (split s) → coerced s ≡ s
coerced-path s h =
    coerced-valid s
      (valid_utf8-ascii s (subst (All (λ b. b < 0x80)) (join-split s) (ascii_join (split s) h)))

read_items-strings_json :
    (ss : List Bytes) → All IsIdentifier ss → read_items read_plain_string (strings_json ss) ≡ ok ss
unfolding read_items read_plain_string strings_json string_json read_string
read_items-strings_json [] h = refl
read_items-strings_json (s ∷ ss) (p, h) =
    rw (coerced-valid s (valid_utf8-ascii s (ascii_identifier s p)), read_items-strings_json ss h)

abbrev pub namespace_form : Namespace → Json
namespace_form n = array (strings_json (segments n))

abbrev pub type_form : EntityType → Json
type_form t = string_json t.name

pub namespace_json-form : (n : Namespace) → IsPath n.path → namespace_json n ≡ ok (namespace_form n)
unfolding namespace_json
namespace_json-form n h = rw ((validate_ns_parts (text "namespace") n).1 h)

-- A well-formed namespace is decoded from its JSON form.
pub namespace_from_json-form :
    (n : Namespace) → IsPath n.path → namespace_from_json (namespace_form n) ≡ ok n
unfolding namespace_from_json read_array
namespace_from_json-form n h =
    rw (read_items-strings_json (segments n) (segments-IsIdentifier n h)) (
      (new_namespace_iff (segments n) n).1
        (segments-IsIdentifier n h, ap (λ p. record { path = p }) (join-segments n)))

pub entity_type_json-form :
    (t : EntityType) → All IsIdentifier (split t.name) → entity_type_json t ≡ ok (type_form t)
unfolding entity_type_json
entity_type_json-form t h = rw ((validate_type_iff (text "entity type") t).1 h)

pub entity_type_from_json-form :
    (t : EntityType) → All IsIdentifier (split t.name) → entity_type_from_json (type_form t) ≡ ok t
unfolding entity_type_from_json read_plain_string string_json read_string
entity_type_from_json-form t h = rw (coerced-path t.name h) (new_entity_type_lem t h)

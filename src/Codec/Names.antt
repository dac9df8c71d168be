-- ===== src/Codec/Names.antt =====
-- cedar_types.go: the JSON form of namespaces and entity types.
pub mod RoundTrip
use treetop_client_go.Text.Runes.Utf8.{utf8_runs}
use treetop_client_go.Base.{Bytes, List, [], ◌∷◌}
use treetop_client_go.Errors.{Result, err, invalid, ok, text, ◌>>=◌, ◌>>◌}
use treetop_client_go.Cedar.{
  EntityType, Namespace, cedar_runs, new_entity_type, new_namespace, segments, validate_ns,
  validate_type,
}
use treetop_client_go.Json.{
  Json, Jsons, array, element, no_elements, null, read_string, string_json,
}
use treetop_client_go.Json.Fields.{read_array}

-- Into a string that is no pointer: null leaves it as it is.
pub read_plain_string : Json → Result Bytes
read_plain_string null = ok []
read_plain_string v = read_string v

pub strings_json : List Bytes → Jsons
strings_json [] = no_elements
strings_json (s ∷ ss) = element (string_json s) (strings_json ss)

-- `Namespace.MarshalJSON`
pub namespace_json : Namespace → Result Json
namespace_json n = do validate_ns (text "namespace") n; ok (array (strings_json (segments n)))

-- `Namespace.UnmarshalJSON`, on a destination that is not nil.
pub namespace_from_json : Json → Result Namespace
namespace_from_json null =
    err (invalid (text "namespace") [] "must be an array of Cedar identifiers")
namespace_from_json v = read_array read_plain_string v >>= new_namespace

-- `EntityType.MarshalJSON`
pub entity_type_json : EntityType → Result Json
entity_type_json t = do validate_type (text "entity type") t; ok (string_json t.name)

-- `EntityType.UnmarshalJSON`, on a destination that is not nil.
pub entity_type_from_json : Json → Result EntityType
entity_type_from_json v = read_plain_string v >>= new_entity_type

-- The definitions of this file, for a test by evaluation.
unfoldable pub names_run : Unit {0}
unfolding cedar_runs utf8_runs read_plain_string strings_json namespace_json namespace_from_json
    entity_type_json entity_type_from_json
names_run = tt

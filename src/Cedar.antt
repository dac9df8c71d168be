-- ===== src/Cedar.antt =====
-- cedar_types.go: namespaces, entity types, entity IDs and request IDs.
pub mod Namespaces
pub mod Valid
use treetop_client_go.Base.{
  Bool, Bytes, List, [], codes, false, if◌then◌else◌, is_empty, not, refl, true, ◌∷◌, ◌≡◌,
}
use treetop_client_go.Errors.{
  Check, Message, Result, invalid, ok, pass, refuse_if, text, ◌>>=◌, ◌>>◌,
}
use treetop_client_go.Text.Split.{join, split}
use treetop_client_go.Validation.{
  validate_cedar_path, validate_entity_id, validate_namespace, validate_request_id, validation_runs,
}

pub record Namespace : Type 0 where
  pub path : Bytes

abbrev pub global : Namespace
global = record { path = [] }

pub new_namespace : List Bytes → Result Namespace
new_namespace segments =
    validate_namespace (text "namespace") segments >> ok (record { path = join segments })

pub parse_namespace : Bytes → Result Namespace
parse_namespace value = if is_empty value then ok global else new_namespace (split value)

-- `Namespace.Segments`
pub segments : Namespace → List Bytes
segments n = if is_empty n.path then [] else split n.path

-- `Namespace.validate`
pub validate_ns : Message → Namespace → Check
validate_ns field n = if is_empty n.path then pass else validate_cedar_path field n.path

pub record EntityType : Type 0 where
  pub name : Bytes

pub new_entity_type : Bytes → Result EntityType
new_entity_type value =
    validate_cedar_path (text "entity type") value >> ok (record { name = value })

-- `EntityType.validate`
pub validate_type : Message → EntityType → Check
validate_type field t = validate_cedar_path field t.name

pub record EntityId : Type 0 where
  pub value : Bytes
  pub set : Bool

-- The zero value, which no constructor of the package returns.
abbrev pub unset_id : EntityId
unset_id = record { value = []; set = false }

pub new_entity_id : Message → Bytes → Result EntityId
new_entity_id field value =
    validate_entity_id field value >> ok (record { value = value; set = true })

-- `entityID.validate`
pub validate_id : Message → EntityId → Check
validate_id field id = do
  refuse_if (not id.set) (invalid field [] "must be constructed by the package")
  validate_entity_id field id.value

pub record RequestId : Type 0 where
  pub value : Bytes
  pub set : Bool

abbrev pub no_request_id : RequestId
no_request_id = record { value = []; set = false }

pub new_request_id : Bytes → Result RequestId
new_request_id value = validate_request_id value >> ok (record { value = value; set = true })

-- `requestID.validate`
pub validate_rid : RequestId → Check
validate_rid id = do
  refuse_if (not id.set) (invalid (text "request ID") [] "must be constructed by the package")
  validate_request_id id.value

-- The definitions of this file, for a test by evaluation.
unfoldable pub cedar_runs : Unit {0}
unfolding validation_runs split join new_namespace parse_namespace segments validate_ns
    new_entity_type validate_type new_entity_id validate_id new_request_id validate_rid
cedar_runs = tt

namespace_runs :
    (parse_namespace (codes "MyApp::Core") ≡ new_namespace (codes "MyApp" ∷ codes "Core" ∷ []))
    × (segments (record { path = codes "MyApp::Core" }) ≡ codes "MyApp" ∷ codes "Core" ∷ [])
    × (segments global ≡ [])
unfolding cedar_runs
namespace_runs = (refl, refl, refl)

-- ===== src/Server/Versions.antt =====
-- Policy versions, schema versions and the version document.
use treetop_client_go.Server.{Formats, bad_response, read_time, server_runs, validated, zero_time}
pub mod Valid
pub mod Written
use treetop_client_go.Base.{
  Bool, Bytes, Option, String, [], codes, false, is_empty, none, not, some, true, ℕ, ◌||◌, ◌∷◌,
}
use treetop_client_go.Errors.{
  Check, Err, Message, Result, err, invalid_response, lit, ok, pass, refuse_if, ◌>>=◌, ◌>>◌,
}
use treetop_client_go.Decision.{PolicyVersion, Time, is_zero}
use treetop_client_go.Json.{Json, integer, max_uint64, read_pointer, read_string, read_uint}
use treetop_client_go.Json.Fields.{
  each_field, keep, members_of, plain_field, pointer_field, required, struct_field,
}

-- `requiredLabelSet`
pub record RequiredLabelSet : Type 0 where
  pub value : Option Bytes
  pub present : Bool

label_set_from_json : Json → RequiredLabelSet → Result RequiredLabelSet
label_set_from_json v l =
    read_pointer read_string v >>= λ o. ok (record { value = o; present = true })

-- `versionGeneration`
pub record VersionGeneration : Type 0 where
  pub value : ℕ
  pub present : Bool

generation_of : Result ℕ → Result VersionGeneration
generation_of (ok n) = ok (record { value = n; present = true })
generation_of (err e) =
    err (bad_response "policy version generation must be an unsigned 64-bit integer")

generation_from_json : Json → VersionGeneration → Result VersionGeneration
generation_from_json v g = generation_of (read_uint max_uint64 v)

pub record PolicyVersionWire : Type 0 where
  pub hash : Bytes
  pub loaded_at : Time
  pub label_set : RequiredLabelSet
  pub generation : VersionGeneration

abbrev pub no_version : PolicyVersionWire
no_version = record {
  hash = [];
  loaded_at = zero_time;
  label_set = record { value = none; present = false };
  generation = record { value = 0; present = false };
}

-- `PolicyVersion.validateResponse`, and with another text that of `SchemaVersion`.
check_version : Bytes → Time → Message → Check
check_version hash loaded_at message =
    refuse_if (is_empty hash || is_zero loaded_at) (invalid_response message)

pub validate_policy_version : PolicyVersion → String → Check
validate_policy_version v field =
    check_version v.hash v.loaded_at (lit field ∷ lit " is missing its hash or load timestamp" ∷ [])

-- `policyVersionWire.version`
pub version_of : PolicyVersionWire → Result PolicyVersion
version_of w = do
  refuse_if (not w.label_set.present || not w.generation.present)
      (bad_response "policy version requires label_set and generation")
  let version : PolicyVersion = record {
    hash = w.hash;
    loaded_at = w.loaded_at;
    label_set = w.label_set.value;
    generation = w.generation.value;
  }
  validate_policy_version version "policy version"
  ok version

pub record SchemaVersion : Type 0 where
  pub hash : Bytes
  pub loaded_at : Time

pub validate_schema_version : SchemaVersion → String → Check
validate_schema_version v field =
    check_version v.hash v.loaded_at (lit field ∷ lit " requires hash and loaded_at" ∷ [])

pub record CoreVersion : Type 0 where
  pub version : Bytes
  pub cedar : Bytes

pub record VersionInfo : Type 0 where
  pub version : Bytes
  pub core : CoreVersion
  pub policies : PolicyVersion
  pub schema : Option SchemaVersion

validate_schema : Option SchemaVersion → Check
validate_schema none = pass
validate_schema (some s) = validate_schema_version s "version schema"

-- `VersionInfo.validateResponse`, on a version that is not nil.
pub validate_version_info : VersionInfo → Check
validate_version_info v = do
  refuse_if (is_empty v.version || is_empty v.core.version || is_empty v.core.cedar)
      (bad_response "version response is missing required version fields")
  validate_policy_version v.policies "version policies"
  validate_schema v.schema

core_from_json : Json → CoreVersion → Result CoreVersion
core_from_json v c = do
  ms ← members_of v
  version ← each_field (codes "version") (keep read_string) ms c.version
  cedar ← each_field (codes "cedar") (keep read_string) ms c.cedar
  ok (record { version = version; cedar = cedar })

module _ (formats : Formats) where
  -- The fields of `policyVersionWire`, over those of `w`.
  pub version_wire_from_json : Json → PolicyVersionWire → Result PolicyVersionWire
  version_wire_from_json v w = do
    ms ← members_of v
    hash ← each_field (codes "hash") (keep read_string) ms w.hash
    loaded_at ← each_field (codes "loaded_at") (keep (read_time formats)) ms w.loaded_at
    label_set ← each_field (codes "label_set") label_set_from_json ms w.label_set
    generation ← each_field (codes "generation") generation_from_json ms w.generation
    ok (record {
      hash = hash;
      loaded_at = loaded_at;
      label_set = label_set;
      generation = generation;
    })

  -- `PolicyVersion.UnmarshalJSON`
  pub policy_version_from_json : Json → Result PolicyVersion
  policy_version_from_json v = version_wire_from_json v no_version >>= version_of

  -- `SchemaVersion.UnmarshalJSON`
  pub schema_version_from_json : Json → Result SchemaVersion
  schema_version_from_json v = do
    ms ← members_of v
    hash ← plain_field (codes "hash") read_string [] ms
    loaded_at ← plain_field (codes "loaded_at") (read_time formats) zero_time ms
    let version : SchemaVersion = record { hash = hash; loaded_at = loaded_at }
    validate_schema_version version "schema version"
    ok version

  -- The fields, if all that are required are there.
  pub version_info_fields : Json → Result VersionInfo
  version_info_fields v = do
    ms ← members_of v
    version ← pointer_field (codes "version") read_string ms
    core ← struct_field (codes "core") core_from_json (record { version = []; cedar = [] }) ms
    policies ← struct_field (codes "policies") version_wire_from_json no_version ms
    schema ← pointer_field (codes "schema") schema_version_from_json ms
    let missing : Err = bad_response "version response is missing required fields"
    version' ← required missing version
    core' ← required missing core
    wire ← required missing policies
    policies' ← version_of wire
    let info : VersionInfo = record {
      version = version';
      core = core';
      policies = policies';
      schema = schema;
    }
    ok info

  -- `VersionInfo.UnmarshalJSON`
  unfoldable pub version_info_from_json : Json → Result VersionInfo
  version_info_from_json v = version_info_fields v >>= validated validate_version_info

-- The definitions of this file, for a test by evaluation.
unfoldable pub versions_run : Unit {0}
unfolding server_runs label_set_from_json generation_of generation_from_json check_version
    validate_policy_version version_of validate_schema_version validate_schema validate_version_info
    core_from_json version_wire_from_json policy_version_from_json schema_version_from_json
    version_info_fields version_info_from_json
versions_run = tt

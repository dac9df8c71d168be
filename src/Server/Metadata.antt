-- ===== src/Server/Metadata.antt =====
-- Metadata of policies, labels, schemas and bundles, and the downloads that carry them.
use treetop_client_go.Server.{Formats, bad_response, read_time, server_runs, validated}
pub mod Valid
use treetop_client_go.Decision.{Time, is_zero}
use treetop_client_go.Base.{
  Bool, Bytes, Option, String, [], codes, false, is_empty, none, not, some, true, ℕ, ◌==◌, ◌||◌,
  ◌∷◌,
}
use treetop_client_go.Errors.{
  Check, Err, Result, arg, err, invalid, invalid_response, lit, ok, pass, refuse_if, text, ◌>>=◌,
  ◌>>◌,
}
use treetop_client_go.Json.{
  Json, Members, max_uint32, max_uint64, member, no_members, read_bool, read_string, read_uint,
  type_error,
}
use treetop_client_go.Json.Fields.{matches, members_of, plain_field, pointer_field, required}

pub record MetadataSource : Type 0 where
  pub url : Bytes

pub record Metadata : Type 0 where
  pub timestamp : Time
  pub sha256 : Bytes
  pub size : ℕ
  pub source : Option MetadataSource
  pub refresh_frequency : Option ℕ
  pub entries : ℕ
  pub content : Bytes

-- `Metadata.validateResponse`
pub validate_metadata : Metadata → String → Check
validate_metadata m field =
    refuse_if (is_zero m.timestamp)
      (invalid_response (lit field ∷ lit " is missing its timestamp" ∷ []))

pub record BundleMetadata : Type 0 where
  pub format_version : ℕ
  pub bundle_id : Bytes
  pub archive_sha256 : Bytes
  pub compressed_size : ℕ
  pub module_count : ℕ
  pub signed : Bool
  pub signing_key_id : Option Bytes
  pub source : Option MetadataSource
  pub refresh_frequency : Option ℕ
  pub loaded_at : Time

-- The two checks on the signing key.
pub check_signing : Bool → Option Bytes → Check
check_signing true none = err (bad_response "signed bundle metadata is missing its signing key ID")
check_signing true (some key) =
    refuse_if (is_empty key) (bad_response "signed bundle metadata is missing its signing key ID")
check_signing false (some key) =
    err (bad_response "unsigned bundle metadata contains a signing key ID")
check_signing false none = pass

-- `BundleMetadata.validateResponse`
pub validate_bundle : BundleMetadata → Check
validate_bundle b = do
  refuse_if
      (b.format_version == 0
        || is_empty b.bundle_id
        || is_empty b.archive_sha256
        || is_zero b.loaded_at)
      (bad_response "bundle metadata contains invalid required fields")
  check_signing b.signed b.signing_key_id

pub record PoliciesMetadata : Type 0 where
  pub allow_upload : Bool
  pub schema_validation_mode : Bytes
  pub policies : Metadata
  pub labels : Metadata
  pub schema : Metadata
  pub bundle : Option BundleMetadata

pub validate_optional_bundle : Option BundleMetadata → Check
validate_optional_bundle none = pass
validate_optional_bundle (some b) = validate_bundle b

-- `PoliciesMetadata.validateResponse`, on a pointer that is not nil.
pub validate_policies_metadata : PoliciesMetadata → Check
validate_policies_metadata p = do
  refuse_if (is_empty p.schema_validation_mode) (bad_response "policy metadata is incomplete")
  validate_metadata p.policies "policies metadata"
  validate_metadata p.labels "labels metadata"
  validate_metadata p.schema "schema metadata"
  validate_optional_bundle p.bundle

-- A decoder that knows the field `url` alone.
only_url : Members → Check
only_url no_members = pass
only_url (member key v ms) = refuse_if (not (matches (codes "url") key)) type_error >> only_url ms

module _ (formats : Formats) where
  pub new_metadata_source : Bytes → Result MetadataSource
  new_metadata_source value = do
    refuse_if (not (formats.is_absolute value))
        (invalid (text "metadata source") (arg value ∷ []) "must be an absolute URL")
    ok (record { url = value })

  -- `MetadataSource.UnmarshalJSON`
  source_from_json : Json → Result MetadataSource
  source_from_json v = do
    ms ← members_of v
    only_url ms
    url ← plain_field (codes "url") read_string [] ms
    new_metadata_source url

  -- The fields, if all that are required are there.
  metadata_fields : Json → Result Metadata
  metadata_fields v = do
    ms ← members_of v
    timestamp ← pointer_field (codes "timestamp") (read_time formats) ms
    sha256 ← pointer_field (codes "sha256") read_string ms
    size ← pointer_field (codes "size") (read_uint max_uint64) ms
    source ← pointer_field (codes "source") source_from_json ms
    refresh ← pointer_field (codes "refresh_frequency") (read_uint max_uint32) ms
    entries ← pointer_field (codes "entries") (read_uint max_uint64) ms
    content ← pointer_field (codes "content") read_string ms
    let missing : Err = bad_response "metadata is missing required fields"
    timestamp' ← required missing timestamp
    sha256' ← required missing sha256
    size' ← required missing size
    entries' ← required missing entries
    content' ← required missing content
    let m : Metadata = record {
      timestamp = timestamp';
      sha256 = sha256';
      size = size';
      source = source;
      refresh_frequency = refresh;
      entries = entries';
      content = content';
    }
    ok m

  -- `Metadata.UnmarshalJSON`
  pub metadata_from_json : Json → Result Metadata
  metadata_from_json v = metadata_fields v >>= validated (λ m. validate_metadata m "metadata")

  -- The fields, if all that are required are there.
  pub bundle_fields : Json → Result BundleMetadata
  bundle_fields v = do
    ms ← members_of v
    format_version ← pointer_field (codes "format_version") (read_uint max_uint32) ms
    bundle_id ← pointer_field (codes "bundle_id") read_string ms
    archive_sha256 ← pointer_field (codes "archive_sha256") read_string ms
    compressed_size ← pointer_field (codes "compressed_size") (read_uint max_uint64) ms
    module_count ← pointer_field (codes "module_count") (read_uint max_uint64) ms
    signed ← pointer_field (codes "signed") read_bool ms
    signing_key_id ← pointer_field (codes "signing_key_id") read_string ms
    source ← pointer_field (codes "source") source_from_json ms
    refresh ← pointer_field (codes "refresh_frequency") (read_uint max_uint32) ms
    loaded_at ← pointer_field (codes "loaded_at") (read_time formats) ms
    let missing : Err = bad_response "bundle metadata is missing required fields"
    format_version' ← required missing format_version
    bundle_id' ← required missing bundle_id
    archive_sha256' ← required missing archive_sha256
    compressed_size' ← required missing compressed_size
    module_count' ← required missing module_count
    signed' ← required missing signed
    loaded_at' ← required missing loaded_at
    let b : BundleMetadata = record {
      format_version = format_version';
      bundle_id = bundle_id';
      archive_sha256 = archive_sha256';
      compressed_size = compressed_size';
      module_count = module_count';
      signed = signed';
      signing_key_id = signing_key_id;
      source = source;
      refresh_frequency = refresh;
      loaded_at = loaded_at';
    }
    ok b

  -- `BundleMetadata.UnmarshalJSON`
  unfoldable pub bundle_from_json : Json → Result BundleMetadata
  bundle_from_json v = bundle_fields v >>= validated validate_bundle

  -- The fields, if all that are required are there.
  policies_metadata_fields : Json → Result PoliciesMetadata
  policies_metadata_fields v = do
    ms ← members_of v
    allow_upload ← pointer_field (codes "allow_upload") read_bool ms
    mode ← pointer_field (codes "schema_validation_mode") read_string ms
    policies ← pointer_field (codes "policies") metadata_from_json ms
    labels ← pointer_field (codes "labels") metadata_from_json ms
    schema ← pointer_field (codes "schema") metadata_from_json ms
    bundle ← pointer_field (codes "bundle") bundle_from_json ms
    let missing : Err = bad_response "policy metadata is missing required fields"
    allow_upload' ← required missing allow_upload
    mode' ← required missing mode
    policies' ← required missing policies
    labels' ← required missing labels
    schema' ← required missing schema
    let p : PoliciesMetadata = record {
      allow_upload = allow_upload';
      schema_validation_mode = mode';
      policies = policies';
      labels = labels';
      schema = schema';
      bundle = bundle;
    }
    ok p

  -- `PoliciesMetadata.UnmarshalJSON`
  pub policies_metadata_from_json : Json → Result PoliciesMetadata
  policies_metadata_from_json v =
      policies_metadata_fields v >>= validated validate_policies_metadata

  -- `PoliciesDownload.UnmarshalJSON` and `SchemaDownload.UnmarshalJSON`, which differ in their words.
  download_from_json : Bytes → String → String → Json → Result Metadata
  download_from_json field missing name v = do
    ms ← members_of v
    metadata ← pointer_field field metadata_from_json ms
    m ← required (bad_response missing) metadata
    validate_metadata m name
    ok m

  -- `PoliciesDownload` and `SchemaDownload` hold their metadata alone.
  pub policies_download_from_json : Json → Result Metadata
  policies_download_from_json =
      download_from_json (codes "policies") "policy download is missing policies metadata"
        "policy download"

  pub schema_download_from_json : Json → Result Metadata
  schema_download_from_json =
      download_from_json (codes "schema") "schema download is missing schema metadata"
        "schema download"

-- The definitions of this file, for a test by evaluation.
unfoldable pub metadata_runs : Unit {0}
unfolding server_runs validate_metadata check_signing validate_bundle validate_optional_bundle
    validate_policies_metadata only_url new_metadata_source source_from_json metadata_fields
    metadata_from_json bundle_fields bundle_from_json policies_metadata_fields
    policies_metadata_from_json download_from_json policies_download_from_json
    schema_download_from_json
metadata_runs = tt

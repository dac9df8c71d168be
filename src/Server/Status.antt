-- ===== src/Server/Status.antt =====
-- The status document: configuration, request limits, and what the server does with contexts.
use treetop_client_go.Server.Metadata.{
  PoliciesMetadata, metadata_runs, policies_metadata_from_json, validate_policies_metadata,
}
use treetop_client_go.Limits.{RequestLimits, bad_limits, limits_run}
use treetop_client_go.Server.{Formats, bad_response, validated}
pub mod Valid
use treetop_client_go.Base.{Bool, Bytes, Option, codes, false, none, not, some, true, ℕ, ◌&&◌, ◌||◌}
use treetop_client_go.Errors.{
  Check, Err, Result, configuration, err, invalid, ok, refuse_if, ◌>>=◌, ◌>>◌,
}
use treetop_client_go.Json.{Json, max_uint64, null, read_bool, read_int64, read_string, read_uint}
use treetop_client_go.Json.Fields.{members_of, pointer_field, raw_field, required}

pub record ParallelConfiguration : Type 0 where
  pub cpu_count : ℕ
  pub workers : ℕ
  pub rayon_threads : ℕ
  pub par_threshold : ℕ
  pub allow_parallel : Bool

-- `ParallelConfiguration.UnmarshalJSON`
pub parallel_from_json : Json → Result ParallelConfiguration
parallel_from_json v = do
  ms ← members_of v
  cpu_count ← pointer_field (codes "cpu_count") (read_uint max_uint64) ms
  workers ← pointer_field (codes "workers") (read_uint max_uint64) ms
  rayon_threads ← pointer_field (codes "rayon_threads") (read_uint max_uint64) ms
  par_threshold ← pointer_field (codes "par_threshold") (read_uint max_uint64) ms
  allow_parallel ← pointer_field (codes "allow_parallel") read_bool ms
  let missing : Err = bad_response "parallel configuration is missing required fields"
  cpu_count' ← required missing cpu_count
  workers' ← required missing workers
  rayon_threads' ← required missing rayon_threads
  par_threshold' ← required missing par_threshold
  allow_parallel' ← required missing allow_parallel
  ok (record {
    cpu_count = cpu_count';
    workers = workers';
    rayon_threads = rayon_threads';
    par_threshold = par_threshold';
    allow_parallel = allow_parallel';
  })

pub record RequestContextStatus : Type 0 where
  pub supported : Bool
  pub schema_backed : Bool
  pub fallback_reason : Option Bytes

is_set : Option Bytes → Bool
is_set none = false
is_set (some s) = true

-- `RequestContextStatus.validateResponse`
pub validate_context_status : RequestContextStatus → Check
validate_context_status s = do
  refuse_if (not s.supported && (s.schema_backed || is_set s.fallback_reason))
      (bad_response "unsupported request context has runtime capability fields")
  refuse_if (s.schema_backed && (not s.supported || is_set s.fallback_reason))
      (bad_response "schema-backed request context has inconsistent fields")
  refuse_if (s.supported && not s.schema_backed && not (is_set s.fallback_reason))
      (bad_response "request-context fallback is missing its reason")

-- The fields, if all that are required are there.
context_status_fields : Json → Result RequestContextStatus
context_status_fields v = do
  ms ← members_of v
  supported ← pointer_field (codes "supported") read_bool ms
  schema_backed ← pointer_field (codes "schema_backed") read_bool ms
  reason ← pointer_field (codes "fallback_reason") read_string ms
  let missing : Err = bad_response "request-context status is missing required fields"
  supported' ← required missing supported
  schema_backed' ← required missing schema_backed
  let s : RequestContextStatus = record {
    supported = supported';
    schema_backed = schema_backed';
    fallback_reason = reason;
  }
  ok s

-- `RequestContextStatus.UnmarshalJSON`
pub context_status_from_json : Json → Result RequestContextStatus
context_status_from_json v = context_status_fields v >>= validated validate_context_status

-- `decodeRequestLimits`
pub limits_from_json : Json → Result RequestLimits
limits_from_json v = do
  ms ← members_of v
  batch ← pointer_field (codes "max_batch_size") read_int64 ms
  bytes ← pointer_field (codes "max_context_bytes") read_int64 ms
  depth ← pointer_field (codes "max_context_depth") read_int64 ms
  keys ← pointer_field (codes "max_context_keys") read_int64 ms
  let missing : Err = bad_response "status request limits are missing required fields"
  batch' ← required missing batch
  bytes' ← required missing bytes
  depth' ← required missing depth
  keys' ← required missing keys
  ok (record {
    max_batch_size = batch';
    max_context_bytes = bytes';
    max_context_depth = depth';
    max_context_keys = keys';
  })

-- `RequestLimits.validateResponse`
pub validate_server_limits : RequestLimits → Check
validate_server_limits l =
    refuse_if (bad_limits l) (bad_response "status request limits are invalid")

pub record StatusResponse : Type 0 where
  pub policy_configuration : PoliciesMetadata
  pub parallel_configuration : ParallelConfiguration
  pub request_limits : RequestLimits
  pub request_context : RequestContextStatus

-- `StatusResponse.validateResponse`, on a pointer that is not nil.
pub validate_status : StatusResponse → Check
validate_status s = do
  validate_policies_metadata s.policy_configuration
  validate_server_limits s.request_limits
  validate_context_status s.request_context

-- A raw value that is there and is not null.
given_object : Option Json → Result Json
given_object none = err (bad_response "status requires request_limits and request_context objects")
given_object (some null) =
    err (bad_response "status requires request_limits and request_context objects")
given_object (some v) = ok v

-- The fields, if all that are required are there.
pub status_fields : Formats → Json → Result StatusResponse
status_fields formats v = do
  ms ← members_of v
  policy ← pointer_field (codes "policy_configuration") (policies_metadata_from_json formats) ms
  parallel ← pointer_field (codes "parallel_configuration") parallel_from_json ms
  raw_limits ← raw_field (codes "request_limits") ms
  raw_context ← raw_field (codes "request_context") ms
  let missing : Err = bad_response "status response is missing required configuration fields"
  policy' ← required missing policy
  parallel' ← required missing parallel
  limits_value ← given_object raw_limits
  context_value ← given_object raw_context
  limits ← limits_from_json limits_value
  context ← context_status_from_json context_value
  let status : StatusResponse = record {
    policy_configuration = policy';
    parallel_configuration = parallel';
    request_limits = limits;
    request_context = context;
  }
  ok status

-- `unmarshalStatusResponse`
unfoldable pub status_from_json : Formats → Json → Result StatusResponse
status_from_json formats v = status_fields formats v >>= validated validate_status

-- The definitions of this file, for a test by evaluation.
unfoldable pub status_runs : Unit {0}
unfolding metadata_runs limits_run parallel_from_json is_set validate_context_status
    context_status_fields context_status_from_json limits_from_json validate_server_limits
    validate_status given_object status_fields status_from_json
status_runs = tt

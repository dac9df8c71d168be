-- ===== src/Server/Decisions.antt =====
-- Decisions, tagged results and whole authorization responses.
use treetop_client_go.Server.Versions.{no_version, version_of, version_wire_from_json, versions_run}
use treetop_client_go.Server.{Formats, bad_response}
pub mod Tagged
pub mod RoundTrip
pub mod Brief
use treetop_client_go.Errors.{
  Err, Result, err, invalid, invalid_response, lit, ok, quoted, ◌>>=◌, ◌>>◌,
}
use treetop_client_go.Base.{
  Bytes, List, Option, [], bytes_eq, codes, if◌then◌else◌, none, put, some, ◌∷◌,
}
use treetop_client_go.Json.Fields.{
  members_of, plain_field, pointer_field, raw_field, read_array, read_map, required, struct_field,
}
use treetop_client_go.Decision.{
  AuthorizeDecisionBrief, AuthorizeDecisionDetailed, Decision, PermitPolicy, allow, brief, deny,
  detailed, other_decision,
}
use treetop_client_go.Response.{
  AuthorizeResponse, BatchResult, BatchStatus, IndexedResult, failed, other_status, success,
}
use treetop_client_go.Json.{
  Json, integer_json, member, nested, no_members, null, object, object_of, read_int64, read_string,
  string_json,
}

pub decision_of : Bytes → Decision
decision_of s =
    if bytes_eq s (codes "Allow")
    then allow
    else if bytes_eq s (codes "Deny")
    then deny
    else other_decision s

pub read_decision : Json → Result Decision
read_decision v = read_string v >>= λ s. ok (decision_of s)

abbrev no_policy : PermitPolicy
no_policy = record { literal = []; json = []; annotation_id = none; cedar_id = [] }

module _ (raw : Json → Bytes) where
  -- `raw` is the text of a value, as a `json.RawMessage` keeps it; `none` is a nil one.
  raw_text : Option Json → Bytes
  raw_text none = []
  raw_text (some v) = raw v

  -- A `PermitPolicy`, by its tags.
  policy_from_json : Json → Result PermitPolicy
  policy_from_json v = do
    ms ← members_of v
    literal ← plain_field (codes "literal") read_string no_policy.literal ms
    json ← raw_field (codes "json") ms
    annotation ← pointer_field (codes "annotation_id") read_string ms
    cedar_id ← plain_field (codes "cedar_id") read_string no_policy.cedar_id ms
    ok (record {
      literal = literal;
      json = raw_text json;
      annotation_id = annotation;
      cedar_id = cedar_id;
    })

module _ (formats : Formats) where
  -- `AuthorizeDecisionBrief.UnmarshalJSON`
  pub brief_from_json : Json → Result AuthorizeDecisionBrief
  brief_from_json v = do
    ms ← members_of v
    decision ← pointer_field (codes "decision") read_decision ms
    version ← struct_field (codes "version") (version_wire_from_json formats) no_version ms
    policy_id ← pointer_field (codes "policy_id") read_string ms
    let missing : Err = bad_response "brief authorization decision is missing required fields"
    decision' ← required missing decision
    wire ← required missing version
    policy_id' ← required missing policy_id
    version' ← version_of wire
    ok (record { decision = decision'; version = version'; policy_id = policy_id' })

  -- `AuthorizeDecisionDetailed.UnmarshalJSON`
  pub detailed_from_json : (Json → Bytes) → Json → Result AuthorizeDecisionDetailed
  detailed_from_json raw v = do
    ms ← members_of v
    policies ← pointer_field (codes "policy") (read_array (policy_from_json raw)) ms
    decision ← pointer_field (codes "decision") read_decision ms
    version ← struct_field (codes "version") (version_wire_from_json formats) no_version ms
    let missing : Err = bad_response "detailed authorization decision is missing required fields"
    policies' ← required missing policies
    decision' ← required missing decision
    wire ← required missing version
    version' ← version_of wire
    ok (record { policies = policies'; decision = decision'; version = version' })

status_of : Bytes → BatchStatus
status_of s =
    if bytes_eq s (codes "success")
    then success
    else if bytes_eq s (codes "failed")
    then failed
    else other_status s

abbrev pub status_text : BatchStatus → Bytes
status_text success = codes "success"
status_text failed = codes "failed"
status_text (other_status s) = s

abbrev success_payload : Err
success_payload = bad_response "successful batch result has an invalid payload"

abbrev failed_payload : Err
failed_payload = bad_response "failed batch result has an invalid payload"

unknown_status : Bytes → Err
unknown_status s = invalid_response (lit "unknown batch result status " ∷ quoted s ∷ [])

-- `encode` and `decode` are the codec of the payload.
module _ {T : Type 0} (encode : T → Result Json) (decode : Json → Result T) where
  success_json : Option T → Bytes → Result Json
  success_json (some t) [] = do
    j ← encode t
    ok (
        object (
          member (codes "status") (string_json (status_text success))
            (member (codes "result") j no_members)))
  success_json _ _ = err success_payload

  failure_json : Option T → Bytes → Result Json
  failure_json none e = ok (
      object (
        member (codes "status") (string_json (status_text failed))
          (member (codes "error") (string_json e) no_members)))
  failure_json (some t) e = err (bad_response "failed batch result contains a successful payload")

  result_json : BatchStatus → Option T → Bytes → Result Json
  result_json success result e = success_json result e
  result_json failed result e = failure_json result e
  result_json (other_status s) result e = err (unknown_status s)

  -- `BatchResult.MarshalJSON`
  pub batch_result_json : BatchResult T → Result Json
  batch_result_json r = result_json r.status r.result r.error

  success_from : Option Json → Option Bytes → Result (BatchResult T)
  success_from none e = err success_payload
  success_from (some null) e = err success_payload
  success_from (some v) (some e) = err success_payload
  success_from (some v) none =
      decode v >>= λ t. ok (record { status = success; result = some t; error = [] })

  failure_from : Option Json → Option Bytes → Result (BatchResult T)
  failure_from none (some e) = ok (record { status = failed; result = none; error = e })
  failure_from _ _ = err failed_payload

  result_from : BatchStatus → Option Json → Option Bytes → Result (BatchResult T)
  result_from success result e = success_from result e
  result_from failed result e = failure_from result e
  result_from (other_status s) result e = err (unknown_status s)

  -- `BatchResult.UnmarshalJSON`
  pub batch_result_from_json : Json → Result (BatchResult T)
  batch_result_from_json v = do
    ms ← members_of v
    status ← plain_field (codes "status") read_string [] ms
    result ← raw_field (codes "result") ms
    e ← pointer_field (codes "error") read_string ms
    result_from (status_of status) result e

  id_entry : Option Bytes → List (Bytes × Json) → List (Bytes × Json)
  id_entry none fields = fields
  id_entry (some id) fields = put (codes "id") (string_json id) fields

  -- `IndexedResult.MarshalJSON`; the package writes the entries of the map by their names.
  pub indexed_result_json : IndexedResult T → Result Json
  indexed_result_json r = do
    result ← nested "BatchResult" (batch_result_json r.batch)
    fields ← read_map (λ j. ok j) result []
    ok (object (object_of (id_entry r.id (put (codes "index") (integer_json r.index) fields))))

  -- `IndexedResult.UnmarshalJSON`
  pub indexed_result_from_json : Json → Result (IndexedResult T)
  indexed_result_from_json v = do
    ms ← members_of v
    index ← pointer_field (codes "index") read_int64 ms
    id ← pointer_field (codes "id") read_string ms
    index' ← required (bad_response "authorization result is missing its index") index
    batch ← batch_result_from_json v
    ok (record { index = index'; id = id; batch = batch })

  -- `AuthorizeResponse.UnmarshalJSON`
  pub authorize_response_from_json : Formats → Json → Result (AuthorizeResponse T)
  authorize_response_from_json formats v = do
    ms ← members_of v
    results ← pointer_field (codes "results") (read_array indexed_result_from_json) ms
    version ← struct_field (codes "version") (version_wire_from_json formats) no_version ms
    successful ← pointer_field (codes "successful") read_int64 ms
    failures ← pointer_field (codes "failed") read_int64 ms
    let missing : Err = bad_response "authorization response is missing required fields"
    results' ← required missing results
    wire ← required missing version
    successful' ← required missing successful
    failures' ← required missing failures
    version' ← version_of wire
    ok (record {
      results = results';
      version = version';
      successful = successful';
      failed = failures';
    })

-- The definitions of this file, for a test by evaluation.
unfoldable pub decisions_run : Unit {0}
unfolding versions_run decision_of read_decision raw_text policy_from_json brief_from_json
    detailed_from_json status_of unknown_status success_json failure_json result_json
    batch_result_json success_from failure_from result_from batch_result_from_json id_entry
    indexed_result_json indexed_result_from_json authorize_response_from_json
decisions_run = tt

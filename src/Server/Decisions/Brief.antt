-- ===== src/Server/Decisions/Brief.antt =====
-- response_types.go: what package json writes of a brief decision, by the tags of its fields.
-- `write_time` is the text that `time.Time` gives, if it gives one.
use treetop_client_go.Base.{Bytes, List, Option, [], codes, none, some, ◌∷◌}
use treetop_client_go.Decision.{
  AuthorizeDecisionBrief, Decision, PolicyVersion, Time, allow, deny, other_decision,
}
use treetop_client_go.Errors.{Result, ok, ◌>>=◌}
use treetop_client_go.Server.Versions.Written.{policy_version_json}
use treetop_client_go.Json.{Json, integer, null, object, object_of, string, string_json}
pub mod RoundTrip

pub decision_text : Decision → Bytes
decision_text allow = codes "Allow"
decision_text deny = codes "Deny"
decision_text (other_decision s) = s

module _ (write_time : Time → Option Bytes) where
  pub brief_json : AuthorizeDecisionBrief → Result Json
  brief_json d = do
    version ← policy_version_json write_time d.version
    ok (
        object (
          object_of (
            (codes "decision", string_json (decision_text d.decision))
            ∷ (codes "version", version)
            ∷ (codes "policy_id", string_json d.policy_id)
            ∷ [])))

-- ===== src/Tests/Servers.antt =====
-- Instances of the theorems on the documents of the server.
use treetop_client_go.Server.Policies.{UserPolicies, policies_run}
use treetop_client_go.Server.Status.{StatusResponse, status_runs}
use treetop_client_go.Base.{
  String, [], codes, false, if◌then◌else◌, is_empty, none, not, refl, some, true, ℕ, ◌∷◌,
}
use treetop_client_go.Server.Metadata.{Metadata}
use treetop_client_go.Json.{
  Json, array, boolean, element, integer, no_elements, no_members, object, object_of, string,
}
use treetop_client_go.Base.Int.{pos}
use treetop_client_go.Server.{Formats}
use treetop_client_go.Server.Status.Valid.{IsStatus}
use treetop_client_go.Server.Policies.Valid.{IsUserPolicies}
use treetop_client_go.Server.Documents.{
  status_from_json-IsStatus, user_policies_from_json-IsUserPolicies,
}

abbrev pub formats : Formats
formats = record {
  parse_time = λ s. if is_empty s then none else some (pos 7);
  is_absolute = λ s. not (is_empty s);
}

abbrev pub text_of : String → Json
text_of s = string (codes s)

abbrev pub number : ℕ → Json
number n = integer false n

abbrev metadata : Json
metadata = object (
    object_of (
      (codes "timestamp", text_of "2026-01-01T00:00:00Z")
      ∷ (codes "sha256", text_of "ab")
      ∷ (codes "size", number 2)
      ∷ (codes "entries", number 1)
      ∷ (codes "content", text_of "")
      ∷ []))

abbrev status_document : Json
status_document = object (
    object_of (
      (
        codes "policy_configuration",
        object (
            object_of (
              (codes "allow_upload", boolean true)
              ∷ (codes "schema_validation_mode", text_of "strict")
              ∷ (codes "policies", metadata)
              ∷ (codes "labels", metadata)
              ∷ (codes "schema", metadata)
              ∷ [])),
      )
      ∷ (
        codes "parallel_configuration",
        object (
            object_of (
              (codes "cpu_count", number 4)
              ∷ (codes "workers", number 2)
              ∷ (codes "rayon_threads", number 2)
              ∷ (codes "par_threshold", number 8)
              ∷ (codes "allow_parallel", boolean true)
              ∷ [])),
      )
      ∷ (
        codes "request_limits",
        object (
            object_of (
              (codes "max_batch_size", number 10)
              ∷ (codes "max_context_bytes", number 100)
              ∷ (codes "max_context_depth", number 3)
              ∷ (codes "max_context_keys", number 5)
              ∷ [])),
      )
      ∷ (
        codes "request_context",
        object (
            object_of (
              (codes "supported", boolean true)
              ∷ (codes "schema_backed", boolean false)
              ∷ (codes "fallback_reason", text_of "no_schema")
              ∷ [])),
      )
      ∷ []))

abbrev dated : Metadata
dated = record {
  timestamp = pos 7;
  sha256 = codes "ab";
  size = 2;
  source = none;
  refresh_frequency = none;
  entries = 1;
  content = [];
}

abbrev status : StatusResponse
status = record {
  policy_configuration = record {
    allow_upload = true;
    schema_validation_mode = codes "strict";
    policies = dated;
    labels = dated;
    schema = dated;
    bundle = none;
  };
  parallel_configuration = record {
    cpu_count = 4;
    workers = 2;
    rayon_threads = 2;
    par_threshold = 8;
    allow_parallel = true;
  };
  request_limits = record {
    max_batch_size = pos 10;
    max_context_bytes = pos 100;
    max_context_depth = pos 3;
    max_context_keys = pos 5;
  };
  request_context = record {
    supported = true;
    schema_backed = false;
    fallback_reason = some (codes "no_schema");
  };
}

status_from_json-IsStatus_example : IsStatus status
unfolding status_runs
status_from_json-IsStatus_example = status_from_json-IsStatus formats status_document status refl

abbrev policies_document : Json
policies_document = object (
    object_of (
      (codes "user", text_of "alice")
      ∷ (codes "policies", array (element (object no_members) no_elements))
      ∷ (
        codes "matches",
        array (
            element
              (object (
                object_of (
                  (codes "cedar_id", text_of "policy0")
                  ∷ (codes "reasons", array (element (text_of "PrincipalAny") no_elements))
                  ∷ [])))
              no_elements),
      )
      ∷ []))

abbrev user_policies : UserPolicies
user_policies = record {
  user = codes "alice";
  policies = some (object no_members ∷ []);
  matches = some (record { cedar_id = codes "policy0"; reasons = codes "PrincipalAny" ∷ [] } ∷ []);
}

user_policies_from_json-IsUserPolicies_example : IsUserPolicies user_policies
unfolding policies_run
user_policies_from_json-IsUserPolicies_example =
    user_policies_from_json-IsUserPolicies policies_document user_policies refl

-- ===== src/Tests/Decisions.antt =====
-- Instances of the theorems on decisions and results in JSON.
use treetop_client_go.Server.Decisions.Tagged.{IsDecoded, authorize_response_from_json-IsDecoded}
use treetop_client_go.Response.{AuthorizeResponse, IndexedResult, failed, success}
use treetop_client_go.Base.{[], arith, codes, none, refl, some, ◌∷◌, ◌≡◌}
use treetop_client_go.Tests.{version}
use treetop_client_go.Base.{Bytes, Option}
use treetop_client_go.Decision.{AuthorizeDecisionBrief, Time, allow}
use treetop_client_go.Server.Decisions.Brief.{brief_json}
use treetop_client_go.Server.Decisions.Brief.RoundTrip.{IsWritableBrief, brief_from_json-brief_json}
use treetop_client_go.Server.Decisions.{brief_from_json}
use treetop_client_go.Text.Runes.Utf8.{utf8_runs}
use treetop_client_go.Json.{Json, array, element, no_elements, null, object, object_of}
use treetop_client_go.Base.Int.{pos}
use treetop_client_go.Errors.{Result, ok, ◌>>=◌}
use treetop_client_go.Server.Decisions.{
  decisions_run, indexed_result_from_json, indexed_result_json,
}
use treetop_client_go.Server.Decisions.RoundTrip.{indexed_result_from_json-indexed_result_json}
use treetop_client_go.Tests.Servers.{formats, number, text_of}

abbrev write_time : Time → Option Bytes
write_time t = some (codes "2026-01-01T00:00:00Z")

abbrev write_brief : AuthorizeDecisionBrief → Result Json
write_brief = brief_json write_time

abbrev read_brief : Json → Result AuthorizeDecisionBrief
read_brief = brief_from_json formats

abbrev allowed_brief : AuthorizeDecisionBrief
allowed_brief = record {
  decision = allow;
  version = record {
    hash = codes "ab";
    loaded_at = pos 7;
    label_set = some (codes "labels");
    generation = 3;
  };
  policy_id = codes "policy0";
}

abbrev second : IndexedResult AuthorizeDecisionBrief
second = record {
  index = pos 1;
  id = some (codes "b");
  batch = record { status = success; result = some allowed_brief; error = [] };
}

allowed_brief-IsWritableBrief : IsWritableBrief formats write_time allowed_brief
unfolding utf8_runs
allowed_brief-IsWritableBrief =
    (tt, ((codes "2026-01-01T00:00:00Z", refl, refl), (refl, refl), refl, refl, omega arith), refl)

indexed_result_from_json-indexed_result_json_example :
    (indexed_result_json write_brief read_brief second
      >>= indexed_result_from_json write_brief read_brief)
    ≡ ok second
unfolding utf8_runs
indexed_result_from_json-indexed_result_json_example =
    indexed_result_from_json-indexed_result_json write_brief read_brief second
      (brief_from_json-brief_json formats write_time allowed_brief allowed_brief-IsWritableBrief) tt
      (ground arith, refl, refl)

abbrev response_document : Json
response_document = object (
    object_of (
      (
        codes "results",
        array (
            element
              (object (
                object_of (
                  (codes "index", number 0)
                  ∷ (codes "status", text_of "failed")
                  ∷ (codes "error", text_of "no")
                  ∷ [])))
              no_elements),
      )
      ∷ (
        codes "version",
        object (
            object_of (
              (codes "hash", text_of "f00d")
              ∷ (codes "loaded_at", text_of "2026-01-01T00:00:00Z")
              ∷ (codes "label_set", null)
              ∷ (codes "generation", number 2)
              ∷ [])),
      )
      ∷ (codes "successful", number 0)
      ∷ (codes "failed", number 1)
      ∷ []))

abbrev one_failure : AuthorizeResponse AuthorizeDecisionBrief
one_failure = record {
  results =
      record {
        index = pos 0;
        id = none;
        batch = record { status = failed; result = none; error = codes "no" };
      }
      ∷ [];
  version = version;
  successful = pos 0;
  failed = pos 1;
}

authorize_response_from_json-IsDecoded_example : IsDecoded one_failure
unfolding decisions_run
authorize_response_from_json-IsDecoded_example =
    authorize_response_from_json-IsDecoded write_brief read_brief formats response_document
      one_failure refl

-- ===== src/Tests/Clients.antt =====
-- Instances of the theorems on the client's calls, on responses and on batches.
use treetop_client_go.Response.Find.{find_by_id-SameIds}
use treetop_client_go.Transport.Read.{HttpResponse}
use treetop_client_go.Transport.Answer.{Reader, Target, at_end, decode_json}
use treetop_client_go.Transport.Answer.Whole.{decode_json_iff}
use treetop_client_go.Transport.Headers.{RequestSpec, Sender, header_runs, new_headers}
use treetop_client_go.Transport.Headers.Credentials.{new_headers-IsSent}
use treetop_client_go.Base.Int.{max_int64, negsuc, pos, pos_part, suc_ℤ, ◌≤ℤ◌}
use treetop_client_go.Base.{
  All, Bytes, [], arith, codes, false, length, lookup, none, refl, some, take, true, ◌∷◌, ◌≡◌,
}
use treetop_client_go.Client.Authorize.Answered.{Outcome, is_allowed-Outcome}
use treetop_client_go.Decision.{AuthorizeDecisionBrief, brief, deny}
use treetop_client_go.Response.{AuthorizeResponse, IndexedResult, failed, find_by_id, response_runs}
use treetop_client_go.Errors.{Result, ok, pass}
use treetop_client_go.Batch.{AuthRequest, batch_runs}
use treetop_client_go.Client.Authorize.{authorize, authorize_runs, is_allowed}
use treetop_client_go.Client.Authorize.Verdict.{IsJudged, is_allowed-IsJudged, single}
use treetop_client_go.Client.Authorize.Sound.{IsAnswered, authorize_iff}
use treetop_client_go.Decision.Fits.{DecisionFits, validate_decision_iff}
use treetop_client_go.Response.Consistent.{IsConsistent, validate_structure_iff}
use treetop_client_go.Response.Correlated.{SameIds, validate_authorize_response_iff}
use treetop_client_go.Batch.Unique.{IsAuthRequest, IsDistinct, given_ids, validate_batch_iff}
use treetop_client_go.Limits.Within.{ContextFits, validate_limits_iff}
use treetop_client_go.Limits.{default_request_limits, limits_run, validate_request_limits}
use treetop_client_go.Transport.Encode.{encode_runs}
use treetop_client_go.Tests.{
  allowed, batch, decided_brief, encode_context, is_object, mixed, net, settings, succeeded,
  version, view_photo,
}

-- The exchange that gives the same answer to every body.
abbrev answers :
    AuthorizeResponse AuthorizeDecisionBrief
    → Bytes
    → Result (AuthorizeResponse AuthorizeDecisionBrief)
answers r body = ok r

allowed_runs : is_allowed settings (answers allowed) view_photo ≡ ok true
unfolding authorize_runs encode_runs
allowed_runs = refl

bounded : suc_ℤ default_request_limits.max_context_bytes ≤ℤ pos max_int64
unfolding limits_run
bounded = omega arith

good : validate_request_limits default_request_limits ≡ pass
unfolding limits_run
good = refl

is_allowed-IsJudged_example :
    (response : AuthorizeResponse AuthorizeDecisionBrief) × (authorize settings brief
        (answers allowed)
        (some (single settings (answers allowed) view_photo))
      ≡ ok response)
    × IsJudged settings (answers allowed) response true
is_allowed-IsJudged_example =
    is_allowed-IsJudged settings (answers allowed) view_photo true bounded good allowed_runs

authorize_runs_on_batch : authorize settings brief (answers mixed) (some batch) ≡ ok mixed
unfolding authorize_runs encode_runs
authorize_runs_on_batch = refl

authorize_iff_example :
    (All (IsAuthRequest net) batch × IsDistinct (given_ids batch))
    × ((pos (length batch) ≤ℤ default_request_limits.max_batch_size)
        × All
            (λ (r : AuthRequest). ContextFits encode_context default_request_limits r.context)
            batch)
    × IsAnswered settings brief (answers mixed) batch mixed
    × (IsConsistent is_object brief mixed (length batch)
        × SameIds is_object brief mixed.results batch)
authorize_iff_example =
    (authorize_iff settings brief (answers mixed) batch mixed bounded good).0
      authorize_runs_on_batch

validate_authorize_response_iff_example :
    IsConsistent is_object brief mixed 2 × SameIds is_object brief mixed.results batch
unfolding response_runs
validate_authorize_response_iff_example =
    (validate_authorize_response_iff is_object brief mixed batch).0 refl

validate_structure_iff_example : IsConsistent is_object brief mixed 2
unfolding response_runs
validate_structure_iff_example = (validate_structure_iff is_object brief mixed 2).0 refl

validate_decision_iff_example : DecisionFits is_object version (brief (decided_brief deny []))
unfolding response_runs
validate_decision_iff_example =
    (validate_decision_iff is_object (brief (decided_brief deny [])) version (pos 0)).0 refl

validate_batch_iff_example : All (IsAuthRequest net) batch × IsDistinct (given_ids batch)
unfolding batch_runs
validate_batch_iff_example = (validate_batch_iff net batch).0 refl

validate_limits_iff_example :
    (pos 2 ≤ℤ default_request_limits.max_batch_size)
    × All (λ (r : AuthRequest). ContextFits encode_context default_request_limits r.context) batch
unfolding limits_run encode_runs
validate_limits_iff_example =
    (validate_limits_iff encode_context default_request_limits batch bounded good).0 refl

-- The answer to one item whose evaluation failed.
abbrev refused : AuthorizeResponse AuthorizeDecisionBrief
refused = record {
  results =
      record {
        index = pos 0;
        id = none;
        batch = record { status = failed; result = none; error = codes "no" };
      }
      ∷ [];
  version = version;
  successful = pos 0;
  failed = pos 1;
}

refused_runs :
    authorize settings brief (answers refused) (some (single settings (answers refused) view_photo))
    ≡ ok refused
unfolding authorize_runs encode_runs
refused_runs = refl

is_allowed-Outcome_example :
    Outcome settings
      (answers refused)
      refused.results
      (is_allowed settings (answers refused) view_photo)
is_allowed-Outcome_example =
    is_allowed-Outcome settings (answers refused) view_photo refused bounded good refused_runs

abbrev hello : HttpResponse
hello = record { content_length = negsuc 0; read_all = λ n. ok (take (pos_part n) (codes "hello")) }

abbrev reader : Reader
reader = record {
  max_response_bytes = pos 5;
  to_valid_utf8 = λ s. s;
  unmarshal = λ s. record { accepted = false; error = []; code = []; details = none };
  replace = λ pairs s. s;
}

-- A value is the text itself.
abbrev plain : Target Bytes
plain = record { decode = ok; trailing = λ s. at_end; validate_value = λ s. pass }

decode_json_iff_example :
    decode_json reader plain none none (record { status_code = pos 200; response = hello })
    ≡ ok (codes "hello")
decode_json_iff_example =
    (decode_json_iff reader plain none none (record { status_code = pos 200; response = hello })
        (codes "hello") (codes "hello") (omega arith) (λ n. refl)).1
      (((omega arith, omega arith), omega arith, omega arith), (refl, refl, refl))

abbrev sender : Sender
sender = record {
  access_token = some (record { value = some 0 });
  correlation_id = codes "id";
  user_agent = [];
}

abbrev probe : RequestSpec
probe = record {
  content_type = [];
  accept = codes "text/plain";
  protected = true;
  upload_token = none;
}

new_headers-IsSent_example :
    (lookup (codes "Authorization") (new_headers sender probe (codes "abc" ∷ []))
      ≡ some (codes "Bearer abc"))
    × (lookup (codes "X-Upload-Token") (new_headers sender probe (codes "abc" ∷ [])) ≡ none)
unfolding header_runs
new_headers-IsSent_example = new_headers-IsSent sender probe (codes "abc" ∷ [])

abbrev failed_b : IndexedResult AuthorizeDecisionBrief
failed_b = record {
  index = pos 1;
  id = some (codes "b");
  batch = record { status = failed; result = none; error = codes "no" };
}

find_by_id-SameIds_example : find_by_id is_object brief (some mixed) (codes "b") ≡ some failed_b
find_by_id-SameIds_example =
    find_by_id-SameIds is_object brief mixed
      (succeeded (pos 0) (some (codes "a")) (decided_brief deny []) ∷ []) [] failed_b batch
      (codes "b") refl validate_authorize_response_iff_example.1 validate_batch_iff_example.1 refl

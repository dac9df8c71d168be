-- ===== src/Response.antt =====
-- response_types.go: authorization responses, their validation, and their lookup by ID.
pub mod Consistent
pub mod Correlated
pub mod Find
use treetop_client_go.Base.{
  Bool, Bytes, List, Option, [], bytes_eq, false, if◌then◌else◌, is_empty, length, none, not, some,
  true, ℕ, ◌+◌, ◌-◌, ◌==◌, ◌||◌, ◌∷◌,
}
use treetop_client_go.Base.Int.{eq_ℤ, negsuc, pos, ℤ}
use treetop_client_go.Errors.{
  Check, Result, err, invalid, invalid_response, lit, nil, num, ok, panic, pass, quoted, refuse_if,
  text, validation, ◌>>=◌, ◌>>◌,
}
use treetop_client_go.Batch.{AuthRequest, batch_runs, request_id}
use treetop_client_go.Decision.{
  AnyDecision, PolicyVersion, decision_runs, is_zero, labels_equal, result_message,
  validate_decision,
}

pub data BatchStatus : Type 0 where
  success failed : BatchStatus
  other_status : Bytes → BatchStatus

pub record BatchResult (T : Type 0) : Type 0 where
  pub status : BatchStatus
  pub result : Option T
  pub error : Bytes

pub record IndexedResult (T : Type 0) : Type 0 where
  pub index : ℤ
  pub id : Option Bytes
  pub batch : BatchResult T

pub record AuthorizeResponse (T : Type 0) : Type 0 where
  pub results : List (IndexedResult T)
  pub version : PolicyVersion
  pub successful : ℤ
  pub failed : ℤ

-- `is_object` is the parameter of `validate_decision`, and `any_of` the conversion `any(*item.Result)`.
module _ (is_object : Bytes → Bool) {T : Type 0} (any_of : T → AnyDecision) where
  check_success : Option T → Bytes → PolicyVersion → ℤ → Check
  check_success none error version index =
      err (result_message index (text " has an invalid success payload"))
  check_success (some t) error version index = do
    refuse_if (not (is_empty error)) (result_message index (text " has an invalid success payload"))
    validate_decision is_object (any_of t) version index

  check_failure : Option T → ℤ → Check
  check_failure none index = pass
  check_failure (some t) index = err (result_message index (text " has an invalid failure payload"))

  -- The `switch` on the status: the number of successes, with this item.
  check_status : BatchStatus → BatchResult T → PolicyVersion → ℤ → ℕ → Result ℕ
  check_status success r version index successes =
      check_success r.result r.error version index >> ok (successes + 1)
  check_status failed r version index successes = check_failure r.result index >> ok successes
  check_status (other_status s) r version index successes =
      err (result_message index (lit " has unknown status " ∷ quoted s ∷ []))

  -- The loop over the results.
  results_loop : PolicyVersion → ℕ → List (IndexedResult T) → ℕ → Result ℕ
  results_loop version position [] successes = ok successes
  results_loop version position (r ∷ rs) successes = do
    refuse_if (not (eq_ℤ r.index (pos position))) (
        invalid_response (
          lit "result at position "
          ∷ num (pos position)
          ∷ lit " reports index "
          ∷ num r.index
          ∷ []))
    successes' ← check_status r.batch.status r.batch version r.index successes
    results_loop version (position + 1) rs successes'

  check_counts : AuthorizeResponse T → ℕ → Check
  check_counts r successes =
      refuse_if
        (not (eq_ℤ r.successful (pos successes))
          || not (eq_ℤ r.failed (pos (length r.results - successes))))
        (invalid_response (
          lit "declared "
          ∷ num r.successful
          ∷ lit " successful and "
          ∷ num r.failed
          ∷ lit " failed, observed "
          ∷ num (pos successes)
          ∷ lit " successful and "
          ∷ num (pos (length r.results - successes))
          ∷ lit " failed"
          ∷ []))

  -- `validateAuthorizeResponseStructure`; `none` is a nil response.
  pub validate_structure : Option (AuthorizeResponse T) → ℕ → Check
  validate_structure none expected =
      err (invalid_response (text "authorize returned a nil response"))
  validate_structure (some r) expected = do
    refuse_if (not (length r.results == expected)) (
        invalid_response (
          lit "authorize returned "
          ∷ num (pos (length r.results))
          ∷ lit " results for "
          ∷ num (pos expected)
          ∷ lit " requests"
          ∷ []))
    refuse_if (is_empty r.version.hash || is_zero r.version.loaded_at)
        (invalid_response (text "authorize response is missing its policy version"))
    successes ← results_loop r.version 0 r.results 0
    check_counts r successes

  -- `AuthorizeResponse.Validate`
  pub validate_response : Option (AuthorizeResponse T) → ℤ → Check
  validate_response r (pos expected) = validate_structure r expected
  validate_response r (negsuc n) = err (
      validation (record {
        field = text "expected results";
        rule = text "must not be negative";
        value = num (negsuc n) ∷ [];
      }))

  -- The ID that an item must carry: none where none was sent, the one that was sent otherwise.
  unexpected_id : Option Bytes → Option Bytes → Bool
  unexpected_id none none = false
  unexpected_id none (some id) = true
  unexpected_id (some expected) none = true
  unexpected_id (some expected) (some id) = not (bytes_eq id expected)

  -- The second loop, over `request.requests[position]` beside the results.
  pub ids_loop : List (IndexedResult T) → List AuthRequest → Check
  ids_loop [] requests = pass
  ids_loop (r ∷ rs) [] = err panic
  ids_loop (r ∷ rs) (q ∷ qs) = do
    refuse_if (unexpected_id (request_id q) r.id)
        (result_message r.index (text " has an unexpected request ID"))
    ids_loop rs qs

  -- `validateAuthorizeResponse`
  pub validate_authorize_response : AuthorizeResponse T → List AuthRequest → Check
  validate_authorize_response r requests = do
    validate_structure (some r) (length requests)
    ids_loop r.results requests

  -- `AuthorizeResponse.FindByID`, the loop
  find_loop : List (IndexedResult T) → Bytes → Option (IndexedResult T)
  find_loop [] id = none
  find_loop (r ∷ rs) id = if labels_equal r.id (some id) then some r else find_loop rs id

  pub find_by_id : Option (AuthorizeResponse T) → Bytes → Option (IndexedResult T)
  find_by_id none id = none
  find_by_id (some r) id = find_loop r.results id

-- The definitions of this file, for a test by evaluation.
unfoldable pub response_runs : Unit {0}
unfolding batch_runs decision_runs check_success check_failure check_status results_loop
    check_counts validate_structure validate_response unexpected_id ids_loop
    validate_authorize_response find_loop find_by_id
response_runs = tt

-- ===== src/Response/Correlated.antt =====
-- Responses against the requests that they answer.
use treetop_client_go.Base.{
  Bool, Bytes, List, Option, [], arith, bytes_eq_iff, false, length, none, refl, some, ◌↔◌, ◌∷◌,
  ◌≡◌, ◌≢◌,
}
use treetop_client_go.Errors.{
  >>_iff_×, err, iff_trans, panic, pass, refuse_if_iff, refuse_if_ne, ×_iff,
}
use treetop_client_go.Batch.{AuthRequest, request_id}
use treetop_client_go.Decision.{AnyDecision, result_message}
use treetop_client_go.Response.{
  AuthorizeResponse, IndexedResult, ids_loop, unexpected_id, validate_authorize_response,
}
use treetop_client_go.Response.Consistent.{IsConsistent, validate_structure_iff}

module _ (is_object : Bytes → Bool) {T : Type 0} (any_of : T → AnyDecision) where
  -- Item by item, the ID that was sent, or none where none was sent.
  abbrev pub SameIds : List (IndexedResult T) → List AuthRequest → Type 0
  SameIds [] requests = Unit
  SameIds (r ∷ rs) [] = ⊥
  SameIds (r ∷ rs) (q ∷ qs) = (r.id ≡ request_id q) × SameIds rs qs

  unexpected_id_iff :
      (expected given : Option Bytes)
      → (unexpected_id is_object any_of expected given ≡ false) ↔ (given ≡ expected)
  unfolding unexpected_id
  unexpected_id_iff none none = ground arith
  unexpected_id_iff none (some id) = ground arith
  unexpected_id_iff (some expected) none = ground arith
  unexpected_id_iff (some expected) (some id) = ground (arith, bytes_eq_iff id expected)

  ids_loop_iff :
      (rs : List (IndexedResult T)) (qs : List AuthRequest)
      → (ids_loop is_object any_of rs qs ≡ pass) ↔ SameIds rs qs
  unfolding ids_loop
  ids_loop_iff [] qs = (λ _. tt, λ _. refl)
  ids_loop_iff (r ∷ rs) [] = (λ h. cc, λ h. absurd h)
  ids_loop_iff (r ∷ rs) (q ∷ qs) =
      iff_trans (refuse_if_iff _ _ _)
        (×_iff (unexpected_id_iff (request_id q) r.id) (ids_loop_iff rs qs))

  -- The loop over the IDs never runs past the requests when there are as many as results.
  pub ids_loop-ne-panic :
      (rs : List (IndexedResult T)) (qs : List AuthRequest)
      → length rs ≡ length qs
      → ids_loop is_object any_of rs qs ≢ err panic
  unfolding ids_loop result_message
  ids_loop-ne-panic [] qs e = λ h. cc
  ids_loop-ne-panic (r ∷ rs) [] e = absurd (omega arith)
  ids_loop-ne-panic (r ∷ rs) (q ∷ qs) e =
      refuse_if_ne _ _ (λ h. cc) (ids_loop-ne-panic rs qs (omega arith))

-- A response is accepted for a batch exactly when it is consistent, has one result for each item, and
-- carries at each position the ID of the item, or none where the item has none.
pub validate_authorize_response_iff :
    (is_object : Bytes → Bool) {T : Type 0} (any_of : T → AnyDecision) (r : AuthorizeResponse T)
    (requests : List AuthRequest)
    → (validate_authorize_response is_object any_of r requests ≡ pass) ↔ (
        IsConsistent is_object any_of r (length requests)
        × SameIds is_object any_of r.results requests)
unfolding validate_authorize_response
validate_authorize_response_iff is_object any_of r requests =
    >>_iff_× (validate_structure_iff is_object any_of r (length requests))
      (ids_loop_iff is_object any_of r.results requests)

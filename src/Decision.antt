-- ===== src/Decision.antt =====
-- response_types.go: policy versions, decisions and their validation.
pub mod Fits
use treetop_client_go.Base.{
  Bool, Bytes, List, Option, String, [], bytes_eq, false, is_empty, none, not, some, true, ℕ, ◌&&◌,
  ◌+◌, ◌==◌, ◌||◌, ◌∷◌,
}
use treetop_client_go.Base.Int.{eq_ℤ, pos, ℤ}
use treetop_client_go.Errors.{
  Check, Err, Message, err, invalid_response, lit, num, pass, quoted, refuse_if, text, ◌>>=◌, ◌>>◌,
}

-- A `time.Time` by the instant that it denotes, counted from the zero time; `Equal` compares instants.
abbrev pub Time : Type 0
Time = ℤ

abbrev pub is_zero : Time → Bool
is_zero t = eq_ℤ t (pos 0)

-- `nil` and pointers to equal strings are equal.
pub labels_equal : Option Bytes → Option Bytes → Bool
labels_equal none none = true
labels_equal (some a) (some b) = bytes_eq a b
labels_equal _ _ = false

pub record PolicyVersion : Type 0 where
  pub hash : Bytes
  pub loaded_at : Time
  pub label_set : Option Bytes
  pub generation : ℕ

-- `PolicyVersion.equal`
pub version_equal : PolicyVersion → PolicyVersion → Bool
version_equal v w =
    bytes_eq v.hash w.hash
    && eq_ℤ v.loaded_at w.loaded_at
    && labels_equal v.label_set w.label_set
    && v.generation == w.generation

-- The strings "Allow" and "Deny", and any other.
pub data Decision : Type 0 where
  allow deny : Decision
  other_decision : Bytes → Decision

pub record PermitPolicy : Type 0 where
  pub literal : Bytes
  pub json : Bytes
  pub annotation_id : Option Bytes
  pub cedar_id : Bytes

pub record AuthorizeDecisionBrief : Type 0 where
  pub decision : Decision
  pub version : PolicyVersion
  pub policy_id : Bytes

pub record AuthorizeDecisionDetailed : Type 0 where
  pub policies : List PermitPolicy
  pub decision : Decision
  pub version : PolicyVersion

-- A value of type `any`, as the type switch of `validateDecision` sees it.
pub data AnyDecision : Type 0 where
  brief : AuthorizeDecisionBrief → AnyDecision
  detailed : AuthorizeDecisionDetailed → AnyDecision
  unsupported : AnyDecision

unfoldable pub result_message : ℤ → Message → Err
result_message index rest = invalid_response (lit "result index " ∷ num index ∷ rest)

-- `decisionMismatch` and `versionMismatch`
decision_mismatch : ℤ → Message → Err
decision_mismatch index message = result_message index (lit " is inconsistent: " ∷ message)

version_mismatch : ℤ → Err
version_mismatch index =
    result_message index (text " reports a different policy version than the batch")

-- The inner `switch` on the decision; `unmatched` tells whether no policy matched.
check_outcome : ℤ → Decision → Bool → String → String → Check
check_outcome index allow unmatched no_match a_match =
    refuse_if unmatched (decision_mismatch index (text no_match))
check_outcome index deny unmatched no_match a_match =
    refuse_if (not unmatched) (decision_mismatch index (text a_match))
check_outcome index (other_decision s) unmatched no_match a_match =
    err (decision_mismatch index (lit "unknown decision " ∷ quoted s ∷ []))

-- `is_object` tells whether `json.Unmarshal` decodes a text into a non-nil map.
module _ (is_object : Bytes → Bool) where
  -- `PermitPolicy.validateResponse`
  validate_policy : PermitPolicy → ℕ → Check
  validate_policy p index =
      refuse_if (is_empty p.literal || is_empty p.cedar_id || not (is_object p.json))
        (invalid_response (lit "matching policy " ∷ num (pos index) ∷ lit " is incomplete" ∷ []))

  validate_policies : List PermitPolicy → ℕ → Check
  validate_policies [] index = pass
  validate_policies (p ∷ ps) index = validate_policy p index >> validate_policies ps (index + 1)

  pub validate_decision : AnyDecision → PolicyVersion → ℤ → Check
  validate_decision (brief d) batch_version index = do
    refuse_if (not (version_equal d.version batch_version)) (version_mismatch index)
    check_outcome index d.decision (is_empty d.policy_id) "Allow decision has no matching policy ID"
        "Deny decision contains matching policy IDs"
  validate_decision (detailed d) batch_version index = do
    refuse_if (not (version_equal d.version batch_version)) (version_mismatch index)
    validate_policies d.policies 0
    check_outcome index d.decision (is_empty d.policies) "Allow decision has no matching policies"
        "Deny decision contains matching policies"
  validate_decision unsupported batch_version index =
      err (result_message index (text " has an unsupported decision type"))

-- The definitions of this file, for a test by evaluation.
unfoldable pub decision_runs : Unit {0}
unfolding labels_equal version_equal result_message decision_mismatch version_mismatch check_outcome
    validate_policy validate_policies validate_decision
decision_runs = tt

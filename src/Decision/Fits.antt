-- ===== src/Decision/Fits.antt =====
-- Which decisions `validateDecision` accepts.
use treetop_client_go.Base.{
  ==_iff, All, Bool, Bytes, List, Option, String, [], arith, bytes_eq_iff, false, is_empty, none,
  not, refl, some, true, ℕ, ◌+◌, ◌↔◌, ◌∷◌, ◌≡◌,
}
use treetop_client_go.Base.Int.{eq_ℤ, negsuc, pos, ℤ}
use treetop_client_go.Errors.{>>_iff_×, >>_iff_×₃, Err, pass, refuse_if}
use treetop_client_go.Decision.{
  AnyDecision, Decision, PermitPolicy, PolicyVersion, allow, brief, check_outcome, deny, detailed,
  labels_equal, other_decision, unsupported, validate_decision, validate_policies, validate_policy,
  version_equal,
}

pub labels_equal_iff : (a b : Option Bytes) → (labels_equal a b ≡ true) ↔ (a ≡ b)
unfolding labels_equal
labels_equal_iff none none = ground arith
labels_equal_iff (some a) (some b) = ground (arith, bytes_eq_iff a b)
labels_equal_iff none (some b) = ground arith
labels_equal_iff (some a) none = ground arith

pub eq_ℤ_iff : (a b : ℤ) → (eq_ℤ a b ≡ true) ↔ (a ≡ b)
eq_ℤ_iff (pos m) (pos n) = ground arith
eq_ℤ_iff (pos m) (negsuc n) = ground arith
eq_ℤ_iff (negsuc m) (pos n) = ground arith
eq_ℤ_iff (negsuc m) (negsuc n) = ground arith

-- `PolicyVersion.equal` compares every field: hash, instant, label set and generation.
pub version_equal_iff : (v w : PolicyVersion) → (version_equal v w ≡ true) ↔ (v ≡ w)
unfolding version_equal
version_equal_iff v w = ground (
  arith,
  bytes_eq_iff v.hash w.hash,
  eq_ℤ_iff v.loaded_at w.loaded_at,
  labels_equal_iff v.label_set w.label_set,
  ==_iff v.generation w.generation,
)

-- Allow with a match, or Deny without one.
abbrev pub IsDecided : Decision → Bool → Type 0
IsDecided allow unmatched = unmatched ≡ false
IsDecided deny unmatched = unmatched ≡ true
IsDecided (other_decision s) unmatched = ⊥

check_outcome_iff :
    (index : ℤ) (d : Decision) (unmatched : Bool) (no_match a_match : String)
    → (check_outcome index d unmatched no_match a_match ≡ pass) ↔ IsDecided d unmatched
unfolding check_outcome
check_outcome_iff index allow unmatched no_match a_match = ground arith
check_outcome_iff index deny unmatched no_match a_match = ground arith
check_outcome_iff index (other_decision s) unmatched no_match a_match = ground arith

module _ (is_object : Bytes → Bool) where
  abbrev pub IsComplete : PermitPolicy → Type 0
  IsComplete p =
      (is_empty p.literal ≡ false) × (is_empty p.cedar_id ≡ false) × (is_object p.json ≡ true)

  validate_policy_iff :
      (p : PermitPolicy) (i : ℕ) → (validate_policy is_object p i ≡ pass) ↔ IsComplete p
  unfolding validate_policy
  validate_policy_iff p i = ground arith

  validate_policies_iff :
      (ps : List PermitPolicy) (i : ℕ)
      → (validate_policies is_object ps i ≡ pass) ↔ All IsComplete ps
  unfolding validate_policies
  validate_policies_iff [] i = (λ _. tt, λ _. refl)
  validate_policies_iff (p ∷ ps) i =
      >>_iff_× (validate_policy_iff p i) (validate_policies_iff ps (i + 1))

  -- A decision that agrees with itself and with the version of its batch.
  abbrev pub DecisionFits : PolicyVersion → AnyDecision → Type 0
  DecisionFits version (brief d) =
      (d.version ≡ version) × IsDecided d.decision (is_empty d.policy_id)
  DecisionFits version (detailed d) =
      (d.version ≡ version) × All IsComplete d.policies × IsDecided d.decision (is_empty d.policies)
  DecisionFits version unsupported = ⊥

  version_iff :
      (v w : PolicyVersion) (e : Err) → (refuse_if (not (version_equal v w)) e ≡ pass) ↔ (v ≡ w)
  version_iff v w e = ground (arith, version_equal_iff v w)

  -- `validateDecision` accepts exactly the decisions, brief or detailed, that carry the policy version
  -- of the batch, whose listed policies are complete, and that are Allow with a matching policy or Deny
  -- without one; no other decision type is accepted.
  pub validate_decision_iff :
      (d : AnyDecision) (version : PolicyVersion) (index : ℤ)
      → (validate_decision is_object d version index ≡ pass) ↔ DecisionFits version d
  unfolding validate_decision
  validate_decision_iff (brief d) version index =
      >>_iff_× (version_iff d.version version _) (check_outcome_iff index d.decision _ _ _)
  validate_decision_iff (detailed d) version index =
      >>_iff_×₃ (version_iff d.version version _) (validate_policies_iff d.policies 0)
        (check_outcome_iff index d.decision _ _ _)
  validate_decision_iff unsupported version index = (λ h. cc, λ h. absurd h)

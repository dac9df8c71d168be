-- ===== src/Server/Status/Valid.antt =====
-- What is decoded as a status document is coherent.
use treetop_client_go.Base.{Bool, Bytes, Option, arith, false, none, refl, some, true, ◌↔◌, ◌≡◌}
use treetop_client_go.Base.Int.{pos, ◌≤ℤ◌}
use treetop_client_go.Errors.{>>_iff_×₃, pass}
use treetop_client_go.Limits.{RequestLimits, bad_limits}
use treetop_client_go.Server.Metadata.Valid.{IsPoliciesMetadata, validate_policies_metadata_iff}
use treetop_client_go.Server.Status.{
  RequestContextStatus, StatusResponse, is_set, validate_context_status, validate_server_limits,
  validate_status,
}

-- Contexts are not evaluated, or by a schema, or without one for a reason that is given.
abbrev pub IsCapability : Bool → Bool → Option Bytes → Type 0
IsCapability false false none = Unit
IsCapability true true none = Unit
IsCapability true false (some reason) = Unit
IsCapability _ _ _ = ⊥

abbrev pub IsContextStatus : RequestContextStatus → Type 0
IsContextStatus s = IsCapability s.supported s.schema_backed s.fallback_reason

validate_context_cases :
    (a b : Bool) (o : Option Bytes)
    → (validate_context_status (record { supported = a; schema_backed = b; fallback_reason = o })
        ≡ pass)
      ↔ IsCapability a b o
unfolding validate_context_status is_set
validate_context_cases true true none = (λ _. tt, λ _. refl)
validate_context_cases true true (some s) = (λ e. cc, λ h. absurd h)
validate_context_cases true false none = (λ e. cc, λ h. absurd h)
validate_context_cases true false (some s) = (λ _. tt, λ _. refl)
validate_context_cases false true none = (λ e. cc, λ h. absurd h)
validate_context_cases false true (some s) = (λ e. cc, λ h. absurd h)
validate_context_cases false false none = (λ _. tt, λ _. refl)
validate_context_cases false false (some s) = (λ e. cc, λ h. absurd h)

-- `RequestContextStatus.validateResponse` accepts exactly three kinds of status.
pub validate_context_status_iff :
    (s : RequestContextStatus) → (validate_context_status s ≡ pass) ↔ IsContextStatus s
validate_context_status_iff s = validate_context_cases s.supported s.schema_backed s.fallback_reason

abbrev pub IsLimits : RequestLimits → Type 0
IsLimits l =
    (pos 0 ≤ℤ l.max_batch_size)
    × (pos 1 ≤ℤ l.max_context_bytes)
    × (pos 1 ≤ℤ l.max_context_depth)
    × (pos 1 ≤ℤ l.max_context_keys)

pub validate_server_limits_iff :
    (l : RequestLimits) → (validate_server_limits l ≡ pass) ↔ IsLimits l
unfolding validate_server_limits bad_limits
validate_server_limits_iff l = ground arith

abbrev pub IsStatus : StatusResponse → Type 0
IsStatus s =
    IsPoliciesMetadata s.policy_configuration
    × IsLimits s.request_limits
    × IsContextStatus s.request_context

pub validate_status_iff : (s : StatusResponse) → (validate_status s ≡ pass) ↔ IsStatus s
unfolding validate_status
validate_status_iff s =
    >>_iff_×₃ (validate_policies_metadata_iff s.policy_configuration)
      (validate_server_limits_iff s.request_limits) (validate_context_status_iff s.request_context)

-- ===== src/Server/Policies.antt =====
-- The policies of a user.
use treetop_client_go.Server.{bad_response, server_runs, validated}
pub mod Valid
use treetop_client_go.Base.{
  Bool, Bytes, List, Option, String, [], codes, false, is_empty, length, none, not, some, true, ℕ,
  ◌+◌, ◌==◌, ◌||◌, ◌∷◌,
}
use treetop_client_go.Base.Int.{pos}
use treetop_client_go.Errors.{
  Check, Err, Result, err, invalid_response, lit, num, ok, panic, pass, refuse_if, ◌>>=◌, ◌>>◌,
}
use treetop_client_go.Json.{Json, null, object, read_string}
use treetop_client_go.Json.Fields.{
  each_field, keep, members_of, plain_field, pointer_field, read_array, required,
}

pub record PolicyMatch : Type 0 where
  pub cedar_id : Bytes
  pub reasons : List Bytes

-- A `json.RawMessage` is the value that it is the text of; a slice is `none` for nil.
pub record UserPolicies : Type 0 where
  pub user : Bytes
  pub policies : Option (List Json)
  pub matches : Option (List PolicyMatch)

-- `json.Unmarshal(policy, &object) == nil && object != nil`
pub is_json_object : Json → Bool
is_json_object (object ms) = true
is_json_object _ = false

policy_message : String → ℕ → String → Err
policy_message start i rest = invalid_response (lit start ∷ num (pos i) ∷ lit rest ∷ [])

-- The loop, at position `i`, over policies and `u.Matches[i]`.
policies_loop : ℕ → List Json → List PolicyMatch → Check
policies_loop i [] matches = pass
policies_loop i (p ∷ ps) [] = do
  refuse_if (not (is_json_object p)) (policy_message "user policy " i " is not a JSON object")
  err panic
policies_loop i (p ∷ ps) (m ∷ ms) = do
  refuse_if (not (is_json_object p)) (policy_message "user policy " i " is not a JSON object")
  refuse_if (is_empty m.cedar_id || is_empty m.reasons)
      (policy_message "user policy match " i " is incomplete")
  policies_loop (i + 1) ps ms

abbrev inconsistent : Err
inconsistent = bad_response "user-policy response is inconsistent"

check_policies : Option (List Json) → Option (List PolicyMatch) → Check
check_policies (some ps) (some ms) = do
  refuse_if (not (length ps == length ms)) inconsistent
  policies_loop 0 ps ms
check_policies _ _ = err inconsistent

-- `UserPolicies.validateResponse`; `none` is a nil pointer.
pub validate_user_policies : Option UserPolicies → Check
validate_user_policies none = err inconsistent
validate_user_policies (some u) =
    refuse_if (is_empty u.user) inconsistent >> check_policies u.policies u.matches

read_reason : Json → Result Bytes
read_reason v = keep read_string v []

reasons_of : Json → List Bytes → Result (List Bytes)
reasons_of null reasons = ok []
reasons_of v reasons = read_array read_reason v

-- A `PolicyMatch`, by its tags.
match_from_json : Json → Result PolicyMatch
match_from_json v = do
  ms ← members_of v
  cedar_id ← plain_field (codes "cedar_id") read_string [] ms
  reasons ← each_field (codes "reasons") reasons_of ms []
  ok (record { cedar_id = cedar_id; reasons = reasons })

-- The fields, if all that are required are there.
pub user_policies_fields : Json → Result UserPolicies
user_policies_fields v = do
  ms ← members_of v
  user ← pointer_field (codes "user") read_string ms
  policies ← pointer_field (codes "policies") (read_array (λ j. ok j)) ms
  found ← pointer_field (codes "matches") (read_array match_from_json) ms
  let missing : Err = bad_response "user-policy response is missing required fields"
  user' ← required missing user
  policies' ← required missing policies
  matches' ← required missing found
  let u : UserPolicies = record { user = user'; policies = some policies'; matches = some matches' }
  ok u

-- `UserPolicies.UnmarshalJSON`
unfoldable pub user_policies_from_json : Json → Result UserPolicies
user_policies_from_json v =
    user_policies_fields v >>= validated (λ u. validate_user_policies (some u))

-- The definitions of this file, for a test by evaluation.
unfoldable pub policies_run : Unit {0}
unfolding server_runs is_json_object policy_message policies_loop check_policies
    validate_user_policies read_reason reasons_of match_from_json user_policies_fields
    user_policies_from_json
policies_run = tt

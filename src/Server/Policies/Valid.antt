-- ===== src/Server/Policies/Valid.antt =====
-- What the check of a user's policies accepts.
use treetop_client_go.Errors.{>>_iff_×, pass, refuse_iff}
use treetop_client_go.Base.{
  Bool-cases, List, Option, [], ap, arith, false, inl, inr, is_empty, length, none, refl, some, suc,
  true, ℕ, ◌+◌, ◌==◌, ◌↔◌, ◌∷◌, ◌≡◌,
}
use treetop_client_go.Json.{Json}
use treetop_client_go.Server.Policies.{
  PolicyMatch, UserPolicies, check_policies, inconsistent, is_json_object, policies_loop,
  validate_user_policies,
}

-- Each policy is an object, with a match beside it that has an ID and a reason.
abbrev pub AllMatched : List Json → List PolicyMatch → Type 0
AllMatched [] [] = Unit
AllMatched (p ∷ ps) (m ∷ ms) =
    ((is_json_object p ≡ true) × (is_empty m.cedar_id ≡ false) × (is_empty m.reasons ≡ false))
    × AllMatched ps ms
AllMatched _ _ = ⊥

loop_iff :
    (i : ℕ) (ps : List Json) (ms : List PolicyMatch)
    → length ps ≡ length ms
    → (policies_loop i ps ms ≡ pass) ↔ AllMatched ps ms
unfolding policies_loop
loop_iff i [] [] e = (λ _. tt, λ _. refl)
loop_iff i [] (m ∷ ms) e = absurd (omega arith)
loop_iff i (p ∷ ps) [] e = absurd (omega arith)
loop_iff i (p ∷ ps) (m ∷ ms) e =
    let rest = loop_iff (i + 1) ps ms (omega arith) in ground (arith, rest)

AllMatched-length :
    (ps : List Json) (ms : List PolicyMatch) → AllMatched ps ms → length ps ≡ length ms
AllMatched-length [] [] h = refl
AllMatched-length [] (m ∷ ms) h = absurd h
AllMatched-length (p ∷ ps) [] h = absurd h
AllMatched-length (p ∷ ps) (m ∷ ms) (_, h) = ap suc (AllMatched-length ps ms h)

abbrev pub IsMatched : Option (List Json) → Option (List PolicyMatch) → Type 0
IsMatched (some ps) (some ms) = AllMatched ps ms
IsMatched _ _ = ⊥

matched_iff :
    (ps : List Json) (ms : List PolicyMatch)
    → (check_policies (some ps) (some ms) ≡ pass) ↔ AllMatched ps ms
unfolding check_policies
matched_iff ps ms = elim (Bool-cases (length ps == length ms)) [
  | inl e ↦ let rest = loop_iff 0 ps ms (ground arith) in rw e rest
  | inr n ↦ rw n (λ e. cc, λ h. absurd (differ (AllMatched-length ps ms h) n))
]
  where
    differ : length ps ≡ length ms → (length ps == length ms) ≡ false → ⊥
    differ e n = ground arith

given_iff :
    (o : Option (List Json)) (u : Option (List PolicyMatch))
    → (check_policies o u ≡ pass) ↔ IsMatched o u
unfolding check_policies
given_iff (some ps) (some ms) = matched_iff ps ms
given_iff none u = (λ e. cc, λ h. absurd h)
given_iff (some ps) none = (λ e. cc, λ h. absurd h)

abbrev pub IsUserPolicies : UserPolicies → Type 0
IsUserPolicies u = (is_empty u.user ≡ false) × IsMatched u.policies u.matches

-- `UserPolicies.validateResponse` accepts exactly the documents of a named user in which every policy
-- is an object with its own match; it never reads past the end of the matches.
pub validate_user_policies_iff :
    (u : UserPolicies) → (validate_user_policies (some u) ≡ pass) ↔ IsUserPolicies u
unfolding validate_user_policies
validate_user_policies_iff u =
    >>_iff_× (refuse_iff (is_empty u.user) inconsistent) (given_iff u.policies u.matches)

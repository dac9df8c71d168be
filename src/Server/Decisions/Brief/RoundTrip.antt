-- ===== src/Server/Decisions/Brief/RoundTrip.antt =====
-- A brief decision is decoded from the JSON that is written of it.
use treetop_client_go.Base.{
  Bytes, Option, [], bytes_eq, codes, false, none, refl, some, true, ◌∷◌, ◌≡◌, ◌≢◌,
}
use treetop_client_go.Json.Fields.{
  each_field, matches, members_of, over_pointer, pointer_field, required, struct_field,
}
use treetop_client_go.Json.{
  Json, array, boolean, other_number, string, null, object, object_of, read_pointer, read_string,
  string_json, integer,
}
use treetop_client_go.Text.Runes.{runes}
use treetop_client_go.Text.Runes.Utf8.{coerced-valid, utf8_runs, valid_utf8}
use treetop_client_go.Errors.{Result, ok, ◌>>=◌}
use treetop_client_go.Server.{Formats}
use treetop_client_go.Server.Versions.{no_version, version_wire_from_json}
use treetop_client_go.Server.Versions.Written.{
  IsWritableVersion, policy_version_json_lem, version_of-wire_of,
}
use treetop_client_go.Decision.{AuthorizeDecisionBrief, Decision, Time, allow, deny, other_decision}
use treetop_client_go.Server.Decisions.{brief_from_json, decision_of, read_decision}
use treetop_client_go.Server.Decisions.Brief.{brief_json, decision_text}

-- A decision that is not spelled as another one.
abbrev pub IsSpelled : Decision → Type 0
IsSpelled allow = Unit
IsSpelled deny = Unit
IsSpelled (other_decision s) =
    (valid_utf8 s ≡ true)
    × (bytes_eq s (codes "Allow") ≡ false)
    × (bytes_eq s (codes "Deny") ≡ false)

decision_lem : (d : Decision) → IsSpelled d → read_decision (string_json (decision_text d)) ≡ ok d
unfolding read_decision decision_text decision_of read_string string_json utf8_runs bytes_eq
decision_lem allow h = refl
decision_lem deny h = refl
decision_lem (other_decision s) (v, a, d) = unfold utf8_runs in rw (coerced-valid s v, a, d) refl

decision_pointer_lem :
    (d : Decision)
    → IsSpelled d
    → read_pointer read_decision (string_json (decision_text d)) ≡ ok (some d)
unfolding read_pointer string_json
decision_pointer_lem d h = unfold string_json in rw (decision_lem d h) refl

text_pointer_lem :
    (s : Bytes) → valid_utf8 s ≡ true → read_pointer read_string (string_json s) ≡ ok (some s)
unfolding read_pointer string_json read_string
text_pointer_lem s h = rw (coerced-valid s h) refl

-- A pointer to a struct that is not there yet, from a value that is not null.
over_pointer_lem :
    {A : Type 0} (step : Json → A → Result A) (unset : A) (j : Json)
    → j ≢ null
    → over_pointer step unset j none ≡ (step j unset >>= λ a. ok (some a))
unfolding over_pointer
over_pointer_lem step unset null n = absurd (n refl)
over_pointer_lem step unset (boolean b) n = refl
over_pointer_lem step unset (integer s m) n = refl
over_pointer_lem step unset (other_number s) n = refl
over_pointer_lem step unset (string s) n = refl
over_pointer_lem step unset (array vs) n = refl
over_pointer_lem step unset (object ms) n = refl

abbrev pub IsWritableBrief : Formats → (Time → Option Bytes) → AuthorizeDecisionBrief → Type 0
IsWritableBrief formats write_time d =
    IsSpelled d.decision
    × IsWritableVersion formats write_time d.version
    × (valid_utf8 d.policy_id ≡ true)

-- A brief decision is written, and not as null, and it is decoded from what is written. Its version
-- has a hash and a time that is read back from its text, its generation has 64 bits, and its texts are
-- UTF-8.
pub brief_from_json-brief_json :
    (formats : Formats) (write_time : Time → Option Bytes) (d : AuthorizeDecisionBrief)
    → IsWritableBrief formats write_time d
    → (j : Json) × (brief_json write_time d ≡ ok j)
      × (brief_from_json formats j ≡ ok d)
      × (j ≢ null)
unfolding brief_json brief_from_json members_of pointer_field struct_field each_field required
    matches runes utf8_runs bytes_eq object_of
brief_from_json-brief_json formats write_time d (spelled, v, u) =
    let (j, w, n, e) = policy_version_json_lem formats write_time d.version v in
    (
      object (
          object_of (
            (codes "decision", string_json (decision_text d.decision))
            ∷ (codes "version", j)
            ∷ (codes "policy_id", string_json d.policy_id)
            ∷ [])),
      rw w refl,
      rw
          (
            decision_pointer_lem d.decision spelled,
            over_pointer_lem (version_wire_from_json formats) no_version j n,
            e,
            text_pointer_lem d.policy_id u,
            version_of-wire_of d.version v.1.0 v.2,
          )
          refl,
      λ h. cc,
    )

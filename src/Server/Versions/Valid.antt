-- ===== src/Server/Versions/Valid.antt =====
-- What is decoded as a version is complete.
use treetop_client_go.Errors.{>>_iff_×₃, Message, iff_trans, pass, refuse_if, refuse_iff}
use treetop_client_go.Json.Fields.{each_field, members_of, struct_field}
use treetop_client_go.Errors.Ensures.{Ensures, check-Ensures, from-Ensures, then-Ensures}
use treetop_client_go.Server.{Formats, bad_response}
use treetop_client_go.Json.Fields.Keeps.{OnSome, each_field_keeps, struct_field_keeps}
use treetop_client_go.Base.{
  Bool, Bool-cases, Bytes, Option, arith, codes, false, inl, inr, is_empty, ltb, none, not, refl,
  some, true, ◌||◌, ◌↔◌, ◌≡◌, ◌≤◌,
}
use treetop_client_go.Decision.{PolicyVersion, Time, is_zero}
use treetop_client_go.Json.{
  Json, Members, array, boolean, integer, max_uint64, null, object, other_number, read_uint, string,
}
use treetop_client_go.Server.Versions.{
  PolicyVersionWire, SchemaVersion, VersionGeneration, VersionInfo, check_version,
  generation_from_json, generation_of, no_version, policy_version_from_json,
  validate_policy_version, validate_schema, validate_schema_version, validate_version_info,
  version_of, version_wire_from_json,
}

-- A hash, and a time that is not the zero time.
abbrev pub IsStamped : Bytes → Time → Type 0
IsStamped hash loaded_at = (is_empty hash ≡ false) × (is_zero loaded_at ≡ false)

or_false : (a b : Bool) → ((a || b) ≡ false) ↔ ((a ≡ false) × (b ≡ false))
or_false a b = ground arith

check_version_iff :
    (hash : Bytes) (t : Time) (m : Message) → (check_version hash t m ≡ pass) ↔ IsStamped hash t
unfolding check_version
check_version_iff hash t m = ground (arith, or_false (is_empty hash) (is_zero t))

abbrev pub IsVersion : PolicyVersion → Type 0
IsVersion v = IsStamped v.hash v.loaded_at × (v.generation ≤ max_uint64)

abbrev pub IsSchema : Option SchemaVersion → Type 0
IsSchema none = Unit
IsSchema (some s) = IsStamped s.hash s.loaded_at

abbrev pub IsInRange : PolicyVersionWire → Type 0
IsInRange w = w.generation.value ≤ max_uint64

-- A version that the fields in range make is complete, and came with both of the required fields.
pub version_of-IsVersion : (w : PolicyVersionWire) → IsInRange w → Ensures IsVersion (version_of w)
unfolding version_of validate_policy_version
version_of-IsVersion w g =
    check-Ensures IsVersion
      (refuse_if (not w.label_set.present || not w.generation.present)
        (bad_response "policy version requires label_set and generation"))
      _
      (λ _.
        check-Ensures IsVersion (check_version w.hash w.loaded_at _) _
          (λ c. ((check_version_iff _ _ _).0 c, g)))

generation_keeps :
    (v : Json) (g : VersionGeneration)
    → g.value ≤ max_uint64
    → Ensures (λ (g : VersionGeneration). g.value ≤ max_uint64) (generation_from_json v g)
unfolding generation_from_json generation_of read_uint
generation_keeps (integer false n) g h = elim (Bool-cases (ltb max_uint64 n)) [
  | inl t ↦ rw t tt
  | inr f ↦ rw f (ground arith)
]
generation_keeps (integer true n) g h = tt
generation_keeps null g h = tt
generation_keeps (boolean b) g h = tt
generation_keeps (other_number s) g h = tt
generation_keeps (string s) g h = tt
generation_keeps (array vs) g h = tt
generation_keeps (object ms) g h = tt

module _ (formats : Formats) where
  pub version_wire_from_json-IsInRange :
      (v : Json) (w : PolicyVersionWire)
      → IsInRange w
      → Ensures IsInRange (version_wire_from_json formats v w)
  unfolding version_wire_from_json
  version_wire_from_json-IsInRange v w h = then-Ensures IsInRange (members_of v) _ (λ ms.
      then-Ensures IsInRange (each_field (codes "hash") _ ms _) _ (λ hash.
        then-Ensures IsInRange (each_field (codes "loaded_at") _ ms _) _ (λ t.
          then-Ensures IsInRange (each_field (codes "label_set") _ ms _) _ (λ l.
            from-Ensures (λ (g : VersionGeneration). g.value ≤ max_uint64) IsInRange
              (each_field (codes "generation") _ ms _) _
              (each_field_keeps _ (codes "generation") generation_from_json ms w.generation
                generation_keeps h)
              (λ g p. p)))))

  -- Whatever is decoded as a policy version has a hash, a time, and a generation of 64 bits.
  pub policy_version_from_json-IsVersion :
      (v : Json) → Ensures IsVersion (policy_version_from_json formats v)
  unfolding policy_version_from_json
  policy_version_from_json-IsVersion v =
      from-Ensures IsInRange IsVersion (version_wire_from_json formats v no_version) version_of
        (version_wire_from_json-IsInRange v no_version (ground arith)) version_of-IsVersion

  -- The field `version` of a larger document.
  pub version_field-IsInRange :
      (name : Bytes) (ms : Members)
      → Ensures
          (OnSome IsInRange)
          (struct_field name (version_wire_from_json formats) no_version ms)
  version_field-IsInRange name ms =
      struct_field_keeps IsInRange name (version_wire_from_json formats) no_version ms
        version_wire_from_json-IsInRange (ground arith)

abbrev pub IsVersionInfo : VersionInfo → Type 0
IsVersionInfo i =
    (is_empty i.version ≡ false)
    × (is_empty i.core.version ≡ false)
    × (is_empty i.core.cedar ≡ false)
    × IsStamped i.policies.hash i.policies.loaded_at
    × IsSchema i.schema

validate_schema_iff : (s : Option SchemaVersion) → (validate_schema s ≡ pass) ↔ IsSchema s
unfolding validate_schema validate_schema_version
validate_schema_iff none = (λ _. tt, λ _. refl)
validate_schema_iff (some s) = check_version_iff s.hash s.loaded_at _

-- `VersionInfo.validateResponse` accepts exactly the complete documents.
pub validate_version_info_iff :
    (i : VersionInfo) → (validate_version_info i ≡ pass) ↔ IsVersionInfo i
unfolding validate_version_info validate_policy_version
validate_version_info_iff i =
    iff_trans
      (>>_iff_×₃
        (iff_trans (refuse_iff _ _)
          (or_false₃ (is_empty i.version) (is_empty i.core.version) (is_empty i.core.cedar)))
        (check_version_iff i.policies.hash i.policies.loaded_at _) (validate_schema_iff i.schema))
      (λ w. (w.0.0, w.0.1, w.0.2, w.1, w.2), λ w. ((w.0, w.1, w.2), w.3, w.4))
  where
    or_false₃ : (a b c : Bool) → ((a || b || c) ≡ false) ↔ ((a ≡ false) × (b ≡ false) × (c ≡ false))
    or_false₃ a b c = ground arith

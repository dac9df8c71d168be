-- ===== src/Server/Versions/Written.antt =====
-- What package json writes of a policy version, by the tags of its fields, and how it is read back.
-- `write_time` is the text that `time.Time` gives, if it gives one.
use treetop_client_go.Base.{
  Bytes, Option, [], arith, bytes_eq, codes, false, is_empty, none, refl, some, true, ℕ, ◌∷◌, ◌≡◌,
  ◌≢◌, ◌≤◌,
}
use treetop_client_go.Decision.{PolicyVersion, Time, is_zero}
use treetop_client_go.Errors.{Result, err, external, ok, text, ◌>>=◌}
use treetop_client_go.Json.{
  Json, integer, max_uint64, null, object, object_of, read_pointer, read_string, read_uint, string,
  string_json,
}
use treetop_client_go.Json.Fields.{each_field, keep, matches, members_of}
use treetop_client_go.Json.Fields.Keeps.{OnSome}
use treetop_client_go.Text.Runes.{runes}
use treetop_client_go.Text.Runes.Utf8.{coerced-valid, utf8_runs, valid_utf8}
use treetop_client_go.Server.{Formats, read_time, time_of}
use treetop_client_go.Server.Versions.{
  PolicyVersionWire, check_version, generation_from_json, generation_of, label_set_from_json,
  no_version, validate_policy_version, version_of, version_wire_from_json,
}

label_json : Option Bytes → Json
label_json none = null
label_json (some s) = string_json s

module _ (write_time : Time → Option Bytes) where
  time_json : Option Bytes → Result Json
  time_json none = err (external (text "json: error calling MarshalJSON for type time.Time"))
  time_json (some s) = ok (string s)

  pub policy_version_json : PolicyVersion → Result Json
  policy_version_json v = do
    loaded_at ← time_json (write_time v.loaded_at)
    ok (
        object (
          object_of (
            (codes "hash", string_json v.hash)
            ∷ (codes "loaded_at", loaded_at)
            ∷ (codes "label_set", label_json v.label_set)
            ∷ (codes "generation", integer false v.generation)
            ∷ [])))

-- A version with a hash and a time that is read back from what is written of it, with UTF-8 texts.
abbrev pub IsWritableVersion : Formats → (Time → Option Bytes) → PolicyVersion → Type 0
IsWritableVersion formats write_time v =
    ((s : Bytes) × (write_time v.loaded_at ≡ some s) × (formats.parse_time s ≡ some v.loaded_at))
    × ((is_empty v.hash ≡ false) × (valid_utf8 v.hash ≡ true))
    × (is_zero v.loaded_at ≡ false)
    × OnSome (λ s. valid_utf8 s ≡ true) v.label_set
    × (v.generation ≤ max_uint64)

label_lem :
    (o : Option Bytes)
    → OnSome (λ s. valid_utf8 s ≡ true) o
    → read_pointer read_string (label_json o) ≡ ok o
unfolding read_pointer label_json string_json read_string
label_lem none h = refl
label_lem (some s) h = rw (coerced-valid s h) refl

generation_lem : (n : ℕ) → n ≤ max_uint64 → read_uint max_uint64 (integer false n) ≡ ok n
unfolding read_uint
generation_lem n h = ground arith

abbrev pub wire_of : PolicyVersion → PolicyVersionWire
wire_of v = record {
  hash = v.hash;
  loaded_at = v.loaded_at;
  label_set = record { value = v.label_set; present = true };
  generation = record { value = v.generation; present = true };
}

pub version_of-wire_of :
    (v : PolicyVersion)
    → is_empty v.hash ≡ false
    → is_zero v.loaded_at ≡ false
    → version_of (wire_of v) ≡ ok v
unfolding version_of validate_policy_version check_version
version_of-wire_of v h z = rw (h, z) refl

module _ (formats : Formats) (write_time : Time → Option Bytes) where
  -- A version with a hash and a time is written, as an object that is read back to it.
  pub policy_version_json_lem :
      (v : PolicyVersion)
      → IsWritableVersion formats write_time v
      → (j : Json) × (policy_version_json write_time v ≡ ok j)
        × (j ≢ null)
        × (version_wire_from_json formats j no_version ≡ ok (wire_of v))
  unfolding policy_version_json time_json version_wire_from_json members_of each_field keep matches
      runes utf8_runs bytes_eq object_of read_string string_json read_time time_of
      label_set_from_json generation_from_json generation_of
  policy_version_json_lem v ((s, w, p), (h, u), z, l, g) = (
    object (
        object_of (
          (codes "hash", string_json v.hash)
          ∷ (codes "loaded_at", string s)
          ∷ (codes "label_set", label_json v.label_set)
          ∷ (codes "generation", integer false v.generation)
          ∷ [])),
    rw w refl,
    λ e. cc,
    rw (coerced-valid v.hash u, p, label_lem v.label_set l, generation_lem v.generation g) refl,
  )

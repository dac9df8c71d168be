-- ===== src/Server/Metadata/Valid.antt =====
-- What the checks of metadata accept.
use treetop_client_go.Errors.{>>_iff_×, >>_iff_×₃, Err, iff_trans, pass, refuse_if, refuse_iff}
use treetop_client_go.Base.{
  Bool, Bytes, Option, String, arith, false, is_empty, none, refl, some, true, ℕ, ◌==◌, ◌||◌, ◌↔◌,
  ◌≡◌, ◌≢◌,
}
use treetop_client_go.Decision.{is_zero}
use treetop_client_go.Server.Metadata.{
  BundleMetadata, Metadata, PoliciesMetadata, check_signing, validate_bundle, validate_metadata,
  validate_optional_bundle, validate_policies_metadata,
}

-- A signed bundle names its key, an unsigned one names none.
abbrev pub IsSigning : Bool → Option Bytes → Type 0
IsSigning true (some key) = is_empty key ≡ false
IsSigning false none = Unit
IsSigning _ _ = ⊥

check_signing_iff :
    (signed : Bool) (key : Option Bytes) → (check_signing signed key ≡ pass) ↔ IsSigning signed key
unfolding check_signing
check_signing_iff true none = (λ e. cc, λ h. absurd h)
check_signing_iff true (some key) = ground arith
check_signing_iff false none = (λ _. tt, λ _. refl)
check_signing_iff false (some key) = (λ e. cc, λ h. absurd h)

abbrev pub IsBundle : BundleMetadata → Type 0
IsBundle b =
    ((b.format_version ≢ 0)
      × (is_empty b.bundle_id ≡ false)
      × (is_empty b.archive_sha256 ≡ false)
      × (is_zero b.loaded_at ≡ false))
    × IsSigning b.signed b.signing_key_id

bundle_guard :
    (b : BundleMetadata) (e : Err)
    → (refuse_if
          (b.format_version == 0
            || is_empty b.bundle_id
            || is_empty b.archive_sha256
            || is_zero b.loaded_at)
          e
        ≡ pass)
      ↔ ((b.format_version ≢ 0)
          × (is_empty b.bundle_id ≡ false)
          × (is_empty b.archive_sha256 ≡ false)
          × (is_zero b.loaded_at ≡ false))
bundle_guard b e =
    guard b.format_version (is_empty b.bundle_id) (is_empty b.archive_sha256) (is_zero b.loaded_at)
  where
    guard :
        (n : ℕ) (x y z : Bool)
        → (refuse_if (n == 0 || x || y || z) e ≡ pass)
          ↔ ((n ≢ 0) × (x ≡ false) × (y ≡ false) × (z ≡ false))
    guard n x y z = ground arith

-- `BundleMetadata.validateResponse` accepts exactly the complete bundles whose signing key is named
-- when they are signed and only then.
pub validate_bundle_iff : (b : BundleMetadata) → (validate_bundle b ≡ pass) ↔ IsBundle b
unfolding validate_bundle
validate_bundle_iff b = >>_iff_× (bundle_guard b _) (check_signing_iff b.signed b.signing_key_id)

abbrev pub IsOptionalBundle : Option BundleMetadata → Type 0
IsOptionalBundle none = Unit
IsOptionalBundle (some b) = IsBundle b

abbrev pub IsDated : Metadata → Type 0
IsDated m = is_zero m.timestamp ≡ false

abbrev pub IsPoliciesMetadata : PoliciesMetadata → Type 0
IsPoliciesMetadata p =
    (is_empty p.schema_validation_mode ≡ false)
    × IsDated p.policies
    × IsDated p.labels
    × IsDated p.schema
    × IsOptionalBundle p.bundle

pub validate_metadata_iff :
    (m : Metadata) (field : String) → (validate_metadata m field ≡ pass) ↔ IsDated m
unfolding validate_metadata
validate_metadata_iff m field = ground arith

validate_optional_bundle_iff :
    (b : Option BundleMetadata) → (validate_optional_bundle b ≡ pass) ↔ IsOptionalBundle b
unfolding validate_optional_bundle
validate_optional_bundle_iff none = (λ _. tt, λ _. refl)
validate_optional_bundle_iff (some b) = validate_bundle_iff b

pub validate_policies_metadata_iff :
    (p : PoliciesMetadata) → (validate_policies_metadata p ≡ pass) ↔ IsPoliciesMetadata p
unfolding validate_policies_metadata
validate_policies_metadata_iff p =
    iff_trans
      (>>_iff_× (refuse_iff (is_empty p.schema_validation_mode) _) (
        >>_iff_× (validate_metadata_iff p.policies _) (
          >>_iff_×₃ (validate_metadata_iff p.labels _) (validate_metadata_iff p.schema _)
            (validate_optional_bundle_iff p.bundle))))
      (λ w. (w.0, w.1.0, w.1.1.0, w.1.1.1, w.1.1.2), λ w. (w.0, (w.1, (w.2, w.3, w.4))))

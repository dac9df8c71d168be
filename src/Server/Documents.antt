-- ===== src/Server/Documents.antt =====
-- Whatever the client decodes as a document of the server is one that its check accepts.
use treetop_client_go.Base.{some, ◌≡◌}
use treetop_client_go.Errors.{ok}
use treetop_client_go.Json.{Json}
use treetop_client_go.Entities.Construct.{checked}
use treetop_client_go.Server.{Formats}
use treetop_client_go.Server.Versions.{
  VersionInfo, validate_version_info, version_info_fields, version_info_from_json,
}
use treetop_client_go.Server.Versions.Valid.{IsVersionInfo, validate_version_info_iff}
use treetop_client_go.Server.Metadata.{
  BundleMetadata, bundle_fields, bundle_from_json, validate_bundle,
}
use treetop_client_go.Server.Metadata.Valid.{IsBundle, validate_bundle_iff}
use treetop_client_go.Server.Status.{
  StatusResponse, status_fields, status_from_json, validate_status,
}
use treetop_client_go.Server.Status.Valid.{IsStatus, validate_status_iff}
use treetop_client_go.Server.Policies.{
  UserPolicies, user_policies_fields, user_policies_from_json, validate_user_policies,
}
use treetop_client_go.Server.Policies.Valid.{IsUserPolicies, validate_user_policies_iff}

module _ (formats : Formats) (v : Json) where
  -- Whatever is decoded as a version document has its version, both versions of the core, a stamped
  -- policy version, and a stamped schema version if it has one.
  pub version_info_from_json-IsVersionInfo :
      (i : VersionInfo) → version_info_from_json formats v ≡ ok i → IsVersionInfo i
  unfolding version_info_from_json
  version_info_from_json-IsVersionInfo i h =
      (validate_version_info_iff i).0
        (checked validate_version_info (version_info_fields formats v) i h)

  -- Whatever is decoded as bundle metadata has its version, its IDs and its time, and names a
  -- signing key if it is signed and only then.
  pub bundle_from_json-IsBundle :
      (b : BundleMetadata) → bundle_from_json formats v ≡ ok b → IsBundle b
  unfolding bundle_from_json
  bundle_from_json-IsBundle b h =
      (validate_bundle_iff b).0 (checked validate_bundle (bundle_fields formats v) b h)

  -- Whatever is decoded as a status has dated metadata with a coherent bundle, limits that are
  -- positive but for the batch size, which is not negative, and a request context that is
  -- unsupported, or backed by a schema, or falls back for a given reason.
  pub status_from_json-IsStatus :
      (s : StatusResponse) → status_from_json formats v ≡ ok s → IsStatus s
  unfolding status_from_json
  status_from_json-IsStatus s h =
      (validate_status_iff s).0 (checked validate_status (status_fields formats v) s h)

-- Whatever is decoded as the policies of a user names the user, and each policy is an object with
-- its own match, which has an ID and a reason.
pub user_policies_from_json-IsUserPolicies :
    (v : Json) (u : UserPolicies) → user_policies_from_json v ≡ ok u → IsUserPolicies u
unfolding user_policies_from_json
user_policies_from_json-IsUserPolicies v u h =
    (validate_user_policies_iff u).0
      (checked (λ u. validate_user_policies (some u)) (user_policies_fields v) u h)

-- ===== src/Config/Upload.antt =====
-- uploader.go: the construction of uploaders, their copies, and the checks before an upload.
use treetop_client_go.Config.Make.{Client, make_runs, with_correlation_id_copy}
use treetop_client_go.Errors.{
  Check, Result, configuration, err, invalid, lit, nil, num, ok, refuse_if, text, ◌>>=◌, ◌>>◌,
}
use treetop_client_go.Base.{
  Bool, Bytes, List, Option, [], false, length, none, not, some, true, ℕ, ◌+◌, ◌∷◌,
}
pub mod Guarded
use treetop_client_go.Base.Int.{pos, ℤ}
use treetop_client_go.Token.{Heap, Token, clone, validate_upload}
use treetop_client_go.Transport.Encode.{validate_raw_body}
use treetop_client_go.Config.Url.{Urls, secure_credential_transport}

pub record Uploader (P : Type 0) : Type 0 where
  pub client : Client P
  pub token : Token

-- An `UploaderOption`, by the function of the package that made it: no other code can, since
-- `uploaderConfig` is private to the package.
pub data UploaderOption : Type 0 where
  dangerously_allow_insecure_uploads : UploaderOption

-- The loop over the options, at position `i`: the field of `uploaderConfig`, and `none` for a nil option.
uploader_loop : ℕ → List (Option UploaderOption) → Bool → Result Bool
uploader_loop i [] allowed = ok allowed
uploader_loop i (none ∷ options) allowed =
    err (configuration (lit "uploader option " ∷ num (pos i) ∷ lit " is nil" ∷ []))
uploader_loop i (some dangerously_allow_insecure_uploads ∷ options) allowed =
    uploader_loop (i + 1) options true

-- `Client.Uploader`; `none` is a nil client.
pub new_uploader :
    {P : Type 0}
    → Urls
    → Option (Client P)
    → Token
    → List (Option UploaderOption)
    → Heap
    → Result (Uploader P × Heap)
new_uploader urls none t options h = err (configuration (text "client must not be nil"))
new_uploader urls (some c) t options h = do
  validate_upload t h
  allowed ← uploader_loop 0 options false
  refuse_if (not (secure_credential_transport urls c.base_url allowed)) (
      configuration (
        text
          "refusing to send an upload token over plaintext HTTP; use HTTPS or DangerouslyAllowInsecureUploads"))
  ok (record { client = c; token = (clone t h).0 }, (clone t h).1)

-- `Uploader.WithCorrelationID`; `none` is a nil uploader.
pub uploader_with_correlation_id :
    {P : Type 0} → Option (Uploader P) → Bytes → Heap → Result (Uploader P × Heap)
uploader_with_correlation_id none id h = err (configuration (text "uploader must not be nil"))
uploader_with_correlation_id (some u) id h = do
  c ← with_correlation_id_copy (some u.client) id
  ok (record { client = c; token = (clone u.token h).0 }, (clone u.token h).1)

-- The checks of `UploadSchemaDocument`: `is_valid` and `is_object` are `json.Valid`, and whether
-- `json.Unmarshal` gives a map that is not nil.
pub check_schema_document : (Bytes → Bool) → (Bytes → Bool) → ℤ → Bytes → Check
check_schema_document is_valid is_object limit schema = do
  validate_raw_body (pos (length schema)) limit
  refuse_if (not (is_valid schema)) (invalid (text "schema document") [] "must be valid JSON")
  refuse_if (not (is_object schema)) (invalid (text "schema document") [] "must be a JSON object")

-- The definitions of this file, for a test by evaluation.
unfoldable pub upload_runs : Unit {0}
unfolding make_runs uploader_loop new_uploader uploader_with_correlation_id check_schema_document
upload_runs = tt

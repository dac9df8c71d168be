-- ===== src/Tests/Values.antt =====
-- Instances of the theorems on values, names and tokens.
use treetop_client_go.Base.{
  All, Bytes, List, [], codes, false, inl, inr, is_empty, refl, some, suc, ◌∷◌, ◌≡◌,
}
use treetop_client_go.Token.Redact.{redacted_values}
use treetop_client_go.Token.Redact.Order.{IsLongestFirst, Occurs, redacted_values_lem}
use treetop_client_go.Errors.{err, text}
use treetop_client_go.Text.Split.{split}
use treetop_client_go.Validation.{validate_cedar_path, validate_namespace, validation_runs}
use treetop_client_go.Validation.Identifier.{IsIdentifier, validate_cedar_identifier_iff}
use treetop_client_go.Validation.Path.{validate_cedar_path-validate_namespace}
use treetop_client_go.Validation.Entity.{IsPlainByte, validate_entity_id-IsPlainByte}
use treetop_client_go.Attr.{attr_depth, attr_runs, validate_attr}
use treetop_client_go.Attr.Validate.{WellTyped, check, validate_attr-check, validate_attr_iff}
use treetop_client_go.Attr.Depth.{attr_depth-height, height}
use treetop_client_go.Token.{
  Heap, Token, access_error, clone, destroy, exposed, token_runs, upload_error, validate_access,
  validate_upload,
}
use treetop_client_go.Token.Bearer.{IsTokenAfter, valid_bearer_token_iff}
use treetop_client_go.Token.Destroyed.{clone-destroy, destroy-refused}
use treetop_client_go.Tests.{net, sizes}

abbrev core : List Bytes
core = codes "App" ∷ codes "Core" ∷ []

validate_attr-check_example : validate_attr net sizes ≡ check net sizes
validate_attr-check_example = validate_attr-check net sizes

validate_attr_iff_example : WellTyped net sizes
unfolding attr_runs
validate_attr_iff_example = (validate_attr_iff net sizes).0 refl

attr_depth-height_example : attr_depth sizes ≡ suc (height sizes)
attr_depth-height_example = attr_depth-height sizes

validate_cedar_path-validate_namespace_example :
    validate_cedar_path (text "entity type") (codes "App::if")
    ≡ validate_namespace (text "entity type") (split (codes "App::if"))
validate_cedar_path-validate_namespace_example =
    validate_cedar_path-validate_namespace (text "entity type") (codes "App::if")

validate_cedar_identifier_iff_example : IsIdentifier (codes "_x1")
unfolding validation_runs
validate_cedar_identifier_iff_example =
    (validate_cedar_identifier_iff (text "namespace") (codes "_x1")).0 refl

validate_entity_id-IsPlainByte_example : All IsPlainByte (codes "alice@example.com")
unfolding validation_runs
validate_entity_id-IsPlainByte_example =
    validate_entity_id-IsPlainByte (text "user.id") (codes "alice@example.com") refl

valid_bearer_token_iff_example : IsTokenAfter 0 (codes "a-Z9=")
unfolding token_runs
valid_bearer_token_iff_example = (valid_bearer_token_iff (codes "a-Z9=")).0 refl

abbrev token : Token
token = record { value = some 1 }

abbrev heap : Heap
heap = codes "other" ∷ codes "secret" ∷ []

destroy-refused_example :
    (validate_access token (destroy (some token) heap).1 ≡ err access_error)
    × (validate_upload token (destroy (some token) heap).1 ≡ err upload_error)
destroy-refused_example = destroy-refused token heap

clone-destroy_example :
    exposed (clone token heap).0 (destroy (some token) (clone token heap).1).1 ≡ exposed token heap
clone-destroy_example = clone-destroy token heap

abbrev secrets : List Bytes
secrets = [] ∷ codes "ab" ∷ codes "abc" ∷ codes "ab" ∷ []

redacted_values_lem_example :
    Occurs (codes "abc") (redacted_values secrets)
    × All (λ v. is_empty v ≡ false) (redacted_values secrets)
    × IsLongestFirst (redacted_values secrets)
redacted_values_lem_example = redacted_values_lem secrets (codes "abc") refl (inr (inr (inl refl)))

-- ===== src/Validation/Path.antt =====
-- `validateCedarPath` cuts its argument as it goes; `validateNamespace` takes the segments.
use treetop_client_go.Base.{
  All, Bytes, List, Option-cases, [], arith, drop, inl, inr, length, some, suc, sym, zero, ℕ, ◌+◌,
  ◌<◌, ◌↔◌, ◌∷◌, ◌≡◌, ◌≤◌,
}
use treetop_client_go.Errors.{>>_pass, Message, pass}
use treetop_client_go.Text.Split.{index_sep, index_sep-lt, split, split-index_sep}
use treetop_client_go.Validation.{
  path_loop, validate_cedar_identifier, validate_cedar_path, validate_namespace,
}
use treetop_client_go.Validation.Identifier.{IsIdentifier, validate_cedar_identifier_iff}

-- On a piece of the path, with enough fuel.
length-drop-le :
    {A : Type 0} (n : ℕ) (xs : List A) → n ≤ length xs → length (drop n xs) + n ≡ length xs
length-drop-le zero xs h = omega arith
length-drop-le (suc n) [] h = absurd (omega arith)
length-drop-le (suc n) (x ∷ xs) h = omega (arith, length-drop-le n xs (omega arith))

shorter :
    (value : Bytes) (i fuel : ℕ)
    → length value < suc fuel
    → index_sep value ≡ some i
    → length (drop (suc (suc i)) value) < fuel
shorter value i fuel h e = omega (
  arith,
  index_sep-lt value i e,
  length-drop-le (suc (suc i)) value (omega (arith, index_sep-lt value i e)),
)

path_loop-split :
    (fuel : ℕ) (field : Message) (value : Bytes)
    → length value < fuel
    → path_loop fuel field value ≡ validate_namespace field (split value)
unfolding path_loop validate_namespace
path_loop-split zero field value h = absurd (omega arith)
path_loop-split (suc fuel) field value h = elim (Option-cases (index_sep value)) [
  | inl e ↦
      rw (split-index_sep value, e, path_loop)
        (sym (>>_pass (validate_cedar_identifier field value)))
  | inr (i, e) ↦
      rw (split-index_sep value, e, path_loop)
        (rw (path_loop-split fuel field (drop (suc (suc i)) value) (shorter value i fuel h e)))
]

-- Checking a path while cutting it at each "::" gives the same verdict, the same error included, as
-- cutting it with `strings.Split` first and checking the segments in order: the loop ends, and on
-- every input.
pub validate_cedar_path-validate_namespace :
    (field : Message) (value : Bytes)
    → validate_cedar_path field value ≡ validate_namespace field (split value)
unfolding validate_cedar_path
validate_cedar_path-validate_namespace field value =
    path_loop-split (suc (length value)) field value (omega arith)

pub validate_namespace_iff :
    (field : Message) (segments : List Bytes)
    → (validate_namespace field segments ≡ pass) ↔ All IsIdentifier segments
unfolding validate_namespace
validate_namespace_iff field [] = ground arith
validate_namespace_iff field (s ∷ ss) =
    ground (arith, validate_cedar_identifier_iff field s, validate_namespace_iff field ss)

-- An accepted path is one whose parts between the separators are Cedar identifiers.
pub validate_cedar_path_iff :
    (field : Message) (value : Bytes)
    → (validate_cedar_path field value ≡ pass) ↔ All IsIdentifier (split value)
validate_cedar_path_iff field value =
    rw validate_cedar_path-validate_namespace (validate_namespace_iff field (split value))

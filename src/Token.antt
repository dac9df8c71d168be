-- ===== src/Token.antt =====
-- token.go: access tokens and upload tokens, with the byte arrays that their values share.
pub mod Bearer
pub mod Destroyed
pub mod Redact
use treetop_client_go.Base.{
  Bool, Bytes, List, Option, [], codes, false, if◌then◌else◌, is_empty, leb, length, ltb, map, none,
  not, refl, some, suc, true, zero, ℕ, ◌&&◌, ◌++◌, ◌==◌, ◌||◌, ◌∷◌, ◌≡◌,
}
use treetop_client_go.Errors.{Check, Err, Result, invalid, ok, refuse_if, text, ◌>>◌}

-- The byte arrays that the program has allocated, by address.
abbrev pub Heap : Type 0
Heap = List Bytes

pub read : ℕ → Heap → Bytes
read i [] = []
read zero (s ∷ h) = s
read (suc i) (s ∷ h) = read i h

-- `clear` of the array at an address: every byte becomes 0.
clear_at : ℕ → Heap → Heap
clear_at i [] = []
clear_at zero (s ∷ h) = map (λ b. 0) s ∷ h
clear_at (suc i) (s ∷ h) = s ∷ clear_at i h

-- `AccessToken` and `UploadToken`: a slice, the address of its array or `none` for nil. A copy of a
-- token has the same address.
pub record Token : Type 0 where
  pub value : Option ℕ

-- `string(t.value)`
exposed_slice : Option ℕ → Heap → Bytes
exposed_slice none h = []
exposed_slice (some i) h = read i h

pub exposed : Token → Heap → Bytes
exposed t h = exposed_slice t.value h

-- `[]byte(value)`
pub allocate : Bytes → Heap → Token × Heap
allocate value h = (record { value = some (length h) }, h ++ value ∷ [])

-- `clone`; an `append` of no bytes to a nil slice is nil.
pub clone : Token → Heap → Token × Heap
clone t h =
    if is_empty (exposed t h) then (record { value = none }, h) else allocate (exposed t h) h

clear_slice : Option ℕ → Heap → Heap
clear_slice none h = h
clear_slice (some i) h = clear_at i h

-- `Destroy`; the first `none` is a nil pointer.
pub destroy : Option Token → Heap → Option Token × Heap
destroy none h = (none, h)
destroy (some t) h = (some (record { value = none }), clear_slice t.value h)

-- The bytes that the loop of `validBearerToken` counts.
bearer_byte : ℕ → Bool
bearer_byte b =
    leb b'a' b && leb b b'z'
    || leb b'A' b && leb b b'Z'
    || leb b'0' b && leb b b'9'
    || b == b'-'
    || b == b'.'
    || b == b'_'
    || b == b'~'
    || b == b'+'
    || b == b'/'

-- The loop, at `body` and `padding`.
bearer_loop : ℕ → Bool → Bytes → Bool
bearer_loop body padding [] = ltb 0 body
bearer_loop body padding (b ∷ s) = elim (b == b'=') [
  | true ↦ bearer_loop body true s
  | false ↦ elim (padding || not (bearer_byte b)) [
    | true ↦ false
    | false ↦ bearer_loop (suc body) padding s
  ]
]

pub valid_bearer_token : Bytes → Bool
valid_bearer_token value = bearer_loop 0 false value

pub valid_header_value : Bytes → Bool
valid_header_value [] = true
valid_header_value (b ∷ s) =
    if ltb b 0x20 && not (b == b'\t') || b == 0x7F then false else valid_header_value s

pub access_error : Err
access_error =
    invalid (text "access token") []
      "must be non-empty and contain only HTTP Bearer token characters"

pub upload_error : Err
upload_error =
    invalid (text "upload token") []
      "must be non-empty and contain only valid HTTP header characters"

-- `NewAccessToken`
pub new_access_token : Bytes → Heap → Result (Token × Heap)
new_access_token value h =
    refuse_if (not (valid_bearer_token value)) access_error >> ok (allocate value h)

-- `AccessToken.validate`
pub validate_access : Token → Heap → Check
validate_access t h = refuse_if (not (valid_bearer_token (exposed t h))) access_error

bad_upload : Bytes → Bool
bad_upload value = is_empty value || not (valid_header_value value)

-- `NewUploadToken`
pub new_upload_token : Bytes → Heap → Result (Token × Heap)
new_upload_token value h = refuse_if (bad_upload value) upload_error >> ok (allocate value h)

-- `UploadToken.validate`
pub validate_upload : Token → Heap → Check
validate_upload t h = refuse_if (bad_upload (exposed t h)) upload_error

-- The definitions of this file, for a test by evaluation.
unfoldable pub token_runs : Unit {0}
unfolding read clear_at exposed_slice exposed allocate clone clear_slice destroy bearer_byte
    bearer_loop valid_bearer_token valid_header_value access_error upload_error new_access_token
    validate_access bad_upload new_upload_token validate_upload
token_runs = tt

bearer_runs :
    (valid_bearer_token (codes "aZ9-._~+/==") ≡ true)
    × (valid_bearer_token (codes "==") ≡ false)
    × (valid_bearer_token (codes "a=b") ≡ false)
unfolding token_runs
bearer_runs = (refl, refl, refl)

-- ===== src/Token/Bearer.antt =====
-- Which strings `validBearerToken` and `validHeaderValue` accept.
use treetop_client_go.Errors.{pass}
use treetop_client_go.Base.{
  All, Bytes, [], ap, arith, false, inl, inr, length, refl, subst, suc, sym, true, ℕ, ◌++◌, ◌+◌,
  ◌<◌, ◌↔◌, ◌∷◌, ◌≡◌, ◌≤◌, ◌⊎◌,
}
use treetop_client_go.Token.{
  Heap, Token, bearer_byte, bearer_loop, exposed, valid_bearer_token, validate_access,
}

-- The characters of RFC 6750's `b64token`, its padding aside.
abbrev pub IsTokenByte : ℕ → Type 0
IsTokenByte b =
    ((b'a' ≤ b) × (b ≤ b'z'))
    ⊎ ((b'A' ≤ b) × (b ≤ b'Z'))
    ⊎ ((b'0' ≤ b) × (b ≤ b'9'))
    ⊎ (b ≡ b'-')
    ⊎ (b ≡ b'.')
    ⊎ (b ≡ b'_')
    ⊎ (b ≡ b'~')
    ⊎ (b ≡ b'+')
    ⊎ (b ≡ b'/')

-- `b64token = 1*( ALPHA / DIGIT / "-" / "." / "_" / "~" / "+" / "/" ) *"="`, where `n` characters
-- come before `s`.
abbrev pub IsTokenAfter : ℕ → Bytes → Type 0
IsTokenAfter n s =
    (body : Bytes) × (padding : Bytes) × (s ≡ body ++ padding)
    × All IsTokenByte body
    × All (λ b. b ≡ b'=') padding
    × (0 < n + length body)

bearer_byte_iff : (b : ℕ) → (bearer_byte b ≡ true) ↔ IsTokenByte b
unfolding bearer_byte
bearer_byte_iff b = ground arith

padding_iff :
    (n : ℕ) (s : Bytes) → (bearer_loop n true s ≡ true) ↔ ((0 < n) × All (λ b. b ≡ b'=') s)
unfolding bearer_loop
padding_iff n [] = ground arith
padding_iff n (b ∷ s) = ground (arith, padding_iff n s)

step_iff :
    (n b : ℕ) (s : Bytes)
    → (bearer_loop n false (b ∷ s) ≡ true) ↔ (
        (IsTokenByte b × (bearer_loop (suc n) false s ≡ true))
        ⊎ ((b ≡ b'=') × (bearer_loop n true s ≡ true)))
unfolding bearer_loop
step_iff n b s = ground (arith, bearer_byte_iff b)

parsed : (n : ℕ) (s : Bytes) → bearer_loop n false s ≡ true → IsTokenAfter n s
unfolding bearer_loop
parsed n [] h = ([], [], refl, tt, tt, ground arith)
parsed n (b ∷ s) h = elim ((step_iff n b s).0 h) [
  | inl (token, h') ↦
      let (body, padding, e, t, p, l) = parsed (suc n) s h' in
      (b ∷ body, padding, ap (λ x. b ∷ x) e, (token, t), p, omega arith)
  | inr (e, h') ↦ let (l, p) = (padding_iff n s).0 h' in ([], b ∷ s, refl, tt, (e, p), omega arith)
]

accepted :
    (n : ℕ) (body padding : Bytes)
    → All IsTokenByte body
    → All (λ b. b ≡ b'=') padding
    → 0 < n + length body
    → bearer_loop n false (body ++ padding) ≡ true
unfolding bearer_loop
accepted n [] [] t p l = ground arith
accepted n [] (b ∷ s) t (e, p) l =
    (step_iff n b s).1 (inr (e, (padding_iff n s).1 (omega arith, p)))
accepted n (b ∷ body) padding (token, t) p l =
    (step_iff n b (body ++ padding)).1
      (inl (token, accepted (suc n) body padding t p (omega arith)))

-- `validBearerToken` accepts exactly RFC 6750's `b64token`: one or more letters, digits and `-._~+/`,
-- and after them any number of `=`.
pub valid_bearer_token_iff :
    (value : Bytes) → (valid_bearer_token value ≡ true) ↔ IsTokenAfter 0 value
unfolding valid_bearer_token
valid_bearer_token_iff value = (
  parsed 0 value,
  λ (body, padding, e, t, p, l).
      subst (λ s. bearer_loop 0 false s ≡ true) (sym e) (accepted 0 body padding t p l),
)

-- The check of an access token accepts it when its bytes are those of a bearer token.
pub validate_access_iff :
    (t : Token) (h : Heap)
    → (validate_access t h ≡ pass) ↔ (valid_bearer_token (exposed t h) ≡ true)
unfolding validate_access
validate_access_iff t h = ground arith

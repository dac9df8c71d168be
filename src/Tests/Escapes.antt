-- ===== src/Tests/Escapes.antt =====
-- A concrete escape of path segments.
use treetop_client_go.Base.{
  Bool-cases, Bytes, [], ap, arith, codes, false, if◌then◌else◌, inl, inr, refl, sym, true, ℕ, ◌++◌,
  ◌==◌, ◌∙◌, ◌∷◌, ◌≡◌,
}
use treetop_client_go.Config.Url.Segment.{IsPathEscape, NoSlash}

-- An escape of slashes and of the sign of an escape, and how it is undone.
abbrev pub escape : Bytes → Bytes
escape [] = []
escape (b ∷ s) =
    let rest = escape s in
    if b == b'/' then codes "%2F" ++ rest else if b == b'%' then codes "%25" ++ rest else b ∷ rest

mutual
  pub unescape : Bytes → Bytes
  unescape [] = []
  unescape (b ∷ s) = elim (b == b'%') [ true ↦ in_escape s | false ↦ b ∷ unescape s ]

  in_escape : Bytes → Bytes
  in_escape [] = []
  in_escape (b ∷ s) = at_digit s

  at_digit : Bytes → Bytes
  at_digit [] = []
  at_digit (b ∷ s) = (if b == b'F' then b'/' else b'%') ∷ unescape s

escape-NoSlash : (s : Bytes) → NoSlash (escape s)
escape-NoSlash [] = tt
escape-NoSlash (b ∷ s) = elim (Bool-cases (b == b'/')) [
  | inl t ↦ rw t (refl, (refl, (refl, escape-NoSlash s)))
  | inr f ↦ elim (Bool-cases (b == b'%')) [
    | inl p ↦ rw (f, p) (refl, (refl, (refl, escape-NoSlash s)))
    | inr q ↦ rw (f, q) (f, escape-NoSlash s)
  ]
]

kept : (b : ℕ) (s : Bytes) → (b == b'%') ≡ false → unescape (b ∷ s) ≡ b ∷ unescape s
unfolding unescape
kept b s q = rw (unescape, q) refl

unescape-escape : (s : Bytes) → unescape (escape s) ≡ s
unfolding unescape in_escape at_digit
unescape-escape [] = refl
unescape-escape (b ∷ s) = elim (Bool-cases (b == b'/')) [
  | inl t ↦
      let same : b ≡ b'/' = ground arith in
      rw t (ap (λ r. b'/' ∷ r) (unescape-escape s) ∙ ap (λ c. c ∷ s) (sym same))
  | inr f ↦ elim (Bool-cases (b == b'%')) [
    | inl p ↦
        let same : b ≡ b'%' = ground arith in
        rw (f, p) (ap (λ r. b'%' ∷ r) (unescape-escape s) ∙ ap (λ c. c ∷ s) (sym same))
    | inr q ↦ rw (f, q) (kept b (escape s) q ∙ ap (λ r. b ∷ r) (unescape-escape s))
  ]
]

pub escape-IsPathEscape : IsPathEscape escape unescape
unfolding unescape in_escape at_digit
escape-IsPathEscape = (escape-NoSlash, unescape-escape, refl, refl, refl)

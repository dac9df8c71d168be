-- ===== src/Validation/Identifier.antt =====
-- Which strings `validateCedarIdentifier` accepts.
use treetop_client_go.Base.{
  All, Bytes, List, [], arith, bytes_eq, bytes_eq_iff, false, inl, not, true, ℕ, ◌↔◌, ◌∷◌, ◌≡◌, ◌≢◌,
  ◌≤◌, ◌⊎◌,
}
use treetop_client_go.Errors.{Err, Message, pass, refuse_if_iff}
use treetop_client_go.Validation.{
  ascii_letter_digit_or_underscore, ascii_letter_or_underscore, bad_start, check_identifier_tail,
  is_one_of, is_reserved_cedar_identifier, reserved_identifiers, validate_cedar_identifier,
}

abbrev pub IsLetter : ℕ → Type 0
IsLetter b = (b ≡ b'_') ⊎ ((b'a' ≤ b) × (b ≤ b'z')) ⊎ ((b'A' ≤ b) × (b ≤ b'Z'))

abbrev pub IsWordByte : ℕ → Type 0
IsWordByte b = IsLetter b ⊎ ((b'0' ≤ b) × (b ≤ b'9'))

abbrev pub IsWord : Bytes → Type 0
IsWord [] = ⊥
IsWord (b ∷ s) = IsLetter b × All IsWordByte s

-- A Cedar identifier: an ASCII word that is not reserved.
abbrev pub IsIdentifier : Bytes → Type 0
IsIdentifier value = All (λ r. value ≢ r) reserved_identifiers × IsWord value

is_one_of-false : (v : Bytes) (rs : List Bytes) → (is_one_of v rs ≡ false) ↔ All (λ r. v ≢ r) rs
unfolding is_one_of
is_one_of-false v [] = ground arith
is_one_of-false v (r ∷ rs) = ground (arith, bytes_eq_iff v r, is_one_of-false v rs)

ascii_letter_or_underscore_iff : (b : ℕ) → (ascii_letter_or_underscore b ≡ true) ↔ IsLetter b
unfolding ascii_letter_or_underscore
ascii_letter_or_underscore_iff b = ground arith

not-ascii_letter_or_underscore_iff :
    {b : ℕ} → (not (ascii_letter_or_underscore b) ≡ false) ↔ IsLetter b
not-ascii_letter_or_underscore_iff {b} = ground (arith, ascii_letter_or_underscore_iff b)

ascii_letter_digit_or_underscore_iff :
    (b : ℕ) → (ascii_letter_digit_or_underscore b ≡ true) ↔ IsWordByte b
unfolding ascii_letter_digit_or_underscore ascii_letter_or_underscore
ascii_letter_digit_or_underscore_iff b = ground arith

tail_iff : (e : Err) (s : Bytes) → (check_identifier_tail e s ≡ pass) ↔ All IsWordByte s
unfolding check_identifier_tail
tail_iff e [] = ground arith
tail_iff e (b ∷ s) = ground (arith, ascii_letter_digit_or_underscore_iff b, tail_iff e s)

-- `validateCedarIdentifier` accepts exactly the Cedar identifiers: the non-empty ASCII words that
-- begin with a letter or an underscore and that are none of the ten reserved words.
pub validate_cedar_identifier_iff :
    (field : Message) (value : Bytes)
    → (validate_cedar_identifier field value ≡ pass) ↔ IsIdentifier value
unfolding validate_cedar_identifier is_reserved_cedar_identifier is_one_of bytes_eq bad_start
validate_cedar_identifier_iff field [] = ground arith
validate_cedar_identifier_iff field (b ∷ s) = (
  λ h.
      let (r, h') = (refuse_if_iff _ _ _).0 h in
      let (l, h'') = (refuse_if_iff _ _ _).0 h' in
      (
        (is_one_of-false (b ∷ s) reserved_identifiers).0 r,
        (not-ascii_letter_or_underscore_iff.0 l, (tail_iff _ s).0 h''),
      ),
  λ w. (refuse_if_iff _ _ _).1 (
    (is_one_of-false (b ∷ s) reserved_identifiers).1 w.0,
    (refuse_if_iff _ _ _).1 (not-ascii_letter_or_underscore_iff.1 w.1.0, (tail_iff _ s).1 w.1.1),
  ),
)

no_colon : (b : ℕ) → IsWordByte b → b ≢ b':'
no_colon b h e = ground arith

word_no_colon : (s : Bytes) → All IsWordByte s → All (λ c. c ≢ b':') s
word_no_colon [] h = tt
word_no_colon (b ∷ s) (p, h) = (no_colon b p, word_no_colon s h)

-- An accepted identifier holds no colon, so no separator.
pub identifier_no_colon : (value : Bytes) → IsIdentifier value → All (λ c. c ≢ b':') value
identifier_no_colon [] (_, h) = absurd h
identifier_no_colon (b ∷ s) (_, (l, h)) = (no_colon b (inl l), word_no_colon s h)

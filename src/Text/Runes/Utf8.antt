-- ===== src/Text/Runes/Utf8.antt =====
-- Well-formed UTF-8 (`utf8.Valid`), and what encoding/json writes of a Go string: each byte that
-- begins no well-formed sequence becomes U+FFFD.
use treetop_client_go.Text.Runes.Ascii.{decode_ascii}
use treetop_client_go.Base.{
  All, Bool, Bytes, [], ap, arith, if◌then◌else◌, not, refl, suc, true, zero, ℕ, ◌&&◌, ◌<◌, ◌==◌,
  ◌∷◌, ◌≡◌,
}
use treetop_client_go.Text.Runes.{decode_rune, rune_error}

-- Whether a first byte with the rest behind it is read as an error of one byte.
broken : ℕ → Bytes → Bool
broken b s = (decode_rune b s).0 == rune_error && (decode_rune b s).1 == 0

valid_from : ℕ → Bytes → Bool
valid_from skip [] = true
valid_from zero (b ∷ s) = not (broken b s) && valid_from (decode_rune b s).1 s
valid_from (suc k) (b ∷ s) = valid_from k s

pub valid_utf8 : Bytes → Bool
valid_utf8 s = valid_from 0 s

coerced_from : ℕ → Bytes → Bytes
coerced_from skip [] = []
coerced_from zero (b ∷ s) =
    let rest = coerced_from (decode_rune b s).1 s in
    if broken b s then 0xEF ∷ 0xBF ∷ 0xBD ∷ rest else b ∷ rest
coerced_from (suc k) (b ∷ s) = b ∷ coerced_from k s

pub coerced : Bytes → Bytes
coerced s = coerced_from 0 s

-- The definitions of this file, for a test by evaluation.
unfoldable pub utf8_runs : Unit {0}
unfolding decode_rune broken valid_from valid_utf8 coerced_from coerced
utf8_runs = tt

coerced_runs :
    coerced (0x61 ∷ 0xFF ∷ 0xC3 ∷ 0xA9 ∷ []) ≡ 0x61 ∷ 0xEF ∷ 0xBF ∷ 0xBD ∷ 0xC3 ∷ 0xA9 ∷ []
unfolding utf8_runs
coerced_runs = refl

coerced_from-valid : (k : ℕ) (s : Bytes) → valid_from k s ≡ true → coerced_from k s ≡ s
unfolding valid_from coerced_from
coerced_from-valid k [] h = refl
coerced_from-valid zero (b ∷ s) h = ground (arith, coerced_from-valid (decode_rune b s).1 s)
coerced_from-valid (suc k) (b ∷ s) h = ap (λ t. b ∷ t) (coerced_from-valid k s h)

-- Well-formed text is written as it is.
pub coerced-valid : (s : Bytes) → valid_utf8 s ≡ true → coerced s ≡ s
unfolding valid_utf8 coerced
coerced-valid s h = coerced_from-valid 0 s h

-- ASCII text is well-formed.
pub valid_utf8-ascii : (s : Bytes) → All (λ b. b < 0x80) s → valid_utf8 s ≡ true
unfolding valid_utf8 valid_from broken
valid_utf8-ascii [] h = refl
valid_utf8-ascii (b ∷ s) (p, h) = rw (decode_ascii b s p) (ground (arith, valid_utf8-ascii s h))

-- ===== src/Text/Runes.antt =====
-- `for _, r := range value` over a Go string: UTF-8 is decoded from the left, and a byte that begins
-- no well-formed sequence is read as U+FFFD and takes one byte (`utf8.DecodeRuneInString`).
pub mod Ascii
pub mod Utf8
use treetop_client_go.Base.{
  Bool, Bytes, List, [], if◌then◌else◌, leb, ltb, refl, suc, zero, ℕ, ◌&&◌, ◌*◌, ◌+◌, ◌-◌, ◌==◌,
  ◌∷◌, ◌≡◌,
}

abbrev pub rune_error : ℕ
rune_error = 0xFFFD

-- The bounds of the second byte, which depend on the first; later bytes have 0x80 to 0xBF.
second_low : ℕ → ℕ
second_low b = if b == 0xE0 then 0xA0 else if b == 0xF0 then 0x90 else 0x80

second_high : ℕ → ℕ
second_high b = if b == 0xED then 0x9F else if b == 0xF4 then 0x8F else 0xBF

within : ℕ → ℕ → ℕ → Bool
within lo hi c = leb lo c && leb c hi

-- The rune and the number of bytes that it takes behind its first byte.
two_bytes : ℕ → Bytes → ℕ × ℕ
two_bytes b (c ∷ s) =
    if within 0x80 0xBF c then ((b - 0xC0) * 64 + (c - 0x80), 1) else (rune_error, 0)
two_bytes b [] = (rune_error, 0)

three_bytes : ℕ → Bytes → ℕ × ℕ
three_bytes b (c ∷ d ∷ s) =
    if within (second_low b) (second_high b) c && within 0x80 0xBF d
    then ((b - 0xE0) * 4096 + (c - 0x80) * 64 + (d - 0x80), 2)
    else (rune_error, 0)
three_bytes b _ = (rune_error, 0)

four_bytes : ℕ → Bytes → ℕ × ℕ
four_bytes b (c ∷ d ∷ e ∷ s) =
    if within (second_low b) (second_high b) c && within 0x80 0xBF d && within 0x80 0xBF e
    then ((b - 0xF0) * 262144 + (c - 0x80) * 4096 + (d - 0x80) * 64 + (e - 0x80), 3)
    else (rune_error, 0)
four_bytes b _ = (rune_error, 0)

pub decode_rune : ℕ → Bytes → ℕ × ℕ
unfolding two_bytes three_bytes four_bytes within second_low second_high
decode_rune b s =
    if ltb b 0x80
    then (b, 0)
    else if ltb b 0xC2
    then (rune_error, 0)
    else if ltb b 0xE0
    then two_bytes b s
    else if ltb b 0xF0
    then three_bytes b s
    else if ltb b 0xF5
    then four_bytes b s
    else (rune_error, 0)

-- `skip` bytes of `s` belong to a rune that has been read.
runes_from : ℕ → Bytes → List ℕ
runes_from skip [] = []
runes_from zero (b ∷ s) = let (r, w) = decode_rune b s in r ∷ runes_from w s
runes_from (suc k) (b ∷ s) = runes_from k s

unfoldable pub runes : Bytes → List ℕ
unfolding runes_from decode_rune
runes s = runes_from 0 s

-- "é€𐍈", a lone continuation byte, a surrogate, and a control beyond ASCII.
runes_run :
    runes (
      0xC3 ∷ 0xA9 ∷ 0xE2 ∷ 0x82 ∷ 0xAC ∷ 0xF0 ∷ 0x90 ∷ 0x8D ∷ 0x88 ∷ 0x80 ∷ 0xED ∷ 0xA0 ∷ 0xC2
      ∷ 0x85 ∷ [])
    ≡ 0xE9 ∷ 0x20AC ∷ 0x10348 ∷ rune_error ∷ rune_error ∷ rune_error ∷ 0x85 ∷ []
unfolding runes
runes_run = refl

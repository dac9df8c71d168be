-- ===== src/Text/Runes/Ascii.antt =====
-- An ASCII byte of a string is always a rune of it, in well-formed and in broken UTF-8 alike.
use treetop_client_go.Base.{
  All, Bytes, [], arith, if_elim, ltb, suc, take, zero, ℕ, ◌<◌, ◌∷◌, ◌≡◌, ◌≤◌,
}
use treetop_client_go.Text.Runes.{
  decode_rune, four_bytes, runes, runes_from, second_low, three_bytes, two_bytes, within,
}

abbrev High : ℕ → Type 0
High c = 0x80 ≤ c

-- A first byte below 0x80 is the rune.
pub decode_ascii : (b : ℕ) (s : Bytes) → b < 0x80 → decode_rune b s ≡ (b, 0)
unfolding decode_rune
decode_ascii b s h = ground arith

two_bytes-High : (b : ℕ) (s : Bytes) → All High (take (two_bytes b s).1 s)
unfolding two_bytes within
two_bytes-High b [] = tt
two_bytes-High b (c ∷ s) = ground arith

second_low-High : (b : ℕ) → High (second_low b)
unfolding second_low
second_low-High b = ground arith

three_bytes-High : (b : ℕ) (s : Bytes) → All High (take (three_bytes b s).1 s)
unfolding three_bytes within
three_bytes-High b (c ∷ d ∷ s) = ground (arith, second_low-High b)
three_bytes-High b _ = tt

four_bytes-High : (b : ℕ) (s : Bytes) → All High (take (four_bytes b s).1 s)
unfolding four_bytes within
four_bytes-High b (c ∷ d ∷ e ∷ s) = ground (arith, second_low-High b)
four_bytes-High b _ = tt

-- The bytes that a rune takes behind its first byte are not ASCII.
decode_rune-High : (b : ℕ) (s : Bytes) → All High (take (decode_rune b s).1 s)
unfolding decode_rune
decode_rune-High b s = if_elim P (ltb b 0x80) tt (
    if_elim P (ltb b 0xC2) tt (
      if_elim P (ltb b 0xE0) (two_bytes-High b s) (
        if_elim P (ltb b 0xF0) (three_bytes-High b s)
          (if_elim P (ltb b 0xF5) (four_bytes-High b s) tt))))
  where
    P : ℕ × ℕ → Type 0
    P r = All High (take r.1 s)

module _ (Q : ℕ → Type 0) where
  runes_from-ascii :
      (k : ℕ) (s : Bytes)
      → All High (take k s)
      → All Q (runes_from k s)
      → All (λ b. b < 0x80 → Q b) s
  unfolding runes_from
  runes_from-ascii k [] _ _ = tt
  runes_from-ascii zero (b ∷ s) _ (q, qs) = (
    (λ lt. rw (decode_ascii b s lt) at q),
    runes_from-ascii (decode_rune b s).1 s (decode_rune-High b s) qs,
  )
  runes_from-ascii (suc k) (b ∷ s) (hb, hs) qs =
      ((λ lt. absurd (omega arith)), runes_from-ascii k s hs qs)

  pub runes-ascii : (s : Bytes) → All Q (runes s) → All (λ b. b < 0x80 → Q b) s
  unfolding runes
  runes-ascii s h = runes_from-ascii 0 s tt h

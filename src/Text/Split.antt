-- ===== src/Text/Split.antt =====
-- `strings.Index`, `strings.Split` and `strings.Join` at the separator "::", with their laws.
use mathlib.Core.Option
use treetop_client_go.Base.{
  All, Bool, Bool-cases, Bytes, List, Option, Option-cases, [], arith, codes, drop, if◌then◌else◌,
  inl, inr, length, none, refl, some, suc, take, ℕ, ◌&&◌, ◌++◌, ◌+◌, ◌==◌, ◌∷◌, ◌≡◌, ◌≢◌, ◌≤◌,
}

abbrev pub colon : ℕ
colon = b':'

abbrev at_sep : ℕ → ℕ → Bool
at_sep c d = c == colon && d == colon

-- `strings.Index(s, "::")`; `none` is -1.
unfoldable pub index_sep : Bytes → Option ℕ
index_sep [] = none
index_sep (c ∷ []) = none
index_sep (c ∷ d ∷ s) =
    let later = Option.map suc (index_sep (d ∷ s)) in if at_sep c d then some 0 else later

-- One more byte at the front of the first part.
abbrev onto_first : ℕ → List Bytes → List Bytes
onto_first c [] = (c ∷ []) ∷ []
onto_first c (p ∷ ps) = (c ∷ p) ∷ ps

-- `strings.Split(s, "::")`
unfoldable pub split : Bytes → List Bytes
split [] = [] ∷ []
split (c ∷ []) = (c ∷ []) ∷ []
split (c ∷ d ∷ s) =
    let cut = [] ∷ split s in
    let longer = onto_first c (split (d ∷ s)) in if at_sep c d then cut else longer

-- `strings.Join(parts, "::")`
unfoldable pub join : List Bytes → Bytes
join [] = []
join (p ∷ []) = p
join (p ∷ q ∷ ps) = p ++ colon ∷ colon ∷ join (q ∷ ps)

split_runs : split (codes "A::b:::") ≡ codes "A" ∷ codes "b" ∷ codes ":" ∷ []
unfolding split
split_runs = refl

split_cons_ne : (c : ℕ) (s : Bytes) → c ≢ colon → split (c ∷ s) ≡ onto_first c (split s)
unfolding split
split_cons_ne c [] h = refl
split_cons_ne c (d ∷ s) h = ground arith

split_sep : (s : Bytes) → split (colon ∷ colon ∷ s) ≡ [] ∷ split s
unfolding split
split_sep s = refl

-- A text without a colon is the first part, when a separator follows it.
split_first : (p s : Bytes) → All (λ c. c ≢ colon) p → split (p ++ colon ∷ colon ∷ s) ≡ p ∷ split s
split_first [] s h = split_sep s
split_first (c ∷ p) s (n, h) = rw (split_cons_ne c _ n, split_first p s h)

split_single : (p : Bytes) → All (λ c. c ≢ colon) p → split p ≡ p ∷ []
split_single [] h = unfold split in refl
split_single (c ∷ p) (n, h) = rw (split_cons_ne c p n, split_single p h)

pub split-join : (ps : List Bytes) → ps ≢ [] → All (All (λ c. c ≢ colon)) ps → split (join ps) ≡ ps
unfolding join
split-join [] h _ = absurd (h refl)
split-join (p ∷ []) _ (hp, _) = split_single p hp
split-join (p ∷ q ∷ ps) _ (hp, hps) = rw (split_first p _ hp, split-join (q ∷ ps) (cc) hps)

pub split-ne-nil : (s : Bytes) → (p : Bytes) × (ps : List Bytes) × (split s ≡ p ∷ ps)
unfolding split
split-ne-nil [] = ([], [], refl)
split-ne-nil (c ∷ []) = (c ∷ [], [], refl)
split-ne-nil (c ∷ d ∷ s) = elim (Bool-cases (at_sep c d)) [
  | inl e ↦ ([], split s, rw e)
  | inr e ↦ let (p, ps, q) = split-ne-nil (d ∷ s) in (c ∷ p, ps, rw (e, q))
]

join-onto_first : (c : ℕ) (ps : List Bytes) → join (onto_first c ps) ≡ c ∷ join ps
unfolding join
join-onto_first c [] = refl
join-onto_first c (p ∷ []) = refl
join-onto_first c (p ∷ q ∷ ps) = refl

join_nil_cons : (s : Bytes) → join ([] ∷ split s) ≡ colon ∷ colon ∷ join (split s)
unfolding join
join_nil_cons s = let (p, ps, e) = split-ne-nil s in rw e

-- Joining the parts of a split gives the text back, for every text.
pub join-split : (s : Bytes) → join (split s) ≡ s
unfolding split
join-split [] = unfold join in refl
join-split (c ∷ []) = unfold join in refl
join-split (c ∷ d ∷ s) =
    ground
      (arith, join_nil_cons s, join-split s, join-onto_first c (split (d ∷ s)), join-split (d ∷ s))

-- The first part and the rest, as `Index` finds them.
abbrev pub parts_at : Bytes → Option ℕ → List Bytes
parts_at s none = s ∷ []
parts_at s (some i) = take i s ∷ split (drop (suc (suc i)) s)

parts_at-suc :
    (c : ℕ) (s : Bytes) (o : Option ℕ)
    → parts_at (c ∷ s) (Option.map suc o) ≡ onto_first c (parts_at s o)
parts_at-suc c s none = refl
parts_at-suc c s (some i) = refl

pub split-index_sep : (s : Bytes) → split s ≡ parts_at s (index_sep s)
unfolding split index_sep
split-index_sep [] = refl
split-index_sep (c ∷ []) = refl
split-index_sep (c ∷ d ∷ s) = elim (Bool-cases (at_sep c d)) [
  | inl e ↦ rw e
  | inr e ↦ rw e (rw (parts_at-suc c (d ∷ s) (index_sep (d ∷ s)), ← split-index_sep (d ∷ s)))
]

pub index_sep-lt : (s : Bytes) (i : ℕ) → index_sep s ≡ some i → i + 2 ≤ length s
unfolding index_sep
index_sep-lt [] i h = cc
index_sep-lt (c ∷ []) i h = cc
index_sep-lt (c ∷ d ∷ s) i h = elim (Option-cases (index_sep (d ∷ s))) [
  | inl e ↦ ground arith
  | inr (j, e) ↦ ground (arith, index_sep-lt (d ∷ s) j e)
]

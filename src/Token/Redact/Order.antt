-- ===== src/Token/Redact/Order.antt =====
-- Which values are redacted, and in which order.
use treetop_client_go.Base.{
  All, Bool, Bool-cases, Bytes, List, [], arith, bytes_eq_iff, false, if_elim, inl, inr, is_empty,
  length, ltb, refl, subst, sym, true, ℕ, ◌++◌, ◌||◌, ◌∷◌, ◌≡◌, ◌≤◌, ◌⊎◌,
}
use treetop_client_go.Token.Redact.{
  distinct_values, insert, is_seen, longest_first, redacted_values,
}

abbrev pub Occurs : Bytes → List Bytes → Type 0
Occurs v [] = ⊥
Occurs v (w ∷ ws) = (w ≡ v) ⊎ Occurs v ws

-- No value is longer than one before it, so that a secret is replaced before any part of it.
abbrev pub IsLongestFirst : List Bytes → Type 0
IsLongestFirst [] = Unit
IsLongestFirst (v ∷ vs) = All (λ w. length w ≤ length v) vs × IsLongestFirst vs

All-trans :
    (n m : ℕ) (vs : List Bytes) → n ≤ m → All (λ w. length w ≤ n) vs → All (λ w. length w ≤ m) vs
All-trans n m [] h a = tt
All-trans n m (v ∷ vs) h (p, a) = (omega arith, All-trans n m vs h a)

module _ (Q : Bytes → Type 0) where
  All-insert : (v : Bytes) (vs : List Bytes) → Q v → All Q vs → All Q (insert v vs)
  unfolding insert
  All-insert v [] p h = (p, tt)
  All-insert v (w ∷ vs) p (q, h) =
      if_elim (All Q) (ltb (length w) (length v)) (p, (q, h)) (q, All-insert v vs p h)

  All-longest_first : (vs : List Bytes) → All Q vs → All Q (longest_first vs)
  unfolding longest_first
  All-longest_first [] h = tt
  All-longest_first (v ∷ vs) (p, h) = All-insert v (longest_first vs) p (All-longest_first vs h)

insert-IsLongestFirst :
    (v : Bytes) (vs : List Bytes) → IsLongestFirst vs → IsLongestFirst (insert v vs)
unfolding insert
insert-IsLongestFirst v [] h = (tt, tt)
insert-IsLongestFirst v (w ∷ vs) (p, h) = elim (Bool-cases (ltb (length w) (length v))) [
  | inl t ↦ rw t ((ground arith, All-trans (length w) (length v) vs (ground arith) p), (p, h))
  | inr f ↦
      rw f
        (All-insert (λ u. length u ≤ length w) v vs (ground arith) p, insert-IsLongestFirst v vs h)
]

longest_first-IsLongestFirst : (vs : List Bytes) → IsLongestFirst (longest_first vs)
unfolding longest_first
longest_first-IsLongestFirst [] = tt
longest_first-IsLongestFirst (v ∷ vs) =
    insert-IsLongestFirst v (longest_first vs) (longest_first-IsLongestFirst vs)

Occurs-insert_here : (v : Bytes) (vs : List Bytes) → Occurs v (insert v vs)
unfolding insert
Occurs-insert_here v [] = inl refl
Occurs-insert_here v (w ∷ vs) =
    if_elim (Occurs v) (ltb (length w) (length v)) (inl refl) (inr (Occurs-insert_here v vs))

Occurs-insert : (u v : Bytes) (vs : List Bytes) → Occurs u vs → Occurs u (insert v vs)
unfolding insert
Occurs-insert u v [] o = absurd o
Occurs-insert u v (w ∷ vs) (inl e) =
    if_elim (Occurs u) (ltb (length w) (length v)) (inr (inl e)) (inl e)
Occurs-insert u v (w ∷ vs) (inr o) =
    if_elim (Occurs u) (ltb (length w) (length v)) (inr (inr o)) (inr (Occurs-insert u v vs o))

Occurs-longest_first : (u : Bytes) (vs : List Bytes) → Occurs u vs → Occurs u (longest_first vs)
unfolding longest_first
Occurs-longest_first u [] o = absurd o
Occurs-longest_first u (v ∷ vs) (inl e) =
    subst (λ x. Occurs x (insert v (longest_first vs))) e (Occurs-insert_here v (longest_first vs))
Occurs-longest_first u (v ∷ vs) (inr o) =
    Occurs-insert u v (longest_first vs) (Occurs-longest_first u vs o)

is_seen-Occurs : (v : Bytes) (seen : List Bytes) → is_seen v seen ≡ true → Occurs v seen
unfolding is_seen
is_seen-Occurs v [] h = cc
is_seen-Occurs v (s ∷ seen) h = ground (arith, bytes_eq_iff s v, is_seen-Occurs v seen)

Occurs-append : (u : Bytes) (vs ws : List Bytes) → Occurs u vs → Occurs u (vs ++ ws)
Occurs-append u [] ws o = absurd o
Occurs-append u (v ∷ vs) ws (inl e) = inl e
Occurs-append u (v ∷ vs) ws (inr o) = inr (Occurs-append u vs ws o)

Occurs-snoc : (u : Bytes) (vs : List Bytes) → Occurs u (vs ++ u ∷ [])
Occurs-snoc u [] = inl refl
Occurs-snoc u (v ∷ vs) = inr (Occurs-snoc u vs)

-- What was kept stays.
stays :
    (u : Bytes) (secrets done : List Bytes)
    → Occurs u done
    → Occurs u (distinct_values secrets done)
unfolding distinct_values
stays u [] done o = o
stays u (s ∷ secrets) done o =
    if_elim (Occurs u) (is_empty s || is_seen s done) (stays u secrets done o)
      (stays u secrets (done ++ s ∷ []) (Occurs-append u done (s ∷ []) o))

or_second : (a b : Bool) → a ≡ false → (a || b) ≡ true → b ≡ true
or_second a b f h = ground arith

or_first : (a b : Bool) → (a || b) ≡ false → a ≡ false
or_first a b h = ground arith

distinct_lem :
    (u : Bytes) (secrets done : List Bytes)
    → is_empty u ≡ false
    → Occurs u secrets
    → Occurs u (distinct_values secrets done)
unfolding distinct_values
distinct_lem u [] done n o = absurd o
distinct_lem u (s ∷ secrets) done n (inr o) =
    if_elim (Occurs u) (is_empty s || is_seen s done) (distinct_lem u secrets done n o)
      (distinct_lem u secrets (done ++ s ∷ []) n o)
distinct_lem u (s ∷ secrets) done n (inl e) = elim (Bool-cases (is_empty s || is_seen s done)) [
  | inl t ↦
      rw t (stays u secrets done (subst (λ x. Occurs x done) e (is_seen-Occurs s done (seen t))))
  | inr f ↦ rw f (
      stays u secrets (done ++ s ∷ [])
        (subst (λ x. Occurs x (done ++ s ∷ [])) e (Occurs-snoc s done)))
]
  where
    seen : (is_empty s || is_seen s done) ≡ true → is_seen s done ≡ true
    seen t = or_second (is_empty s) (is_seen s done) (subst (λ x. is_empty x ≡ false) (sym e) n) t

snoc_not_empty :
    (done : List Bytes) (s : Bytes)
    → is_empty s ≡ false
    → All (λ v. is_empty v ≡ false) done
    → All (λ v. is_empty v ≡ false) (done ++ s ∷ [])
snoc_not_empty [] s n h = (n, tt)
snoc_not_empty (d ∷ done) s n (p, h) = (p, snoc_not_empty done s n h)

not_empty :
    (secrets done : List Bytes)
    → All (λ v. is_empty v ≡ false) done
    → All (λ v. is_empty v ≡ false) (distinct_values secrets done)
unfolding distinct_values
not_empty [] done h = h
not_empty (s ∷ secrets) done h = elim (Bool-cases (is_empty s || is_seen s done)) [
  | inl t ↦ rw t (not_empty secrets done h)
  | inr f ↦ rw f (
      not_empty secrets (done ++ s ∷ [])
        (snoc_not_empty done s (or_first (is_empty s) (is_seen s done) f) h))
]

-- A secret that is not empty is among the values that are redacted; none of these is empty, and none
-- stands behind a shorter one.
pub redacted_values_lem :
    (secrets : List Bytes) (u : Bytes)
    → is_empty u ≡ false
    → Occurs u secrets
    → Occurs u (redacted_values secrets)
      × All (λ v. is_empty v ≡ false) (redacted_values secrets)
      × IsLongestFirst (redacted_values secrets)
unfolding redacted_values
redacted_values_lem secrets u n o = (
  Occurs-longest_first u (distinct_values secrets []) (distinct_lem u secrets [] n o),
  All-longest_first (λ v. is_empty v ≡ false) (distinct_values secrets [])
      (not_empty secrets [] tt),
  longest_first-IsLongestFirst (distinct_values secrets []),
)

-- ===== src/Base/Maps.antt =====
-- Maps that are filled entry by entry.
use mathlib.Core.Path.{◌≡◌, refl, sym, ◌∙◌}
use mathlib.Core.Logic.{◌≢◌}
use mathlib.Core.List.{List, [], ◌∷◌, ◌++◌, append_assoc, append-nil}
use native.Mathlib.Omega.{arith}
use treetop_client_go.Base.Lists.{All, Bytes, bytes_eq_iff, put}

module _ {ℓ} {V : Type ℓ} where
  -- The entries of one list, put into a map one after the other.
  unfoldable pub puts : List (Bytes × V) → List (Bytes × V) → List (Bytes × V)
  puts [] m = m
  puts ((k, v) ∷ entries) m = puts entries (put k v m)

  -- No entry has the name.
  abbrev pub Lacks : Bytes → List (Bytes × V) → Type 0
  Lacks k m = All (λ e. k ≢ e.0) m

  -- No two entries have the same name, as in a Go map.
  abbrev pub IsMap : List (Bytes × V) → Type 0
  IsMap [] = Unit
  IsMap ((k, v) ∷ m) = Lacks k m × IsMap m

  abbrev pub Apart : List (Bytes × V) → List (Bytes × V) → Type 0
  Apart m entries = All (λ e. Lacks e.0 m) entries

  put-Lacks : (k : Bytes) (v : V) (m : List (Bytes × V)) → Lacks k m → put k v m ≡ m ++ (k, v) ∷ []
  unfolding put
  put-Lacks k v [] h = refl
  put-Lacks k v ((j, w) ∷ m) (p, h) = ground (arith, bytes_eq_iff j k, put-Lacks k v m h)

  Lacks-snoc :
      (j k : Bytes) (v : V) (m : List (Bytes × V)) → Lacks j m → j ≢ k → Lacks j (m ++ (k, v) ∷ [])
  Lacks-snoc j k v [] h p = (p, tt)
  Lacks-snoc j k v (e ∷ m) (q, h) p = (q, Lacks-snoc j k v m h p)

  Apart-snoc :
      (k : Bytes) (v : V) (m entries : List (Bytes × V))
      → Lacks k entries
      → Apart m entries
      → Apart (m ++ (k, v) ∷ []) entries
  Apart-snoc k v m [] l h = tt
  Apart-snoc k v m (e ∷ entries) (p, l) (q, h) =
      (Lacks-snoc e.0 k v m q (λ eq. p (sym eq)), Apart-snoc k v m entries l h)

  puts-Apart :
      (entries m : List (Bytes × V))
      → Apart m entries
      → IsMap entries
      → puts entries m ≡ m ++ entries
  unfolding puts
  puts-Apart [] m h d = sym (append-nil m)
  puts-Apart ((k, v) ∷ entries) m (p, h) (l, d) =
      rw (put-Lacks k v m p)
        (puts-Apart entries (m ++ (k, v) ∷ []) (Apart-snoc k v m entries l h) d)
      ∙ append_assoc m ((k, v) ∷ []) entries

  -- A map that is copied entry by entry is the map.
  pub puts-IsMap : (m : List (Bytes × V)) → IsMap m → puts m [] ≡ m
  puts-IsMap m d = puts-Apart m [] (apart m) d
    where
      apart : (m : List (Bytes × V)) → Apart [] m
      apart [] = tt
      apart (e ∷ m) = (tt, apart m)

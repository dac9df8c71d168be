-- ===== src/Cedar/Namespaces.antt =====
-- Namespaces by segments and by path: the two constructors, the accessor and the validator agree.
use treetop_client_go.Base.{All, Bytes, List, [], ap, false, is_empty, refl, ◌↔◌, ◌∷◌, ◌≡◌, ◌≢◌}
use treetop_client_go.Errors.{>>_iff, Message, ok, pass}
use treetop_client_go.Text.Split.{colon, join, join-split, split, split-join}
use treetop_client_go.Validation.Identifier.{IsIdentifier, identifier_no_colon}
use treetop_client_go.Validation.Path.{validate_cedar_path_iff, validate_namespace_iff}
use treetop_client_go.Cedar.{Namespace, new_namespace, parse_namespace, segments, validate_ns}

-- `NewNamespace` succeeds exactly on lists of Cedar identifiers, and then stores their path.
pub new_namespace_iff :
    (ss : List Bytes) (n : Namespace)
    → (new_namespace ss ≡ ok n) ↔ (All IsIdentifier ss × (record { path = join ss } ≡ n))
unfolding new_namespace
new_namespace_iff ss n = (
  λ h. let (v, e) = (>>_iff _ _).0 h in ((validate_namespace_iff _ ss).0 v, cc e),
  λ w. (>>_iff _ _).1 ((validate_namespace_iff _ ss).1 w.0, ap ok w.1),
)

All-no_colon : (ss : List Bytes) → All IsIdentifier ss → All (All (λ c. c ≢ colon)) ss
All-no_colon [] h = tt
All-no_colon (s ∷ ss) (p, h) = (identifier_no_colon s p, All-no_colon ss h)

join-not_empty : (s : Bytes) (ss : List Bytes) → IsIdentifier s → is_empty (join (s ∷ ss)) ≡ false
unfolding join
join-not_empty [] ss (_, h) = absurd h
join-not_empty (c ∷ s) [] h = refl
join-not_empty (c ∷ s) (t ∷ ss) h = refl

segments-join : (ss : List Bytes) → All IsIdentifier ss → segments (record { path = join ss }) ≡ ss
unfolding segments
segments-join [] h = unfold join in refl
segments-join (s ∷ ss) h =
    rw (join-not_empty s ss h.0) (split-join (s ∷ ss) (cc) (All-no_colon (s ∷ ss) h))

-- A namespace that was constructed from segments gives the same segments back.
pub segments-new_namespace :
    (ss : List Bytes) (n : Namespace) → new_namespace ss ≡ ok n → segments n ≡ ss
segments-new_namespace ss n h =
    let (v, e) = (new_namespace_iff ss n).0 h in rw (← e) (segments-join ss v)

join-segments_path : (p : Bytes) → join (segments (record { path = p })) ≡ p
unfolding segments
join-segments_path [] = unfold join in refl
join-segments_path (c ∷ s) = join-split (c ∷ s)

-- Joining the segments of a namespace gives its path back, whatever the path is.
pub join-segments : (n : Namespace) → join (segments n) ≡ n.path
join-segments n = join-segments_path n.path

abbrev at_path : Bytes → Namespace
at_path p = record { path = p }

validate_ns_path :
    (field : Message) (p : Bytes)
    → (validate_ns field (at_path p) ≡ pass) ↔ (parse_namespace p ≡ ok (at_path p))
unfolding validate_ns parse_namespace
validate_ns_path field [] = (λ h. refl, λ h. refl)
validate_ns_path field (c ∷ s) = (
  λ h.
      (new_namespace_iff (split (c ∷ s)) (at_path (c ∷ s))).1
        ((validate_cedar_path_iff field (c ∷ s)).0 h, ap at_path (join-split (c ∷ s))),
  λ h.
      (validate_cedar_path_iff field (c ∷ s)).1
        ((new_namespace_iff (split (c ∷ s)) (at_path (c ∷ s))).0 h).0,
)

-- The validator accepts a namespace exactly when parsing its text gives the namespace back.
pub validate_ns_iff :
    (field : Message) (n : Namespace)
    → (validate_ns field n ≡ pass) ↔ (parse_namespace n.path ≡ ok n)
validate_ns_iff field n = validate_ns_path field n.path

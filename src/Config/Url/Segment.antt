-- ===== src/Config/Url/Segment.antt =====
-- The endpoint of the policies of a user has the user as one segment.
use treetop_client_go.Validation.{validate_entity_id}
use treetop_client_go.Errors.Ensures.{ok_inj}
use treetop_client_go.Errors.{>>_iff, ok, refuse_if_iff, text}
use mathlib.Core.List.{append_assoc, append-nil}
use treetop_client_go.Base.{
  All, Bool-cases, Bytes, [], ap, codes, false, if◌then◌else◌, inl, inr, is_empty, refl, sym, ◌++◌,
  ◌==◌, ◌∙◌, ◌∷◌, ◌≡◌, ◌≢◌,
}
use treetop_client_go.Config.Url.{Url, Urls, endpoint, trim_suffix, user_policies_endpoint}
use treetop_client_go.Config.Url.Safe.{IsBase, dots_lem, endpoint-root, policies_lem}

abbrev pub NoSlash : Bytes → Type 0
NoSlash s = All (λ b. (b == b'/') ≡ false) s

last_from : Bytes → Bytes → Bytes
last_from part [] = part
last_from part (b ∷ s) =
    let next = last_from [] s in
    let longer = last_from (part ++ b ∷ []) s in if b == b'/' then next else longer

-- What stands behind the last slash of a path.
pub last_segment : Bytes → Bytes
unfolding last_from
last_segment path = last_from [] path

no_slash_lem : (part s : Bytes) → NoSlash s → last_from part s ≡ part ++ s
unfolding last_from
no_slash_lem part [] h = sym (append-nil part)
no_slash_lem part (b ∷ s) (p, h) =
    rw p (no_slash_lem (part ++ b ∷ []) s h ∙ append_assoc part (b ∷ []) s)

last_from-append : (part path s : Bytes) → last_from part (path ++ b'/' ∷ s) ≡ last_from [] s
unfolding last_from
last_from-append part [] s = refl
last_from-append part (b ∷ path) s = elim (Bool-cases (b == b'/')) [
  | inl t ↦ rw t (last_from-append [] path s)
  | inr f ↦ rw f (last_from-append (part ++ b ∷ []) path s)
]

last_segment-append : (path s : Bytes) → NoSlash s → last_segment (path ++ b'/' ∷ s) ≡ s
unfolding last_segment
last_segment-append path s h = last_from-append [] path s ∙ no_slash_lem [] s h

-- What package net/url documents of `PathEscape` and of its inverse `PathUnescape`: an escaped text can
-- stand in one path segment, and dot segments have no escapes.
abbrev pub IsPathEscape : (Bytes → Bytes) → (Bytes → Bytes) → Type 0
IsPathEscape escape unescape =
    ((s : Bytes) → NoSlash (escape s))
    × ((s : Bytes) → unescape (escape s) ≡ s)
    × (unescape [] ≡ [])
    × (unescape (codes ".") ≡ codes ".")
    × (unescape (codes "..") ≡ codes "..")

-- On the host of the base, with the fixed part and the user behind its path, and in the escaped path
-- one segment that stands for the user, is not empty and is no dot segment.
abbrev pub IsBelow : (Bytes → Bytes) → Url → Bytes → Url → Type 0
IsBelow unescape base user u =
    (u.scheme ≡ base.scheme)
    × (u.host ≡ base.host)
    × (u.path ≡ base.path ++ (codes "api/v1/policies/" ++ user))
    × (u.raw_query ≡ [])
    × (unescape (last_segment u.raw_path) ≡ user)
    × (last_segment u.raw_path ≢ [])
    × (last_segment u.raw_path ≢ codes ".")
    × (last_segment u.raw_path ≢ codes "..")

-- A segment that stands for another text than one that has no escapes is not that one.
apart :
    (unescape : Bytes → Bytes) (x s user : Bytes)
    → unescape x ≡ x
    → unescape s ≡ user
    → user ≢ x
    → s ≢ x
apart unescape x s user fixed e n h = n (sym e ∙ ap unescape h ∙ fixed)

not_empty_lem : (s : Bytes) → is_empty s ≡ false → s ≢ []
not_empty_lem s h e = cc (h, ap is_empty e)

-- Below a plain base URL, the endpoint of the policies of a user is on the host of the base, and its
-- decoded path is that of the base, the fixed part and the user. The last segment of its escaped path
-- stands for the whole user, slashes included, and is neither empty nor a dot segment. `PathEscape`
-- gives texts without slashes, `PathUnescape` undoes it, and neither the empty text nor a dot segment
-- stands for another text.
pub user_policies_endpoint-IsBelow :
    (urls : Urls) (unescape : Bytes → Bytes) (base : Url) (user : Bytes) (u : Url)
    → IsPathEscape urls.path_escape unescape
    → IsBase base
    → user_policies_endpoint urls base user ≡ ok u
    → IsBelow unescape base user u
unfolding user_policies_endpoint
user_policies_endpoint-IsBelow urls unescape base user u (one, inverse, blank, dot, dots) b h =
    let (_, h1) = (>>_iff (validate_entity_id (text "user policies user") user) _).0 h in
    let (d, e) = (refuse_if_iff _ _ _).0 h1 in
    let (n0, n1, n2) = dots_lem urls user d in
    let last : last_segment u.raw_path ≡ urls.path_escape user =
      sym (ap (λ (v : Url). last_segment v.raw_path) (ok_inj e))
      ∙ last_segment-append
          (trim_suffix (urls.escaped_path (endpoint urls base (codes "policies/"))))
          (urls.path_escape user) (one user) in
    let stands : unescape (last_segment u.raw_path) ≡ user = ap unescape last ∙ inverse user in
    let same = sym (ok_inj e) in
    (
      ap (λ (v : Url). v.scheme) same ∙ (endpoint-root urls base).0,
      ap (λ (v : Url). v.host) same ∙ (endpoint-root urls base).1,
      ap (λ (v : Url). v.path) same ∙ policies_lem urls base user b,
      ap (λ (v : Url). v.raw_query) same ∙ (endpoint-root urls base).2,
      stands,
      apart unescape [] _ user blank stands (not_empty_lem user n0),
      apart unescape (codes ".") _ user dot stands n1,
      apart unescape (codes "..") _ user dots stands n2,
    )

-- ===== src/Config/Url/Safe.antt =====
-- Base URLs are plain, and endpoints stay below them.
use treetop_client_go.Errors.Ensures.{ok_inj}
use treetop_client_go.Errors.{>>=-eq-ok, ok, refuse_if_iff}
use mathlib.Core.List.{append_assoc}
use treetop_client_go.Base.{
  Bool, Bool-cases, Bytes, [], ap, arith, bytes_eq, bytes_eq_iff, codes, false, if◌then◌else◌, inl,
  inr, is_empty, not, refl, sym, true, ◌&&◌, ◌++◌, ◌==◌, ◌||◌, ◌∙◌, ◌∷◌, ◌≡◌, ◌≢◌, ◌⊎◌,
}
use treetop_client_go.Config.Url.{
  Url, Urls, endpoint, parse_base_url, root_endpoint, secure_credential_transport, trim_prefix,
  trim_right, trim_suffix, wrap_parse,
}

abbrev slash : Bytes
slash = b'/' ∷ []

-- A path that ends in one slash, and not in more.
abbrev pub IsFolder : Bytes → Type 0
IsFolder p = (q : Bytes) × (trim_right q ≡ q) × (p ≡ q ++ slash)

-- An HTTP URL with a host, without credentials, query or fragment, whose path is a folder.
abbrev pub IsBase : Url → Type 0
IsBase u =
    ((u.scheme ≡ codes "http") ⊎ (u.scheme ≡ codes "https"))
    × (is_empty u.host ≡ false)
    × (u.opaque ≡ [])
    × (u.has_user ≡ false)
    × (u.raw_query ≡ [])
    × (u.force_query ≡ false)
    × (u.fragment ≡ [])
    × IsFolder u.path

trim_right-trim_right : (s : Bytes) → trim_right (trim_right s) ≡ trim_right s
unfolding trim_right
trim_right-trim_right [] = refl
trim_right-trim_right (b ∷ s) = elim (Bool-cases (is_empty (trim_right s) && b == b'/')) [
  | inl t ↦ rw t refl
  | inr f ↦ rw f (rw (trim_right-trim_right s, f) refl)
]

trim_suffix-slash : (q : Bytes) → trim_suffix (q ++ slash) ≡ q
unfolding trim_suffix
trim_suffix-slash [] = refl
trim_suffix-slash (b ∷ []) = refl
trim_suffix-slash (b ∷ c ∷ q) = ap (λ s. b ∷ s) (trim_suffix-slash (c ∷ q))

empty_lem : (s : Bytes) → not (is_empty s) ≡ false → s ≡ []
empty_lem [] h = refl
empty_lem (b ∷ s) h = cc

scheme_lem :
    (s : Bytes)
    → (not (bytes_eq s (codes "http")) && not (bytes_eq s (codes "https"))) ≡ false
    → (s ≡ codes "http") ⊎ (s ≡ codes "https")
scheme_lem s h = elim (Bool-cases (bytes_eq s (codes "http"))) [
  | inl t ↦ inl ((bytes_eq_iff s (codes "http")).0 t)
  | inr f ↦ inr ((bytes_eq_iff s (codes "https")).0 (ground arith))
]

or_false : (a b : Bool) → (a || b) ≡ false → (a ≡ false) × (b ≡ false)
or_false a b h = ground arith

or_false₃ : (a b c : Bool) → (a || b || c) ≡ false → (a ≡ false) × (b ≡ false) × (c ≡ false)
or_false₃ a b c h = ground arith

abbrev as_folder : Url → Url
as_folder u = record u {
  path = trim_right u.path ++ slash;
  raw_path = if is_empty u.raw_path then u.raw_path else trim_right u.raw_path ++ slash;
}

module _ (urls : Urls) where
  -- A base URL that is accepted is an HTTP URL with a host, without credentials, query or fragment,
  -- whose path ends in one slash.
  pub parse_base_url-IsBase :
      (value : Bytes) (u : Url) → parse_base_url urls value ≡ ok u → IsBase u
  unfolding parse_base_url
  parse_base_url-IsBase value u h =
      let (v, _, h1) = >>=-eq-ok (wrap_parse urls (urls.parse_url (urls.trim_space value))) _ h in
      let (s, h2) = (refuse_if_iff _ _ _).0 h1 in
      let (a, h3) = (refuse_if_iff _ _ _).0 h2 in
      let (n, h4) = (refuse_if_iff _ _ _).0 h3 in
      let (q, e) = (refuse_if_iff _ _ _).0 h4 in
      let (host, opaque) = or_false (is_empty v.host) (not (is_empty v.opaque)) a in
      let (query, force, fragment) =
        or_false₃ (not (is_empty v.raw_query)) v.force_query (not (is_empty v.fragment)) q in
      let same : as_folder v ≡ u = ok_inj e in
      rw (← same) (
        scheme_lem v.scheme s,
        host,
        empty_lem v.opaque opaque,
        n,
        empty_lem v.raw_query query,
        force,
        empty_lem v.fragment fragment,
        (trim_right v.path, trim_right-trim_right v.path, refl),
      )

  folder_lem : (p : Bytes) → IsFolder p → trim_suffix p ++ slash ≡ p
  folder_lem p (q, _, e) = rw (e, trim_suffix-slash q) refl

  below : (p path : Bytes) → IsFolder p → trim_suffix p ++ b'/' ∷ path ≡ p ++ path
  below p path h =
      sym (append_assoc (trim_suffix p) slash path) ∙ ap (λ s. s ++ path) (folder_lem p h)

  pub endpoint-path :
      (base : Url) (path : Bytes)
      → IsBase base
      → (endpoint urls base path).path ≡ base.path ++ (codes "api/v1/" ++ trim_prefix path)
  unfolding endpoint root_endpoint trim_prefix
  endpoint-path base path b = below base.path _ (b.7)

  pub dots_lem :
      (s : Bytes)
      → (is_empty s || bytes_eq s (codes ".") || bytes_eq s (codes "..")) ≡ false
      → (is_empty s ≡ false) × (s ≢ codes ".") × (s ≢ codes "..")
  dots_lem s h = ground (arith, bytes_eq_iff s (codes "."), bytes_eq_iff s (codes ".."))

  pub endpoint-root :
      (base : Url)
      → ((endpoint urls base (codes "policies/")).scheme ≡ base.scheme)
        × ((endpoint urls base (codes "policies/")).host ≡ base.host)
        × ((endpoint urls base (codes "policies/")).raw_query ≡ [])
  unfolding endpoint root_endpoint
  endpoint-root base = (refl, refl, refl)

  pub policies_lem :
      (base : Url) (user : Bytes)
      → IsBase base
      → trim_suffix (endpoint urls base (codes "policies/")).path ++ b'/' ∷ user
        ≡ base.path ++ (codes "api/v1/policies/" ++ user)
  unfolding trim_prefix
  policies_lem base user b =
      ap (λ p. trim_suffix p ++ b'/' ∷ user)
        (endpoint-path base (codes "policies/") b
          ∙ sym (append_assoc base.path (codes "api/v1/policies") slash))
      ∙ ap (λ p. p ++ b'/' ∷ user) (trim_suffix-slash (base.path ++ codes "api/v1/policies"))
      ∙ append_assoc base.path (codes "api/v1/policies") (b'/' ∷ user)

-- The transport that may carry an access token: TLS, or the loopback.
abbrev pub IsPrivate : Urls → Url → Type 0
IsPrivate urls u =
    (u.scheme ≡ codes "https")
    ⊎ (urls.equal_fold (urls.hostname u) (codes "localhost") ≡ true)
    ⊎ (urls.is_loopback (urls.hostname u) ≡ true)

pub secure_lem :
    (urls : Urls) (u : Url) → secure_credential_transport urls u false ≡ true → IsPrivate urls u
unfolding secure_credential_transport
secure_lem urls u h = ground (arith, bytes_eq_iff u.scheme (codes "https"))

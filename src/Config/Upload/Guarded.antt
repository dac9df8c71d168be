-- ===== src/Config/Upload/Guarded.antt =====
-- What holds of every uploader that a client makes.
use mathlib.Core.Bool.{false≢true}
use treetop_client_go.Config.Upload.{
  Uploader, UploaderOption, dangerously_allow_insecure_uploads, new_uploader, uploader_loop,
}
use treetop_client_go.Token.{Heap, Token, exposed, validate_upload}
use treetop_client_go.Base.{
  Bool, List, Option, [], arith, false, inl, inr, none, not, refl, some, subst, true, ℕ, ◌∙◌, ◌∷◌,
  ◌≡◌, ◌⊎◌,
}
use treetop_client_go.Errors.{>>=-eq-ok, >>_iff, ok, refuse_if_iff}
use treetop_client_go.Errors.Ensures.{ok_inj}
use treetop_client_go.Token.Destroyed.{exposed-clone}
use treetop_client_go.Config.Url.{Url, Urls, secure_credential_transport}
use treetop_client_go.Config.Url.Safe.{IsPrivate, secure_lem}
use treetop_client_go.Config.Make.{Client}

-- The options allow uploads over any transport.
abbrev pub AllowsInsecure : List (Option UploaderOption) → Type 0
AllowsInsecure [] = ⊥
AllowsInsecure (o ∷ options) =
    (o ≡ some dangerously_allow_insecure_uploads) ⊎ AllowsInsecure options

loop_lem :
    (i : ℕ) (options : List (Option UploaderOption)) (allowed result : Bool)
    → uploader_loop i options allowed ≡ ok result
    → result ≡ true
    → (allowed ≡ true) ⊎ AllowsInsecure options
unfolding uploader_loop
loop_lem i [] allowed result e t = inl (ok_inj e ∙ t)
loop_lem i (none ∷ options) allowed result e t = cc
loop_lem i (some dangerously_allow_insecure_uploads ∷ options) allowed result e t = inr (inl refl)

-- The uploader has the client that made it and a token with the bytes of the token that was given,
-- and its URL is private unless the options allow otherwise.
abbrev pub IsUploader :
    {P : Type 0}
    → Urls
    → Client P
    → Token
    → List (Option UploaderOption)
    → Heap
    → Uploader P × Heap
    → Type 0
IsUploader urls c t options h (u, h') =
    (u.client ≡ c)
    × (exposed u.token h' ≡ exposed t h)
    × (IsPrivate urls c.base_url ⊎ AllowsInsecure options)

private_lem :
    (urls : Urls) (u : Url) (options : List (Option UploaderOption)) (allowed : Bool)
    → uploader_loop 0 options false ≡ ok allowed
    → secure_credential_transport urls u allowed ≡ true
    → IsPrivate urls u ⊎ AllowsInsecure options
private_lem urls u options false e s = inl (secure_lem urls u s)
private_lem urls u options true e s = elim (loop_lem 0 options false true e refl) [
  | inl f ↦ absurd (false≢true f)
  | inr a ↦ inr a
]

-- Every uploader of a client has a token with the bytes of the token that was given, and the base URL
-- of the client is HTTPS or a loopback host, unless an option allows otherwise.
pub new_uploader-IsUploader :
    {P : Type 0} (urls : Urls) (c : Client P) (t : Token) (options : List (Option UploaderOption))
    (h : Heap) (made : Uploader P × Heap)
    → new_uploader urls (some c) t options h ≡ ok made
    → IsUploader urls c t options h made
unfolding new_uploader
new_uploader-IsUploader urls c t options h made e =
    let (_, e1) = (>>_iff (validate_upload t h) _).0 e in
    let (allowed, l, e2) = >>=-eq-ok (uploader_loop 0 options false) _ e1 in
    let (g, e3) = (refuse_if_iff _ _ _).0 e2 in
    subst (IsUploader urls c t options h) (ok_inj e3)
      (refl, exposed-clone t h, private_lem urls c.base_url options allowed l (not_false g))
  where
    not_false : {b : Bool} → not b ≡ false → b ≡ true
    not_false {b} n = ground arith

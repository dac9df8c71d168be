-- ===== src/Config/Make/Secure.antt =====
-- What holds of every client that `New` returns.
use treetop_client_go.Config.Http.Built.{build_http_client-redirects}
use treetop_client_go.Errors.Ensures.{ok_inj}
use treetop_client_go.Base.{
  Bool, Bytes, List, Option, arith, false, none, not, some, subst, true, ◌&&◌, ◌≡◌,
}
use treetop_client_go.Base.Int.{pos, ◌≤ℤ◌}
use treetop_client_go.Config.Valid.{HasBearer, IsHeader, apply_options-IsConfig}
use treetop_client_go.Token.{Heap, Token}
use treetop_client_go.Errors.{>>=-eq-ok, ok, pass, refuse_if_iff}
use treetop_client_go.Limits.{validate_request_limits}
use treetop_client_go.Config.{ClientConfig, ClientOption, apply_options, use_last_response}
use treetop_client_go.Config.Url.{Url, Urls, parse_base_url, secure_credential_transport}
use treetop_client_go.Config.Url.Safe.{IsBase, IsPrivate, parse_base_url-IsBase, secure_lem}
use treetop_client_go.Config.Http.{Trust, build_http_client}
use treetop_client_go.Config.Make.{Client, has_token, new_client}

-- A token goes over such a transport, unless the caller has allowed any.
abbrev pub TokenIsSafe : Urls → Bool → Url → Option Token → Type 0
TokenIsSafe urls allowed u none = Unit
TokenIsSafe urls true u (some t) = Unit
TokenIsSafe urls false u (some t) = IsPrivate urls u

token_lem :
    (urls : Urls) (allowed : Bool) (u : Url) (t : Option Token)
    → (has_token t && not (secure_credential_transport urls u allowed)) ≡ false
    → TokenIsSafe urls allowed u t
unfolding has_token
token_lem urls allowed u none h = tt
token_lem urls true u (some t) h = tt
token_lem urls false u (some t) h = secure_lem urls u (ground arith)

module _ {P : Type 0} where
  -- Sizes are positive, and what goes into headers can stand there.
  abbrev pub IsClient : Client P → Heap → Type 0
  IsClient c h =
      IsBase c.base_url
      × (c.http.check_redirect ≡ use_last_response)
      × (pos 1 ≤ℤ c.max_request_bytes)
      × (pos 1 ≤ℤ c.max_response_bytes)
      × (validate_request_limits c.request_limits ≡ pass)
      × HasBearer c.access_token h
      × IsHeader c.correlation_id
      × IsHeader c.user_agent

  abbrev pub IsMade : Urls → List (Option (ClientOption P)) → Heap → Client P × Heap → Type 0
  IsMade urls options h (client, h') =
      IsClient client h'
      × ((c : ClientConfig P) × (apply_options options h ≡ ok (c, h'))
          × TokenIsSafe urls c.allow_insecure_access client.base_url client.access_token)

  -- Every client that `New` returns has a plain HTTP base URL, refuses redirects, has positive size
  -- limits and accepted batch limits, has header texts that are valid and a token, if any, that is a
  -- bearer token; and with a token the URL is HTTPS or a loopback host, unless the options allow
  -- otherwise.
  pub new_client-IsMade :
      (urls : Urls) (trust : Trust P) (base_url : Bytes) (options : List (Option (ClientOption P)))
      (h : Heap) (made : Client P × Heap)
      → new_client urls trust base_url options h ≡ ok made
      → IsMade urls options h made
  unfolding new_client
  new_client-IsMade urls trust base_url options h made e =
      let (base, p, e1) = >>=-eq-ok (parse_base_url urls base_url) _ e in
      let (s, o, e2) = >>=-eq-ok (apply_options options h) _ e1 in
      let (g, e3) = (refuse_if_iff _ _ _).0 e2 in
      let (http, b, e4) = >>=-eq-ok (build_http_client trust s.0) _ e3 in
      let (times, sizes, texts, bearer) = apply_options-IsConfig options h s o in
      subst (IsMade urls options h) (ok_inj e4) (
        (
          parse_base_url-IsBase urls base_url base p,
          build_http_client-redirects trust s.0 http b,
          sizes.0,
          sizes.1,
          sizes.2,
          bearer,
          texts.2,
          texts.1,
        ),
        (s.0, o, token_lem urls (s.0).allow_insecure_access base (s.0).access_token g),
      )

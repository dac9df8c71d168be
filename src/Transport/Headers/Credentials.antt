-- ===== src/Transport/Headers/Credentials.antt =====
-- Which credentials a request carries.
use treetop_client_go.Base.{
  Bool, Bytes, Option, [], bytes_eq, bytes_eq_iff, codes, false, if◌then◌else◌, lookup, lookup-put,
  none, refl, some, true, ◌++◌, ◌∙◌, ◌≡◌,
}
use treetop_client_go.Token.{Heap, Token, exposed}
use treetop_client_go.Transport.Headers.{
  Header, RequestSpec, Sender, bearer, new_headers, nonempty, set_given, upload,
}

-- Another name keeps its value.
skip :
    (name j : Bytes) (v : Option Bytes) (h : Header)
    → bytes_eq name j ≡ false
    → lookup j (set_given name v h) ≡ lookup j h
unfolding set_given
skip name j none h e = refl
skip name j (some v) h e = lookup-put name j v h ∙ rw e

hit :
    (name : Bytes) (v : Option Bytes) (h : Header)
    → lookup name h ≡ none
    → lookup name (set_given name v h) ≡ v
unfolding set_given
hit name none h e = e
hit name (some v) h e = lookup-put name name v h ∙ rw ((bytes_eq_iff name name).1 refl)

-- The four headers that are no credentials.
abbrev plain_headers : Sender → RequestSpec → Header
plain_headers c spec = set_given (codes "x-correlation-id") (nonempty c.correlation_id) (
    set_given (codes "User-Agent") (nonempty c.user_agent) (
      set_given (codes "Accept") (nonempty spec.accept)
        (set_given (codes "Content-Type") (nonempty spec.content_type) [])))

no_credential :
    (c : Sender) (spec : RequestSpec) (j : Bytes)
    → bytes_eq (codes "x-correlation-id") j ≡ false
    → bytes_eq (codes "User-Agent") j ≡ false
    → bytes_eq (codes "Accept") j ≡ false
    → bytes_eq (codes "Content-Type") j ≡ false
    → lookup j (plain_headers c spec) ≡ none
unfolding lookup
no_credential c spec j h1 h2 h3 h4 =
    skip _ j _ _ h1 ∙ skip _ j _ _ h2 ∙ skip _ j _ _ h3 ∙ skip _ j _ _ h4

authorization_lem :
    (c : Sender) (spec : RequestSpec) (heap : Heap)
    → lookup (codes "Authorization") (new_headers c spec heap)
      ≡ bearer spec.protected c.access_token heap
unfolding new_headers bytes_eq
authorization_lem c spec heap =
    skip _ (codes "Authorization") _ _ refl
    ∙ hit (codes "Authorization") _ _
        (no_credential c spec (codes "Authorization") refl refl refl refl)

upload_lem :
    (c : Sender) (spec : RequestSpec) (heap : Heap)
    → lookup (codes "X-Upload-Token") (new_headers c spec heap) ≡ upload spec.upload_token heap
unfolding new_headers bytes_eq
upload_lem c spec heap = hit (codes "X-Upload-Token") _ _ (
    skip _ (codes "X-Upload-Token") _ _ refl
    ∙ no_credential c spec (codes "X-Upload-Token") refl refl refl refl)

-- The text of the header that a token is sent in, with the token.
abbrev IsSent : Option Token → Bytes → Heap → Option Bytes → Type 0
IsSent none prefix heap header = header ≡ none
IsSent (some t) prefix heap header = header ≡ some (prefix ++ exposed t heap)

bearer-IsSent :
    (protected : Bool) (o : Option Token) (heap : Heap)
    → IsSent (if protected then o else none) (codes "Bearer ") heap (bearer protected o heap)
unfolding bearer
bearer-IsSent false o heap = refl
bearer-IsSent true none heap = refl
bearer-IsSent true (some t) heap = refl

upload-IsSent : (o : Option Token) (heap : Heap) → IsSent o [] heap (upload o heap)
unfolding upload
upload-IsSent none heap = refl
upload-IsSent (some t) heap = refl

-- The access token is sent on protected requests alone, as a Bearer token, and the upload token on
-- the requests that name one; a client or a request without a token sends none.
pub new_headers-IsSent :
    (c : Sender) (spec : RequestSpec) (heap : Heap)
    → IsSent
        (if spec.protected then c.access_token else none)
        (codes "Bearer ")
        heap
        (lookup (codes "Authorization") (new_headers c spec heap))
      × IsSent spec.upload_token [] heap (lookup (codes "X-Upload-Token") (new_headers c spec heap))
new_headers-IsSent c spec heap = (
  rw authorization_lem (bearer-IsSent spec.protected c.access_token heap),
  rw upload_lem (upload-IsSent spec.upload_token heap),
)

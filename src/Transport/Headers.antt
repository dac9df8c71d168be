-- ===== src/Transport/Headers.antt =====
-- transport.go: the headers that `newRequest` sets.
pub mod Credentials
use treetop_client_go.Base.{
  Bool, Bytes, List, Option, [], codes, if◌then◌else◌, is_empty, none, put, some, true, ◌++◌,
}
use treetop_client_go.Token.{Heap, Token, exposed, token_runs}

-- The fields of `Client` that a request carries.
pub record Sender : Type 0 where
  pub access_token : Option Token
  pub correlation_id : Bytes
  pub user_agent : Bytes

-- `requestSpec`, as far as the headers depend on it.
pub record RequestSpec : Type 0 where
  pub content_type : Bytes
  pub accept : Bytes
  pub protected : Bool
  pub upload_token : Option Token

abbrev pub Header : Type 0
Header = List (Bytes × Bytes)

-- `Header.Set`, where there is a value to set. No two of the names differ in case alone.
set_given : Bytes → Option Bytes → Header → Header
set_given name none h = h
set_given name (some value) h = put name value h

-- `value != ""`
nonempty : Bytes → Option Bytes
nonempty value = if is_empty value then none else some value

bearer : Bool → Option Token → Heap → Option Bytes
bearer true (some t) heap = some (codes "Bearer " ++ exposed t heap)
bearer _ _ heap = none

upload : Option Token → Heap → Option Bytes
upload none heap = none
upload (some t) heap = some (exposed t heap)

pub new_headers : Sender → RequestSpec → Heap → Header
new_headers c spec heap = set_given (codes "X-Upload-Token") (upload spec.upload_token heap) (
    set_given (codes "Authorization") (bearer spec.protected c.access_token heap) (
      set_given (codes "x-correlation-id") (nonempty c.correlation_id) (
        set_given (codes "User-Agent") (nonempty c.user_agent) (
          set_given (codes "Accept") (nonempty spec.accept)
            (set_given (codes "Content-Type") (nonempty spec.content_type) [])))))

-- The definitions of this file, for a test by evaluation.
unfoldable pub header_runs : Unit {0}
unfolding token_runs set_given nonempty bearer upload new_headers
header_runs = tt

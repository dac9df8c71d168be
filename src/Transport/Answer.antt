-- ===== src/Transport/Answer.antt =====
-- transport.go: what `decodeJSON` and `decodeText` make of a response, and `apiError`.
use treetop_client_go.Base.{
  Bool, Bytes, List, Option, [], false, if◌then◌else◌, is_empty, none, not, some, true, ◌&&◌, ◌++◌,
  ◌||◌, ◌∷◌,
}
use treetop_client_go.Base.Int.{leb_ℤ, ltb_ℤ, pos, ℤ}
use treetop_client_go.Errors.{
  Check, Err, ErrorDetails, Errs, Result, api, arg, build, cons, err, invalid_response, lit, nil,
  num, ok, pass, refuse_if, response_too_large, text, wrap, wrapped, ◌>>=◌, ◌>>◌,
}
use treetop_client_go.Text.Runes.Utf8.{valid_utf8}
use treetop_client_go.Token.Redact.{redact_secrets}
use treetop_client_go.Transport.Read.{HttpResponse, read_bounded}
pub mod Whole

-- A response with its status. What package json and `strings.ToValidUTF8` make of a body are parameters.
pub record Answer : Type 0 where
  pub status_code : ℤ
  pub response : HttpResponse

-- The fields of `envelope` as `json.Unmarshal` leaves them, which may fail and leave some of them set.
pub record Envelope : Type 0 where
  pub accepted : Bool
  pub error : Bytes
  pub code : Bytes
  pub details : Option ErrorDetails

pub record Reader : Type 0 where
  pub max_response_bytes : ℤ
  pub to_valid_utf8 : Bytes → Bytes
  pub unmarshal : Bytes → Envelope
  pub replace : List (Bytes × Bytes) → Bytes → Bytes

-- What the second `Decode` of a decoder gives.
pub data Trailing : Type 0 where
  at_end another_value : Trailing
  no_value : Err → Trailing

-- The two calls of `Decode`, and `validateResponse` of the target, which passes where there is none.
pub record Target {ℓ} (A : Type ℓ) : Type ℓ where
  pub decode : Bytes → Result A
  pub trailing : Bytes → Trailing
  pub validate_value : A → Check

abbrev pub default_error_body_bytes : ℤ
default_error_body_bytes = pos 65536

-- Whether the status is 2xx.
abbrev is_2xx : ℤ → Bool
is_2xx status = not (ltb_ℤ status (pos 200) || leb_ℤ (pos 300) status)

-- `errors.As(err, &tooLarge)`
mutual
  is_too_large : Err → Bool
  is_too_large (response_too_large limit) = true
  is_too_large (wrapped m e) = is_too_large e
  is_too_large (build es) = any_too_large es
  is_too_large _ = false

  any_too_large : Errs → Bool
  any_too_large nil = false
  any_too_large (cons e es) = is_too_large e || any_too_large es

too_long : ℤ → Err
too_long status = api (record {
  status_code = status;
  code = [];
  message = lit "response error body exceeded " ∷ num default_error_body_bytes ∷ lit " bytes" ∷ [];
  details = none;
})

secret_of : Option Bytes → List Bytes
secret_of none = []
secret_of (some s) = s ∷ []

error_message : Reader → Bytes → Bytes
error_message reader body =
    let envelope = reader.unmarshal body in
    if envelope.accepted && not (is_empty envelope.error)
    then envelope.error
    else reader.to_valid_utf8 body

server_error : Reader → ℤ → List Bytes → Bytes → Err
server_error reader status secrets body =
    let envelope = reader.unmarshal body in
    api (record {
      status_code = status;
      code = redact_secrets reader.replace envelope.code secrets;
      message = arg (redact_secrets reader.replace (error_message reader body) secrets) ∷ [];
      details = envelope.details;
    })

-- The error for what `readBounded` gave.
error_of : Reader → ℤ → List Bytes → Result Bytes → Err
error_of reader status secrets (ok body) = server_error reader status secrets body
error_of reader status secrets (err e) = if is_too_large e then too_long status else e

-- The bytes of the access token of the client and of the upload token, where they are there.
pub api_error : Reader → Option Bytes → Option Bytes → Answer → Err
api_error reader access upload answer =
    error_of reader answer.status_code (secret_of access ++ secret_of upload)
      (read_bounded answer.response default_error_body_bytes)

only_value : Trailing → Check
only_value at_end = pass
only_value another_value =
    err (invalid_response (text "response contains more than one JSON value"))
only_value (no_value e) = err (wrapped (text "treetop: decode trailing response JSON") e)

pub decode_json {ℓ} :
    {A : Type ℓ} → Reader → Target A → Option Bytes → Option Bytes → Answer → Result A
decode_json reader target access upload answer = do
  refuse_if (not (is_2xx answer.status_code)) (api_error reader access upload answer)
  body ← read_bounded answer.response reader.max_response_bytes
  value ← wrap (text "treetop: decode response JSON") (target.decode body)
  only_value (target.trailing body)
  target.validate_value value
  ok value

pub read_text : Reader → Answer → Result Bytes
read_text reader answer = do
  body ← read_bounded answer.response reader.max_response_bytes
  refuse_if (not (valid_utf8 body))
      (invalid_response (text "successful text response is not valid UTF-8"))
  ok body

pub decode_text : Reader → Option Bytes → Option Bytes → Answer → Result Bytes
decode_text reader access upload answer = do
  refuse_if (not (is_2xx answer.status_code)) (api_error reader access upload answer)
  read_text reader answer

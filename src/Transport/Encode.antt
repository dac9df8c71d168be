-- ===== src/Transport/Encode.antt =====
-- transport.go: `encodeJSONBounded`, its `limitedBuffer`, and `validateRawBody`.
-- The encoder of encoding/json is an argument: `encode value` is the text that `Encoder.Encode` hands
-- to its writer in one call of `Write`, or `none` where the value cannot be encoded.
use treetop_client_go.Base.{
  Bytes, Option, [], arith, if◌then◌else◌, length, none, some, ◌++◌, ◌+◌, ◌↔◌, ◌≡◌,
}
use treetop_client_go.Base.Int.{ltb_ℤ, pos, ℤ, ◌≤ℤ◌}
use treetop_client_go.Errors.{
  Check, Result, err, external, ok, refuse_if, request_too_large, text, wrapped,
}

pub record LimitedBuffer : Type 0 where
  pub bytes : Bytes
  pub limit : ℤ

-- `limitedBuffer.Write`; `none` is `errSizeLimit`. The source tests len(value) > limit - len(buffer).
pub write : LimitedBuffer → Bytes → Option LimitedBuffer
write b value =
    if ltb_ℤ b.limit (pos (length value + length b.bytes))
    then none
    else some (record b { bytes = b.bytes ++ value })

written : ℤ → Option LimitedBuffer → Result Bytes
written limit none = err (request_too_large limit)
written limit (some b) = ok b.bytes

encoded_text : ℤ → Option Bytes → Result Bytes
encoded_text limit none =
    err (wrapped (text "treetop: encode request JSON") (external (text "json")))
encoded_text limit (some out) = written limit (write (record { bytes = []; limit = limit }) out)

pub encode_json_bounded {ℓ} : {A : Type ℓ} → (A → Option Bytes) → A → ℤ → Result Bytes
encode_json_bounded encode value limit = encoded_text limit (encode value)

pub validate_raw_body : ℤ → ℤ → Check
validate_raw_body size limit = refuse_if (ltb_ℤ limit size) (request_too_large limit)

encoded_text_iff :
    (limit : ℤ) (o : Option Bytes) (out : Bytes)
    → (encoded_text limit o ≡ ok out) ↔ ((o ≡ some out) × (pos (length out) ≤ℤ limit))
unfolding encoded_text written write
encoded_text_iff limit none out = ground arith
encoded_text_iff limit (some x) out = ground arith

-- A body is encoded exactly when the encoder gives it and it fits the limit; it is then unchanged.
pub encode_json_bounded_iff {ℓ} :
    {A : Type ℓ} (encode : A → Option Bytes) (value : A) (limit : ℤ) (out : Bytes)
    → (encode_json_bounded encode value limit ≡ ok out)
      ↔ ((encode value ≡ some out) × (pos (length out) ≤ℤ limit))
unfolding encode_json_bounded
encode_json_bounded_iff encode value limit out = encoded_text_iff limit (encode value) out

-- The definitions of this file, for a test by evaluation.
unfoldable pub encode_runs : Unit {0}
unfolding write written encoded_text encode_json_bounded validate_raw_body
encode_runs = tt

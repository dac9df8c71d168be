-- ===== src/Limits.antt =====
-- response_types.go: `RequestLimits`; authorization_request.go: `validateLimits`.
pub mod Within
use treetop_client_go.Base.{
  Bool, Bytes, List, Option, [], if◌then◌else◌, length, ltb, ℕ, ◌*◌, ◌+◌, ◌^◌, ◌||◌, ◌∷◌,
}
use treetop_client_go.Base.Int.{leb_ℤ, less_one, ltb_ℤ, max_int64, pos, suc_ℤ, ℤ}
use treetop_client_go.Errors.{
  Check, Err, Message, Result, configuration, err, lit, num, ok, pass, refuse_if, request_too_large,
  text, validation, wrapped, ◌>>=◌, ◌>>◌,
}
use treetop_client_go.Attr.{attr_depth, size}
use treetop_client_go.Request.{Attrs}
use treetop_client_go.Batch.{AuthRequest, batch_runs}
use treetop_client_go.Wire.{AttrMapWire, to_attr_map_wire}
use treetop_client_go.Transport.Encode.{encode_json_bounded}

pub record RequestLimits : Type 0 where
  pub max_batch_size : ℤ
  pub max_context_bytes : ℤ
  pub max_context_depth : ℤ
  pub max_context_keys : ℤ

pub default_request_limits : RequestLimits
default_request_limits = record {
  max_batch_size = pos 1024;
  max_context_bytes = pos (16 * 2 ^ 10);
  max_context_depth = pos 8;
  max_context_keys = pos 64;
}

-- The guard that `RequestLimits.validate` and `RequestLimits.validateResponse` share.
unfoldable pub bad_limits : RequestLimits → Bool
bad_limits l =
    ltb_ℤ l.max_batch_size (pos 0)
    || leb_ℤ l.max_context_bytes (pos 0)
    || leb_ℤ l.max_context_depth (pos 0)
    || leb_ℤ l.max_context_keys (pos 0)

-- `RequestLimits.validate`
pub validate_request_limits : RequestLimits → Check
validate_request_limits l =
    refuse_if (bad_limits l) (
      configuration (text "context limits must be positive and max batch size must be nonnegative"))

pub bounded_json_limit : ℤ → ℤ
bounded_json_limit limit = if ltb_ℤ limit (pos max_int64) then suc_ℤ limit else limit

-- The loop over the context, with the greatest depth so far.
context_depth : Attrs → ℕ → ℕ
context_depth [] depth = depth
context_depth ((name, value) ∷ attrs) depth =
    context_depth attrs (if ltb depth (attr_depth value) then attr_depth value else depth)

-- `requests[i].context`
context_field : ℕ → Message
context_field i = lit "requests[" ∷ num (pos i) ∷ lit "].context" ∷ []

limit_error : Message → Message → Message → Err
limit_error field value rule = validation (record { field = field; rule = rule; value = value })

-- What becomes of the encoded context.
context_size : ℕ → ℤ → Result Bytes → Check
context_size i limit (ok encoded) = refuse_if (ltb_ℤ limit (less_one (length encoded))) (
    limit_error (context_field i) (num (less_one (length encoded)) ∷ lit " bytes" ∷ [])
      (lit "exceeds " ∷ num limit ∷ lit " bytes" ∷ []))
context_size i limit (err (request_too_large _)) =
    err (limit_error (context_field i) [] (lit "exceeds " ∷ num limit ∷ lit " bytes" ∷ []))
context_size i limit (err e) = err (wrapped (lit "encode " ∷ context_field i) e)

module _ (encode : AttrMapWire → Option Bytes) (limits : RequestLimits) where
  -- One round of the loop, for a context that is not empty.
  context_limits : ℕ → Attrs → Check
  context_limits i context = do
    refuse_if (ltb_ℤ limits.max_context_keys (pos (length context))) (
        limit_error (context_field i) (num (pos (length context)) ∷ [])
          (lit "contains more than " ∷ num limits.max_context_keys ∷ lit " keys" ∷ []))
    refuse_if (ltb_ℤ limits.max_context_depth (pos (context_depth context 0))) (
        limit_error (context_field i) (num (pos (context_depth context 0)) ∷ [])
          (lit "nesting exceeds depth " ∷ num limits.max_context_depth ∷ []))
    context_size i limits.max_context_bytes (
        encode_json_bounded encode (to_attr_map_wire context)
          (bounded_json_limit limits.max_context_bytes))

  item_limits : ℕ → Attrs → Check
  item_limits i [] = pass
  item_limits i (e ∷ context) = context_limits i (e ∷ context)

  limits_loop : ℕ → List AuthRequest → Check
  limits_loop i [] = pass
  limits_loop i (r ∷ rs) = item_limits i r.context >> limits_loop (i + 1) rs

  -- `AuthorizeRequest.validateLimits`
  pub validate_limits : List AuthRequest → Check
  validate_limits requests = do
    refuse_if (ltb_ℤ limits.max_batch_size (pos (length requests))) (
        limit_error (text "authorization batch") (num (pos (length requests)) ∷ [])
          (lit "contains more than " ∷ num limits.max_batch_size ∷ lit " requests" ∷ []))
    limits_loop 0 requests

-- The definitions of this file, for a test by evaluation.
unfoldable pub limits_run : Unit {0}
unfolding batch_runs default_request_limits bad_limits validate_request_limits bounded_json_limit
    context_depth context_field limit_error context_size context_limits item_limits limits_loop
    validate_limits
limits_run = tt

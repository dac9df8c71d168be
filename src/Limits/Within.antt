-- ===== src/Limits/Within.antt =====
-- What `validateLimits` accepts.
use treetop_client_go.Base.{
  All, Bytes, List, Option, [], arith, false, if◌then◌else◌, length, ltb, refl, some, suc, zero, ℕ,
  ◌+◌, ◌↔◌, ◌∷◌, ◌≡◌,
}
use treetop_client_go.Base.Int.{less_one, ltb_ℤ, max_int64, negsuc, pos, suc_ℤ, ℤ, ◌≤ℤ◌}
use treetop_client_go.Errors.{
  >>_iff_×, >>_iff_×₃, Err, Result, err, iff_given, iff_trans, ok, pass, refuse_if,
  request_too_large,
}
use treetop_client_go.Attr.{attr_depth}
use treetop_client_go.Attr.Depth.{attr_depth-height, height}
use treetop_client_go.Request.{Attrs}
use treetop_client_go.Wire.{AttrMapWire, to_attr_map_wire}
use treetop_client_go.Transport.Encode.{encode_json_bounded, encode_json_bounded_iff}
use treetop_client_go.Batch.{AuthRequest}
use treetop_client_go.Limits.{
  RequestLimits, bad_limits, bounded_json_limit, context_depth, context_limits, context_size,
  default_request_limits, item_limits, limits_loop, validate_limits, validate_request_limits,
}

-- Every value nests at most `limit` levels, a scalar and an empty set being one level.
abbrev pub Shallow : ℤ → Attrs → Type 0
Shallow limit = All (λ e. pos (suc (height e.1)) ≤ℤ limit)

context_depth_iff :
    (limit : ℤ) (attrs : Attrs) (d : ℕ)
    → (pos (context_depth attrs d) ≤ℤ limit) ↔ ((pos d ≤ℤ limit) × Shallow limit attrs)
unfolding context_depth
context_depth_iff limit [] d = ground arith
context_depth_iff limit ((name, value) ∷ attrs) d = ground (
  arith,
  attr_depth-height value,
  context_depth_iff limit attrs (if ltb d (attr_depth value) then attr_depth value else d),
)

refuse_over_iff : (x limit : ℤ) (e : Err) → (refuse_if (ltb_ℤ limit x) e ≡ pass) ↔ (x ≤ℤ limit)
refuse_over_iff x limit e = ground arith

bounded_json_limit-suc :
    (limit : ℤ) → suc_ℤ limit ≤ℤ pos max_int64 → bounded_json_limit limit ≡ suc_ℤ limit
unfolding bounded_json_limit
bounded_json_limit-suc (pos n) h = ground arith
bounded_json_limit-suc (negsuc zero) h = ground arith
bounded_json_limit-suc (negsuc (suc n)) h = ground arith

context_size_ok : (limit : ℤ) (n : ℕ) → pos n ≤ℤ suc_ℤ limit → ltb_ℤ limit (less_one n) ≡ false
context_size_ok (pos m) zero h = ground arith
context_size_ok (pos m) (suc n) h = ground arith
context_size_ok (negsuc zero) zero h = refl
context_size_ok (negsuc (suc m)) zero h = absurd (omega arith)
context_size_ok (negsuc zero) (suc n) h = absurd (omega arith)
context_size_ok (negsuc (suc m)) (suc n) h = absurd (omega arith)

-- The second size test never fails: the encoder's own limit has cut longer texts off.
context_size_result :
    (i : ℕ) (limit : ℤ) (r : Result Bytes)
    → ((out : Bytes) → r ≡ ok out → pos (length out) ≤ℤ suc_ℤ limit)
    → (context_size i limit r ≡ pass) ↔ ((out : Bytes) × (r ≡ ok out))
unfolding context_size
context_size_result i limit (ok out) short =
    (λ _. (out, refl), λ _. rw (context_size_ok limit (length out) (short out refl)))
context_size_result i limit (err (request_too_large l)) short = (λ h. cc, λ w. cc (w.1))
context_size_result i limit (err e) short = (λ h. cc, λ w. cc (w.1))

depth_nonneg :
    (limits : RequestLimits)
    → validate_request_limits limits ≡ pass
    → pos 0 ≤ℤ limits.max_context_depth
unfolding validate_request_limits bad_limits
depth_nonneg limits good = ground arith

module _ (encode : AttrMapWire → Option Bytes) (limits : RequestLimits) where
  -- An empty context has no limits. Any other has a bounded number of keys, of levels, and of bytes
  -- of its encoding, the line end that the encoder appends aside.
  abbrev pub ContextFits : Attrs → Type 0
  ContextFits [] = Unit
  ContextFits (e ∷ context) =
      (pos (length (e ∷ context)) ≤ℤ limits.max_context_keys)
      × Shallow limits.max_context_depth (e ∷ context)
      × ((out : Bytes) × (encode (to_attr_map_wire (e ∷ context)) ≡ some out)
          × (pos (length out) ≤ℤ suc_ℤ limits.max_context_bytes))

  module _ (bounded : suc_ℤ limits.max_context_bytes ≤ℤ pos max_int64)
      (positive : pos 0 ≤ℤ limits.max_context_depth) where
    context_size_iff :
        (i : ℕ) (context : Attrs)
        → (context_size i limits.max_context_bytes (
              encode_json_bounded encode
                (to_attr_map_wire context)
                (bounded_json_limit limits.max_context_bytes))
            ≡ pass)
          ↔ ((out : Bytes) × (encode (to_attr_map_wire context) ≡ some out)
              × (pos (length out) ≤ℤ suc_ℤ limits.max_context_bytes))
    context_size_iff i context = rw (bounded_json_limit-suc limits.max_context_bytes bounded) (
        iff_trans
          (context_size_result i limits.max_context_bytes
            (encode_json_bounded encode (to_attr_map_wire context) (suc_ℤ limits.max_context_bytes))
            (λ out h. ((encoded out).0 h).1))
          (
            λ w. let (out, h) = w in let (e, l) = (encoded out).0 h in (out, e, l),
            λ w. let (out, e, l) = w in (out, (encoded out).1 (e, l)),
          ))
      where
        encoded :
            (out : Bytes)
            → (encode_json_bounded encode
                  (to_attr_map_wire context)
                  (suc_ℤ limits.max_context_bytes)
                ≡ ok out)
              ↔ ((encode (to_attr_map_wire context) ≡ some out)
                  × (pos (length out) ≤ℤ suc_ℤ limits.max_context_bytes))
        encoded out = encode_json_bounded_iff encode (to_attr_map_wire context) _ out

    item_limits_iff :
        (i : ℕ) (context : Attrs)
        → (item_limits encode limits i context ≡ pass) ↔ ContextFits context
    unfolding item_limits context_limits
    item_limits_iff i [] = (λ _. tt, λ _. refl)
    item_limits_iff i (e ∷ context) =
        >>_iff_×₃ (refuse_over_iff (pos (length (e ∷ context))) limits.max_context_keys _)
          (iff_trans
            (refuse_over_iff (pos (context_depth (e ∷ context) 0)) limits.max_context_depth _)
            (iff_given positive (context_depth_iff limits.max_context_depth (e ∷ context) 0)))
          (context_size_iff i (e ∷ context))

    limits_loop_iff :
        (i : ℕ) (rs : List AuthRequest)
        → (limits_loop encode limits i rs ≡ pass) ↔ All (λ r. ContextFits r.context) rs
    unfolding limits_loop
    limits_loop_iff i [] = (λ _. tt, λ _. refl)
    limits_loop_iff i (r ∷ rs) = >>_iff_× (item_limits_iff i r.context) (limits_loop_iff (i + 1) rs)

-- `validateLimits` accepts a batch exactly when it has at most `MaxBatchSize` items and every context
-- that is not empty has at most `MaxContextKeys` keys, nests at most `MaxContextDepth` levels, and is
-- encoded in at most `MaxContextBytes` bytes and a line end. The limits are those that
-- `RequestLimits.validate` lets through, with `MaxContextBytes` below the greatest int64.
pub validate_limits_iff :
    (encode : AttrMapWire → Option Bytes) (limits : RequestLimits) (rs : List AuthRequest)
    → suc_ℤ limits.max_context_bytes ≤ℤ pos max_int64
    → validate_request_limits limits ≡ pass
    → (validate_limits encode limits rs ≡ pass) ↔ (
        (pos (length rs) ≤ℤ limits.max_batch_size)
        × All (λ r. ContextFits encode limits r.context) rs)
unfolding validate_limits
validate_limits_iff encode limits rs bounded good =
    >>_iff_× (refuse_over_iff (pos (length rs)) limits.max_batch_size _)
      (limits_loop_iff encode limits bounded (depth_nonneg limits good) 0 rs)

-- The default limits are accepted.
pub default_limits : validate_request_limits default_request_limits ≡ pass
unfolding validate_request_limits bad_limits default_request_limits
default_limits = refl

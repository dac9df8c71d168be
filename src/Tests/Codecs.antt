-- ===== src/Tests/Codecs.antt =====
-- Instances of the theorems on the JSON forms of what the client sends.
use treetop_client_go.Entities.{user_principal}
use treetop_client_go.Tests.{batch, named, net, sizes}
use treetop_client_go.Codec.Batches.RoundTrip.{
  IsWritableItem, batch_form, batch_from_json-IsAuthRequest, batch_from_json-batch_json,
  batch_json-batch_form, kept_item,
}
use treetop_client_go.Batch.Unique.{IsAuthRequest, IsDistinct, given_ids, validate_batch_iff}
use treetop_client_go.Batch.{batch_runs, validate_batch}
use treetop_client_go.Base.{All, Bytes, arith, codes, map, refl, some, subst, true, ◌≡◌}
use treetop_client_go.Errors.{ok, pass, ◌>>=◌}
use treetop_client_go.Text.Runes.Utf8.{utf8_runs, valid_utf8}
use treetop_client_go.Attr.{attr_runs}
use treetop_client_go.Attr.Validate.{validate_attr_iff}
use treetop_client_go.Wire.{to_authorize_request_wire}
use treetop_client_go.Codec.Attributes.{attr_from_json, attr_json}
use treetop_client_go.Codec.Attributes.RoundTrip.{IsWritable, attr_from_json-attr_json}
use treetop_client_go.Codec.Batches.{batch_from_json, batch_json}
use treetop_client_go.Codec.Wire.{batch_wire_json}
use treetop_client_go.Codec.Wire.Same.{batch_wire_json-batch_json}

batch_passes : validate_batch net (some batch) ≡ pass
unfolding batch_runs
batch_passes = refl

sizes-IsWritable : IsWritable sizes
unfolding utf8_runs
sizes-IsWritable = (ground arith, (refl, tt))

named-IsWritableItem : (id : Bytes) → valid_utf8 id ≡ true → IsWritableItem (named id)
unfolding utf8_runs user_principal
named-IsWritableItem id h = (
  ((λ e. cc), h),
  (((refl, sizes-IsWritable), tt), (tt, tt)),
  ((refl, (refl, tt)), refl, (refl, (((refl, sizes-IsWritable), tt), (tt, tt)))),
)

batch-IsWritableItem : All IsWritableItem batch
unfolding utf8_runs
batch-IsWritableItem =
    (named-IsWritableItem (codes "a") refl, (named-IsWritableItem (codes "b") refl, tt))

attr_from_json-attr_json_example : (attr_json net sizes >>= attr_from_json net) ≡ ok sizes
unfolding attr_runs
attr_from_json-attr_json_example =
    attr_from_json-attr_json net sizes ((validate_attr_iff net sizes).0 refl) sizes-IsWritable

batch_from_json-batch_json_example :
    (batch_json net batch >>= batch_from_json net) ≡ ok (map kept_item batch)
batch_from_json-batch_json_example =
    batch_from_json-batch_json net batch batch_passes batch-IsWritableItem

batch_wire_json-batch_json_example :
    batch_wire_json net (to_authorize_request_wire batch) ≡ batch_json net batch
batch_wire_json-batch_json_example = batch_wire_json-batch_json net batch batch_passes

-- The written batch is decoded.
decoded_again : batch_from_json net (batch_form batch) ≡ ok (map kept_item batch)
decoded_again =
    subst (λ r. (r >>= batch_from_json net) ≡ ok (map kept_item batch))
      (batch_json-batch_form net batch ((validate_batch_iff net batch).0 batch_passes).0)
      (batch_from_json-batch_json net batch batch_passes batch-IsWritableItem)

batch_from_json-IsAuthRequest_example :
    All (IsAuthRequest net) (map kept_item batch) × IsDistinct (given_ids (map kept_item batch))
batch_from_json-IsAuthRequest_example =
    batch_from_json-IsAuthRequest net (batch_form batch) (map kept_item batch) decoded_again

-- ===== src/Attr/Size.antt =====
-- The number of values in an attribute value.
use treetop_client_go.Base.{arith, ◌<◌}
use treetop_client_go.Attr.{AttrValue, attr, attr_set, size}

pub size-pos : (v : AttrValue) → 0 < size v
unfolding size
size-pos (attr kind x) = omega arith
size-pos (attr_set kind vs) = omega arith

-- ===== src/Attr/Depth.antt =====
-- The worklist of `attrDepth` against the recursive depth.
use Prim.Native.Nat.{max}
use treetop_client_go.Base.{
  List, [], arith, if◌then◌else◌, ltb, suc, zero, ℕ, ◌+◌, ◌<◌, ◌∷◌, ◌≡◌, ◌≤◌,
}
use treetop_client_go.Attr.Size.{size-pos}
use treetop_client_go.Attr.{
  AttrValue, AttrValues, attr, attr_depth, attr_set, depth_loop, empty, item, push_deeper,
  push_members, set_type, size, size_all,
}

-- The levels of sets below a value.
mutual
  pub height : AttrValue → ℕ
  height (attr kind x) = 0
  height (attr_set set_type vs) = heights vs
  height (attr_set kind vs) = 0

  -- One more than the greatest height of a member; 0 for the empty set.
  pub heights : AttrValues → ℕ
  heights empty = 0
  heights (item v vs) = max (suc (height v)) (heights vs)

abbrev Entry : Type 0
Entry = AttrValue × ℕ

abbrev stack_size : List Entry → ℕ
stack_size [] = 0
stack_size ((v, d) ∷ st) = size v + stack_size st

-- The greatest depth that the values of a stack reach.
abbrev reach : List Entry → ℕ
reach [] = 0
reach ((v, d) ∷ st) = max (d + height v) (reach st)

stack_size-push_deeper :
    (vs : AttrValues) (d : ℕ) (st : List Entry)
    → stack_size (push_deeper vs d st) ≡ size_all vs + stack_size st
unfolding push_deeper size
stack_size-push_deeper empty d st = omega arith
stack_size-push_deeper (item v vs) d st = omega (arith, stack_size-push_deeper vs d ((v, d) ∷ st))

reach-push_deeper :
    (vs : AttrValues) (d : ℕ) (st : List Entry)
    → max d (reach (push_deeper vs (d + 1) st)) ≡ max (d + heights vs) (reach st)
unfolding push_deeper height
reach-push_deeper empty d st = omega arith
reach-push_deeper (item v vs) d st = omega (arith, reach-push_deeper vs d ((v, d + 1) ∷ st))

reach-push_members :
    (v : AttrValue) (d : ℕ) (st : List Entry)
    → max d (reach (push_members v d st)) ≡ max (d + height v) (reach st)
unfolding push_members height
reach-push_members (attr_set set_type vs) d st = reach-push_deeper vs d st
reach-push_members (attr kind x) d st = omega arith
reach-push_members _ d st = omega arith

stack_size-push_members :
    (v : AttrValue) (d : ℕ) (st : List Entry)
    → stack_size (push_members v d st) < size v + stack_size st
unfolding push_members size
stack_size-push_members (attr_set set_type vs) d st =
    omega (arith, stack_size-push_deeper vs (d + 1) st)
stack_size-push_members (attr kind x) d st = omega arith
stack_size-push_members _ d st = omega arith

-- With a round for each value on the stack, the loop ends with the greatest depth.
depth_loop-reach :
    (fuel : ℕ) (st : List Entry) (m : ℕ)
    → stack_size st ≤ fuel
    → depth_loop fuel st m ≡ max m (reach st)
unfolding depth_loop
depth_loop-reach zero [] m h = omega arith
depth_loop-reach (suc fuel) [] m h = omega arith
depth_loop-reach zero ((v, d) ∷ st) m h = absurd (omega (arith, size-pos v))
depth_loop-reach (suc fuel) ((v, d) ∷ st) m h = ground (
  arith,
  stack_size-push_members v d st,
  reach-push_members v d st,
  depth_loop-reach fuel (push_members v d st) (if ltb m d then d else m),
)

-- `attrDepth` computes one more than the height of its argument: its worklist visits every member of
-- every nested set.
pub attr_depth-height : (v : AttrValue) → attr_depth v ≡ suc (height v)
unfolding attr_depth
attr_depth-height v = omega (arith, depth_loop-reach (size v) ((v, 1) ∷ []) 0 (omega arith))

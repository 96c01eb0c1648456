-- ===== src/Bptree/Validate.antt =====
-- `validate_node` and `bptree_validate` of src/bptree.c, each check in the order of the source.
use bptree_sql_engine.Prelude.{
  ℕ, zero, suc, ◌+◌, Bool, true, ◌&&◌, Option, none, some, List, [], ◌∷◌, ltb, leb, ◌==◌,
  if◌then◌else◌, length, Result, ok, err, ◌>>=◌, ◌>>◌, guard,
}
use bptree_sql_engine.Bptree.Node.{
  Items, Node, leaf, internal, Children, last, more, Tree, count, keys, items, max_keys,
}
use bptree_sql_engine.Bptree.Insert.{
  TreeError, nonzero_count_of_empty, key_count_overflow, keys_not_increasing, leaf_key_out_of_range,
  leaf_depth_mismatch, invalid_child_range, chain_not_sorted, key_count_mismatch,
}

-- `has_lower`, `lower_bound` and `has_upper`, `upper_bound`
abbrev pub Bound : Type 0
Bound = Option ℕ

-- `!(has_lower && key < lower_bound)`
abbrev pub above : Bound → ℕ → Bool
above none key = true
above (some lower) key = leb lower key

-- `!(has_upper && key >= upper_bound)`
abbrev pub below : Bound → ℕ → Bool
below none key = true
below (some upper) key = ltb key upper

-- `!(child_has_lower && child_has_upper && child_lower >= child_upper)`
abbrev pub is_range : Bound → Bound → Bool
is_range none upper = true
is_range (some lower) none = true
is_range (some lower) (some upper) = ltb lower upper

-- Each key is greater than the one before it.
unfoldable pub increasing_from : ℕ → List ℕ → Bool
increasing_from previous [] = true
increasing_from previous (k ∷ ks) = ltb previous k && increasing_from k ks

unfoldable pub increasing : List ℕ → Bool
unfolding increasing_from
increasing [] = true
increasing (k ∷ ks) = increasing_from k ks

abbrev pub leaf_keys : Items → List ℕ
leaf_keys [] = []
leaf_keys ((k, _) ∷ xs) = k ∷ leaf_keys xs

unfoldable pub all_in_range : Bound → Bound → List ℕ → Bool
all_in_range lower upper [] = true
all_in_range lower upper (k ∷ ks) = (above lower k && below upper k) && all_in_range lower upper ks

-- `ValidationState`: the depth of the first leaf, once one is seen.
unfoldable pub check_depth : Option ℕ → ℕ → Result TreeError (Option ℕ)
check_depth none depth = ok (some depth)
check_depth (some expected) depth =
    if expected == depth then ok (some expected) else err leaf_depth_mismatch

unfoldable mutual
  pub validate_node : Node → Bound → Bound → ℕ → Option ℕ → Result TreeError (Option ℕ)
  validate_node (leaf xs) lower upper depth state = do
    guard (leb (length xs) max_keys) key_count_overflow
    guard (increasing (leaf_keys xs)) keys_not_increasing
    guard (all_in_range lower upper (leaf_keys xs)) leaf_key_out_of_range
    check_depth state depth
  validate_node (internal s) lower upper depth state = do
    guard (leb (count s) max_keys) key_count_overflow
    guard (increasing (keys s)) keys_not_increasing
    validate_children s lower upper (suc depth) state

  pub validate_children : Children → Bound → Bound → ℕ → Option ℕ → Result TreeError (Option ℕ)
  validate_children (last c) lower upper depth state = do
    guard (is_range lower upper) invalid_child_range
    validate_node c lower upper depth state
  validate_children (more c k s) lower upper depth state = do
    guard (is_range lower (some k)) invalid_child_range
    state' ← validate_node c lower (some k) depth state
    validate_children s (some k) upper depth state'

-- The loop over the leaf chain: the keys increase, and their number is returned.
unfoldable pub walk_chain : Option ℕ → List ℕ → ℕ → Result TreeError ℕ
walk_chain previous [] counted = ok counted
walk_chain none (k ∷ ks) counted = walk_chain (some k) ks (counted + 1)
walk_chain (some p) (k ∷ ks) counted =
    let rest = walk_chain (some k) ks (counted + 1) in
    if leb k p then err chain_not_sorted else rest

validate_root : Option Node → ℕ → Result TreeError (Unit {0})
validate_root none key_count = guard (key_count == 0) nonzero_count_of_empty
validate_root (some root) key_count = do
  _ ← validate_node root none none zero none
  counted ← walk_chain none (leaf_keys (items root)) 0
  guard (counted == key_count) key_count_mismatch

unfoldable pub bptree_validate : Tree → Result TreeError (Unit {0})
unfolding validate_root
bptree_validate tree = validate_root tree.root tree.key_count

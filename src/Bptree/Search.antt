-- ===== src/Bptree/Search.antt =====
-- `find_leaf_node`, `find_leftmost_leaf` and `bptree_search` of src/bptree.c.
use bptree_sql_engine.Prelude.{
  ℕ, zero, suc, ◌≡◌, true, false, Option, none, some, [], ◌∷◌, leb, ◌==◌, if◌then◌else◌,
}
use bptree_sql_engine.Bptree.Node.{Items, Node, leaf, internal, Children, last, more, Tree}

-- The inner loop of `find_leaf_node`: how many of the leading keys are at most `key`.
unfoldable pub child_index : Children → ℕ → ℕ
child_index (last c) key = zero
child_index (more c k s) key = elim (leb k key) [ true ↦ suc (child_index s key) | false ↦ zero ]

pub child_index_later :
    (c : Node) (k : ℕ) (s : Children) (key : ℕ)
    → leb k key ≡ true
    → child_index (more c k s) key ≡ suc (child_index s key)
unfolding child_index
child_index_later c k s key e = rw (e, child_index)

pub child_index_here :
    (c : Node) (k : ℕ) (s : Children) (key : ℕ)
    → leb k key ≡ false
    → child_index (more c k s) key ≡ zero
unfolding child_index
child_index_here c k s key e = rw (e, child_index)

-- The walk from a node down to the leaf for `key`; the inner loop stops at the child that is taken.
unfoldable mutual
  pub find_leaf_node : Node → ℕ → Items
  find_leaf_node (leaf xs) key = xs
  find_leaf_node (internal s) key = find_in_children s key

  pub find_in_children : Children → ℕ → Items
  find_in_children (last c) key = find_leaf_node c key
  find_in_children (more c k s) key = elim (leb k key) [
    | true ↦ find_in_children s key
    | false ↦ find_leaf_node c key
  ]

-- The linear scan of a leaf: the first entry with the key.
unfoldable pub scan_leaf : Items → ℕ → Option ℕ
scan_leaf [] key = none
scan_leaf ((k, offset) ∷ xs) key = if k == key then some offset else scan_leaf xs key

search_root : Option Node → ℕ → Option ℕ
search_root none key = none
search_root (some root) key = scan_leaf (find_leaf_node root key) key

-- `some offset` is `out_found = 1` with `out_offset`, `none` is `out_found = 0`.
unfoldable pub bptree_search : Tree → ℕ → Option ℕ
unfolding search_root
bptree_search tree key = search_root tree.root key

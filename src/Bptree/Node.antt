-- ===== src/Bptree/Node.antt =====
-- The nodes of the B+Tree: `BPTreeNode` and `BPTree` of include/bptree.h.
use bptree_sql_engine.Prelude.{ℕ, suc, Option, List, [], ◌∷◌, ◌++◌}

-- `BPTREE_ORDER`, `BPTREE_MAX_KEYS`
abbrev pub order : ℕ
order = 64

abbrev pub max_keys : ℕ
max_keys = 63

-- `keys[i]` with `row_offsets[i]`, for `i < key_count`
abbrev pub Item : Type 0
Item = ℕ × ℕ

abbrev pub Items : Type 0
Items = List Item

-- A node is a leaf with its items, or an internal node with its children. `Children` lists
-- `children[0] keys[0] children[1] … keys[key_count - 1] children[key_count]`.
mutual
  pub data Node : Type 0 where
    leaf : Items → Node
    internal : Children → Node

  pub data Children : Type 0 where
    last : Node → Children
    more : Node → ℕ → Children → Children

pub record Tree : Type 0 where
  pub root : Option Node
  pub key_count : ℕ

-- `key_count` of an internal node
abbrev pub count : Children → ℕ
count (last c) = 0
count (more c k s) = suc (count s)

-- `keys` of an internal node
abbrev pub keys : Children → List ℕ
keys (last c) = []
keys (more c k s) = k ∷ keys s

-- All items of a subtree in the order of the leaf chain.
abbrev mutual
  pub items : Node → Items
  items (leaf xs) = xs
  items (internal s) = items_of s

  pub items_of : Children → Items
  items_of (last c) = items c
  items_of (more c k s) = items c ++ items_of s

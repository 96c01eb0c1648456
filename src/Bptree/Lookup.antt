-- ===== src/Bptree/Lookup.antt =====
-- The search against a scan of the whole leaf chain.
use bptree_sql_engine.Prelude.{ℕ, suc, ◌≡◌, refl, some, arith}
use bptree_sql_engine.Bptree.Node.{Node, leaf, internal, Children, last, more, items, items_of}
use bptree_sql_engine.Bptree.Search.{find_leaf_node, find_in_children, scan_leaf}
use bptree_sql_engine.Bptree.Validate.{Bound}
use bptree_sql_engine.Bptree.Invariant.{IsRange, IsSorted, IsNode, AreChildren}
use bptree_sql_engine.Bptree.Sorted.{IsRange-trans, append-IsSorted}
use bptree_sql_engine.Bptree.Leaf.{scan_leaf-append_left, scan_leaf-append_right}

pub AreChildren-IsRange :
    (s : Children) (lower upper : Bound) (depth bottom : ℕ)
    → AreChildren lower upper depth bottom s
    → IsRange lower upper
AreChildren-IsRange (last c) lower upper depth bottom h = h.0
AreChildren-IsRange (more c k s) lower upper depth bottom h =
    IsRange-trans lower upper k h.0 (AreChildren-IsRange s (some k) upper depth bottom h.2)

mutual
  -- The leaf chain of a well-formed tree is sorted.
  pub items-IsSorted :
      (n : Node) (lower upper : Bound) (depth bottom : ℕ)
      → IsNode lower upper depth bottom n
      → IsSorted lower upper (items n)
  items-IsSorted (leaf xs) lower upper depth bottom h = h.2
  items-IsSorted (internal s) lower upper depth bottom h =
      items_of-IsSorted s lower upper (suc depth) bottom h.1

  pub items_of-IsSorted :
      (s : Children) (lower upper : Bound) (depth bottom : ℕ)
      → AreChildren lower upper depth bottom s
      → IsSorted lower upper (items_of s)
  items_of-IsSorted (last c) lower upper depth bottom h =
      items-IsSorted c lower upper depth bottom h.1
  items_of-IsSorted (more c k s) lower upper depth bottom h =
      append-IsSorted k upper (items c) (items_of s) lower
        (items-IsSorted c lower (some k) depth bottom h.1)
        (items_of-IsSorted s (some k) upper depth bottom h.2) (ground arith)
        (AreChildren-IsRange s (some k) upper depth bottom h.2)

-- The linear scan of the leaf that the search walks to finds what a scan of the whole chain finds.
module _ (key bottom : ℕ) where
  mutual
    unfolding find_leaf_node

    pub scan_leaf-find_leaf_node :
        (n : Node) (lower upper : Bound) (depth : ℕ)
        → IsNode lower upper depth bottom n
        → scan_leaf (find_leaf_node n key) key ≡ scan_leaf (items n) key
    scan_leaf-find_leaf_node (leaf xs) lower upper depth h = refl
    scan_leaf-find_leaf_node (internal s) lower upper depth h =
        scan_leaf-find_in_children s lower upper (suc depth) h.1

    scan_leaf-find_in_children :
        (s : Children) (lower upper : Bound) (depth : ℕ)
        → AreChildren lower upper depth bottom s
        → scan_leaf (find_in_children s key) key ≡ scan_leaf (items_of s) key
    scan_leaf-find_in_children (last c) lower upper depth h =
        scan_leaf-find_leaf_node c lower upper depth h.1
    scan_leaf-find_in_children (more c k s) lower upper depth h = ground (
      arith,
      scan_leaf-find_in_children s (some k) upper depth h.2,
      scan_leaf-find_leaf_node c lower (some k) depth h.1,
      scan_leaf-append_left k key 0 (items c) (items_of s) lower
          (items-IsSorted c lower (some k) depth bottom h.1),
      scan_leaf-append_right k key (items c) (items_of s) upper
          (items_of-IsSorted s (some k) upper depth bottom h.2),
    )

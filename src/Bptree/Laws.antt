-- ===== src/Bptree/Laws.antt =====
-- What `bptree_insert` and `bptree_search` promise to their callers.
use bptree_sql_engine.Prelude.{
  ℕ, suc, ◌≡◌, ◌≢◌, refl, ap, ◌∙◌, subst, true, false, Option, none, some, [], arith, ◌==◌,
  if◌then◌else◌, length, Result, ok, err,
}
use bptree_sql_engine.Bptree.Node.{Items, Node, leaf, internal, Children, last, more, Tree, items}
use bptree_sql_engine.Bptree.Search.{scan_leaf, bptree_search}
use bptree_sql_engine.Bptree.Insert.{
  Outcome, grown, split, duplicate, TreeError, duplicate_key, insert_node, replace_root,
  bptree_insert,
}
use bptree_sql_engine.Bptree.Invariant.{IsRoot, IsTree, IsNode, AreChildren}
use bptree_sql_engine.Bptree.Validate.{Bound}
use bptree_sql_engine.Bptree.Sorted.{put, has_key, length-put}
use bptree_sql_engine.Bptree.Leaf.{has_key-scan_leaf, scan_leaf-put}
use bptree_sql_engine.Bptree.Outcome.{IsOutcome}
use bptree_sql_engine.Bptree.Shape.{insert_node-IsOutcome}
use bptree_sql_engine.Bptree.Content.{Stores, insert_node-Stores}
use bptree_sql_engine.Bptree.Lookup.{scan_leaf-find_leaf_node}

abbrev root_entries : Option Node → Items
root_entries none = []
root_entries (some root) = items root

-- The entries of a tree in the order of the leaf chain.
abbrev pub entries : Tree → Items
entries tree = root_entries tree.root

mutual
  IsNode-suc :
      (n : Node) (lower upper : Bound) (depth bottom : ℕ)
      → IsNode lower upper depth bottom n
      → IsNode lower upper (suc depth) (suc bottom) n
  IsNode-suc (leaf xs) lower upper depth bottom h = (ap suc h.0, h.1, h.2)
  IsNode-suc (internal s) lower upper depth bottom h =
      (h.0, AreChildren-suc s lower upper (suc depth) bottom h.1)

  AreChildren-suc :
      (s : Children) (lower upper : Bound) (depth bottom : ℕ)
      → AreChildren lower upper depth bottom s
      → AreChildren lower upper (suc depth) (suc bottom) s
  AreChildren-suc (last c) lower upper depth bottom h =
      (h.0, IsNode-suc c lower upper depth bottom h.1)
  AreChildren-suc (more c k s) lower upper depth bottom h = (
    h.0,
    IsNode-suc c lower (some k) depth bottom h.1,
    AreChildren-suc s (some k) upper depth bottom h.2,
  )

-- What a call of `bptree_insert` does: with a key that the tree has it fails, and with another it
-- returns a well-formed tree with the entry put in its place.
abbrev pub Inserts : ℕ → ℕ → Items → Result TreeError Tree → Type 0
Inserts key offset xs (ok tree) =
    (has_key key xs ≡ false) × (entries tree ≡ put key offset xs) × IsTree tree
Inserts key offset xs (err e) = (has_key key xs ≡ true) × (e ≡ duplicate_key key)

replace_root-Inserts :
    (tree : Tree) (key offset bottom : ℕ) (xs : Items) (o : Outcome)
    → length xs ≡ tree.key_count
    → IsOutcome none none 0 bottom o
    → Stores key offset xs o
    → Inserts key offset xs (replace_root tree key o)
unfolding replace_root
replace_root-Inserts tree key offset bottom xs (grown n) e h st =
    (st.0, st.1, (bottom, h, ap length st.1 ∙ omega (arith, length-put xs key offset)))
replace_root-Inserts tree key offset bottom xs (split l k r) e h st = (
  st.0,
  st.1,
  (
    suc bottom,
    (
      omega arith,
      (tt, IsNode-suc l none (some k) 0 bottom h.1, (tt, IsNode-suc r (some k) none 0 bottom h.3)),
    ),
    ap length st.1 ∙ omega (arith, length-put xs key offset),
  ),
)
replace_root-Inserts tree key offset bottom xs duplicate e h st = (st, refl)

insert_at_root-Inserts :
    (root : Option Node) (n key offset : ℕ)
    → IsRoot root n
    → Inserts key offset
        (root_entries root)
        (bptree_insert (record { root = root; key_count = n }) key offset)
unfolding bptree_insert put has_key
insert_at_root-Inserts none n key offset h =
    (refl, refl, (0, (refl, omega arith, (tt, tt, tt)), refl))
insert_at_root-Inserts (some root) n key offset (bottom, shape, counted) =
    replace_root-Inserts (record { root = some root; key_count = n }) key offset bottom (items root)
      (insert_node root key offset) counted
      (insert_node-IsOutcome key offset bottom root none none 0 shape tt tt)
      (insert_node-Stores key offset bottom root none none 0 shape)

pub insert-Inserts :
    (tree : Tree) (key offset : ℕ)
    → IsTree tree
    → Inserts key offset (entries tree) (bptree_insert tree key offset)
insert-Inserts tree key offset h = insert_at_root-Inserts tree.root tree.key_count key offset h

-- Insertion into a well-formed tree returns a well-formed tree: no node has more than 63 keys, all
-- leaves have one depth, the separators bound their subtrees, the chain of leaves is strictly
-- sorted, and `key_count` is the number of keys.
pub insert-IsTree :
    (tree tree' : Tree) (key offset : ℕ)
    → IsTree tree
    → bptree_insert tree key offset ≡ ok tree'
    → IsTree tree'
insert-IsTree tree tree' key offset h e =
    (subst (Inserts key offset (entries tree)) e (insert-Inserts tree key offset h)).2

-- The entries of the new tree are the old ones in their order with the new entry before the first
-- entry whose key is greater.
pub entries-insert :
    (tree tree' : Tree) (key offset : ℕ)
    → IsTree tree
    → bptree_insert tree key offset ≡ ok tree'
    → entries tree' ≡ put key offset (entries tree)
entries-insert tree tree' key offset h e =
    (subst (Inserts key offset (entries tree)) e (insert-Inserts tree key offset h)).1

search_root-scan :
    (root : Option Node) (n key : ℕ)
    → IsRoot root n
    → bptree_search (record { root = root; key_count = n }) key ≡ scan_leaf (root_entries root) key
unfolding bptree_search scan_leaf
search_root-scan none n key h = refl
search_root-scan (some root) n key (bottom, shape, counted) =
    scan_leaf-find_leaf_node key bottom root none none 0 shape

-- In a well-formed tree the search, which reads one leaf, returns what a linear scan of the entries
-- of all leaves returns.
pub search-scan :
    (tree : Tree) (key : ℕ) → IsTree tree → bptree_search tree key ≡ scan_leaf (entries tree) key
search-scan tree key h = search_root-scan tree.root tree.key_count key h

Inserts-result :
    (key offset : ℕ) (xs : Items) (r : Result TreeError Tree)
    → Inserts key offset xs r
    → (scan_leaf xs key ≡ none → (tree : Tree) × (r ≡ ok tree))
      × (scan_leaf xs key ≢ none → r ≡ err (duplicate_key key))
Inserts-result key offset xs (ok t) h =
    (λ _. (t, refl), λ n. absurd (n ((has_key-scan_leaf xs key).0 h.0)))
Inserts-result key offset xs (err e) h =
    (λ n. absurd (cc ((has_key-scan_leaf xs key).1 n, h.0)), λ _. ap err h.1)

-- Insertion into a well-formed tree succeeds if the search does not find the key.
pub insert_fresh :
    (tree : Tree) (key offset : ℕ)
    → IsTree tree
    → bptree_search tree key ≡ none
    → (tree' : Tree) × (bptree_insert tree key offset ≡ ok tree')
insert_fresh tree key offset h e =
    (Inserts-result key offset (entries tree) _ (insert-Inserts tree key offset h)).0
      (rw (search-scan tree key h) at e)

-- Insertion into a well-formed tree of a key that the search finds fails with the error that names
-- this key as a duplicate.
pub insert_duplicate :
    (tree : Tree) (key offset found : ℕ)
    → IsTree tree
    → bptree_search tree key ≡ some found
    → bptree_insert tree key offset ≡ err (duplicate_key key)
insert_duplicate tree key offset found h e =
    (Inserts-result key offset (entries tree) _ (insert-Inserts tree key offset h)).1
      (λ n. cc (search-scan tree key h, n, e))

-- After a successful insertion into a well-formed tree the search finds the new offset under the
-- new key, and under any other key what it found before.
pub search-insert :
    (tree tree' : Tree) (key offset j : ℕ)
    → IsTree tree
    → bptree_insert tree key offset ≡ ok tree'
    → bptree_search tree' j ≡ (if key == j then some offset else bptree_search tree j)
search-insert tree tree' key offset j h e =
    let after = subst (Inserts key offset (entries tree)) e (insert-Inserts tree key offset h) in
    rw (search-scan tree' j after.2, after.1, search-scan tree j h)
      (scan_leaf-put (entries tree) key offset j after.0)

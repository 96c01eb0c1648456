-- ===== src/Bptree/Filled.antt =====
-- Insertion keeps the nodes below the root at least half full.

use bptree_sql_engine.Prelude.{
  ℕ, ◌≤◌, ◌≡◌, refl, Option, none, some, arith, ltb, length, length-insert_at, Bool-cases, inl, inr,
  ◌≢◌, subst, Result, ok, err,
}
use bptree_sql_engine.Bptree.Node.{Items, Node, leaf, internal, Children, Tree, count, max_keys}
use bptree_sql_engine.Bptree.Search.{child_index}
use bptree_sql_engine.Bptree.Insert.{
  Outcome, grown, split, duplicate, key_at_is, insert_index, insert_into_leaf,
  split_leaf_and_insert, split_internal_and_insert, insert_into_parent, insert_node, replace_root,
  bptree_insert, TreeError,
}
use bptree_sql_engine.Bptree.Shape.{count-insert_into_internal_node, count-set_child}
use bptree_sql_engine.Bptree.HalfFull.{
  insert_into_child-FilledOutcome, IsFilled, AreFilled, FilledOutcome, FilledAt, FilledAt-outcome,
  split_leaf-FilledOutcome, split_internal-FilledOutcome,
}

-- The root may hold fewer keys, but not none.
abbrev IsFilledRoot : Option Node → Type 0
IsFilledRoot none = Unit
IsFilledRoot (some (leaf xs)) = 1 ≤ length xs
IsFilledRoot (some (internal s)) = (1 ≤ count s) × AreFilled s

abbrev pub IsFilledTree : Tree → Type 0
IsFilledTree tree = IsFilledRoot tree.root

abbrev FilledResult : Result TreeError Tree → Type 0
FilledResult (ok tree) = IsFilledTree tree
FilledResult (err e) = Unit

-- What becomes of the root.
abbrev FilledRootOutcome : Outcome → Type 0
FilledRootOutcome (grown n) = IsFilledRoot (some n)
FilledRootOutcome (split l k r) = IsFilled l × IsFilled r
FilledRootOutcome duplicate = Unit

replace_root-Filled :
    (tree : Tree) (key : ℕ) (o : Outcome)
    → FilledRootOutcome o
    → FilledResult (replace_root tree key o)
unfolding replace_root
replace_root-Filled tree key (grown n) f = f
replace_root-Filled tree key (split l k r) f = (omega arith, (f.0, f.1))
replace_root-Filled tree key duplicate f = tt

root_parent-Filled :
    (s : Children) (i : ℕ) (o : Outcome)
    → 1 ≤ count s
    → FilledAt s i o
    → FilledRootOutcome (insert_into_parent s i o)
unfolding insert_into_parent split_internal_and_insert
root_parent-Filled s i (grown d) h f = (omega (arith, count-set_child s i d), f)
root_parent-Filled s i (split l k r) h f = elim (Bool-cases (ltb (count s) max_keys)) [
  | inl e ↦ rw e (omega (arith, count-insert_into_internal_node s i l k r), f)
  | inr e ↦ rw e (split_internal-FilledOutcome s i l k r (ground arith) f)
]
root_parent-Filled s i duplicate h f = tt

root_leaf-Filled :
    (xs : Items) (key offset : ℕ) → FilledRootOutcome (insert_into_leaf xs key offset)
unfolding insert_into_leaf
root_leaf-Filled xs key offset = elim (Bool-cases (key_at_is xs (insert_index xs key) key)) [
  | inl e ↦ rw e tt
  | inr e ↦ rw e (omega (arith, length-insert_at (insert_index xs key) (key, offset) xs))
]

root_split-Filled :
    (o : Outcome) → FilledOutcome o → ((n : Node) → o ≢ grown n) → FilledRootOutcome o
root_split-Filled (grown n) f h = absurd (h n refl)
root_split-Filled (split l k r) f h = f
root_split-Filled duplicate f h = tt

split_leaf-ne-grown :
    (xs : Items) (key offset : ℕ) (n : Node) → split_leaf_and_insert xs key offset ≢ grown n
unfolding split_leaf_and_insert
split_leaf-ne-grown xs key offset n = ground arith

root_node-Filled :
    (root : Node) (key offset : ℕ)
    → IsFilledRoot (some root)
    → FilledRootOutcome (insert_node root key offset)
unfolding insert_node
root_node-Filled (leaf xs) key offset f = elim (Bool-cases (ltb (length xs) max_keys)) [
  | inl e ↦ rw e (root_leaf-Filled xs key offset)
  | inr e ↦ rw e (
      root_split-Filled (split_leaf_and_insert xs key offset)
        (split_leaf-FilledOutcome xs key offset (ground arith)) (split_leaf-ne-grown xs key offset))
]
root_node-Filled (internal s) key offset f = root_parent-Filled s (child_index s key) _ f.0 (
    FilledAt-outcome s (child_index s key) _ f.1 (insert_into_child-FilledOutcome key offset s f.1))

root-Filled :
    (root : Option Node) (n key offset : ℕ)
    → IsFilledRoot root
    → FilledResult (bptree_insert (record { root = root; key_count = n }) key offset)
unfolding bptree_insert
root-Filled none n key offset f = omega arith
root-Filled (some root) n key offset f =
    replace_root-Filled (record { root = some root; key_count = n }) key
      (insert_node root key offset) (root_node-Filled root key offset f)

-- Insertion keeps the nodes below the root half full: a leaf has at least 32 keys and an internal
-- node at least 31, and the root of a tree is not empty.
pub insert-IsFilledTree :
    (tree tree' : Tree) (key offset : ℕ)
    → IsFilledTree tree
    → bptree_insert tree key offset ≡ ok tree'
    → IsFilledTree tree'
insert-IsFilledTree tree tree' key offset f e =
    subst FilledResult e (root-Filled tree.root tree.key_count key offset f)
